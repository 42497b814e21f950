-- ===== src/VirtSound/Tests.antt =====
-- The theorems of the sound driver at inputs.
use tcb.Base.{ℕ, ◌-◌, ◌^◌, ◌≡◌, ◌≢◌, refl, true, none, some, List, [], ◌∷◌, ok, arith}
use tcb.VirtSound.Ops.{
  CoreCall, set_hwparams, constraint_integer, malloc_pages, free_pages, preallocate_pages,
  preallocate_free, pcm_hardware, pcm_open, pcm_hw_params, pcm_hw_free, pcm_new, pcm_free,
  dai_startup, dai_shutdown, dai_set_fmt, dai_hw_params, Op, on_new, on_open, on_hw_params,
  on_hw_free, on_free, on_startup, on_shutdown, on_set_fmt, on_dai_hw_params, on_trigger, perform,
  performs,
}
use tcb.VirtSound.Ops.Laws.{Represents, playing, played, performs-Represents}
use tcb.VirtSound.Probe.{
  Kernel, Settled, HasAsked, unregistered, probe, remove, probe-Settled, probe_negative_irq,
}
use tcb.VirtSound.Stream.{
  Runtime, Master, start, stop, other, IsStarted, triggers, interrupt, pointer, triggers-IsStarted,
}

-- `platform_get_irq` answers -22, and the sound system refuses the component.
abbrev failing : Kernel
failing = record {
  resource = true;
  irq = 4294967274;
  kzalloc = true;
  ioremap = true;
  request_irq = 0;
  register_platform = 0;
  register_component = 4294967284;
}

probe-Settled_example :
    Settled (probe failing unregistered)
    × (remove (record { platform = true; component = true }) ≡ ok unregistered)
probe-Settled_example = probe-Settled failing

negative_irq : HasAsked 4294967274 (probe failing unregistered)
negative_irq = probe_negative_irq failing (omega arith) refl refl refl

abbrev runtime : Runtime
runtime = record { dma_phys = 4096; periods = 4; period_size = 1024; rate = 22050; channels = 2 }

-- Two substreams, from the new device to its end.
abbrev session : List Op
session =
    on_new
    ∷ on_open
    ∷ on_startup
    ∷ on_set_fmt 0
    ∷ on_dai_hw_params 65536
    ∷ on_hw_params 65536
    ∷ on_trigger 1 runtime start
    ∷ on_trigger 1 runtime stop
    ∷ on_trigger 2 (record runtime { rate = 44100 }) start
    ∷ on_trigger 2 runtime (other 3)
    ∷ on_hw_free
    ∷ on_shutdown
    ∷ on_free
    ∷ []

-- The core has memory for all but the pages of 64 KiB.
abbrev short_of_memory : CoreCall → ℕ
short_of_memory (malloc_pages bytes) = 2 ^ 32 - 12
short_of_memory (set_hwparams hardware) = 0
short_of_memory constraint_integer = 0
short_of_memory free_pages = 0
short_of_memory (preallocate_pages size max) = 0
short_of_memory preallocate_free = 0

abbrev fresh : Master
fresh = record { registers = λ r. 7; substream = none }

session-IsStarted :
    let m' = triggers runtime ((1, start) ∷ (1, stop) ∷ (2, other 3) ∷ []) fresh in
    IsStarted runtime m' × ((interrupt m').1 ≢ none) × (pointer m' ≡ pointer fresh)
session-IsStarted = triggers-IsStarted 1 runtime ((1, stop) ∷ (2, other 3) ∷ []) fresh

interrupt_before_start : interrupt fresh ≡ (7, none)
unfolding interrupt
interrupt_before_start = refl

performs-Represents_example :
    let m' = (performs short_of_memory session fresh).0 in
    Represents (playing session none) m' × (pointer m' ≡ pointer fresh)
performs-Represents_example = performs-Represents short_of_memory session none fresh refl

session-playing :
    playing session none
    ≡ some (record { owner = 2; runtime = record runtime { rate = 44100 }; is_playing = true })
unfolding playing played
session-playing = refl

session_results :
    (performs short_of_memory session fresh).1
    ≡ (preallocate_pages 65536 65536 ∷ [], some 0)
      ∷ (set_hwparams pcm_hardware ∷ constraint_integer ∷ [], some 0)
      ∷ ([], some 0)
      ∷ ([], some 0)
      ∷ ([], some 0)
      ∷ (malloc_pages 65536 ∷ [], some 4294967284)
      ∷ ([], some 0)
      ∷ ([], some 0)
      ∷ ([], some 0)
      ∷ ([], some 0)
      ∷ (free_pages ∷ [], some 0)
      ∷ ([], none)
      ∷ (preallocate_free ∷ [], none)
      ∷ []
unfolding performs perform pcm_open pcm_hw_params pcm_hw_free pcm_new pcm_free dai_startup
    dai_shutdown dai_set_fmt dai_hw_params
session_results = refl
