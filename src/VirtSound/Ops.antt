-- ===== src/VirtSound/Ops.antt =====
-- The operations that the driver gives to the sound core: `virt_pcm_ops`, `virt_soc_platform` and
-- `virt_dai_ops`. What the core answers to a call is a parameter.
pub mod Laws
use tcb.Base.{
  ℕ, ◌%◌, ◌*◌, ◌^◌, ◌≡◌, refl, ◌∙◌, Bool, true, false, Option, none, some, List, [], ◌∷◌,
  if◌then◌else◌, arith,
}
use tcb.VirtSound.Stream.{
  Runtime, Master, Command, start, stop, other, IsProgrammed, reg_write, reg_read, trigger, pointer,
}

pub data PcmInfo : Type 0 where
  interleaved mmap mmap_valid pause : PcmInfo

-- `struct snd_pcm_hardware`, the fields that the driver fills.
pub record Hardware : Type 0 where
  pub info : List PcmInfo
  pub buffer_bytes_max : ℕ
  pub period_bytes_min : ℕ
  pub period_bytes_max : ℕ
  pub periods_min : ℕ
  pub periods_max : ℕ
  pub fifo_size : ℕ

-- `virt_pcm_hardware`
abbrev pub pcm_hardware : Hardware
pcm_hardware = record {
  info = interleaved ∷ mmap ∷ mmap_valid ∷ pause ∷ [];
  buffer_bytes_max = 128 * 1024;
  period_bytes_min = 1 * 1024;
  period_bytes_max = 64 * 1024;
  periods_min = 1;
  periods_max = 32;
  fifo_size = 128;
}

-- The calls of the sound core: `snd_soc_set_runtime_hwparams`, `snd_pcm_hw_constraint_integer` for
-- the periods, `snd_pcm_lib_malloc_pages`, `snd_pcm_lib_free_pages`,
-- `snd_pcm_lib_preallocate_pages_for_all` of continuous memory and
-- `snd_pcm_lib_preallocate_free_for_all`.
pub data CoreCall : Type 0 where
  set_hwparams : Hardware → CoreCall
  constraint_integer : CoreCall
  malloc_pages : ℕ → CoreCall
  free_pages : CoreCall
  preallocate_pages : ℕ → ℕ → CoreCall
  preallocate_free : CoreCall

-- What an operation leaves: the calls that it made, and what it returned (none for `void`).
abbrev pub OpResult : Type 0
OpResult = List CoreCall × Option ℕ

-- `virt_pcm_open`
unfoldable pub pcm_open : (CoreCall → ℕ) → OpResult
pcm_open answer =
    (set_hwparams pcm_hardware ∷ constraint_integer ∷ [], some (answer constraint_integer))

-- `virt_pcm_hw_params`, with `params_buffer_bytes(hw_params)`.
unfoldable pub pcm_hw_params : (CoreCall → ℕ) → ℕ → OpResult
pcm_hw_params answer bytes = (malloc_pages bytes ∷ [], some (answer (malloc_pages bytes)))

-- `virt_pcm_hw_free`
unfoldable pub pcm_hw_free : (CoreCall → ℕ) → OpResult
pcm_hw_free answer = (free_pages ∷ [], some (answer free_pages))

-- `PREALLOC_BUFFER` and `PREALLOC_BUFFER_MAX`
abbrev pub prealloc_buffer : ℕ
prealloc_buffer = 64 * 1024

abbrev pub prealloc_buffer_max : ℕ
prealloc_buffer_max = 64 * 1024

-- `virt_pcm_new`
unfoldable pub pcm_new : (CoreCall → ℕ) → OpResult
pcm_new answer =
    let call = preallocate_pages prealloc_buffer prealloc_buffer_max in
    (call ∷ [], some (answer call))

-- `virt_pcm_free`
unfoldable pub pcm_free : OpResult
pcm_free = (preallocate_free ∷ [], none)

-- `virt_dai_startup`, `virt_dai_shutdown`, `virt_dai_set_fmt` and `virt_dai_hw_params`.
unfoldable pub dai_startup : OpResult
dai_startup = ([], some 0)

unfoldable pub dai_shutdown : OpResult
dai_shutdown = ([], none)

unfoldable pub dai_set_fmt : ℕ → OpResult
dai_set_fmt fmt = ([], some 0)

unfoldable pub dai_hw_params : ℕ → OpResult
dai_hw_params bytes = ([], some 0)

-- What the sound core may ask of the driver: the entries of `virt_pcm_ops` (`.pointer` is `pointer`),
-- of `virt_soc_platform` and of `virt_dai_ops`. A trigger has its substream, with the runtime that this
-- has then, and the command.
pub data Op : Type 0 where
  on_open on_hw_free on_new on_free on_startup on_shutdown : Op
  on_hw_params on_dai_hw_params on_set_fmt : ℕ → Op
  on_trigger : ℕ → Runtime → Command → Op

unfoldable pub perform : (CoreCall → ℕ) → Op → Master → Master × OpResult
perform answer on_open m = (m, pcm_open answer)
perform answer on_hw_free m = (m, pcm_hw_free answer)
perform answer on_new m = (m, pcm_new answer)
perform answer on_free m = (m, pcm_free)
perform answer on_startup m = (m, dai_startup)
perform answer on_shutdown m = (m, dai_shutdown)
perform answer (on_hw_params bytes) m = (m, pcm_hw_params answer bytes)
perform answer (on_dai_hw_params bytes) m = (m, dai_hw_params bytes)
perform answer (on_set_fmt fmt) m = (m, dai_set_fmt fmt)
perform answer (on_trigger substream rt cmd) m = (trigger substream rt cmd m, ([], some 0))

-- The sound core's operations in any order, and the outcome of each.
unfoldable pub performs : (CoreCall → ℕ) → List Op → Master → Master × List OpResult
performs answer [] m = (m, [])
performs answer (op ∷ ops) m =
    let (m1, out) = perform answer op m in
    let (m2, outs) = performs answer ops m1 in (m2, out ∷ outs)
