-- ===== src/VirtSound/Stream.antt =====
-- The registers of the device: `virt_dai_trigger`, `virt_pcm_pointer` and `virt_interrupt`.
use tcb.Base.{
  ℕ, ◌%◌, ◌^◌, ◌≡◌, ◌≢◌, refl, ◌∙◌, Option, none, some, List, [], ◌∷◌, ◌==◌, if◌then◌else◌, arith,
}

-- Registers by their word offset from `base`.
abbrev pub Registers : Type 0
Registers = ℕ → ℕ

-- What the sound system hands over in `substream->runtime`; `dma_phys` is
-- `virt_to_phys(runtime->dma_area)`.
pub record Runtime : Type 0 where
  pub dma_phys : ℕ
  pub periods : ℕ
  pub period_size : ℕ
  pub rate : ℕ
  pub channels : ℕ

-- `struct virt_snd_master` with the registers behind `base`; a substream is its number.
pub record Master : Type 0 where
  pub registers : Registers
  pub substream : Option ℕ

-- `__virt_snd_reg_write`; data is a `u32`.
unfoldable pub reg_write : ℕ → ℕ → Master → Master
reg_write reg value m = record m {
  registers = λ r. if r == reg then value % 2 ^ 32 else m.registers r;
}

-- `__virt_snd_reg_read`
unfoldable pub reg_read : ℕ → Master → ℕ
reg_read reg m = m.registers reg

-- `SNDRV_PCM_TRIGGER_START`, `SNDRV_PCM_TRIGGER_STOP`, and the commands that the driver ignores.
pub data Command : Type 0 where
  start stop : Command
  other : ℕ → Command

-- `virt_dai_trigger`; it always returns 0.
unfoldable pub trigger : ℕ → Runtime → Command → Master → Master
unfolding reg_write
trigger substream rt start m =
    let m1 = record m { substream = some substream } in
    let m2 = reg_write 1 rt.dma_phys m1 in
    let m3 = reg_write 2 rt.periods m2 in
    let m4 = reg_write 3 rt.period_size m3 in
    let m5 = reg_write 5 rt.rate m4 in let m6 = reg_write 6 rt.channels m5 in reg_write 0 1 m6
trigger substream rt stop m = reg_write 0 0 m
trigger substream rt (other cmd) m = m

-- `virt_pcm_pointer`
unfoldable pub pointer : Master → ℕ
unfolding reg_read
pointer m = reg_read 4 m

-- `virt_interrupt`: register 0 is read to clear the interrupt, then `snd_pcm_period_elapsed` is told
-- the substream, which is null before the first start.
unfoldable pub interrupt : Master → ℕ × Option ℕ
unfolding reg_read
interrupt m = (reg_read 0 m, m.substream)

-- A run of the device: commands in any order.
unfoldable pub triggers : Runtime → List (ℕ × Command) → Master → Master
triggers rt [] m = m
triggers rt ((substream, cmd) ∷ cmds) m = triggers rt cmds (trigger substream rt cmd m)

-- The device plays this runtime.
pub record IsProgrammed (rt : Runtime) (m : Master) : Type 0 where
  pub dma : m.registers 1 ≡ rt.dma_phys % 2 ^ 32
  pub periods : m.registers 2 ≡ rt.periods % 2 ^ 32
  pub period_size : m.registers 3 ≡ rt.period_size % 2 ^ 32
  pub rate : m.registers 5 ≡ rt.rate % 2 ^ 32
  pub channels : m.registers 6 ≡ rt.channels % 2 ^ 32

-- What holds of the device once a stream has been started.
pub record IsStarted (rt : Runtime) (m : Master) : Type 0 where
  pub programmed : IsProgrammed rt m
  pub owner : m.substream ≢ none

start-IsStarted :
    (substream : ℕ) (rt : Runtime) (m : Master)
    → IsStarted rt (trigger substream rt start m) × (reg_read 0 (trigger substream rt start m) ≡ 1)
unfolding trigger reg_read
start-IsStarted substream rt m = ground arith

trigger-IsStarted :
    (substream : ℕ) (rt : Runtime) (cmd : Command) (m : Master)
    → IsStarted rt m
    → IsStarted rt (trigger substream rt cmd m)
unfolding trigger
trigger-IsStarted substream rt start m v = (start-IsStarted substream rt m).0
trigger-IsStarted substream rt stop m v = ground arith
trigger-IsStarted substream rt (other cmd) m v = v

pub trigger-pointer :
    (substream : ℕ) (rt : Runtime) (cmd : Command) (m : Master)
    → pointer (trigger substream rt cmd m) ≡ pointer m
unfolding trigger pointer
trigger-pointer substream rt start m = refl
trigger-pointer substream rt stop m = refl
trigger-pointer substream rt (other cmd) m = refl

triggers-keep :
    (rt : Runtime) (cmds : List (ℕ × Command)) (m : Master)
    → IsStarted rt m
    → IsStarted rt (triggers rt cmds m) × (pointer (triggers rt cmds m) ≡ pointer m)
unfolding triggers
triggers-keep rt [] m v = (v, refl)
triggers-keep rt ((substream, cmd) ∷ cmds) m v =
    let (started, same) =
      triggers-keep rt cmds (trigger substream rt cmd m) (trigger-IsStarted substream rt cmd m v) in
    (started, same ∙ trigger-pointer substream rt cmd m)

-- After a start, and whatever commands follow it, the device stays programmed with the runtime, an
-- interrupt reports a substream, and the position register, which the driver only reads, is what it was.
pub triggers-IsStarted :
    (substream : ℕ) (rt : Runtime) (cmds : List (ℕ × Command)) (m : Master)
    → let m' = triggers rt ((substream, start) ∷ cmds) m in
      IsStarted rt m' × ((interrupt m').1 ≢ none) × (pointer m' ≡ pointer m)
unfolding triggers interrupt
triggers-IsStarted substream rt cmds m =
    let m1 = trigger substream rt start m in
    let (started, same) = triggers-keep rt cmds m1 ((start-IsStarted substream rt m).0) in
    (started, started.owner, same ∙ trigger-pointer substream rt start m)
