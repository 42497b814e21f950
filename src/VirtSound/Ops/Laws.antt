-- ===== src/VirtSound/Ops/Laws.antt =====
-- What the device plays under the operations that the sound core asks of patches/linux/fsi.c.
use tcb.Base.{
  ℕ, ◌≡◌, refl, ◌∙◌, Bool, true, false, Option, none, some, List, [], ◌∷◌, if◌then◌else◌, arith,
}
use tcb.VirtSound.Stream.{
  Runtime, Master, Command, start, stop, other, IsProgrammed, trigger, trigger-pointer, pointer,
}
use tcb.VirtSound.Ops.{
  CoreCall, Op, on_open, on_hw_free, on_new, on_free, on_startup, on_shutdown, on_hw_params,
  on_dai_hw_params, on_set_fmt, on_trigger, perform, performs,
}

-- What a device plays: the substream that was started last, with the runtime that it had then, and
-- whether it has not been stopped since.
pub record Stream : Type 0 where
  pub owner : ℕ
  pub runtime : Runtime
  pub is_playing : Bool

-- A trigger on what is played; nothing is before the first start.
unfoldable pub played : ℕ → Runtime → Command → Option Stream → Option Stream
played substream rt start st = some (record { owner = substream; runtime = rt; is_playing = true })
played substream rt stop none = none
played substream rt stop (some st) = some (record st { is_playing = false })
played substream rt (other cmd) st = st

unfoldable pub playing : List Op → Option Stream → Option Stream
playing [] st = st
playing (on_trigger substream rt cmd ∷ ops) st = playing ops (played substream rt cmd st)
playing (on_open ∷ ops) st = playing ops st
playing (on_hw_free ∷ ops) st = playing ops st
playing (on_new ∷ ops) st = playing ops st
playing (on_free ∷ ops) st = playing ops st
playing (on_startup ∷ ops) st = playing ops st
playing (on_shutdown ∷ ops) st = playing ops st
playing (on_hw_params bytes ∷ ops) st = playing ops st
playing (on_dai_hw_params bytes ∷ ops) st = playing ops st
playing (on_set_fmt fmt ∷ ops) st = playing ops st

-- The device and the driver stand as what is played says.
pub record Shows (st : Stream) (m : Master) : Type 0 where
  pub programmed : IsProgrammed st.runtime m
  pub substream : m.substream ≡ some st.owner
  pub control : m.registers 0 ≡ (if st.is_playing then 1 else 0)

abbrev pub Represents : Option Stream → Master → Type 0
Represents none m = m.substream ≡ none
Represents (some st) m = Shows st m

trigger-Represents :
    (substream : ℕ) (rt : Runtime) (cmd : Command) (st : Option Stream) (m : Master)
    → Represents st m
    → Represents (played substream rt cmd st) (trigger substream rt cmd m)
unfolding played trigger
trigger-Represents substream rt start st m v = ground arith
trigger-Represents substream rt stop none m v = v
trigger-Represents substream rt stop (some st) m v = ground arith
trigger-Represents substream rt (other cmd) st m v = v

-- The operations of the sound core, in any order and whatever it answers, keep the device as what is
-- played says: it is programmed with the runtime that the substream started last had at its start,
-- runs exactly if no stop came since, and the driver remembers this substream for its interrupt. The
-- position register stays what it was.
pub performs-Represents :
    (answer : CoreCall → ℕ) (ops : List Op) (st : Option Stream) (m : Master)
    → Represents st m
    → let m' = (performs answer ops m).0 in
      Represents (playing ops st) m' × (pointer m' ≡ pointer m)
unfolding performs perform playing
performs-Represents answer [] st m v = (v, refl)
performs-Represents answer (on_trigger substream rt cmd ∷ ops) st m v =
    let (shown, same) =
      performs-Represents answer ops (played substream rt cmd st) (trigger substream rt cmd m)
        (trigger-Represents substream rt cmd st m v) in
    (shown, same ∙ trigger-pointer substream rt cmd m)
performs-Represents answer (on_open ∷ ops) st m v = performs-Represents answer ops st m v
performs-Represents answer (on_hw_free ∷ ops) st m v = performs-Represents answer ops st m v
performs-Represents answer (on_new ∷ ops) st m v = performs-Represents answer ops st m v
performs-Represents answer (on_free ∷ ops) st m v = performs-Represents answer ops st m v
performs-Represents answer (on_startup ∷ ops) st m v = performs-Represents answer ops st m v
performs-Represents answer (on_shutdown ∷ ops) st m v = performs-Represents answer ops st m v
performs-Represents answer (on_hw_params bytes ∷ ops) st m v = performs-Represents answer ops st m v
performs-Represents answer (on_dai_hw_params bytes ∷ ops) st m v =
    performs-Represents answer ops st m v
performs-Represents answer (on_set_fmt fmt ∷ ops) st m v = performs-Represents answer ops st m v
