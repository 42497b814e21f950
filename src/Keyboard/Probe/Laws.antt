-- ===== src/Keyboard/Probe/Laws.antt =====
-- What the keyboard driver holds after `probe` and `remove`.
use tcb.Base.{ℕ, ◌≡◌, ◌≢◌, ◌⊎◌, true, none, arith, Res, ok, exit, fault, running}
use tcb.Keyboard.Probe.{Held, nothing, Kernel, probe, remove}

-- All that a working driver holds.
abbrev pub everything : Held
everything = record {
  kbd = true;
  input = true;
  region = true;
  mapping = true;
  irq = true;
  registered = true;
}

-- Every call of the kernel succeeds.
abbrev pub Succeeds : Kernel → Type 0
Succeeds k =
    (k.resource ≡ true)
    × (k.irq ≢ none)
    × (k.kzalloc ≡ true)
    × (k.allocate_input ≡ true)
    × (k.request_region ≡ true)
    × (k.ioremap ≡ true)
    × (k.request_irq ≡ 0)
    × (k.register_input ≡ 0)

-- A probe that took nothing it keeps, or one that holds all.
abbrev pub Balanced : Kernel → Res (ℕ × Held) → Type 0
Balanced k (ok (error, h)) =
    (error ≡ 0) × (h ≡ everything) × Succeeds k ⊎ (error ≢ 0) × (h ≡ nothing) × ¬ Succeeds k
Balanced k (exit s) = ⊥
Balanced k fault = ⊥
Balanced k running = ⊥

-- `probe` frees nothing twice on any path. It returns 0 exactly when every call of the kernel
-- succeeds, and then holds all that they gave; on every error it has given back whatever it took.
pub probe-Balanced : (k : Kernel) → Balanced k (probe k nothing)
unfolding probe
probe-Balanced k = ground arith

-- `remove` after a `probe` that returned 0 gives everything back, and frees nothing twice.
pub probe-remove : (k : Kernel) (h : Held) → probe k nothing ≡ ok (0, h) → remove h ≡ ok nothing
unfolding probe remove
probe-remove k h e = ground arith
