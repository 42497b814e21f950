-- ===== src/VirtSound/Probe.antt =====
-- `virt_probe` and `virt_remove`.
use tcb.Base.{
  ℕ, ◌-◌, ◌^◌, ◌<◌, ◌≤◌, ◌≡◌, ◌≢◌, ◌⊎◌, Bool, true, false, not, Option, none, some, Res, ok, exit,
  fault, running, ◌>>=◌, ◌>>◌, within, ltb, leb, ◌==◌, if◌then◌else◌, arith,
}

-- What the kernel answers. An `int` answer is its bit pattern (a negative one is an error), a pointer
-- is whether it is not null.
pub record Kernel : Type 0 where
  pub resource : Bool
  pub irq : ℕ
  pub kzalloc : Bool
  pub ioremap : Bool
  pub request_irq : ℕ
  pub register_platform : ℕ
  pub register_component : ℕ

-- What the driver has registered; memory, mapping and interrupt are device-managed, and are given
-- back by the kernel when the probe fails or the device goes.
pub record Registered : Type 0 where
  pub platform : Bool
  pub component : Bool

abbrev pub unregistered : Registered
unregistered = record { platform = false; component = false }

-- An `int` below 0.
abbrev pub is_negative : ℕ → Bool
is_negative w = leb (2 ^ 31) w

-- The bit pattern of an error number with a minus.
abbrev pub minus : ℕ → ℕ
minus e = 2 ^ 32 - e

unfoldable pub unregister_platform : Registered → Res Registered
unregister_platform r = do within r.platform; ok (record r { platform = false })

unfoldable pub unregister_component : Registered → Res Registered
unregister_component r = do within r.component; ok (record r { component = false })

-- `irq < 0` on the `unsigned int` that holds the answer of `platform_get_irq`.
abbrev pub irq_is_error : ℕ → Bool
irq_is_error irq = ltb irq 0

-- `virt_probe`: what it returns, which interrupt it has asked for, and what is registered then.
unfoldable pub probe : Kernel → Registered → Res (ℕ × Option ℕ × Registered)
unfolding unregister_platform
probe k r =
    if not k.resource
    then ok (minus 22, none, r)
    else if irq_is_error k.irq
    then ok (minus 22, none, r)
    else if not k.kzalloc
    then ok (minus 12, none, r)
    else if not k.ioremap
    then ok (minus 6, none, r)
    else if not (k.request_irq == 0)
    then ok (k.request_irq, some k.irq, r)
    else if is_negative k.register_platform
    then ok (k.register_platform, some k.irq, r)
    else (let r1 = record r { platform = true } in
        if is_negative k.register_component
        then (do r2 ← unregister_platform r1; ok (k.register_component, some k.irq, r2))
        else ok (k.register_component, some k.irq, record r1 { component = true }))

-- `virt_remove`
unfoldable pub remove : Registered → Res Registered
unfolding unregister_platform unregister_component
remove r = do r1 ← unregister_component r; unregister_platform r1

-- What may be registered when the probe returns, by its result.
abbrev pub Settled : Res (ℕ × Option ℕ × Registered) → Type 0
Settled (ok (ret, irq, r)) =
    (r ≡ unregistered) × (ret ≢ 0)
    ⊎ (r ≡ record { platform = true; component = true }) × (ret < 2 ^ 31)
Settled (exit s) = ⊥
Settled fault = ⊥
Settled running = ⊥

-- Whatever the kernel answers, `virt_probe` leaves nothing registered and returns an error, or it
-- leaves both parts registered and returns no error, and then `virt_remove` unregisters both.
pub probe-Settled :
    (k : Kernel)
    → Settled (probe k unregistered)
      × (remove (record { platform = true; component = true }) ≡ ok unregistered)
unfolding probe remove
probe-Settled k = ground arith

-- The probe has come to its end, and asked for this interrupt.
abbrev pub HasAsked : ℕ → Res (ℕ × Option ℕ × Registered) → Type 0
HasAsked irq (ok (ret, asked, r)) = asked ≡ some irq
HasAsked irq (exit s) = ⊥
HasAsked irq fault = ⊥
HasAsked irq running = ⊥

-- A negative answer of `platform_get_irq` is not noticed: with memory and mapping at hand,
-- `virt_probe` asks for the interrupt of that number.
pub probe_negative_irq :
    (k : Kernel)
    → 2 ^ 31 ≤ k.irq
    → k.resource ≡ true
    → k.kzalloc ≡ true
    → k.ioremap ≡ true
    → HasAsked k.irq (probe k unregistered)
unfolding probe
probe_negative_irq k h a b c = ground arith
