-- ===== src/Fbview/Params/Laws.antt =====
-- The rotation that `decode_params` leaves.
use tcb.Base.{ℕ, ◌+◌, ◌-◌, ◌%◌, ◌^◌, ◌<◌, ◌≤◌, ◌≡◌, ◌⊎◌, some, arith}
use tcb.Fbview.Params.{decode_rotate}

-- 0, 90, 180 or 270.
abbrev pub IsRight : ℕ → Type 0
IsRight r = (r < 360) × (r % 90 ≡ 0)

-- Every angle of a `Sint16` but those below -32587, which overflow when they are negated.
abbrev pub Negatable : ℕ → Type 0
Negatable int = (int % 2 ^ 16 < 2 ^ 15) ⊎ (2 ^ 16 - 32587 ≤ int % 2 ^ 16)

-- A negative angle -m that is a multiple of 90 and at least -32587 is taken for m + 180, within a full
-- turn: for -180 that is no rotation.
pub decode_rotate_negative :
    (m : ℕ) → 1 ≤ m → m ≤ 32587 → m % 90 ≡ 0 → decode_rotate (2 ^ 32 - m) ≡ some ((m + 180) % 360)
unfolding decode_rotate
decode_rotate_negative m h1 h2 h = ground arith
