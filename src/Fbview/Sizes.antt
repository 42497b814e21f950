-- ===== src/Fbview/Sizes.antt =====
-- Sizes and indices of pixmaps: the C programs compute them as `int`s, products of numbers that are not
-- negative.
use tcb.Base.{ℕ, ◌^◌, ◌<◌, ◌≡◌, Res, ok, ◌>>◌, within, ltb, arith}

-- The `int` of a product or sum; from 2³¹ on it overflows, which is undefined.
unfoldable pub int : ℕ → Res ℕ
int n = do within (ltb n (2 ^ 31)); ok n

pub int_ok : (n : ℕ) → n < 2 ^ 31 → int n ≡ ok n
unfolding int
int_ok n h = ground arith
