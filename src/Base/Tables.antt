-- ===== src/Base/Tables.antt =====
-- Facts about small ranges, by running through them.
use tcb.Base.{ℕ, zero, suc, ◌<◌, ◌≡◌, Bool, true, ◌&&◌, arith}

-- The test holds at every number under `limit`.
unfoldable pub holds_under : (ℕ → Bool) → ℕ → Bool
holds_under test zero = true
holds_under test (suc k) = holds_under test k && test k

pub holds_under-at :
    (test : ℕ → Bool) (limit x : ℕ) → holds_under test limit ≡ true → x < limit → test x ≡ true
unfolding holds_under
holds_under-at test zero x run below = absurd (omega arith)
holds_under-at test (suc k) x run below = ground (arith, holds_under-at test k x)
