-- ===== src/Fbview/Rotate/Quarter.antt =====
-- Every rotation writes behind the new pixmap, that by 90 in the last round of its first line.
use tcb.Base.{ℕ, ◌+◌, ◌-◌, ◌*◌, ◌≡◌, ◌⊎◌, if◌then◌else◌, ◌==◌, Res, ok, fault, length}
use tcb.Base.Memory.{Memory}
use tcb.Fbview.Rotate.{Pixmap}

-- A write faults or leaves a memory of the same length.
Writes : ℕ → Res Memory → Type 0
Writes n r = (r ≡ fault) ⊎ ((m : Memory) × (r ≡ ok m) × (length m ≡ n))

-- The write of `fb_pixmap_rotate` that has no place: `target` of its pixel.
abbrev pub lost_index : ℕ → Pixmap → ℕ
lost_index rotate p =
    if rotate == 90
    then p.h - 0 + (p.w - 1) * p.h
    else if rotate == 180
    then p.w - 0 + (p.h - 0) * p.w
    else 0 + (p.w - 0) * p.h
