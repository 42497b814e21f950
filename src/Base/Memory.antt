-- ===== src/Base/Memory.antt =====
-- Memory as the list of its bytes: reads, writes and memcpy, as the programs on the framebuffer use them.
use native.Mathlib.Nat.{mul-le-mul_right, mul_comm}
use tcb.Base.{
  ℕ, ◌+◌, ◌*◌, ◌<◌, ◌≤◌, ◌≡◌, ◌≢◌, refl, List, [], ◌∷◌, ◌++◌, Res, ok, fault, within, ◌>>◌, ltb,
  leb, length, get_or, set, take, drop, zero, suc, arith, ap, sym, length-set, get_or-set_self,
  get_or-set_ne, ◌-◌, ◌∙◌, length-take, length-append,
}

abbrev pub Memory : Type 0
Memory = List ℕ

unfoldable pub load : Memory → ℕ → Res ℕ
load mem p = do within (ltb p (length mem)); ok (get_or mem p 0)

unfoldable pub store : Memory → ℕ → ℕ → Res Memory
store mem p v = do within (ltb p (length mem)); ok (set mem p v)

-- `dest` with `n` bytes from `src + s` at `d`.
abbrev pub copied : ℕ → ℕ → ℕ → Memory → Memory → Memory
copied d n s dest src = take d dest ++ (take n (drop s src) ++ drop (d + n) dest)

-- `memcpy(dest + d, src + s, n)`
unfoldable pub memcpy : Memory → ℕ → Memory → ℕ → ℕ → Res Memory
memcpy dest d src s n = do
  within (leb (d + n) (length dest))
  within (leb (s + n) (length src))
  ok (copied d n s dest src)

pub load_ok : (mem : Memory) (p : ℕ) → p < length mem → load mem p ≡ ok (get_or mem p 0)
unfolding load
load_ok mem p h = ground arith

pub store_ok : (mem : Memory) (p v : ℕ) → p < length mem → store mem p v ≡ ok (set mem p v)
unfolding store
store_ok mem p v h = ground arith

-- A load behind a store.
pub load-set_self : (mem : Memory) (p v : ℕ) → p < length mem → load (set mem p v) p ≡ ok v
load-set_self mem p v h =
    load_ok (set mem p v) p (omega (arith, length-set mem p v, h))
    ∙ ap ok (get_or-set_self mem p v 0 h)

pub load-set_ne :
    (mem : Memory) (p q v : ℕ) → p ≢ q → q < length mem → load (set mem p v) q ≡ load mem q
load-set_ne mem p q v ne h =
    load_ok (set mem p v) q (omega (arith, length-set mem p v, h))
    ∙ ap ok (get_or-set_ne mem v 0 ne)
    ∙ sym (load_ok mem q h)

-- What a memory holds where parts of memories are joined.
get_or-append_left :
    (xs ys : Memory) (i : ℕ) → i < length xs → get_or (xs ++ ys) i 0 ≡ get_or xs i 0
get_or-append_left [] ys i h = absurd (omega arith)
get_or-append_left (x ∷ xs) ys zero h = refl
get_or-append_left (x ∷ xs) ys (suc i) h = get_or-append_left xs ys i (omega arith)

get_or-append_right :
    (xs ys : Memory) (i : ℕ) → length xs ≤ i → get_or (xs ++ ys) i 0 ≡ get_or ys (i - length xs) 0
get_or-append_right [] ys i h = ap (λ k. get_or ys k 0) (omega arith)
get_or-append_right (x ∷ xs) ys zero h = absurd (omega arith)
get_or-append_right (x ∷ xs) ys (suc i) h =
    get_or-append_right xs ys i (omega arith) ∙ ap (λ k. get_or ys k 0) (omega arith)

get_or-take : (n : ℕ) (xs : Memory) (i : ℕ) → i < n → get_or (take n xs) i 0 ≡ get_or xs i 0
get_or-take zero xs i h = absurd (omega arith)
get_or-take (suc n) [] i h = refl
get_or-take (suc n) (x ∷ xs) zero h = refl
get_or-take (suc n) (x ∷ xs) (suc i) h = get_or-take n xs i (omega arith)

get_or-drop : (n : ℕ) (xs : Memory) (i : ℕ) → get_or (drop n xs) i 0 ≡ get_or xs (n + i) 0
get_or-drop zero xs i = ap (λ k. get_or xs k 0) (omega arith)
get_or-drop (suc n) [] i = refl
get_or-drop (suc n) (x ∷ xs) i =
    get_or-drop n xs i
    ∙ ap (λ k. get_or (x ∷ xs) k 0) (let same : suc (n + i) ≡ suc n + i = omega arith in same)

pub length-drop : (n : ℕ) (xs : Memory) → length (drop n xs) ≡ length xs - n
length-drop zero xs = omega arith
length-drop (suc n) [] = omega arith
length-drop (suc n) (x ∷ xs) = omega (arith, length-drop n xs)

-- Inside the copy, below it, and the length.
module _ (d n s : ℕ) (dest src : Memory) (h1 : d + n ≤ length dest) (h2 : s + n ≤ length src) where
  abbrev behind : Memory
  behind = take n (drop s src) ++ drop (d + n) dest

  first_length : length (take d dest) ≡ d
  first_length = omega (arith, length-take d dest)

  middle_length : length (take n (drop s src)) ≡ n
  middle_length = omega (arith, length-take n (drop s src), length-drop s src)

  pub memcpy_ok : memcpy dest d src s n ≡ ok (copied d n s dest src)
  unfolding memcpy
  memcpy_ok = ground arith

  pub copied_at : (i : ℕ) → i < n → get_or (copied d n s dest src) (d + i) 0 ≡ get_or src (s + i) 0
  copied_at i h =
      get_or-append_right (take d dest) behind (d + i) (omega (arith, first_length))
      ∙ ap (λ k. get_or (take n (drop s src) ++ drop (d + n) dest) k 0)
          (omega (arith, first_length))
      ∙ get_or-append_left (take n (drop s src)) (drop (d + n) dest) i
          (omega (arith, middle_length))
      ∙ get_or-take n (drop s src) i h
      ∙ get_or-drop s src i

  pub kept_below : (i : ℕ) → i < d → get_or (copied d n s dest src) i 0 ≡ get_or dest i 0
  kept_below i h =
      get_or-append_left (take d dest) behind i (omega (arith, first_length))
      ∙ get_or-take d dest i h

  pub kept_above : (i : ℕ) → d + n ≤ i → get_or (copied d n s dest src) i 0 ≡ get_or dest i 0
  kept_above i h =
      get_or-append_right (take d dest) behind i (omega (arith, first_length))
      ∙ get_or-append_right (take n (drop s src)) (drop (d + n) dest) (i - length (take d dest))
          (omega (arith, first_length, middle_length))
      ∙ get_or-drop (d + n) dest _
      ∙ ap (λ k. get_or dest k 0) (omega (arith, first_length, middle_length))

  pub length-copied : length (copied d n s dest src) ≡ length dest
  length-copied =
      let whole : length (copied d n s dest src) ≡ length (take d dest) + length behind =
        length-append (take d dest) behind in
      let part : length behind ≡ length (take n (drop s src)) + length (drop (d + n) dest) =
        length-append (take n (drop s src)) (drop (d + n) dest) in
      omega (arith, whole, part, first_length, middle_length, length-drop (d + n) dest)

-- A store behind the first part of a memory, and one behind its end.
set-append : (xs ys : Memory) (k v : ℕ) → set (xs ++ ys) (length xs + k) v ≡ xs ++ set ys k v
set-append [] ys k v = ap (λ t. set ys t v) (let e : 0 + k ≡ k = omega arith in e)
set-append (x ∷ xs) ys k v =
    ap (λ t. set (x ∷ xs ++ ys) t v)
      (let e : suc (length xs) + k ≡ suc (length xs + k) = omega arith in e)
    ∙ ap (λ t. x ∷ t) (set-append xs ys k v)

pub store-append :
    (xs ys : Memory) (p k v : ℕ)
    → p ≡ length xs + k
    → k < length ys
    → store (xs ++ ys) p v ≡ ok (xs ++ set ys k v)
store-append xs ys p k v e h =
    store_ok (xs ++ ys) p v (omega (arith, e, h, length-append {0} xs ys))
    ∙ ap ok (ap (λ t. set (xs ++ ys) t v) e ∙ set-append xs ys k v)

pub store_fault : (mem : Memory) (p v : ℕ) → length mem ≤ p → store mem p v ≡ fault
unfolding store
store_fault mem p v h = ground arith

-- The index of column `x` of row `y`.
pub pixel-lt : (x y xres yres : ℕ) → x < xres → y < yres → x + y * xres < xres * yres
pixel-lt x y xres yres hx hy =
    omega (arith, mul-le-mul_right {m = suc y} {n = yres} xres hy, mul_comm xres yres)
