-- ===== src/Fs2xml/Walk/Commas.antt =====
-- Where `WalkJSON` puts its commas.
use mathlib.Core.List.{append_assoc}
use tcb.Base.{
  ℕ, suc, ◌-◌, ◌≡◌, refl, true, false, inl, inr, Bool-cases, Option, List, [], ◌∷◌, ◌++◌, arith, ap,
  length, Res, ok, exit, fault, running, ◌>>=◌, ◌==◌, ◌∙◌, >>=-eq-ok, ok-injective, if◌then◌else◌,
}
use tcb.Base.Text.{Str}
use tcb.Fs2xml.Inode.{Table, same_id}
use tcb.Fs2xml.Walk.{json_inode, json_loop, count_children, walk_json}

-- A JSON list's items, a line each, with commas between them.
abbrev pub separated : List Str → Str
separated [] = []
separated (s ∷ []) = s ++ 10 ∷ []
separated (s ∷ t ∷ ts) = s ++ b',' ∷ 10 ∷ separated (t ∷ ts)

separated-cons :
    (item : Str) (items : List Str)
    → item ++ (if length items == 0 then 10 ∷ [] else b',' ∷ 10 ∷ []) ++ separated items
      ≡ separated (item ∷ items)
separated-cons item [] = append_assoc item (10 ∷ []) [] ∙ ap (λ t. item ++ t) refl
separated-cons item (t ∷ ts) =
    let more : (suc (length ts) == 0) ≡ false = ground arith in
    rw more (append_assoc item (b',' ∷ 10 ∷ []) (separated (t ∷ ts)))

-- One round of the loop, on what the item and the rest come to.
round-separated :
    (m : Res Str) (r : Res Str) (c : Res (List Str)) (left : ℕ)
    → r ≡ (c >>= λ items. ok (separated items))
    → ((items : List Str) → c ≡ ok items → length items ≡ left)
    → (do item ← m; rest ← r; ok (item ++ (if left == 0 then 10 ∷ [] else b',' ∷ 10 ∷ []) ++ rest))
      ≡ ((do item ← m; items ← c; ok (item ∷ items)) >>= λ items. ok (separated items))
round-separated (exit s) r c left e h = refl
round-separated fault r c left e h = refl
round-separated running r c left e h = refl
round-separated (ok item) r (ok items) left e h =
    rw (e, ← h items refl) (ap ok (separated-cons item items))
round-separated (ok item) r (exit s) left e h = rw e
round-separated (ok item) r fault left e h = rw e
round-separated (ok item) r running left e h = rw e

module _ (walk : Option ℕ → ℕ → Res Str) (inodes : Table) where
  -- What `WalkJSON` prints for each child of the parent, in the order of the table.
  abbrev pub child_items : Table → ℕ → Option ℕ → ℕ → Res (List Str)
  child_items [] i parent sub = ok []
  child_items (n ∷ ns) i parent sub = elim (same_id n.parentid parent) [
    | true ↦ do
      item ← json_inode walk inodes i n sub
      items ← child_items ns (suc i) parent sub
      ok (item ∷ items)
    | false ↦ child_items ns (suc i) parent sub
  ]

  length-child_items :
      (ns : Table) (i : ℕ) (parent : Option ℕ) (sub : ℕ) (items : List Str)
      → child_items ns i parent sub ≡ ok items
      → length items ≡ count_children ns parent
  unfolding count_children
  length-child_items [] i parent sub items h = ground arith
  length-child_items (n ∷ ns) i parent sub items h = elim (Bool-cases (same_id n.parentid parent)) [
    | inr e ↦ ground (arith, length-child_items ns (suc i) parent sub items)
    | inl e ↦
        let (item, _, h1) =
          >>=-eq-ok (json_inode walk inodes i n sub) _ (rw (e, child_items) at h) in
        let (rest, made, h2) = >>=-eq-ok (child_items ns (suc i) parent sub) _ h1 in
        let cut : item ∷ rest ≡ items = ok-injective h2 in
        rw (e, ← cut) (omega (arith, length-child_items ns (suc i) parent sub rest made))
  ]

  json_loop-separated :
      (ns : Table) (i : ℕ) (parent : Option ℕ) (sub left : ℕ)
      → count_children ns parent ≡ left
      → json_loop walk inodes ns i left parent sub
        ≡ (child_items ns i parent sub >>= λ items. ok (separated items))
  unfolding json_loop count_children
  json_loop-separated [] i parent sub left e = refl
  json_loop-separated (n ∷ ns) i parent sub left e = elim (Bool-cases (same_id n.parentid parent)) [
    | inr no_child ↦
        let count : count_children ns parent ≡ left = ground arith in
        ground (arith, json_loop-separated ns (suc i) parent sub left count)
    | inl child ↦
        let count : count_children ns parent ≡ left - 1 = ground arith in
        rw (child, json_loop, child_items)
          (round-separated (json_inode walk inodes i n sub)
            (json_loop walk inodes ns (suc i) (left - 1) parent sub)
            (child_items ns (suc i) parent sub) (left - 1)
            (json_loop-separated ns (suc i) parent sub (left - 1) count)
            (λ items made. length-child_items ns (suc i) parent sub items made ∙ count))
  ]

-- `WalkJSON` prints the items of the parent's children in the order of the table, with a comma
-- behind each but the last, a line for each: its count-down of the children reaches 0 exactly at
-- the last.
pub walk_json-separated :
    (fuel : ℕ) (inodes : Table) (parent : Option ℕ) (sub : ℕ)
    → walk_json (suc fuel) inodes parent sub ≡ (
        child_items (walk_json fuel inodes) inodes inodes 0 parent sub >>= λ items.
        ok (separated items))
unfolding walk_json
walk_json-separated fuel inodes parent sub =
    json_loop-separated (walk_json fuel inodes) inodes inodes 0 parent sub
      (count_children inodes parent) refl
