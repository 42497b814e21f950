-- ===== src/Mke2img/Files.antt =====
-- Files of a directory are copied.
use tcb.Base.{
  ℕ, ◌≤◌, ◌≡◌, refl, ◌⊎◌, inl, inr, Bool, true, false, Option, none, some, List, [], ◌∷◌, ok, ltb,
  ◌==◌, length, take, All, ap, ◌∙◌, arith,
}
use tcb.Mke2img.{
  Name, Info, FileType, reg_file, regular, link, file_open, file_write, file_flush, file_close,
  called, message, Events, Library, ask, warned, add_name, copy, file_inode, attributes,
  regular_file, copy_target, special_file,
}
use tcb.Mke2img.Laws.{
  Has, Keeps, Keeps-then, Keeps-one, Reliable, Fits, warned-Keeps, attributes-Keeps, Added,
  add_name-Added, FitsBuffer,
}

-- A file is in its directory, or there is a message about it.
abbrev pub Filed : ℕ → Name → Events → Type 0
Filed parent name t =
    Has (message name) t
    ⊎ ((new : ℕ) × (type : FileType) × Has (called (link parent name new type) 0) t)

not_over : (m n : ℕ) → n ≤ m → ltb m n ≡ false
not_over m n h = ground arith

ltb_self : (n : ℕ) → ltb n n ≡ false
ltb_self n = ground arith

module _ (lib : Library) (v : Reliable lib) where
  pub Added-Filed :
      (parent : ℕ) (name : Name) (new : ℕ) (type : FileType) (t : Events) (r : Bool × Events)
      → Added lib (link parent name new type) name t r
      → Filed parent name r.1
  Added-Filed parent name new type t (true, after) a = inr (new, type, a.leaves)
  Added-Filed parent name new type t (false, after) a = inl a.leaves

  pub copy_ok :
      (new : ℕ) (name : Name) (blocks : List (List ℕ)) (t : Events)
      → All FitsBuffer blocks
      → (t1 : Events) × (copy lib new name true blocks t ≡ ok t1) × Keeps t t1
  unfolding copy
  copy_ok new name [] t fit =
      (warned lib (file_close new) name t, refl, warned-Keeps lib (file_close new) name t)
  copy_ok new name (block ∷ blocks) t fit =
      let t1 = (ask lib (file_write new block) t).1 in
      let t2 = warned lib (file_flush new) name t1 in
      let (t3, runs, keeps) = copy_ok new name blocks t2 fit.1 in
      let enough : ltb 4096 (length block) ≡ false = not_over 4096 (length block) fit.0 in
      let answered : (lib.answer t (file_write new block) == 0) ≡ true =
        rw (v.writes t new block) refl in
      let n = length block in
      let written : ltb (lib.written t n) n ≡ false =
        ap (λ k. ltb k n) (v.whole t n) ∙ ltb_self n in
      (
        t3,
        rw (copy, enough, answered, written) runs,
        Keeps-then (Keeps-one (called (file_write new block) _) t)
            (Keeps-then (warned-Keeps lib (file_flush new) name t1) keeps),
      )

  opened : (t : Events) (new : ℕ) → (lib.answer t (file_open new) == 0) ≡ true
  opened t new = rw (v.opens t new) refl

  pub regular_file-Filed :
      (parent : ℕ) (name : Name) (info : Info) (new : ℕ) (contents : Option (List (List ℕ)))
      (t : Events)
      → Fits (some info) (regular contents)
      → (t1 : Events) × (regular_file lib parent name info new contents t ≡ ok t1)
        × Keeps t t1
        × Filed parent name t1
  unfolding regular_file
  regular_file-Filed parent name info new none t fit =
      let t1 = attributes lib new (file_inode lib info) name t in
      (
        message name ∷ t1,
        refl,
        Keeps-then (attributes-Keeps lib new (file_inode lib info) name t)
            (Keeps-one (message name) t1),
        inl (inl refl),
      )
  regular_file-Filed parent name info new (some blocks) t fit =
      let t1 = attributes lib new (file_inode lib info) name t in
      let t2 = (ask lib (file_open new) t1).1 in
      let (t3, runs, keeps) = copy_ok new name blocks t2 fit in
      let r = add_name lib (link parent name new reg_file) parent name t3 in
      let added = add_name-Added lib (link parent name new reg_file) parent name t3 in
      (
        r.1,
        rw (regular_file, opened t1 new, runs) refl,
        Keeps-then (attributes-Keeps lib new (file_inode lib info) name t)
            (Keeps-then (Keeps-one (called (file_open new) _) t1) (Keeps-then keeps added.keeps)),
        Added-Filed parent name new reg_file t3 r added,
      )

  pub copy_target_ok :
      (new : ℕ) (name : Name) (info : Info) (target : Option (List ℕ)) (t : Events)
      → info.st_size ≤ 1024
      → (t1 : Events) × (copy_target lib new name info target t ≡ ok t1) × Keeps t t1
  unfolding copy_target
  copy_target_ok new name info none t short = (message name ∷ t, refl, Keeps-one (message name) t)
  copy_target_ok new name info (some target) t short =
      let t1 = (ask lib (file_open new) t).1 in
      let t2 = warned lib (file_write new (take info.st_size target)) name t1 in
      let enough : ltb 1024 info.st_size ≡ false = ground arith in
      (
        (ask lib (file_close new) t2).1,
        rw (copy_target, opened t new, enough) refl,
        Keeps-then (Keeps-one (called (file_open new) _) t) (
            Keeps-then (warned-Keeps lib (file_write new (take info.st_size target)) name t1)
              (Keeps-one (called (file_close new) _) t2)),
      )

  pub special_file-Filed :
      (parent : ℕ) (name : Name) (info : Info) (new : ℕ) (type : FileType) (t : Events)
      → Keeps t (special_file lib parent name info new type t)
        × Filed parent name (special_file lib parent name info new type t)
  special_file-Filed parent name info new type t =
      let added = add_name-Added lib (link parent name new type) parent name t in
      let r = add_name lib (link parent name new type) parent name t in
      (added.keeps, Added-Filed parent name new type t r added)
