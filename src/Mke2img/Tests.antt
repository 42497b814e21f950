-- ===== src/Mke2img/Tests.antt =====
-- A small tree, and a library whose directories are full until they are expanded.
use tcb.Base.{
  ℕ, ◌+◌, ◌≡◌, refl, inr, Bool, true, false, none, some, [], ◌∷◌, ok, exit, fault, if◌then◌else◌,
  length, arith,
}
use tcb.Mke2img.{
  Info, directory, regular, link_to, Entries, no_more, entry, Call, link, expand_dir, called,
  Events, Library, copy, main,
}
use tcb.Mke2img.Laws.{Accounted, Reliable, Readable}
use tcb.Mke2img.Main.{main-Accounted, copy_faults}

abbrev expanded : Events → Bool
expanded (called (expand_dir parent) e ∷ t) = true
expanded t = false

abbrev full : Events → Call → ℕ
full t (link parent name new type) = if expanded t then 0 else 28
full t c = 0

abbrev library : Library
library = record { root = 2; answer = full; inode = λ t. 12 + length t; written = λ t n. n }

library-Reliable : Reliable library
library-Reliable = record {
  opens = λ t new. refl;
  writes = λ t new block. refl;
  whole = λ t n. refl;
}

abbrev info : Info
info = record {
  st_mode = 0x81A4;
  st_uid = 0;
  st_gid = 0;
  st_atime = 1;
  st_mtime = 2;
  st_ctime = 3;
  st_size = 3;
  st_rdev = 0;
}

-- The directory `a`, with a file and a link, and an entry that `lstat` does not find.
abbrev tree : Entries
tree = entry (46 ∷ []) (some info) (directory true) no_more true (
    entry (97 ∷ []) (some info) (directory true)
      (entry (102 ∷ []) (some info) (regular (some ((1 ∷ 2 ∷ []) ∷ (3 ∷ []) ∷ []))) no_more true
        (entry (108 ∷ []) (some info) (link_to (some (102 ∷ []))) no_more true no_more))
      true (entry (120 ∷ []) none (directory true) no_more true no_more))

tree-Readable : Readable tree
tree-Readable = (
  refl,
  tt,
  tt,
  (
    refl,
    tt,
    (refl, (omega arith, (omega arith, tt)), tt, (refl, omega arith, tt, tt)),
    (refl, tt, tt, tt),
  ),
)

main-Accounted_example :
    (t : Events) × (main library 3 (some (true, tree)) (true, no_more) ≡ ok (0, t))
    × Accounted tree 2 t
main-Accounted_example =
    main-Accounted library tree (true, no_more) library-Reliable refl (λ t. refl) tree-Readable

-- A library that writes nothing.
abbrev idle : Library
idle = record { root = 2; answer = full; inode = λ t. 12; written = λ t n. 0 }

copies_fault : copy idle 12 (97 ∷ []) true ((7 ∷ []) ∷ []) [] ≡ fault
copies_fault = copy_faults idle 12 (97 ∷ []) (7 ∷ []) [] [] (inr (omega arith))

-- Where the directory that is named is not there, the current one is copied.
wrong_directory :
    main library 3 none (true, tree) ≡ main library 3 (some (true, tree)) (true, no_more)
unfolding main
wrong_directory = refl

no_arguments : main library 1 none (true, no_more) ≡ exit 1
unfolding main
no_arguments = refl
