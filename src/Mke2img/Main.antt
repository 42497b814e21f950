-- ===== src/Mke2img/Main.antt =====
-- The whole program, and a write that fails.
use tcb.Base.{
  ℕ, ◌<◌, ◌≡◌, ◌≢◌, refl, ◌⊎◌, Bool, true, false, not, ◌||◌, if◌then◌else◌, some, List, [], ◌∷◌, ok,
  fault, ltb, ◌==◌, length, arith,
}
use tcb.Mke2img.{
  Name, Entries, open_image, read_bitmaps, write_bitmaps, close_image, file_write, called, Events,
  Library, ask, warned, copy, main,
}
use tcb.Mke2img.Laws.{
  Keeps, Keeps-then, Keeps-one, Accounted, Accounted-Keeps, Reliable, Readable, warned-Keeps,
}
use tcb.Mke2img.Trawl.{trawl-Accounted}

-- With a library that opens files and writes what it is given, opens the image and closes it, whatever
-- its other calls answer, `main` with two arguments returns 0 on every directory that it can enter,
-- whose directories open, whose symbolic links have at most 1024 bytes, and whose files are read in blocks of at most 4096. Every entry but `.` and `..`,
-- at every depth, is then in the image, in the directory that was made for the one it is in, or there is
-- a message about it or about that directory.
pub main-Accounted :
    (lib : Library) (entries : Entries) (here : Bool × Entries)
    → Reliable lib
    → lib.answer [] open_image ≡ 0
    → ((t : Events) → lib.answer t close_image ≡ 0)
    → Readable entries
    → (t : Events) × (main lib 3 (some (true, entries)) here ≡ ok (0, t))
      × Accounted entries lib.root t
unfolding main
main-Accounted lib entries here v opens closes readable =
    let t2 = warned lib read_bitmaps [] (ask lib open_image []).1 in
    let (t3, runs, keeps, accounted) = trawl-Accounted lib v entries lib.root t2 readable in
    let t4 = warned lib write_bitmaps [] t3 in
    let t5 = (ask lib close_image t4).1 in
    let e1 : (lib.answer [] open_image == 0) ≡ true = rw opens refl in
    let e4 : (lib.answer t4 close_image == 0) ≡ true = rw (closes t4) refl in
    let later : Keeps t3 t5 =
      Keeps-then (warned-Keeps lib write_bitmaps [] t3) (Keeps-one (called close_image _) t4) in
    (t5, rw (main, e1, runs, e4) refl, Accounted-Keeps entries lib.root t3 t5 later accounted)

if_same {ℓ} : {A : Type ℓ} {x y : A} (b : Bool) → y ≡ x → (if b then x else y) ≡ x
if_same true e = refl
if_same false e = e

-- Where the library does not write a block, or not all of it, `trawl_dir` goes on with the file that it
-- has closed: whatever is left to read, it writes to it or closes it once more, which is undefined.
pub copy_faults :
    (lib : Library) (new : ℕ) (name : Name) (block : List ℕ) (blocks : List (List ℕ)) (t : Events)
    → (lib.answer t (file_write new block) ≢ 0) ⊎ (lib.written t (length block) < length block)
    → copy lib new name true (block ∷ blocks) t ≡ fault
unfolding copy
copy_faults lib new name block blocks t fails =
    if_same (ltb 4096 (length block)) (rw (failed fails) (closed blocks _))
  where
    failed :
        (lib.answer t (file_write new block) ≢ 0) ⊎ (lib.written t (length block) < length block)
        → (not (lib.answer t (file_write new block) == 0)
            || ltb (lib.written t (length block)) (length block))
          ≡ true
    failed h = ground arith

    closed : (blocks : List (List ℕ)) (t : Events) → copy lib new name false blocks t ≡ fault
    closed [] t = refl
    closed (b ∷ bs) t = if_same (ltb 4096 (length b)) refl
