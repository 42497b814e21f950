-- ===== src/Mke2img/Trawl.antt =====
-- A directory is copied with all that is in it.
use tcb.Base.{
  ℕ, ◌≡◌, refl, ◌⊎◌, inl, inr, Bool, true, false, not, Option, none, some, ◌∷◌, Res, ok, ◌==◌,
  if◌then◌else◌,
}
use tcb.Mke2img.{
  Name, Info, FileType, symlink, Kind, directory, regular, link_to, device, other, Entries, no_more,
  entry, mkdir, link, new_inode, called, message, Events, Library, ask, add_name, inode_of,
  attributes, special_file, make_entry, is_dot, trawl,
}
use tcb.Mke2img.Laws.{
  Has, Keeps, Keeps-same, Keeps-then, Keeps-one, Accounted, Accounted-Keeps, Reliable, Fits,
  Readable, attributes-Keeps, Added, add_name-Added,
}
use tcb.Mke2img.Files.{Filed, regular_file-Filed, copy_target_ok, special_file-Filed}

module _ (lib : Library) (v : Reliable lib) where
  -- What becomes of an entry that is not `.` or `..`.
  abbrev Placed : ℕ → Name → Entries → Events → Type 0
  Placed parent name below t =
      Has (message name) t
      ⊎ (((new : ℕ) × (type : FileType) × Has (called (link parent name new type) 0) t)
          ⊎ ((new : ℕ) × Has (called (mkdir parent new name) 0) t × Accounted below new t))

  abbrev Places : Res Events → ℕ → Name → Entries → Events → Type 0
  Places run parent name below t =
      (t1 : Events) × (run ≡ ok t1) × Keeps t t1 × Placed parent name below t1

  Filed-Placed :
      (parent : ℕ) (name : Name) (below : Entries) (t : Events)
      → Filed parent name t
      → Placed parent name below t
  Filed-Placed parent name below t (inl said) = inl said
  Filed-Placed parent name below t (inr linked) = inr (inl linked)

  module _ (parent : ℕ) (name : Name) (below : Entries) (enter : ℕ → Events → Res Events)
      (entered : (new : ℕ) (t : Events)
        → (t1 : Events) × (enter new t ≡ ok t1) × Keeps t t1 × Accounted below new t1) where
    directory-Places :
        (new : ℕ) (enters : Bool) (t : Events) (r : Bool × Events)
        → Added lib (mkdir parent new name) name t r
        → Places
            (if not r.0 then ok r.1 else if enters then enter new r.1 else ok (message name ∷ r.1))
            parent
            name
            below
            t
    directory-Places new enters t (false, after) a = (after, refl, a.keeps, inl a.leaves)
    directory-Places new true t (true, after) a =
        let (t1, runs, keeps, inside) = entered new after in
        (
          t1,
          runs,
          Keeps-then a.keeps keeps,
          inr (inr (new, keeps.keep (called (mkdir parent new name) 0) a.leaves, inside)),
        )
    directory-Places new false t (true, after) a = (
      message name ∷ after,
      refl,
      Keeps-then a.keeps (Keeps-one (message name) after),
      inl (inl refl),
    )

    make_entry-Places :
        (info : Option Info) (kind : Kind) (t : Events)
        → Fits info kind
        → Places (make_entry lib parent name info kind enter t) parent name below t
    unfolding make_entry
    make_entry-Places none kind t short =
        (message name ∷ t, refl, Keeps-one (message name) t, inl (inl refl))
    make_entry-Places (some info) kind t short =
        by_inode (lib.answer t (new_inode parent info.st_mode) == 0) refl
      where
        new : ℕ
        new = lib.inode t

        t1 : Events
        t1 = (ask lib (new_inode parent info.st_mode) t).1

        k1 : Keeps t t1
        k1 =
            Keeps-one
              (called (new_inode parent info.st_mode)
                (lib.answer t (new_inode parent info.st_mode)))
              t

        t2 : Events
        t2 = attributes lib new (inode_of lib info) name t1

        k2 : Keeps t t2
        k2 = Keeps-then k1 (attributes-Keeps lib new (inode_of lib info) name t1)

        by_kind :
            (kind : Kind)
            → (lib.answer t (new_inode parent info.st_mode) == 0) ≡ true
            → Fits (some info) kind
            → Places (make_entry lib parent name (some info) kind enter t) parent name below t
        by_kind (directory enters) e short =
            let r = add_name lib (mkdir parent new name) parent name t1 in
            let (t3, runs, keeps, placed) =
              directory-Places new enters t1 r
                (add_name-Added lib (mkdir parent new name) parent name t1) in
            (t3, rw (make_entry, e) runs, Keeps-then k1 keeps, placed)
        by_kind (regular contents) e short =
            let (t3, runs, keeps, filed) =
              regular_file-Filed lib v parent name info new contents t1 short in
            (
              t3,
              rw (make_entry, e) runs,
              Keeps-then k1 keeps,
              Filed-Placed parent name below t3 filed,
            )
        by_kind (link_to target) e short =
            let (t3, runs, keeps) = copy_target_ok lib v new name info target t2 short in
            let (kept, filed) = special_file-Filed lib v parent name info new symlink t3 in
            let t4 = special_file lib parent name info new symlink t3 in
            (
              t4,
              rw (make_entry, e, runs) refl,
              Keeps-then k2 (Keeps-then keeps kept),
              Filed-Placed parent name below t4 filed,
            )
        by_kind (device type) e short =
            let (kept, filed) = special_file-Filed lib v parent name info new type t2 in
            let t3 = special_file lib parent name info new type t2 in
            (
              t3,
              rw (make_entry, e) refl,
              Keeps-then k2 kept,
              Filed-Placed parent name below t3 filed,
            )
        by_kind other e short = (
          message name ∷ t1,
          rw (make_entry, e) refl,
          Keeps-then k1 (Keeps-one (message name) t1),
          inl (inl refl),
        )

        by_inode :
            (b : Bool)
            → (lib.answer t (new_inode parent info.st_mode) == 0) ≡ b
            → Places (make_entry lib parent name (some info) kind enter t) parent name below t
        by_inode true e = by_kind kind e short
        by_inode false e = (
          message name ∷ t1,
          rw (make_entry, e) refl,
          Keeps-then k1 (Keeps-one (message name) t1),
          inl (inl refl),
        )

    -- A round of the loop.
    round_lem :
        (info : Option Info) (kind : Kind) (t : Events)
        → Fits info kind
        → (t1 : Events) × ((if is_dot name
              then ok t
              else make_entry lib parent name info kind enter t)
            ≡ ok t1)
          × Keeps t t1
          × ((is_dot name ≡ true) ⊎ Placed parent name below t1)
    round_lem info kind t short = by_name (is_dot name) refl
      where
        by_name :
            (b : Bool)
            → is_dot name ≡ b
            → (t1 : Events) × ((if is_dot name
                  then ok t
                  else make_entry lib parent name info kind enter t)
                ≡ ok t1)
              × Keeps t t1
              × ((is_dot name ≡ true) ⊎ Placed parent name below t1)
        by_name true e = (t, rw e refl, Keeps-same t, inl e)
        by_name false e =
            let (t1, runs, keeps, placed) = make_entry-Places info kind t short in
            (t1, rw e runs, keeps, inr placed)

  -- With a library that opens files and writes what it is given, whatever its other calls answer,
  -- `trawl_dir` comes to an end on every tree whose directories open, whose symbolic links have at
  -- most 1024 bytes and whose blocks have at most 4096. Every entry but `.` and `..`, at every depth, is then in the image, in the directory
  -- that was made for the one it is in, or there is a message about it or about that directory.
  pub trawl-Accounted :
      (entries : Entries) (parent : ℕ) (t : Events)
      → Readable entries
      → (t1 : Events) × (trawl lib entries parent t ≡ ok t1)
        × Keeps t t1
        × Accounted entries parent t1
  unfolding trawl
  trawl-Accounted no_more parent t readable = (t, refl, Keeps-same t, tt)
  trawl-Accounted (entry name info kind below false rest) parent t
        (open_here, short, deeper, further) =
      cc
  trawl-Accounted (entry name info kind below true rest) parent t
        (open_here, short, deeper, further) =
      let enter : ℕ → Events → Res Events = λ new t. trawl lib below new t in
      let entered = λ (new : ℕ) (t : Events). trawl-Accounted below new t deeper in
      let (t1, runs, keeps, placed) = round_lem parent name below enter entered info kind t short in
      let (t2, more, kept, others) = trawl-Accounted rest parent t1 further in
      let here =
        Accounted-Keeps (entry name info kind below true no_more) parent t1 t2 kept (placed, tt) in
      (t2, rw (trawl, runs) more, Keeps-then keeps kept, (here.0, others))
