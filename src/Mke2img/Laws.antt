-- ===== src/Mke2img/Laws.antt =====
-- No entry of the tree is lost without a message.
use tcb.Base.{
  ℕ, ◌≤◌, ◌≡◌, refl, ◌⊎◌, inl, inr, Bool, true, false, not, Option, none, some, List, [], ◌∷◌, ◌==◌,
  ==_iff, if◌then◌else◌, sym, ap, All, length,
}
use tcb.Mke2img.{
  Name, Info, Inode, FileType, Kind, directory, regular, link_to, device, other, Entries, no_more,
  entry, Call, mkdir, link, expand_dir, write_new_inode, alloc_stats, file_open, file_write, Event,
  called, message, Events, Library, ask, warned, add_name, attributes, is_dot,
}

abbrev pub Has : Event → Events → Type 0
Has e [] = ⊥
Has e (x ∷ t) = (e ≡ x) ⊎ Has e t

-- What has happened stays.
pub record Keeps (t later : Events) : Type 0 where
  pub keep : (e : Event) → Has e t → Has e later

pub Keeps-same : (t : Events) → Keeps t t
Keeps-same t = record { keep = λ e h. h }

pub Keeps-then : {a b c : Events} → Keeps a b → Keeps b c → Keeps a c
Keeps-then first second = record { keep = λ e h. second.keep e (first.keep e h) }

pub Keeps-one : (x : Event) (t : Events) → Keeps t (x ∷ t)
Keeps-one x t = record { keep = λ e h. inr h }

pub Keeps-if : (b : Bool) (t x y : Events) → Keeps t x → Keeps t y → Keeps t (if b then x else y)
Keeps-if true t x y h k = h
Keeps-if false t x y h k = k

-- An entry is in its directory, with the entries of its own if it is a directory that could be entered;
-- or there is a message about it.
abbrev pub Accounted : Entries → ℕ → Events → Type 0
Accounted no_more parent t = Unit
Accounted (entry name info kind below opens rest) parent t =
    ((is_dot name ≡ true)
      ⊎ (Has (message name) t
          ⊎ (((new : ℕ) × (type : FileType) × Has (called (link parent name new type) 0) t)
              ⊎ ((new : ℕ) × Has (called (mkdir parent new name) 0) t × Accounted below new t))))
    × Accounted rest parent t

pub Accounted-Keeps :
    (entries : Entries) (parent : ℕ) (t later : Events)
    → Keeps t later
    → Accounted entries parent t
    → Accounted entries parent later
Accounted-Keeps no_more parent t later k h = tt
Accounted-Keeps (entry name info kind below opens rest) parent t later k (inl dot, h) =
    (inl dot, Accounted-Keeps rest parent t later k h)
Accounted-Keeps (entry name info kind below opens rest) parent t later k (inr (inl said), h) =
    (inr (inl (k.keep (message name) said)), Accounted-Keeps rest parent t later k h)
Accounted-Keeps (entry name info kind below opens rest) parent t later k
      (inr (inr (inl (new, type, made))), h) =
    (
      inr (inr (inl (new, type, k.keep (called (link parent name new type) 0) made))),
      Accounted-Keeps rest parent t later k h,
    )
Accounted-Keeps (entry name info kind below opens rest) parent t later k
      (inr (inr (inr (new, made, inside))), h) =
    (
      inr (
          inr (
            inr (
              new,
              k.keep (called (mkdir parent new name) 0) made,
              Accounted-Keeps below new t later k inside,
            ))),
      Accounted-Keeps rest parent t later k h,
    )

-- A library that opens files and writes what it is given.
pub record Reliable (lib : Library) : Type 0 where
  pub opens : (t : Events) (new : ℕ) → lib.answer t (file_open new) ≡ 0
  pub writes : (t : Events) (new : ℕ) (block : List ℕ) → lib.answer t (file_write new block) ≡ 0
  pub whole : (t : Events) (n : ℕ) → lib.written t n ≡ n

-- A tree whose directories open, and whose symbolic links and blocks fit their buffers.
abbrev pub FitsBuffer : List ℕ → Type 0
FitsBuffer block = length block ≤ 4096

abbrev pub Fits : Option Info → Kind → Type 0
Fits none kind = Unit
Fits (some info) (link_to target) = info.st_size ≤ 1024
Fits (some info) (directory enters) = Unit
Fits (some info) (regular none) = Unit
Fits (some info) (regular (some blocks)) = All FitsBuffer blocks
Fits (some info) (device type) = Unit
Fits (some info) other = Unit

abbrev pub Readable : Entries → Type 0
Readable no_more = Unit
Readable (entry name info kind below opens rest) =
    (opens ≡ true) × Fits info kind × Readable below × Readable rest

module _ (lib : Library) where
  pub warned-Keeps : (c : Call) (name : Name) (t : Events) → Keeps t (warned lib c name t)
  warned-Keeps c name t =
      let one = Keeps-one (called c (lib.answer t c)) t in
      Keeps-if (lib.answer t c == 0) t (ask lib c t).1 (message name ∷ (ask lib c t).1) one
        (Keeps-then one (Keeps-one (message name) (ask lib c t).1))

  pub attributes-Keeps :
      (new : ℕ) (inode : Inode) (name : Name) (t : Events)
      → Keeps t (attributes lib new inode name t)
  attributes-Keeps new inode name t =
      Keeps-then (warned-Keeps (write_new_inode new inode) name t)
        (Keeps-one (called (alloc_stats new) _) (warned lib (write_new_inode new inode) name t))

  -- What `add_name` leaves: the name, or a message.
  pub record Added (c : Call) (name : Name) (t : Events) (r : Bool × Events) : Type 0 where
    pub keeps : Keeps t r.1
    pub leaves : if r.0 then Has (called c 0) r.1 else Has (message name) r.1

  made_by :
      (c : Call) (t : Events) → (lib.answer t c == 0) ≡ true → Has (called c 0) (ask lib c t).1
  made_by c t e = inl (ap (called c) (sym ((==_iff (lib.answer t c) 0).0 e)))

  pub add_name-Added :
      (c : Call) (parent : ℕ) (name : Name) (t : Events)
      → Added c name t (add_name lib c parent name t)
  unfolding add_name
  add_name-Added c parent name t = first (lib.answer t c == 0) refl
    where
      t1 : Events
      t1 = (ask lib c t).1

      t2 : Events
      t2 = (ask lib (expand_dir parent) t1).1

      t3 : Events
      t3 = (ask lib c t2).1

      k1 : Keeps t t1
      k1 = Keeps-one (called c (lib.answer t c)) t

      k2 : Keeps t t2
      k2 =
          Keeps-then k1
            (Keeps-one (called (expand_dir parent) (lib.answer t1 (expand_dir parent))) t1)

      k3 : Keeps t t3
      k3 = Keeps-then k2 (Keeps-one (called c (lib.answer t2 c)) t2)

      third :
          (b : Bool)
          → (lib.answer t2 c == 0) ≡ b
          → Added c name t (if b then (true, t3) else (false, message name ∷ t3))
      third true e = record { keeps = k3; leaves = made_by c t2 e }
      third false e = record {
        keeps = Keeps-then k3 (Keeps-one (message name) t3);
        leaves = inl refl;
      }

      rest : Bool × Events
      rest = if lib.answer t2 c == 0 then (true, t3) else (false, message name ∷ t3)

      second : (b : Bool) → Added c name t (if not b then (false, message name ∷ t2) else rest)
      second true = third (lib.answer t2 c == 0) refl
      second false = record {
        keeps = Keeps-then k2 (Keeps-one (message name) t2);
        leaves = inl refl;
      }

      first :
          (b : Bool)
          → (lib.answer t c == 0) ≡ b
          → Added c name t (
              if b
              then (true, t1)
              else if not (lib.answer t1 (expand_dir parent) == 0)
              then (false, message name ∷ t2)
              else rest)
      first true e = record { keeps = k1; leaves = made_by c t e }
      first false e = second (lib.answer t1 (expand_dir parent) == 0)
