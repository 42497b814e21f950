-- ===== src/Fs2xml/Disk/Shape.antt =====
-- `WalkDir` settles how files are stored, and leaves all else of the inodes alone.
use tcb.Base.{
  ℕ, zero, suc, ◌+◌, ◌≡◌, refl, sym, ap, subst, ◌∙◌, Bool, true, false, inl, inr, Bool-cases,
  Option, none, some, [], ◌∷◌, arith, length, get_elem?, set, Res, ok, exit, >>=-eq-ok,
  ok-injective, or_fault-eq-ok, or_fault, within, if◌then◌else◌, ltb, drop,
}
use tcb.Base.Text.{Str}
use tcb.Fs2xml.Inode.{Inode, Table, same_id}
use tcb.Fs2xml.Names.{should_be_loaded, should_be_compressed}
use tcb.Fs2xml.Merge.{is_kind, s_ifdir, s_ifreg}
use tcb.Fs2xml.Merge.Laws.{IsTree, IsBefore}
use tcb.Fs2xml.Disk.{
  Disk, command_size, disk_path, file_bytes, set_src, walk_file, dir_entry, dir_loop, walk_dir,
  create_filesystem,
}

-- Two inodes that differ at most in how the file is stored: `src`, `compressed` and `load`.
pub record Like (m n : Inode) : Type 0 where
  pub name : n.name ≡ m.name
  pub parentid : n.parentid ≡ m.parentid
  pub mode : n.mode ≡ m.mode
  pub type : n.type ≡ m.type
  pub size : n.size ≡ m.size
  pub owner : (n.uid ≡ m.uid) × (n.gid ≡ m.gid)
  pub link : n.link ≡ m.link
  pub contents : n.contents ≡ m.contents
  pub mtime : n.mtime ≡ m.mtime

abbrev pub SameShape : Table → Table → Type 0
SameShape [] [] = Unit
SameShape [] (n ∷ ns) = ⊥
SameShape (m ∷ ms) [] = ⊥
SameShape (m ∷ ms) (n ∷ ns) = Like m n × SameShape ms ns

Like-refl : (n : Inode) → Like n n
Like-refl n = ground arith

Like-trans : (a b c : Inode) → Like a b → Like b c → Like a c
Like-trans a b c h k = ground arith

SameShape-refl : (t : Table) → SameShape t t
SameShape-refl [] = tt
SameShape-refl (n ∷ ns) = (Like-refl n, SameShape-refl ns)

SameShape-trans : (a b c : Table) → SameShape a b → SameShape b c → SameShape a c
SameShape-trans [] [] c h k = k
SameShape-trans [] (y ∷ b) c h k = absurd h
SameShape-trans (x ∷ a) [] c h k = absurd h
SameShape-trans (x ∷ a) (y ∷ b) [] h k = k
SameShape-trans (x ∷ a) (y ∷ b) (z ∷ c) h k =
    (Like-trans x y z h.0 k.0, SameShape-trans a b c h.1 k.1)

SameShape-set :
    (t : Table) (i : ℕ) (m n : Inode) → get_elem? t i ≡ some m → Like m n → SameShape t (set t i n)
SameShape-set [] i m n at h = absurd (cc)
SameShape-set (x ∷ t) zero m n at h =
    let e : m ≡ x = cc in (subst (λ k. Like k n) e h, SameShape-refl t)
SameShape-set (x ∷ t) (suc i) m n at h = (Like-refl x, SameShape-set t i m n at h)

SameShape-at :
    (a b : Table) (i : ℕ) (n : Inode)
    → SameShape a b
    → get_elem? b i ≡ some n
    → (m : Inode) × (get_elem? a i ≡ some m) × Like m n
SameShape-at [] [] i n h at = absurd (cc)
SameShape-at [] (y ∷ b) i n h at = absurd h
SameShape-at (x ∷ a) [] i n h at = absurd h
SameShape-at (x ∷ a) (y ∷ b) zero n h at = let e : y ≡ n = cc in (x, refl, subst (Like x) e h.0)
SameShape-at (x ∷ a) (y ∷ b) (suc i) n h at = SameShape-at a b i n h.1 at

length-SameShape : (a b : Table) → SameShape a b → length a ≡ length b
length-SameShape [] [] h = refl
length-SameShape [] (y ∷ b) h = absurd h
length-SameShape (x ∷ a) [] h = absurd h
length-SameShape (x ∷ a) (y ∷ b) h = ap suc (length-SameShape a b h.1)

-- A tree stays one.
pub SameShape-IsTree : (a b : Table) → SameShape a b → IsTree a → IsTree b
SameShape-IsTree a b h v = record {
  parents = λ i n at.
      let (m, was, like) = SameShape-at a b i n h at in
      subst (IsBefore i) (sym like.parentid) (v.parents i m was);
  names = λ i j m n at at' ans.
      let (m0, was, like) = SameShape-at a b i m h at in
      let (n0, was', like') = SameShape-at a b j n h at' in
      v.names i j m0 n0 was was'
        (sym like.parentid ∙ ans.0 ∙ like'.parentid, sym like.name ∙ ans.1 ∙ like'.name);
  fits = omega (arith, length-SameShape a b h, v.fits);
}

set_src-Like : (n : Inode) (path : Str × Bool) (n' : Inode) → set_src n path ≡ ok n' → Like n n'
unfolding set_src
set_src-Like n path n' h = elim (Bool-cases path.1) [
  | inr e ↦ let same : n ≡ n' = ground arith in subst (Like n) same (Like-refl n)
  | inl e ↦
      let same : record n { src = drop 3 path.0 } ≡ n' = ground arith in
      subst (Like n) same (ground arith)
]

flags-Like :
    (n : Inode) (squeeze load : Bool)
    → let n2 = if squeeze then record n { compressed = true } else n in
      Like n (if load then record n2 { load = true } else n2)
flags-Like n true true = ground arith
flags-Like n true false = ground arith
flags-Like n false true = ground arith
flags-Like n false false = ground arith

walk_file-SameShape :
    (can_create : Str → Bool) (i : ℕ) (n : Inode) (d d' : Disk)
    → get_elem? d.inodes i ≡ some n
    → walk_file can_create i n d ≡ ok d'
    → SameShape d.inodes d'.inodes
unfolding walk_file
walk_file-SameShape can_create i n d d' at h =
    let (path, _, h1) = >>=-eq-ok (disk_path d.inodes (some i)) _ h in
    let (n1, src, h2) = >>=-eq-ok (set_src n path) _ h1 in
    let (bytes, _, h3) = >>=-eq-ok (if can_create path.0 then file_bytes n1 else exit 1) _ h2 in
    let (squeeze, _, h4) = >>=-eq-ok (should_be_compressed n1.name n1.contents n1.size) _ h3 in
    let (_, _, h5) =
      >>=-eq-ok (within (if squeeze then ltb (length path.0 + 12) command_size else true)) _ h4 in
    let n2 = if squeeze then record n1 { compressed = true } else n1 in
    let n3 = if should_be_loaded n2.name then record n2 { load = true } else n2 in
    let e : set d.inodes i n3 ≡ d'.inodes = ap (λ (x : Disk). x.inodes) (ok-injective h5) in
    subst (SameShape d.inodes) e (
      SameShape-set d.inodes i n n3 at (
        Like-trans n n1 n3 (set_src-Like n path n1 src)
          (flags-Like n1 squeeze (should_be_loaded n2.name))))

module _ (can_create : Str → Bool) (walk : Option ℕ → Disk → Res Disk)
    (keeps : (id : Option ℕ) (d d' : Disk) → walk id d ≡ ok d' → SameShape d.inodes d'.inodes) where
  dir_entry-SameShape :
      (i : ℕ) (parent : Option ℕ) (d d' : Disk)
      → dir_entry can_create walk i parent d ≡ ok d'
      → SameShape d.inodes d'.inodes
  unfolding dir_entry
  dir_entry-SameShape i parent d d' h =
      let (n, read, h1) = >>=-eq-ok (or_fault (get_elem? d.inodes i)) _ h in
      let at = or_fault-eq-ok (get_elem? d.inodes i) read in
      let kept : d ≡ d' → SameShape d.inodes d'.inodes =
        λ e. subst (λ (x : Disk). SameShape d.inodes x.inodes) e (SameShape-refl d.inodes) in
      elim (Bool-cases (same_id n.parentid parent)) [
        | inr e ↦ kept (ground arith)
        | inl e ↦ elim (Bool-cases (is_kind s_ifdir n.mode)) [
          | inl dir ↦ keeps (some i) d d' (ground arith)
          | inr other ↦ elim (Bool-cases (is_kind s_ifreg n.mode)) [
            | inl reg ↦ walk_file-SameShape can_create i n d d' at (ground arith)
            | inr link ↦ kept (ground arith)
          ]
        ]
      ]

  dir_loop-SameShape :
      (left i : ℕ) (parent : Option ℕ) (d d' : Disk)
      → dir_loop can_create walk left i parent d ≡ ok d'
      → SameShape d.inodes d'.inodes
  unfolding dir_loop
  dir_loop-SameShape zero i parent d d' h =
      subst (λ (x : Disk). SameShape d.inodes x.inodes) (ok-injective h) (SameShape-refl d.inodes)
  dir_loop-SameShape (suc left) i parent d d' h =
      let (e, done, h1) = >>=-eq-ok (dir_entry can_create walk i parent d) _ h in
      SameShape-trans d.inodes e.inodes d'.inodes (dir_entry-SameShape i parent d e done)
        (dir_loop-SameShape left (suc i) parent e d' h1)

pub walk_dir-SameShape :
    (can_create : Str → Bool) (fuel : ℕ) (parent : Option ℕ) (d d' : Disk)
    → walk_dir can_create fuel parent d ≡ ok d'
    → SameShape d.inodes d'.inodes
unfolding walk_dir
walk_dir-SameShape can_create zero parent d d' h = absurd (cc)
walk_dir-SameShape can_create (suc fuel) parent d d' h =
    let (path, _, h1) = >>=-eq-ok (disk_path d.inodes parent) _ h in
    dir_loop-SameShape can_create (walk_dir can_create fuel) (walk_dir-SameShape can_create fuel)
      (length d.inodes) 0 parent _ d' h1

-- When `CreateFilesystem` returns, the table has the inodes that it had, in their places: only `src`,
-- `compressed` and `load` may have changed.
pub create_filesystem-SameShape :
    (can_create : Str → Bool) (fuel : ℕ) (inodes : Table) (d : Disk)
    → create_filesystem can_create fuel inodes ≡ ok d
    → SameShape inodes d.inodes
unfolding create_filesystem
create_filesystem-SameShape can_create fuel inodes d h =
    walk_dir-SameShape can_create fuel none (record { inodes = inodes; actions = [] }) d h
