-- ===== src/Fs2xml/Tests.antt =====
-- Runs of the fs2xml model on a small archive, and its theorems at concrete data.
use tcb.Base.{
  ℕ, suc, ◌+◌, ◌^◌, ◌<◌, ◌≡◌, refl, true, Option, none, some, List, [], ◌∷◌, ◌++◌, arith, length,
  get_elem?, replicate, Res, ok, exit, take, Ends,
}
use tcb.Base.Text.{
  Str, codes, print_int, print_octal, strtol_8, has_prefix, strncpy, c_string, str_eq,
}
use tcb.Base.{if◌then◌else◌}
use tcb.Base.{◌↔◌, ◌≢◌, ◌⊎◌, inl, inr, ◌>>=◌}
use tcb.Fs2xml.Inode.Search.{Answers, search_inode_found, is_empty_iff}
use tcb.Fs2xml.Names.Laws.{split-join, ends_with_iff}
use tcb.Fs2xml.Paths.{path_size}
use tcb.Fs2xml.Paths.Laws.{Lineage, slashed, get_full_path_lem}
use tcb.Fs2xml.Merge.Laws.{IsTree, IsTree-nil, Grows, merge_file-IsTree}
use tcb.Fs2xml.Untar.Laws.{Extends, untar-Keeps}
use tcb.Fs2xml.Untar.Ends.{HasSizes, untar-Ends}
use tcb.Fs2xml.Walk.{walk_xml, walk_json}
use tcb.Fs2xml.Walk.Ends.{Returns, Stops, walk-Ends}
use tcb.Fs2xml.Walk.Commas.{separated, child_items, walk_json-separated}
use tcb.Fs2xml.Disk.{Disk}
use tcb.Fs2xml.Disk.Shape.{SameShape, create_filesystem-SameShape}
use tcb.Fs2xml.Main.Laws.{main-IsTree}
use tcb.Fs2xml.Inode.{Inode, Table, search_inode, is_empty}
use tcb.Fs2xml.Names.{split, ends_with, should_be_loaded, should_be_compressed}
use tcb.Fs2xml.Paths.{get_full_path, get_full_path_not_hidden}
use tcb.Fs2xml.Untar.{untar, untar_block}
use tcb.Fs2xml.Merge.{merge_file}
use tcb.Fs2xml.Main.{main, Output}
use tcb.Fs2xml.Disk.{create_filesystem}
use tcb.Fs2xml.Walk.{create_xml, create_json}

-- A field of a header: its text, filled up with NULs.
abbrev field : ℕ → Str → Str
field size text = take size (text ++ replicate size 0)

abbrev entry : Str → Str → Str → Str → Str → List ℕ
entry name uid size typeflag link =
    field 100 name
    ++ field 8 (codes "0000644")
    ++ field 8 uid
    ++ field 8 (codes "0000000")
    ++ field 12 size
    ++ field 12 (codes "00000000000")
    ++ field 8 []
    ++ typeflag
    ++ field 100 link
    ++ field 6 (codes "ustar")
    ++ replicate 249 0

-- A directory, two files in it, and a link.
abbrev archive : List ℕ
archive =
    entry (codes "./etc/") (codes "0") (codes "0") (codes "5") []
    ++ entry (codes "./etc/_rc") (codes "1750") (codes "5") (codes "0") []
    ++ field 512 (codes "hello")
    ++ entry (codes "./etc/motd") (codes "7") (codes "0") (codes "0") []
    ++ entry (codes "./l") (codes "0") (codes "0") (codes "2") (codes "etc/motd")
    ++ replicate 1024 0

untar_archive : (t : Table) × (untar 12 archive (length archive) [] ≡ ok t)
unfolding untar untar_block has_prefix strtol_8 merge_file c_string split search_inode strncpy
    str_eq
untar_archive = (_, refl)

unpack : Str → List ℕ → Option (List ℕ × ℕ)
unpack name buf = if str_eq name (codes "a") then some (archive, length archive) else none

run : List Str → Res Output
unfolding unpack main untar untar_block has_prefix strtol_8 merge_file c_string split search_inode
    strncpy str_eq create_filesystem get_full_path_not_hidden should_be_compressed should_be_loaded
    create_xml create_json is_empty print_int print_octal
run names = main unpack (λ _. true) names []

-- Hidden names, owners and sizes as they come out in fs.json.
run_json :
    (o : Output) × (run (codes "a" ∷ []) ≡ ok o)
    × (o.json
        ≡ codes
            "{\"src\":\"fs/\", \"fs\":[\n\t{ \"name\":\"etc\", \"mode\":\"40644\", \"child\":[\n"
          ++ codes "\t\t{ \"name\":\"_rc\", \"mode\":\"100644\", \"size\":5, \"uid\":1000, "
          ++ codes "\"src\":\"etc/rc\"},\n"
          ++ codes "\t\t{ \"name\":\"motd\", \"mode\":\"100644\", \"size\":0}\n\t]},\n"
          ++ codes "\t{ \"name\":\"l\", \"mode\":\"120644\", \"path\":\"etc/motd\"}\n]}\n")
unfolding run
run_json = (_, refl, refl)

run_fails : (run [] ≡ exit 1) × (run (codes "b" ∷ []) ≡ exit 1)
unfolding run
run_fails = (refl, refl)

-- A `./` entry makes `Split` return 0 rows.
split_root : split (codes "./") ≡ ok (0, [] ∷ [])
unfolding split
split_root = refl

merged : Table
unfolding untar_archive
merged = untar_archive.0

merged-IsTree : IsTree merged
unfolding merged
merged-IsTree = (untar-Keeps 12 archive (length archive) [] merged IsTree-nil untar_archive.1).0

found_inode :
    ((k : ℕ)
      → search_inode merged (codes "motd") (some 0) ≡ some k
      → (n : Inode) × (get_elem? merged k ≡ some n) × Answers n (codes "motd") (some 0))
    × (search_inode merged (codes "motd") (some 0) ≡ none
        → (j : ℕ) (n : Inode) → get_elem? merged j ≡ some n
        → ¬ Answers n (codes "motd") (some 0))
found_inode = search_inode_found merged (codes "motd") (some 0)

empty_parent :
    (is_empty merged (some 1) ≡ true)
    ↔ ((j : ℕ) (n : Inode) → get_elem? merged j ≡ some n → n.parentid ≢ some 1)
empty_parent = is_empty_iff merged (some 1)

split-join_example : split (codes "./etc/rc") ≡ ok (2, codes "etc" ∷ codes "rc" ∷ [])
split-join_example =
    split-join (codes "etc") (codes "rc" ∷ []) (omega arith) (omega arith) (omega arith)

has_suffix :
    (ends_with (codes "a.gz") (codes ".gz") ≡ true)
    ↔ ((pre : Str) × (codes "a.gz" ≡ pre ++ codes ".gz"))
has_suffix = ends_with_iff (codes "a.gz") (codes ".gz")

get_full_path_lem_example :
    (names : List Str) × Lineage merged (some 2) names
    × (length (codes "fs") + length (slashed names) < path_size
        → get_full_path (suc (length merged)) merged (codes "fs") (some 2)
          ≡ ok (codes "fs" ++ slashed names))
unfolding merged
get_full_path_lem_example = get_full_path_lem merged (codes "fs") 2 merged-IsTree (omega arith)

first_merge : (t : Table) × (merge_file [] archive ≡ ok t)
unfolding merge_file has_prefix strtol_8 c_string split search_inode strncpy str_eq
first_merge = (_, refl)

merge_file-IsTree_example : IsTree first_merge.0 × Grows [] first_merge.0
merge_file-IsTree_example = merge_file-IsTree [] archive first_merge.0 IsTree-nil first_merge.1

untar-Keeps_example : IsTree untar_archive.0 × Extends [] untar_archive.0
untar-Keeps_example =
    untar-Keeps 12 archive (length archive) [] untar_archive.0 IsTree-nil untar_archive.1

abbrev one_file : List ℕ
one_file = entry (codes "a") (codes "0") (codes "3") (codes "0") [] ++ field 512 (codes "abc")

one_file-HasSizes : HasSizes one_file 1024
unfolding strtol_8
one_file-HasSizes p size below aligned read = elim at_block [
  | inl e ↦ sized 3 (rw e at read) (omega arith)
  | inr e ↦ sized 0 (rw e at read) (omega arith)
]
  where
    at_block : (p ≡ 0) ⊎ (p ≡ 512)
    at_block = omega arith

    sized : (k : ℕ) → some k ≡ some size → k < 2 ^ 31 → size < 2 ^ 31
    sized k h small = let e : k ≡ size = cc in rw (← e) small

untar-Ends_example : Ends (untar 4 one_file 1024 [])
untar-Ends_example = untar-Ends one_file 1024 [] one_file-HasSizes

walk-Ends_example :
    Returns (walk_xml (suc (length merged)) merged none 1)
    × Stops (walk_json (suc (length merged)) merged none 1)
walk-Ends_example = walk-Ends merged 1 merged-IsTree

walk_json-separated_example :
    walk_json 5 merged none 1
    ≡ (child_items (walk_json 4 merged) merged merged 0 none 1 >>= λ items. ok (separated items))
walk_json-separated_example = walk_json-separated 4 merged none 1

walked : (d : Disk) × (create_filesystem (λ _. true) 5 merged ≡ ok d)
unfolding merged create_filesystem get_full_path_not_hidden should_be_compressed should_be_loaded
    str_eq
walked = (_, refl)

create_filesystem-SameShape_example : SameShape merged walked.0.inodes
create_filesystem-SameShape_example =
    create_filesystem-SameShape (λ _. true) 5 merged walked.0 walked.1

main-IsTree_example :
    IsTree run_json.0.disk.inodes
    × (create_xml (suc (length run_json.0.disk.inodes)) run_json.0.disk.inodes ≡ ok run_json.0.xml)
    × (create_json (suc (length run_json.0.disk.inodes)) run_json.0.disk.inodes
        ≡ ok run_json.0.json)
unfolding run
main-IsTree_example = main-IsTree unpack (λ _. true) (codes "a" ∷ []) [] run_json.0 run_json.1
