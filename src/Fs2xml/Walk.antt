-- ===== src/Fs2xml/Walk.antt =====
-- `WalkXML` and `WalkJSON`: what goes into fs.xml and fs.json, and the two functions that write them.
pub mod Ends
pub mod Commas
use tcb.Base.{
  ℕ, zero, suc, ◌+◌, ◌-◌, Bool, true, false, Option, none, some, List, [], ◌∷◌, ◌++◌, ◌==◌,
  if◌then◌else◌, length, replicate, Res, ok, exit, running, ◌>>=◌,
}
use tcb.Base.Text.{Str, codes, print_octal, print_int}
use tcb.Fs2xml.Inode.{Inode, Table, same_id, is_empty}
use tcb.Fs2xml.Merge.{s_ifdir, s_ifreg, s_iflnk, is_kind}

-- `PrintIdent`
abbrev pub print_ident : ℕ → Str
print_ident sub = replicate sub 9

-- An attribute that is printed only if the field is not 0.
abbrev pub unless_zero : ℕ → Str → Str
unless_zero field text = if field == 0 then [] else text

abbrev pub quote : Str
quote = codes "'"

module _ (walk : Option ℕ → ℕ → Res Str) (inodes : Table) where
  -- What `WalkXML` prints for inode `i`.
  unfoldable pub xml_inode : ℕ → Inode → ℕ → Res Str
  xml_inode i n sub =
      let owner =
        unless_zero n.uid (codes " uid='" ++ print_int n.uid ++ quote)
        ++ unless_zero n.gid (codes " gid='" ++ print_int n.gid ++ quote) in
      let head = n.name ++ codes "' mode='" ++ print_octal n.mode in
      if is_kind s_ifdir n.mode
      then (do
        inner ← walk (some i) (sub + 1)
        let open_end = if is_empty inodes (some i) then [] else 10 ∷ []
        let close_start = if is_empty inodes (some i) then [] else print_ident sub
        ok (
            print_ident sub
            ++ codes "<Dir name='"
            ++ head
            ++ quote
            ++ owner
            ++ codes ">"
            ++ open_end
            ++ inner
            ++ close_start
            ++ codes "</Dir>"
            ++ 10 ∷ []))
      else if is_kind s_ifreg n.mode
      then ok (
          print_ident sub
          ++ codes "<File name='"
          ++ head
          ++ codes "' size='"
          ++ print_int n.size
          ++ quote
          ++ owner
          ++ (if n.compressed then codes " compressed='1'" else [])
          ++ (if n.load then codes " load='1'" else [])
          ++ unless_zero (length n.src) (codes " src='" ++ n.src ++ quote)
          ++ codes "/>"
          ++ 10 ∷ [])
      else if is_kind s_iflnk n.mode
      then ok (
          print_ident sub
          ++ codes "<Link name='"
          ++ head
          ++ codes "' path='"
          ++ n.link
          ++ codes "' />"
          ++ 10 ∷ [])
      else ok []

  -- The loop of `WalkXML` from index `i` on.
  unfoldable pub xml_loop : Table → ℕ → Option ℕ → ℕ → Res Str
  unfolding xml_inode
  xml_loop [] i parent sub = ok []
  xml_loop (n ∷ ns) i parent sub = do
    here ← if same_id n.parentid parent then xml_inode i n sub else ok []
    rest ← xml_loop ns (suc i) parent sub
    ok (here ++ rest)

  -- What `WalkJSON` prints for inode `i`, without what goes behind it.
  unfoldable pub json_inode : ℕ → Inode → ℕ → Res Str
  json_inode i n sub =
      let owner =
        unless_zero n.uid (codes ", \"uid\":" ++ print_int n.uid)
        ++ unless_zero n.gid (codes ", \"gid\":" ++ print_int n.gid) in
      let head =
        print_ident sub
        ++ codes "{ \"name\":\""
        ++ n.name
        ++ codes "\", \"mode\":\""
        ++ print_octal n.mode
        ++ codes "\"" in
      if is_kind s_ifdir n.mode
      then (if is_empty inodes (some i) then ok (head ++ owner ++ codes ", \"child\":[] }") else (do
        inner ← walk (some i) (sub + 1)
        ok (
            head
            ++ owner
            ++ codes ", \"child\":["
            ++ (10 ∷ [])
            ++ inner
            ++ print_ident sub
            ++ codes "]}")))
      else if is_kind s_ifreg n.mode
      then ok (
          head
          ++ codes ", \"size\":"
          ++ print_int n.size
          ++ owner
          ++ (if n.compressed then codes ", \"c\":1" else [])
          ++ (if n.load then codes ", \"load\":1" else [])
          ++ unless_zero (length n.src) (codes ", \"src\":\"" ++ n.src ++ codes "\"")
          ++ codes "}")
      else if is_kind s_iflnk n.mode
      then ok (head ++ codes ", \"path\":\"" ++ n.link ++ codes "\"}")
      else exit 1

  -- The second loop of `WalkJSON`, from index `i` on: `n` children are left.
  unfoldable pub json_loop : Table → ℕ → ℕ → Option ℕ → ℕ → Res Str
  unfolding json_inode
  json_loop [] i left parent sub = ok []
  json_loop (n ∷ ns) i left parent sub = elim (same_id n.parentid parent) [
    | true ↦ do
      item ← json_inode i n sub
      rest ← json_loop ns (suc i) (left - 1) parent sub
      ok (item ++ (if left - 1 == 0 then 10 ∷ [] else b',' ∷ 10 ∷ []) ++ rest)
    | false ↦ json_loop ns (suc i) left parent sub
  ]

-- The first loop of `WalkJSON`: how many children the parent has.
unfoldable pub count_children : Table → Option ℕ → ℕ
unfolding same_id
count_children [] parent = 0
count_children (n ∷ ns) parent =
    (if same_id n.parentid parent then 1 else 0) + count_children ns parent

-- `WalkXML`
unfoldable pub walk_xml : ℕ → Table → Option ℕ → ℕ → Res Str
unfolding xml_loop
walk_xml zero inodes parent sub = running
walk_xml (suc fuel) inodes parent sub = xml_loop (walk_xml fuel inodes) inodes inodes 0 parent sub

-- `WalkJSON`
unfoldable pub walk_json : ℕ → Table → Option ℕ → ℕ → Res Str
unfolding json_loop count_children
walk_json zero inodes parent sub = running
walk_json (suc fuel) inodes parent sub =
    json_loop (walk_json fuel inodes) inodes inodes 0 (count_children inodes parent) parent sub

-- `CreateXML`, of a file that could be opened.
unfoldable pub create_xml : ℕ → Table → Res Str
unfolding walk_xml
create_xml fuel inodes = do
  inner ← walk_xml fuel inodes none 1
  ok (codes "<FS src='fs/'>" ++ (10 ∷ []) ++ inner ++ codes "</FS>" ++ 10 ∷ [])

-- `CreateJSON`, of a file that could be opened.
unfoldable pub create_json : ℕ → Table → Res Str
unfolding walk_json
create_json fuel inodes = do
  inner ← walk_json fuel inodes none 1
  ok (codes "{\"src\":\"fs/\", \"fs\":[" ++ (10 ∷ []) ++ inner ++ codes "]}" ++ 10 ∷ [])
