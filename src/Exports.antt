-- ===== src/Exports.antt =====
-- src/macho/exports.rs: the export trie of a dylib, a prefix tree in wire form, and the flat list that a
-- text stub gives instead. A trie position is absolute; whether bytes are UTF-8 is a parameter.
pub mod Path
pub mod Walk
pub mod Find
mod Tests
use mathlib.Core.Option
use Prim.Native.Nat.{bit_and}
use afs_ld.Prelude.{
  ℕ, zero, suc, ◌+◌, ◌-◌, ◌^◌, ◌%◌, Bool, true, false, not, ◌&&◌, ◌||◌, List, [], ◌∷◌, ◌++◌, Option,
  none, some, Result, ok, err, ◌>>=◌, ◌>>◌, ensure, ok_or, length, take, drop, ltb, leb, ◌==◌,
  if◌then◌else◌,
}
use afs_ld.Prelude.Bytes.{Bytes, slice, position, byte_at, same_bytes, contains}
use afs_ld.Reader.{Read, ReadError, truncated, bad_cmdsize}
use afs_ld.Leb.{read_uleb}
use afs_ld.StringTable.{is_null}

pub data ExportKind : Type 0 where
  regular : (address : ℕ) → ExportKind
  thread_local : (address : ℕ) → ExportKind
  absolute : (address : ℕ) → ExportKind
  reexport : (ordinal : ℕ) (imported_name : Bytes) → ExportKind
  stub_and_resolver : (stub resolver : ℕ) → ExportKind

pub record ExportEntry : Type 0 where
  pub name : Bytes
  pub flags : ℕ
  pub kind : ExportKind

abbrev has_flag : ℕ → ℕ → Bool
has_flag flags mask = not (bit_and flags mask == 0)

unfoldable pub weak_def : ExportEntry → Bool
weak_def e = has_flag e.flags 0x04

pub data Exports : Type 0 where
  trie : Bytes → Exports
  flat : List ExportEntry → Exports

abbrev pub max_depth : ℕ
max_depth = 128

unfoldable pub read_uleb_at : Bytes → ℕ → Read (ℕ × ℕ)
unfolding read_uleb
read_uleb_at bytes off = do
  ensure (leb off (length bytes)) (truncated ((off + 1) % 2 ^ 64) (length bytes) "export trie uleb")
  read_uleb (drop off bytes)

unfoldable pub read_cstring_with_len : (Bytes → Bool) → Bytes → ℕ → Read (Bytes × ℕ)
read_cstring_with_len is_utf8 bytes off = do
  ensure (ltb off (length bytes)) (truncated (off + 1) (length bytes) "export trie c-string")
  n ←
      ok_or (position is_null (drop off bytes))
        (truncated (length bytes + 1) (length bytes) "export trie c-string (no terminator)")
  let s = slice bytes off (off + n)
  ensure (is_utf8 s) (bad_cmdsize 0 0 off "export trie string is not UTF-8")
  ok (s, n + 1)

unfoldable pub read_cstring : (Bytes → Bool) → Bytes → ℕ → Read Bytes
unfolding read_cstring_with_len
read_cstring is_utf8 bytes off = do (s, _) ← read_cstring_with_len is_utf8 bytes off; ok s

-- Where the terminal payload of a node starts and ends.
unfoldable pub terminal_bounds : Bytes → ℕ → Read (ℕ × ℕ)
unfolding read_uleb_at
terminal_bounds bytes node_off = do
  (terminal_size, n) ← read_uleb_at bytes node_off
  let start = node_off + n
  ensure (ltb start (2 ^ 64)) (bad_cmdsize 0 0 node_off "export trie terminal_size overflows")
  let end = start + terminal_size
  ensure (ltb end (2 ^ 64)) (bad_cmdsize 0 0 node_off "export trie terminal_size overflows")
  ensure (leb end (length bytes)) (truncated end (length bytes) "export trie terminal payload")
  ok (start, end)

unfoldable pub skip_terminal : Bytes → ℕ → Read ℕ
unfolding terminal_bounds
skip_terminal bytes node_off = do (_, end) ← terminal_bounds bytes node_off; ok end

-- The kind of an address, by the low two bits of the flags.
abbrev address_kind : ℕ → ℕ → ExportKind
address_kind low address =
    if low == 1
    then thread_local address
    else if low == 2
    then absolute address
    else regular address

read_reexport : (Bytes → Bool) → Bytes → ℕ → Read ExportKind
unfolding read_uleb_at read_cstring
read_reexport is_utf8 terminal cursor = do
  (ord, on) ← read_uleb_at terminal cursor
  imported_name ← read_cstring is_utf8 terminal (cursor + on)
  ok (reexport (ord % 2 ^ 32) imported_name)

read_stub : Bytes → ℕ → Read ExportKind
unfolding read_uleb_at
read_stub terminal cursor = do
  (stub, sn) ← read_uleb_at terminal cursor
  (resolver, _) ← read_uleb_at terminal (cursor + sn)
  ok (stub_and_resolver stub resolver)

read_address : ℕ → Bytes → ℕ → Read ExportKind
unfolding read_uleb_at
read_address flags terminal cursor = do
  (address, _) ← read_uleb_at terminal cursor
  ok (address_kind (bit_and flags 0x03) address)

unfoldable read_kind : (Bytes → Bool) → ℕ → Bytes → ℕ → Read ExportKind
unfolding read_reexport read_stub read_address
read_kind is_utf8 flags terminal cursor =
    if has_flag flags 0x08
    then read_reexport is_utf8 terminal cursor
    else if has_flag flags 0x10
    then read_stub terminal cursor
    else read_address flags terminal cursor

-- The flags and the kind of a payload; the decoders see no byte after it.
unfoldable pub read_payload : (Bytes → Bool) → Bytes → ℕ → ℕ → Read (ℕ × ExportKind)
unfolding read_uleb_at read_kind
read_payload is_utf8 bytes payload_start payload_end = do
  let terminal = take payload_end bytes
  (flags, m) ← read_uleb_at terminal payload_start
  kind ← read_kind is_utf8 flags terminal (payload_start + m)
  ok (flags, kind)

abbrev pub named : Bytes → ℕ × ExportKind → Option ExportEntry
named accumulated payload =
    some (record { name = accumulated; flags = payload.0; kind = payload.1 })

-- The export at a node, if it has one.
unfoldable pub read_terminal : (Bytes → Bool) → Bytes → ℕ → Bytes → Read (Option ExportEntry)
unfolding terminal_bounds read_payload
read_terminal is_utf8 bytes node_off accumulated = do
  (payload_start, payload_end) ← terminal_bounds bytes node_off
  let payload = read_payload is_utf8 bytes payload_start payload_end
  if payload_start == payload_end then ok none else payload >>= λ p. ok (named accumulated p)

-- One child record: its edge, the offset of the child, and the place after the record.
unfoldable pub read_child : (Bytes → Bool) → Bytes → ℕ → Read (Bytes × ℕ × ℕ)
unfolding read_cstring_with_len read_uleb_at
read_child is_utf8 bytes child_cursor = do
  (edge, advanced) ← read_cstring_with_len is_utf8 bytes child_cursor
  (child_off, off_len) ← read_uleb_at bytes (child_cursor + advanced)
  ok (edge, child_off, child_cursor + advanced + off_len)

-- What a walk has found and which nodes it has been at.
pub record Walked : Type 0 where
  pub out : List ExportEntry
  pub visited : List ℕ

abbrev pub push : Option ExportEntry → List ExportEntry → List ExportEntry
push none out = out
push (some entry) out = out ++ entry ∷ []

-- A call of `walk` at a child: its offset and its name so far.
abbrev pub Visit : Type 0
Visit = ℕ → Bytes → Walked → Read Walked

-- The loop over the children of a node.
unfoldable pub walk_children : (Bytes → Bool) → Bytes → Visit → ℕ → ℕ → Bytes → Walked → Read Walked
unfolding read_child
walk_children is_utf8 bytes visit zero child_cursor accumulated walked = ok walked
walk_children is_utf8 bytes visit (suc count) child_cursor accumulated walked = do
  (edge, child_off, next) ← read_child is_utf8 bytes child_cursor
  ensure (ltb child_off (length bytes))
      (bad_cmdsize 0 0 next "export trie child offset out of bounds")
  after ← visit child_off (accumulated ++ edge) walked
  walk_children is_utf8 bytes visit count next accumulated after

-- The body of `walk`, with the call at a child as a parameter.
unfoldable pub walk_node : (Bytes → Bool) → Bytes → Visit → Visit
unfolding read_terminal skip_terminal walk_children
walk_node is_utf8 bytes visit node_off accumulated walked = do
  ensure (not (contains walked.visited node_off))
      (bad_cmdsize 0 0 node_off "export trie contains a cycle")
  entry ← read_terminal is_utf8 bytes node_off accumulated
  cursor ← skip_terminal bytes node_off
  ensure (ltb cursor (length bytes))
      (truncated (cursor + 1) (length bytes) "export trie (missing child_count byte)")
  walk_children is_utf8 bytes visit (byte_at bytes cursor) (cursor + 1) accumulated
      (record { out = push entry walked.out; visited = node_off ∷ walked.visited })

-- `walk`, on `levels`: MAX_DEPTH + 1 - depth.
unfoldable pub walk : (Bytes → Bool) → Bytes → ℕ → Visit
unfolding walk_node
walk is_utf8 bytes zero node_off accumulated walked =
    err (bad_cmdsize 0 0 node_off "export trie depth cap exceeded")
walk is_utf8 bytes (suc levels) node_off accumulated walked =
    walk_node is_utf8 bytes (walk is_utf8 bytes levels) node_off accumulated walked

-- `remaining.len() >= edge.len() && &remaining[..edge.len()] == edge`
abbrev pub starts_with : Bytes → Bytes → Bool
starts_with remaining edge =
    leb (length edge) (length remaining) && same_bytes (take (length edge) remaining) edge

-- A call of `lookup` at a child: its offset and the rest of the name.
abbrev pub Descend : Type 0
Descend = ℕ → Bytes → Read (Option ExportEntry)

unfoldable pub lookup_children :
    (Bytes → Bool) → Bytes → Descend → ℕ → ℕ → Bytes → Read (Option ExportEntry)
unfolding read_child same_bytes
lookup_children is_utf8 bytes descend zero child_cursor remaining = ok none
lookup_children is_utf8 bytes descend (suc count) child_cursor remaining = do
  (edge, child_off, next) ← read_child is_utf8 bytes child_cursor
  let rest = lookup_children is_utf8 bytes descend count next remaining
  if starts_with remaining edge then descend child_off (drop (length edge) remaining) else rest

unfoldable pub lookup_node : (Bytes → Bool) → Bytes → Descend → Descend
unfolding read_terminal skip_terminal lookup_children
lookup_node is_utf8 bytes descend node_off [] = read_terminal is_utf8 bytes node_off []
lookup_node is_utf8 bytes descend node_off (b ∷ remaining) = do
  cursor ← skip_terminal bytes node_off
  if ltb cursor (length bytes)
      then lookup_children is_utf8 bytes descend (byte_at bytes cursor) (cursor + 1) (b ∷ remaining)
      else ok none

-- `lookup` in a trie, on `levels` as for `walk`.
unfoldable pub lookup_trie : (Bytes → Bool) → Bytes → ℕ → Descend
unfolding lookup_node
lookup_trie is_utf8 bytes zero node_off remaining =
    err (bad_cmdsize 0 0 node_off "export trie depth cap exceeded")
lookup_trie is_utf8 bytes (suc levels) node_off remaining =
    lookup_node is_utf8 bytes (lookup_trie is_utf8 bytes levels) node_off remaining

abbrev pub nothing_walked : Walked
nothing_walked = record { out = []; visited = [] }

unfoldable pub entries : (Bytes → Bool) → Exports → Read (List ExportEntry)
unfolding walk
entries is_utf8 (trie []) = ok []
entries is_utf8 (trie (b ∷ bytes)) = do
  walked ← walk is_utf8 (b ∷ bytes) (max_depth + 1) 0 [] nothing_walked
  ok (walked.out)
entries is_utf8 (flat list) = ok list

unfoldable pub find_entry : Bytes → List ExportEntry → Option ExportEntry
unfolding same_bytes
find_entry name [] = none
find_entry name (e ∷ es) = if same_bytes e.name name then some e else find_entry name es

unfoldable pub lookup : (Bytes → Bool) → Exports → Bytes → Read (Option ExportEntry)
unfolding lookup_trie find_entry
lookup is_utf8 (trie []) name = ok none
lookup is_utf8 (trie (b ∷ bytes)) name = lookup_trie is_utf8 (b ∷ bytes) (max_depth + 1) 0 name
lookup is_utf8 (flat list) name = ok (find_entry name list)
