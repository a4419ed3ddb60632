-- ===== src/Nodes.antt =====
-- mdb.c: the bytes of a page and of its nodes. `mp_ptrs` are the slots after the header, which end at
-- mp_lower; `body` is the bytes of the page by their offset, of which those from mp_upper on are in
-- use. PAGEBASE is 0 and PAGEHDRSZ 16.
pub mod Add
pub mod Del
pub mod Layout
pub mod Bytes
pub mod AddLaws
pub mod Outcome
pub mod Adds
pub mod Slots
pub mod Insert
pub mod Remove
pub mod Undo
pub mod Update
pub mod Slide
pub mod Rekey
pub mod Updates
pub mod Sizes
use kotlin_lmdb.Common.{
  ℕ, zero, suc, ◌+◌, ◌-◌, ◌*◌, ◌/◌, ◌%◌, ◌^◌, Bool, true, false, ◌&&◌, List, get_or, ltb, leb, ◌==◌,
  if◌then◌else◌,
}

pub record RawPage : Type 0 where
  pub is_leaf : Bool
  pub is_leaf2 : Bool
  pub mp_lower : ℕ
  pub mp_upper : ℕ
  pub mp_ptrs : ℕ → ℕ
  pub body : ℕ → ℕ

-- indx_t and unsigned short are 16 bits wide.
abbrev pub u16 : ℕ → ℕ
u16 n = n % 2 ^ 16

abbrev pub nodesize : ℕ
nodesize = 8

-- EVEN
abbrev pub even : ℕ → ℕ
even n = (n + 1) / 2 * 2

-- NUMKEYS and SIZELEFT
abbrev pub num_keys : RawPage → ℕ
num_keys mp = (mp.mp_lower - 16) / 2

abbrev pub size_left : RawPage → ℕ
size_left mp = u16 (mp.mp_upper + 2 ^ 16 - mp.mp_lower)

-- F_ISSET(flags, F_BIGDATA) and F_ISSET(flags, MDB_RESERVE)
abbrev pub is_bigdata : ℕ → Bool
is_bigdata flags = flags % 2 == 1

abbrev pub is_reserve : ℕ → Bool
is_reserve flags = flags / 2 ^ 16 % 2 == 1

-- An unsigned short in memory, and memory after it is written.
abbrev pub short_at : (ℕ → ℕ) → ℕ → ℕ
short_at body at = body at + body (at + 1) * 256

abbrev pub put : (ℕ → ℕ) → ℕ → ℕ → ℕ → ℕ
put body at v x = if x == at then v else body x

abbrev pub put_short : (ℕ → ℕ) → ℕ → ℕ → ℕ → ℕ
put_short body at v = put (put body at (v % 256)) (at + 1) (v / 256 % 256)

-- memcpy of `n` bytes, and memmove of `n` bytes inside of the page.
abbrev pub put_bytes : (ℕ → ℕ) → (at n : ℕ) → List ℕ → ℕ → ℕ
put_bytes body at n bytes x = if leb at x && ltb x (at + n) then get_or bytes (x - at) 0 else body x

abbrev pub move_bytes : (ℕ → ℕ) → (to from n : ℕ) → ℕ → ℕ
move_bytes body to from n x = if leb to x && ltb x (to + n) then body (from + (x - to)) else body x

-- The fields of the node at an offset: mn_lo and mn_hi, mn_flags, mn_ksize.
abbrev pub mn_flags : (ℕ → ℕ) → ℕ → ℕ
mn_flags body node = short_at body (node + 4)

abbrev pub mn_ksize : (ℕ → ℕ) → ℕ → ℕ
mn_ksize body node = short_at body (node + 6)

-- NODEDSZ and NODEPGNO
abbrev pub node_dsz : (ℕ → ℕ) → ℕ → ℕ
node_dsz body node = short_at body node + short_at body (node + 2) * 2 ^ 16

abbrev pub node_pgno : (ℕ → ℕ) → ℕ → ℕ
node_pgno body node = node_dsz body node + mn_flags body node * 2 ^ 32

-- SETDSZ and SETPGNO
abbrev pub set_dsz : (ℕ → ℕ) → ℕ → ℕ → ℕ → ℕ
set_dsz body node size = put_short (put_short body node (u16 size)) (node + 2) (u16 (size / 2 ^ 16))

abbrev pub set_pgno : (ℕ → ℕ) → ℕ → ℕ → ℕ → ℕ
set_pgno body node pgno = put_short (set_dsz body node pgno) (node + 4) (u16 (pgno / 2 ^ 32))

-- The bytes of a node, as mdb_node_del counts them.
unfoldable pub node_size : (leaf : Bool) → (ℕ → ℕ) → ℕ → ℕ
node_size leaf body node = even (
    nodesize
    + mn_ksize body node
    + (if leaf then (if is_bigdata (mn_flags body node) then 8 else node_dsz body node) else 0))
