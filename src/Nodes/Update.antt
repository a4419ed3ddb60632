-- ===== src/Nodes/Update.antt =====
-- mdb.c: mdb_update_key, which is called on branch pages. A key is at most 511 bytes, so that its
-- size fits in an int.
use kotlin_lmdb.Common.{
  ℕ, zero, suc, ◌+◌, ◌-◌, ◌^◌, Bool, ◌&&◌, Option, some, List, length, ltb, leb, ◌==◌,
  if◌then◌else◌, ◌>>=◌,
}
use kotlin_lmdb.Idl.{u64}
use kotlin_lmdb.Nodes.{
  RawPage, u16, even, nodesize, num_keys, size_left, put, put_short, put_bytes, move_bytes,
  mn_ksize, node_pgno,
}
use kotlin_lmdb.Nodes.Del.{mdb_node_del}

-- The page, or the page and the page number for which mdb_page_split(mc, key, NULL, pgno,
-- MDB_SPLIT_REPLACE) is called, whose code is that of the function.
pub data Updated : Type 0 where
  updated : RawPage → Updated
  split : RawPage → ℕ → Updated

-- `mp_ptrs[i] -= delta`, where delta is ksize - oksize.
abbrev pub slid_ptr : (ptr ksize oksize at : ℕ) → ℕ
slid_ptr ptr ksize oksize at = if leb at ptr then u16 (at + oksize + 2 ^ 32 - ksize) else at

unfoldable pub slide_ptrs : (ptr ksize oksize : ℕ) (rounds i : ℕ) → (ℕ → ℕ) → ℕ → ℕ
slide_ptrs ptr ksize oksize zero i ptrs = ptrs
slide_ptrs ptr ksize oksize (suc r) i ptrs =
    slide_ptrs ptr ksize oksize r (suc i) (put ptrs i (slid_ptr ptr ksize oksize (ptrs i)))

unfoldable pub slide : (indx ksize oksize : ℕ) → RawPage → RawPage
slide indx ksize oksize mp =
    let ptr = mp.mp_ptrs indx in
    record mp {
      mp_ptrs = slide_ptrs ptr ksize oksize (num_keys mp) 0 mp.mp_ptrs;
      body =
          move_bytes mp.body (mp.mp_upper + oksize - ksize) mp.mp_upper
            (u64 (ptr + 2 ^ 64 - mp.mp_upper + nodesize));
      mp_upper = u16 (mp.mp_upper + oksize + 2 ^ 32 - ksize);
    }

-- mn_ksize, where it is another one.
abbrev pub with_ksize : (node size : ℕ) → (ℕ → ℕ) → ℕ → ℕ
with_ksize node size body =
    if mn_ksize body node == size then body else put_short body (node + 6) (u16 size)

unfoldable pub set_key : (indx : ℕ) → List ℕ → RawPage → RawPage
set_key indx key mp =
    let node = mp.mp_ptrs indx in
    record mp {
      body = put_bytes (with_ksize node (length key) mp.body) (node + nodesize) (length key) key;
    }

-- `delta > 0 && SIZELEFT(mp) < delta`
abbrev pub no_room : (ksize oksize : ℕ) → RawPage → Bool
no_room ksize oksize mp = ltb oksize ksize && ltb (size_left mp + oksize) ksize

unfoldable pub mdb_update_key : (indx : ℕ) → List ℕ → RawPage → Option Updated
mdb_update_key indx key mp =
    let node = mp.mp_ptrs indx in
    let ksize = even (length key) in
    let oksize = even (mn_ksize mp.body node) in
    if ksize == oksize
    then some (updated (set_key indx key mp))
    else (if no_room ksize oksize mp
        then (mdb_node_del 0 indx mp >>= λ mp'. some (split mp' (node_pgno mp.body node)))
        else some (updated (set_key indx key (slide indx ksize oksize mp))))
