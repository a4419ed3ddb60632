-- ===== src/Nodes/Add.antt =====
-- mdb.c: mdb_node_add. Keys and data are at most MAXDATASIZE bytes, which mdb_cursor_put tests, so
-- that their sums do not wrap in a size_t.
use kotlin_lmdb.Common.{
  ℕ, zero, suc, ◌+◌, ◌-◌, ◌*◌, ◌/◌, ◌%◌, ◌^◌, Bool, true, false, Option, none, some, List, [], ◌∷◌,
  length, ltb, leb, if◌then◌else◌, ◌>>=◌,
}
use kotlin_lmdb.Btree.{Rc, success, page_full, is_success}
use kotlin_lmdb.Nodes.{
  RawPage, u16, nodesize, even, num_keys, size_left, is_bigdata, is_reserve, put, put_short,
  put_bytes, move_bytes, set_dsz, set_pgno,
}

-- An MDB_val: its size, and the bytes at its address that are copied. With F_BIGDATA these are the
-- eight of a page number, and the size is that of the data.
pub record MdbVal : Type 0 where
  pub mv_size : ℕ
  pub mv_data : List ℕ

-- What is left to be written: the data of MDB_RESERVE, in the page or in the overflow page.
pub data Place : Type 0 where
  in_page : ℕ → Place
  in_overflow : Place

-- me_nodemax, me_psize, md_pad, and mdb_page_new, which gives a code and the number of the overflow
-- page.
pub record NodeEnv : Type 0 where
  pub me_nodemax : ℕ
  pub me_psize : ℕ
  pub md_pad : ℕ
  pub page_new : ℕ → Rc × ℕ

-- The code, the page, the overflow page with its data (METADATA), *data where it is reserved, and
-- MDB_TXN_ERROR where it is set here.
pub record Added : Type 0 where
  pub rc : Rc
  pub page : RawPage
  pub ofp : Option (ℕ × List ℕ)
  pub reserved : Option Place
  pub txn_error : Bool

abbrev pub added : Rc → RawPage → Added
added rc mp = record { rc = rc; page = mp; ofp = none; reserved = none; txn_error = false }

-- `full:`
abbrev pub full : RawPage → Added
full mp = record (added page_full mp) { txn_error = true }

-- `for (i = NUMKEYS(mp); i > indx; i--) mp_ptrs[i] = mp_ptrs[i - 1];`, by the rounds left.
unfoldable pub shift_ptrs : (indx rounds : ℕ) → (ℕ → ℕ) → ℕ → ℕ
shift_ptrs indx zero ptrs = ptrs
shift_ptrs indx (suc r) ptrs = shift_ptrs indx r (put ptrs (indx + suc r) (ptrs (indx + r)))

-- `sizeof(pgno_t)` bytes of a page number.
abbrev pub pgno_bytes : ℕ → (rounds : ℕ) → List ℕ
pgno_bytes pgno zero = []
pgno_bytes pgno (suc r) = pgno % 256 ∷ pgno_bytes (pgno / 256) r

-- From `update` on: the slot and the bounds; `none` is the assertion.
unfoldable pub make_slot : (indx size : ℕ) → RawPage → Option RawPage
unfolding shift_ptrs
make_slot indx size mp =
    let ptrs = shift_ptrs indx (num_keys mp - indx) mp.mp_ptrs in
    let ofs = u16 (mp.mp_upper + 2 ^ 64 - size) in
    if leb (mp.mp_lower + 2) ofs
    then some (record mp {
      mp_ptrs = put ptrs indx ofs;
      mp_upper = ofs;
      mp_lower = u16 (mp.mp_lower + 2);
    })
    else none

-- mn_ksize, mn_flags and the key; the size of the data or the page number.
unfoldable pub write_node :
    (leaf : Bool) (node : ℕ) (key : List ℕ) (flags size_or_pgno : ℕ) → (ℕ → ℕ) → ℕ → ℕ
write_node leaf node key flags v body =
    let headed = put_short (put_short body (node + 6) (u16 (length key))) (node + 4) (u16 flags) in
    put_bytes (if leaf then set_dsz headed node v else set_pgno headed node v) (node + nodesize)
      (length key) key

-- Where NODEDATA of a new node is.
abbrev pub data_at : (node : ℕ) → List ℕ → ℕ
data_at node key = node + nodesize + u16 (length key)

-- The data of a leaf node that goes to the page.
abbrev pub put_data : (at flags : ℕ) → MdbVal → RawPage → Added
put_data at flags datum mp =
    if is_bigdata flags
    then added success (record mp { body = put_bytes mp.body at 8 datum.mv_data })
    else (if is_reserve flags
        then record (added success mp) { reserved = some (Place.in_page at) }
        else added success (record mp { body = put_bytes mp.body at datum.mv_size datum.mv_data }))

-- The data that goes to the new overflow page `pgno`.
abbrev pub put_overflow : (at flags pgno : ℕ) → MdbVal → RawPage → Added
put_overflow at flags pgno datum mp =
    let mp' = record mp { body = put_bytes mp.body at 8 (pgno_bytes pgno 8) } in
    if is_reserve flags
    then record (added success mp') { ofp = some (pgno, []); reserved = some Place.in_overflow }
    else record (added success mp') { ofp = some (pgno, datum.mv_data) }

-- The new node of a leaf page, with `finish` for its data.
unfoldable pub leaf_node :
    (indx size : ℕ) (key : List ℕ) (flags mv_size : ℕ)
    → (finish : ℕ → RawPage → Added) → RawPage
    → Option Added
unfolding make_slot write_node
leaf_node indx size key flags mv_size finish mp = make_slot indx size mp >>= λ mp'.
    let node = mp'.mp_ptrs indx in
    some (
      finish (data_at node key)
        (record mp' { body = write_node true node key flags mv_size mp'.body }))

-- `flags |= F_BIGDATA`
abbrev pub set_bigdata : ℕ → ℕ
set_bigdata flags = flags / 2 * 2 + 1

-- `(ssize_t)node_size > room` goes to `full`.
abbrev pub if_room : ℕ → RawPage → Option Added → Option Added
if_room size mp k = if leb (size + 2) (size_left mp) then k else some (full mp)

-- mdb_page_new's result.
abbrev pub with_overflow : Rc × ℕ → RawPage → (ℕ → Option Added) → Option Added
with_overflow r mp k = if is_success r.0 then k r.1 else some (added r.0 mp)

-- A branch node without a key has a key of no bytes.
abbrev pub key_or_none : Option (List ℕ) → List ℕ
key_or_none none = []
key_or_none (some key) = key

module _ (e : NodeEnv) where
  -- OVPAGES
  abbrev pub ov_pages : ℕ → ℕ
  ov_pages size = (15 + size) / e.me_psize + 1

  unfoldable pub leaf_add :
      (indx : ℕ) (key : List ℕ) → MdbVal → (flags : ℕ) → RawPage → Option Added
  unfolding leaf_node
  leaf_add indx key datum flags mp =
      let size = nodesize + length key in
      if is_bigdata flags
      then if_room (even (size + 8)) mp (
          leaf_node indx (even (size + 8)) key flags datum.mv_size (λ at. put_data at flags datum)
            mp)
      else (if ltb e.me_nodemax (size + datum.mv_size)
          then if_room (even (size + 8)) mp (
              with_overflow (e.page_new (ov_pages datum.mv_size)) mp λ pgno.
                leaf_node indx (even (size + 8)) key (set_bigdata flags) datum.mv_size
                  (λ at. put_overflow at flags pgno datum) mp)
          else if_room (even (size + datum.mv_size)) mp (
              leaf_node indx (even (size + datum.mv_size)) key flags datum.mv_size
                (λ at. put_data at flags datum) mp))

  -- Keys of a P_LEAF2 page stand one after the other after the header.
  unfoldable pub leaf2_add : (indx : ℕ) → List ℕ → RawPage → Added
  leaf2_add indx key mp =
      let ksize = e.md_pad in
      let at = 16 + indx * ksize in
      let n = num_keys mp in
      let moved =
        (if ltb indx n then move_bytes mp.body (at + ksize) at ((n - indx) * ksize) else mp.body) in
      added success (record mp {
        body = put_bytes moved at ksize key;
        mp_lower = u16 (mp.mp_lower + 2);
        mp_upper = u16 (mp.mp_upper + 2 ^ 32 + 2 - ksize);
      })

  unfoldable pub branch_add : (indx : ℕ) (key : List ℕ) (pgno flags : ℕ) → RawPage → Option Added
  unfolding make_slot write_node
  branch_add indx key pgno flags mp =
      let size = even (nodesize + length key) in
      if_room size mp (
        make_slot indx size mp >>= λ mp'. some (
          added success
            (record mp' { body = write_node false (mp'.mp_ptrs indx) key flags pgno mp'.body })))

  -- `mdb_cassert(mc, key && data)`
  abbrev pub leaf_args :
      (indx : ℕ) → Option (List ℕ) → Option MdbVal → (flags : ℕ) → RawPage → Option Added
  leaf_args indx (some key) (some datum) flags mp = leaf_add indx key datum flags mp
  leaf_args indx _ _ flags mp = none

  -- The key of a P_LEAF2 page is read without a test, `none` where there is no key.
  abbrev pub leaf2_args : (indx : ℕ) → Option (List ℕ) → RawPage → Option Added
  leaf2_args indx (some key) mp = some (leaf2_add indx key mp)
  leaf2_args indx none mp = none

  unfoldable pub mdb_node_add :
      (indx : ℕ) → Option (List ℕ) → Option MdbVal → (pgno flags : ℕ) → RawPage → Option Added
  unfolding leaf_add leaf2_add branch_add
  mdb_node_add indx key datum pgno flags mp =
      if leb mp.mp_lower mp.mp_upper
      then (if mp.is_leaf2
          then leaf2_args indx key mp
          else (if mp.is_leaf
              then leaf_args indx key datum flags mp
              else branch_add indx (key_or_none key) pgno flags mp))
      else none
