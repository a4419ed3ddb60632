-- ===== src/Btree/Get.antt =====
-- mdb.c: mdb_cursor_get, for a cursor that is not NULL, and the operations of lmdb.h.
use kotlin_lmdb.Common.{Bool, true, false, not, ◌&&◌, ◌||◌, none, some, leb, if◌then◌else◌}
use kotlin_lmdb.Btree.{
  success, notfound, incompatible, bad_txn, einval, Node, Cursor, Step, numkeys, ◌>>◌, return,
  update, with_top, set_ki, with_node,
}
use kotlin_lmdb.Btree.Search.{Store, mdb_node_read}
use kotlin_lmdb.Btree.Move.{
  Dups, XStep, move_any, move_dup, move_nodup, put_key, put_data, leaf2_key, on_xcursor,
  mdb_cursor_first, mdb_cursor_last, mdb_cursor_next, mdb_cursor_prev,
}
use kotlin_lmdb.Btree.Set.{
  SetOp, set_at, set_key, set_range, get_both, get_both_range, is_both, is_set_range, keep_rc,
  mdb_cursor_set,
}

-- MDB_cursor_op
pub data CursorOp : Type 0 where
  first first_dup : CursorOp
  get_both_op get_both_range_op : CursorOp
  get_current get_multiple : CursorOp
  last last_dup : CursorOp
  next next_dup next_multiple next_nodup : CursorOp
  prev prev_dup prev_nodup : CursorOp
  set_op set_key_op set_range_op : CursorOp
  prev_multiple : CursorOp

module _ {ℓ κ} {S : Type ℓ} {X : Type κ} (e : Store S X) (dups : Dups S X) where
  unfoldable pub read_current : (want_data : Bool) → Node S → Step S X
  unfolding mdb_node_read
  read_current want_data leaf =
      if want_data
      then (elim leaf.dup [
        | some d ↦ on_xcursor dups.get_current true
        | none ↦ mdb_node_read e leaf put_data
      ])
      else return success

  -- `case MDB_GET_CURRENT`, for a cursor that is initialized.
  unfoldable pub current : (want_key want_data : Bool) → Step S X
  unfolding read_current
  current want_key want_data = with_top λ mp ki.
      if leb (numkeys mp) ki
      then (λ c. some (notfound, set_ki (numkeys mp) c))
      else if mp.is_leaf2
      then leaf2_key want_key mp ki
      else with_node mp ki λ leaf. put_key want_key leaf >> read_current want_data leaf

  -- `case MDB_GET_BOTH`, `MDB_SET` and the others that fall through to it.
  unfoldable pub set_case : SetOp → (want_key want_data : Bool) → Step S X
  unfolding mdb_cursor_set
  set_case op want_key want_data =
      if is_both op && not want_data
      then return einval
      else if is_both op && not dups.exists
      then return incompatible
      else if not want_key
      then return einval
      else mdb_cursor_set e dups op (not (is_set_range op)) want_data

  unfoldable pub get_multiple_case : (want_data : Bool) → Step S X
  get_multiple_case want_data c =
      if not want_data || not c.info.initialized
      then some (einval, c)
      else if not c.info.dupfixed
      then some (incompatible, c)
      else if not (dups.is_initialized c.info.xcursor) || dups.is_eof c.info.xcursor
      then some (success, c)
      else on_xcursor dups.fetch true c

  -- `MDB_NEXT_MULTIPLE` and `MDB_PREV_MULTIPLE`: a move, and then the cursor of the duplicates.
  abbrev pub multiple : (want_data : Bool) → (move xmove : Step S X) → Step S X
  multiple want_data move xmove c =
      if not want_data
      then some (einval, c)
      else if not c.info.dupfixed
      then some (incompatible, c)
      else (move >> λ c.
            if dups.is_initialized c.info.xcursor
            then (xmove >> on_xcursor dups.fetch true) c
            else some (notfound, c))
          c

  unfoldable pub next_multiple_case : (want_key want_data : Bool) → Step S X
  unfolding mdb_cursor_next
  next_multiple_case want_key want_data =
      multiple want_data (mdb_cursor_next e dups move_dup want_key want_data) (return success)

  unfoldable pub prev_multiple_case : (want_key want_data : Bool) → Step S X
  unfolding mdb_cursor_last
  prev_multiple_case want_key want_data =
      multiple want_data
        (λ c.
          if c.info.initialized
          then some (success, c)
          else mdb_cursor_last e dups want_key want_data c)
        (on_xcursor dups.prev_page true)

  -- From `mmove:` on, at the node that the cursor is on.
  unfoldable pub move_in_dups : XStep X → (want_key : Bool) → Node S → Step S X
  unfolding mdb_node_read
  move_in_dups f want_key leaf = elim leaf.dup [
    | none ↦ put_key want_key leaf >> mdb_node_read e leaf put_data
    | some d ↦ λ c.
        if not (dups.is_initialized c.info.xcursor) then some (einval, c) else on_xcursor f true c
  ]

  unfoldable pub first_or_last_dup : XStep X → (want_key want_data : Bool) → Step S X
  unfolding move_in_dups
  first_or_last_dup f want_key want_data c =
      if not want_data || not c.info.initialized
      then some (einval, c)
      else if not dups.exists
      then some (incompatible, c)
      else with_top
          (λ mp ki c.
            if leb (numkeys mp) ki
            then some (notfound, set_ki (numkeys mp) c)
            else with_node mp ki (move_in_dups f want_key)
                (update (λ i. record i { eof = false }) c))
          c

  -- The switch; `key` and `data` are not NULL exactly if they are wanted.
  unfoldable pub get_case : CursorOp → (want_key want_data : Bool) → Step S X
  unfolding current set_case get_multiple_case next_multiple_case prev_multiple_case
      first_or_last_dup mdb_cursor_first
  get_case get_current k d c = if c.info.initialized then current k d c else some (einval, c)
  get_case get_both_op k d c = set_case get_both k d c
  get_case get_both_range_op k d c = set_case get_both_range k d c
  get_case set_op k d c = set_case set_at k d c
  get_case set_key_op k d c = set_case set_key k d c
  get_case set_range_op k d c = set_case set_range k d c
  get_case get_multiple k d c = get_multiple_case d c
  get_case next_multiple k d c = next_multiple_case k d c
  get_case prev_multiple k d c = prev_multiple_case k d c
  get_case next k d c = mdb_cursor_next e dups move_any k d c
  get_case next_dup k d c = mdb_cursor_next e dups move_dup k d c
  get_case next_nodup k d c = mdb_cursor_next e dups move_nodup k d c
  get_case prev k d c = mdb_cursor_prev e dups move_any k d c
  get_case prev_dup k d c = mdb_cursor_prev e dups move_dup k d c
  get_case prev_nodup k d c = mdb_cursor_prev e dups move_nodup k d c
  get_case first k d c = mdb_cursor_first e dups k d c
  get_case first_dup k d c = first_or_last_dup dups.first k d c
  get_case last k d c = mdb_cursor_last e dups k d c
  get_case last_dup k d c = first_or_last_dup dups.last k d c

  -- `if (mc->mc_flags & C_DEL) mc->mc_flags ^= C_DEL;`
  abbrev pub clear_del : Cursor S X → Cursor S X
  clear_del = update (λ i. record i { del = false })

  unfoldable pub mdb_cursor_get : CursorOp → (want_key want_data : Bool) → Step S X
  unfolding get_case
  mdb_cursor_get op want_key want_data =
      if e.blocked then return bad_txn else keep_rc (get_case op want_key want_data) clear_del
