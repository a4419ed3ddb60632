-- ===== src/Btree/Move.antt =====
-- mdb.c: mdb_cursor_first, mdb_cursor_last, mdb_cursor_next and mdb_cursor_prev.
use kotlin_lmdb.Common.{
  ℕ, ◌+◌, ◌-◌, Bool, true, false, not, ◌&&◌, ◌||◌, Option, none, some, List, [], length, ltb, leb,
  ◌==◌, if◌then◌else◌, ◌>>=◌,
}
use kotlin_lmdb.Engine.{Cmp}
use kotlin_lmdb.Btree.{
  is_success, is_notfound, Rc, success, notfound, corrupted, Node, TreePage, Cursor, Step, last_of,
  numkeys, ◌>>◌, return, assert, update, with_top, set_ki, with_node,
}
use kotlin_lmdb.Btree.Stack.{mdb_cursor_sibling}
use kotlin_lmdb.Btree.Search.{Store, ps_first, ps_last, mdb_page_search, mdb_node_read}

-- A function of the cursor of a node's duplicates, called with `data` as its key and NULL as its
-- data: whether `data` is not NULL, its value, MDB_TXN_ERROR, and the cursor.
abbrev pub XStep {κ} : Type κ → Type κ
XStep X = Bool → List ℕ → Bool → X → Option (Rc × X × List ℕ × Bool)

-- What a cursor does to mc_xcursor: `exists` is mc_xcursor != NULL, `reset` clears C_INITIALIZED and
-- C_EOF, `init0` is mdb_xcursor_init0 for md_dcmp of mc_dbx, `init1` is mdb_xcursor_init1 for MDB_DUPFIXED of mc_db and the contents of a node, `prev_page` is
-- mdb_cursor_sibling to the left, and `fetch` what mdb_cursor_get does at `fetchm:`.
pub record Dups {ℓ κ} (S : Type ℓ) (X : Type κ) : Type (ℓ ⊔ κ) where
  pub exists : Bool
  pub reset : X → X
  pub init0 : Cmp → X → X
  pub init1 : Bool → S → X → X
  pub first : XStep X
  pub last : XStep X
  pub next : XStep X
  pub prev : XStep X
  pub set_range : (want_exact : Bool) → XStep X
  pub get_current : XStep X
  pub prev_page : XStep X
  pub fetch : XStep X
  pub is_initialized : X → Bool
  pub is_eof : X → Bool

-- MDB_NEXT or MDB_PREV, with _DUP, with _NODUP.
pub data Move : Type 0 where
  move_any move_dup move_nodup : Move

abbrev pub is_any_move : Move → Bool
is_any_move move_any = true
is_any_move _ = false

abbrev pub is_dup_move : Move → Bool
is_dup_move move_dup = true
is_dup_move _ = false

module _ {ℓ κ} {S : Type ℓ} {X : Type κ} where
  -- MDB_GET_KEY
  abbrev pub put_key : Bool → Node S → Step S X
  put_key want n c =
      if want then some (success, update (λ i. record i { key = n.key }) c) else some (success, c)

  abbrev pub put_data : List ℕ → Step S X
  put_data d c = some (success, update (λ i. record i { datum = d }) c)

  -- `key->mv_data = LEAF2KEY(...)`, which does not look whether `key` is NULL.
  abbrev pub leaf2_key : Bool → TreePage S → ℕ → Step S X
  leaf2_key want mp ki = assert want (with_node mp ki (put_key true))

  abbrev pub on_xcursor : XStep X → Bool → Step S X
  on_xcursor f want c = f want c.info.datum c.info.txn_error c.info.xcursor >>= λ r.
      some (r.0, update (λ i. record i { xcursor = r.1; datum = r.2; txn_error = r.3 }) c)

  -- `|| mc->mc_top`
  abbrev pub has_parent : Cursor S X → Bool
  has_parent c = ltb 1 (length c.below)

module _ {ℓ κ} {S : Type ℓ} {X : Type κ} (e : Store S X) (dups : Dups S X) where
  abbrev pub clear_xcursor : Cursor S X → Cursor S X
  clear_xcursor = update (λ i. record i { xcursor = dups.reset i.xcursor })

  -- `if (mc->mc_xcursor) ...`
  abbrev pub clear_if : Cursor S X → Cursor S X
  clear_if =
      update (λ i. record i { xcursor = if dups.exists then dups.reset i.xcursor else i.xcursor })

  -- The data of the item at a leaf node, for its duplicates, `dup`, with `f`.
  unfoldable pub item_data : XStep X → (want_data : Bool) → Node S → (dup : Option S) → Step S X
  unfolding mdb_node_read
  item_data f want_data leaf (some d) c =
      on_xcursor f want_data
        (update (λ i. record i { xcursor = dups.init1 i.dupfixed d i.xcursor }) c)
  item_data f want_data leaf none c =
      if want_data then mdb_node_read e leaf put_data c else some (success, c)

  -- The data, and then the key.
  unfoldable pub read_item : XStep X → (want_key want_data : Bool) → Node S → Step S X
  unfolding item_data
  read_item f want_key want_data leaf = item_data f want_data leaf leaf.dup >> put_key want_key leaf

  -- `key` and `data` are not NULL exactly if they are wanted.
  unfoldable pub mdb_cursor_first : (want_key want_data : Bool) → Step S X
  unfolding mdb_page_search read_item
  mdb_cursor_first want_key want_data c =
      ((if not c.info.initialized || has_parent c
            then mdb_page_search e ps_first [] false false
            else return success)
          >> with_top λ mp ki. assert mp.is_leaf λ c.
            (if mp.is_leaf2
                then (if want_key then leaf2_key true mp 0 else return success)
                else with_node mp 0 (read_item dups.first want_key want_data))
              (set_ki 0 (update (λ i. record i { initialized = true; eof = false }) c)))
        (clear_if c)

  unfoldable pub mdb_cursor_last : (want_key want_data : Bool) → Step S X
  unfolding mdb_page_search read_item
  mdb_cursor_last want_key want_data c =
      ((if not c.info.initialized || has_parent c
            then mdb_page_search e ps_last [] false false
            else return success)
          >> with_top λ mp ki. assert mp.is_leaf λ c.
            (with_top λ mp ki.
                (if mp.is_leaf2
                  then (if want_key then leaf2_key true mp ki else return success)
                  else with_node mp ki (read_item dups.last want_key want_data)))
              (set_ki (last_of (numkeys mp))
                (update (λ i. record i { initialized = true; eof = true }) c)))
        (clear_if c)

  -- From `skip:` on.
  unfoldable pub next_item : (want_key want_data : Bool) → Step S X
  unfolding read_item
  next_item want_key want_data = with_top λ mp ki.
      if mp.is_leaf2
      then leaf2_key want_key mp ki
      else assert mp.is_leaf (with_node mp ki (read_item dups.first want_key want_data))

  abbrev pub set_eof : Rc × Cursor S X → Option (Rc × Cursor S X)
  set_eof (rc, c) =
      if is_success rc then some (rc, c) else some (rc, update (λ i. record i { eof = true }) c)

  -- `if (mc->mc_ki[mc->mc_top] + 1u >= NUMKEYS(mp))`, and otherwise.
  abbrev pub step_right : Step S X
  step_right = with_top λ mp ki c.
      if leb (numkeys mp) (ki + 1)
      then (mdb_cursor_sibling e.read true c >>= set_eof)
      else some (success, set_ki (ki + 1) c)

  unfoldable pub advance : (want_key want_data : Bool) → Step S X
  unfolding next_item
  advance want_key want_data c =
      if c.info.del
      then next_item want_key want_data (update (λ i. record i { del = false }) c)
      else (step_right >> next_item want_key want_data) c

  -- What mdb_cursor_next and mdb_cursor_prev do after the move among the duplicates: they return,
  -- or go on with `rest` if there are no more.
  abbrev pub after_dup : Move → (found rest : Step S X) → Rc × Cursor S X → Option (Rc × Cursor S X)
  after_dup op found rest (rc, c) =
      if is_success rc
      then found c
      else if is_any_move op && is_notfound rc
      then rest c
      else some (rc, c)

  abbrev pub move_dups : XStep X → Move → (want_data : Bool) → (found rest : Step S X) → Step S X
  move_dups f move_nodup want_data found rest c = rest c
  move_dups f op want_data found rest c = on_xcursor f want_data c >>= after_dup op found rest

  -- `if (mc->mc_db->md_flags & MDB_DUPSORT)`, at the node with the index `ki`.
  unfoldable pub among_dups :
      XStep X
      → Move
      → (want_data : Bool) → (found : Node S → Step S X) → (rest : Step S X) → TreePage S
      → ℕ
      → Step S X
  among_dups f op want_data found rest mp ki = with_node mp ki λ leaf. elim leaf.dup [
    | some d ↦ move_dups f op want_data (found leaf) rest
    | none ↦ λ c. (if is_dup_move op then return notfound else rest) (clear_xcursor c)
  ]

  unfoldable pub next_from : Move → (want_key want_data : Bool) → TreePage S → ℕ → Step S X
  unfolding among_dups
  next_from op want_key want_data mp ki c =
      if c.info.dupsort
      then among_dups dups.next op want_data (put_key want_key) (advance want_key want_data) mp ki c
      else advance want_key want_data c

  unfoldable pub mdb_cursor_next : Move → (want_key want_data : Bool) → Step S X
  unfolding mdb_cursor_first
  mdb_cursor_next op want_key want_data c =
      if c.info.del && is_dup_move op
      then some (notfound, c)
      else if not c.info.initialized
      then mdb_cursor_first want_key want_data c
      else with_top
          (λ mp ki c.
            if c.info.eof && leb (last_of (numkeys mp)) ki
            then some (notfound, c)
            else next_from op want_key want_data mp ki (update (λ i. record i { eof = false }) c))
          c

  -- `if (mc->mc_ki[mc->mc_top] == 0)`, and otherwise.
  abbrev pub step_left : Step S X
  step_left = with_top λ mp ki.
      if ki == 0
      then mdb_cursor_sibling e.read false
        >> with_top (λ mp ki c. some (success, set_ki (last_of (numkeys mp)) c))
      else (λ c. some (success, set_ki (ki - 1) c))

  unfoldable pub retreat : (want_key want_data : Bool) → Step S X
  unfolding read_item
  retreat want_key want_data c =
      (step_left
          >> with_top λ mp ki.
            if not mp.is_leaf
            then return corrupted
            else if mp.is_leaf2
            then leaf2_key want_key mp ki
            else with_node mp ki (read_item dups.last want_key want_data))
        (update (λ i. record i { eof = false; del = false }) c)

  abbrev pub found_prev : (want_key : Bool) → Node S → Step S X
  found_prev want_key leaf c = put_key want_key leaf (update (λ i. record i { eof = false }) c)

  unfoldable pub prev_from : Move → (want_key want_data : Bool) → TreePage S → ℕ → Step S X
  unfolding among_dups
  prev_from op want_key want_data mp ki c =
      if c.info.dupsort && ltb ki (numkeys mp)
      then among_dups dups.prev op want_data (found_prev want_key) (retreat want_key want_data) mp
          ki c
      else retreat want_key want_data c

  unfoldable pub start_prev : (want_key want_data : Bool) → Step S X
  unfolding mdb_cursor_last
  start_prev want_key want_data c =
      if c.info.initialized
      then some (success, c)
      else (mdb_cursor_last want_key want_data
            >> with_top λ mp ki c. some (success, set_ki (ki + 1) c))
          c

  unfoldable pub mdb_cursor_prev : Move → (want_key want_data : Bool) → Step S X
  mdb_cursor_prev op want_key want_data =
      start_prev want_key want_data >> with_top (prev_from op want_key want_data)
