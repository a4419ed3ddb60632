-- ===== src/Btree/Search.antt =====
-- mdb.c: mdb_page_search, mdb_page_search_root, mdb_page_search_lowest and mdb_node_read.
use kotlin_lmdb.Common.{
  ℕ, zero, suc, ◌-◌, Bool, true, false, ◌&&◌, ◌||◌, Option, none, some, List, [], ◌∷◌, ltb, ◌==◌,
  if◌then◌else◌, ◌>>=◌, ℤ,
}
use kotlin_lmdb.Engine.{Cmp, Found, mdb_node_search}
use kotlin_lmdb.Btree.{
  success, notfound, page_notfound, corrupted, bad_txn, Payload, inline, overflow, Node, TreePage,
  Frame, Info, Cursor, Step, last_of, indx, numkeys, page_view, bytes, ◌>>◌, return, assert, update,
  with_top, set_ki, with_node,
}
use kotlin_lmdb.Btree.Stack.{cursor_stack, with_page, unpop, mdb_cursor_push}

-- What a cursor's functions use of the rest of the program: `read` is what mdb_page_get finds,
-- `compare_with` gives the comparison functions, `md_dcmp` is that of mc_dbx, and `clong` is what
-- mdb_cmp_clong stands for; `is_free_dbi` is mc_dbi == FREE_DBI, `blocked` MDB_TXN_BLOCKED of the
-- transaction, `page_touch` is mdb_page_touch, and `reload` what mdb_page_search does to read a stale
-- MDB_db again.
pub record Store {ℓ κ} (S : Type ℓ) (X : Type κ) : Type (ℓ ⊔ κ) where
  pub read : ℕ → Option (TreePage S)
  pub compare_with : Cmp → List ℕ → List ℕ → ℤ
  pub md_dcmp : Cmp
  pub clong : Cmp
  pub is_free_dbi : Bool
  pub blocked : Bool
  pub page_touch : Step S X
  pub reload : Step S X

-- MDB_PS_FIRST, MDB_PS_LAST, or neither.
pub data Aim : Type 0 where
  ps_first ps_last ps_key : Aim

abbrev pub is_last : Aim → Bool
is_last ps_last = true
is_last _ = false

module _ {ℓ} {S : Type ℓ} where
  -- mc_pg[0] and mc_ki[0], and the entries from 1 on.
  abbrev pub bottom : (below above : List (Frame S)) → Frame S × List (Frame S)
  bottom [] [] = (record { page = none; ki = 0 }, [])
  bottom [] (g ∷ gs) = (g, gs)
  bottom (f ∷ []) above = (f, above)
  bottom (f ∷ g ∷ fs) above = bottom (g ∷ fs) (f ∷ above)

  -- `mc->mc_pg[0] && mc->mc_pg[0]->mp_pgno == root`
  abbrev pub holds_root : Frame S → ℕ → Bool
  holds_root f root = elim f.page [ none ↦ false | some mp ↦ mp.pgno == root ]

module _ {ℓ κ} {S : Type ℓ} {X : Type κ} (e : Store S X) where
  abbrev pub follow_node :
      (node : Option ℕ) (exact : Bool) (index : ℕ) → TreePage S → (ℕ → Step S X) → Step S X
  follow_node none exact index mp k = k (indx (last_of (numkeys mp)))
  follow_node (some n) true index mp k = k index
  follow_node (some n) false index mp k = assert (ltb 0 index) (k (index - 1))

  -- The branch of mdb_page_search_root that follows a key; `r` is what mdb_node_search found.
  abbrev pub follow : Found → TreePage S → (ℕ → Step S X) → Step S X
  follow r mp k = follow_node r.node r.exact r.index mp k

  abbrev pub choose : Aim → (key : List ℕ) → TreePage S → (ℕ → Step S X) → Step S X
  choose ps_first key mp k c = k 0 c
  choose ps_last key mp k c = k (indx (last_of (numkeys mp))) c
  choose ps_key key mp k c =
      mdb_node_search e.compare_with (page_view mp) key c.info.md_cmp >>= λ r.
      follow r mp k (set_ki r.index c)

  -- From `mdb_cassert(mc, i < NUMKEYS(mp))` to the push.
  abbrev pub step_down : TreePage S → ℕ → Step S X
  step_down mp i = assert (ltb i (numkeys mp)) (
      with_node mp i λ n.
        with_page e.read n.child (return page_notfound) (λ q c. mdb_cursor_push q (set_ki i c)))

  -- `if already init'd, see if we're already in right place`
  abbrev pub in_place : Aim → TreePage S → ℕ → Info X → Bool
  in_place aim mp ki i = is_last aim && i.initialized && ki == indx (last_of (numkeys mp))

  abbrev pub arrive : TreePage S → Step S X
  arrive mp c =
      if mp.is_leaf
      then some (success, update (λ i. record i { initialized = true; eof = false }) c)
      else some (corrupted, update (λ i. record i { txn_error = true }) c)

  abbrev pub touch_if : Bool → Step S X
  touch_if modify = if modify then e.page_touch else return success

  abbrev pub descend : Aim → (key : List ℕ) → TreePage S → ℕ → Step S X
  descend aim key mp ki c = elim (in_place aim mp ki c.info) [
    | true ↦ unpop c
    | false ↦ choose aim key mp (step_down mp) c
  ]

  -- One round of `while (IS_BRANCH(mp))`, or what follows the loop.
  unfoldable pub search_round : Step S X → Aim → (key : List ℕ) → (modify : Bool) → Step S X
  search_round next aim key modify = with_top λ mp ki.
      if mp.is_branch
      then assert (e.is_free_dbi || ltb 1 (numkeys mp)) (descend aim key mp ki)
        >> touch_if modify
        >> next
      else arrive mp

  -- The fuel bounds the rounds.
  unfoldable pub search_at : ℕ → Aim → (key : List ℕ) → (modify : Bool) → Step S X
  unfolding search_round
  search_at zero aim key modify c = none
  search_at (suc f) aim key modify c = search_round (search_at f aim key modify) aim key modify c

  unfoldable pub mdb_page_search_root : Aim → (key : List ℕ) → (modify : Bool) → Step S X
  unfolding search_at
  mdb_page_search_root = search_at (suc cursor_stack)

  unfoldable pub mdb_page_search_lowest : Step S X
  unfolding mdb_page_search_root
  mdb_page_search_lowest = with_top λ mp ki. with_node mp 0 λ n.
      with_page e.read n.child (return page_notfound)
        (λ q. (λ c. mdb_cursor_push q (set_ki 0 c)) >> mdb_page_search_root ps_first [] false)

  -- The root as the only entry of the stack.
  abbrev pub start_at : Frame S → List (Frame S) → Cursor S X → Cursor S X
  start_at f rest c = record c { below = f ∷ []; above = rest }

  -- `if (!mc->mc_pg[0] || mc->mc_pg[0]->mp_pgno != root)`, and mc_snum and mc_top.
  abbrev pub to_root : ℕ → Step S X
  to_root root c =
      let (f, rest) = bottom c.below c.above in
      if holds_root f root
      then some (success, start_at f rest c)
      else with_page e.read root (return page_notfound)
          (λ mp c. some (success, start_at (record f { page = some mp }) rest c)) c

  abbrev pub reload_if_stale : Step S X
  reload_if_stale c =
      if c.info.stale
      then (e.reload >> λ c. some (success, update (λ i. record i { stale = false }) c)) c
      else some (success, c)

  unfoldable pub search_from :
      (root : ℕ) → Aim → (key : List ℕ) → (modify root_only : Bool) → Step S X
  unfolding mdb_page_search_root
  search_from root aim key modify root_only = assert (ltb 1 root) (
      to_root root
      >> touch_if modify
      >> (if root_only then return success else mdb_page_search_root aim key modify))

  unfoldable pub search_tree : Aim → (key : List ℕ) → (modify root_only : Bool) → Step S X
  unfolding search_from
  search_tree aim key modify root_only c = elim c.info.root [
    | none ↦ some (notfound, c)
    | some root ↦ search_from root aim key modify root_only c
  ]

  unfoldable pub mdb_page_search : Aim → (key : List ℕ) → (modify root_only : Bool) → Step S X
  unfolding search_tree
  mdb_page_search aim key modify root_only =
      if e.blocked
      then return bad_txn
      else (reload_if_stale >> search_tree aim key modify root_only)

  -- `k` goes on with the data that is read; F_BIGDATA is the second case.
  abbrev pub read_payload : Payload → (List ℕ → Step S X) → Step S X
  read_payload (inline d) k c = k d c
  read_payload (overflow size pgno) k c =
      with_page e.read pgno (return page_notfound) (λ omp. k (bytes size omp.metadata)) c

  unfoldable pub mdb_node_read : Node S → (List ℕ → Step S X) → Step S X
  mdb_node_read leaf = read_payload leaf.payload
