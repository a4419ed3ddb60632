-- ===== src/Btree/Set.antt =====
-- mdb.c: mdb_cursor_set, which moves a cursor to a key.
use kotlin_lmdb.Common.{
  ℕ, zero, suc, ◌-◌, Bool, true, false, not, ◌&&◌, ◌||◌, Option, none, some, List, [], ◌∷◌, length,
  ltb, ◌==◌, ℤ, pos, negsuc, is_zero, if◌then◌else◌, ◌>>=◌,
}
use kotlin_lmdb.Engine.{Cmp, cmp_int, mdb_node_search}
use kotlin_lmdb.Btree.{
  success, notfound, bad_valsize, Node, TreePage, Frame, Cursor, Step, last_of, numkeys, page_view,
  ◌>>◌, return, assert, update, with_top, set_ki, with_node,
}
use kotlin_lmdb.Btree.Stack.{mdb_cursor_sibling}
use kotlin_lmdb.Btree.Search.{Store, ps_key, mdb_page_search, mdb_node_read}
use kotlin_lmdb.Btree.Move.{Dups, put_data, leaf2_key, on_xcursor, has_parent, clear_if, set_eof}

-- MDB_SET, MDB_SET_KEY, MDB_SET_RANGE, MDB_GET_BOTH and MDB_GET_BOTH_RANGE.
pub data SetOp : Type 0 where
  set_at set_key set_range get_both get_both_range : SetOp

-- `op == MDB_SET_RANGE || op == MDB_SET_KEY`
abbrev pub gives_key : SetOp → Bool
gives_key set_key = true
gives_key set_range = true
gives_key _ = false

-- `op == MDB_GET_BOTH || op == MDB_GET_BOTH_RANGE`
abbrev pub is_both : SetOp → Bool
is_both get_both = true
is_both get_both_range = true
is_both _ = false

abbrev pub is_get_both : SetOp → Bool
is_get_both get_both = true
is_get_both _ = false

abbrev pub is_set_range : SetOp → Bool
is_set_range set_range = true
is_set_range _ = false

abbrev pub is_positive : ℤ → Bool
is_positive (pos (suc n)) = true
is_positive _ = false

abbrev pub is_cmp_int : Cmp → Bool
is_cmp_int cmp_int = true
is_cmp_int _ = false

module _ {ℓ} {S : Type ℓ} where
  -- mc_pg[0] = 0
  abbrev pub forget_root : List (Frame S) → List (Frame S)
  forget_root [] = []
  forget_root (f ∷ []) = record f { page = none } ∷ []
  forget_root (f ∷ g ∷ fs) = f ∷ forget_root (g ∷ fs)

  abbrev pub forget_first : List (Frame S) → List (Frame S)
  forget_first [] = []
  forget_first (f ∷ fs) = record f { page = none } ∷ fs

  -- Whether a parent has a sibling to the right, the root first.
  abbrev pub some_right : List (Frame S) → Option Bool
  some_right [] = some false
  some_right (f ∷ fs) = some_right fs >>= λ b.
      if b then some true else (f.page >>= λ mp. some (ltb f.ki (last_of (numkeys mp))))

  abbrev pub parents : List (Frame S) → List (Frame S)
  parents [] = []
  parents (f ∷ fs) = fs

-- What the sign of a comparison leads to.
abbrev pub by_sign {ℓ} : {A : Type ℓ} → ℤ → (less same more : A) → A
by_sign (negsuc n) less same more = less
by_sign (pos zero) less same more = same
by_sign (pos (suc n)) less same more = more

module _ {ℓ κ} {S : Type ℓ} {X : Type κ} where
  abbrev pub forget_page : Cursor S X → Cursor S X
  forget_page c = elim c.below [
    | [] ↦ record c { above = forget_first c.above }
    | f ∷ fs ↦ record c { below = forget_root (f ∷ fs) }
  ]

  -- Goes on with the code that `m` returns, whatever it is.
  abbrev pub keep_rc : Step S X → (Cursor S X → Cursor S X) → Step S X
  keep_rc m f c = m c >>= λ r. some (r.0, f r.1)

  abbrev pub give_key : SetOp → Node S → Cursor S X → Cursor S X
  give_key op leaf c = if gives_key op then update (λ i. record i { key = leaf.key }) c else c

module _ {ℓ κ} {S : Type ℓ} {X : Type κ} (e : Store S X) (dups : Dups S X) where
  -- `dcmp == mdb_cmp_int && olddata.mv_size == sizeof(size_t)`
  abbrev pub data_cmp : List ℕ → Cmp
  data_cmp olddata = if is_cmp_int e.md_dcmp && length olddata == 8 then e.clong else e.md_dcmp

  -- `rc = dcmp(data, &olddata)`, and what follows.
  abbrev pub match_data : SetOp → List ℕ → Step S X
  match_data op olddata c =
      let rc = e.compare_with (data_cmp olddata) c.info.datum olddata in
      if not (is_zero rc) && (is_get_both op || is_positive rc)
      then some (notfound, c)
      else put_data olddata c

  -- The duplicates of the node, `dup`, or its data.
  unfoldable pub set_item : SetOp → (want_data : Bool) → Node S → (dup : Option S) → Step S X
  unfolding mdb_node_read
  set_item op want_data leaf (some d) c =
      (if is_both op
          then (on_xcursor (dups.set_range (is_get_both op)) want_data >> λ c.
              some (success, give_key op leaf c))
          else keep_rc (on_xcursor dups.first want_data) (give_key op leaf))
        (update (λ i. record i { xcursor = dups.init1 i.dupfixed d i.xcursor }) c)
  set_item op want_data leaf none c =
      ((if want_data
            then (if is_both op then mdb_node_read e leaf (match_data op) else λ c.
                mdb_node_read e leaf put_data (clear_if e dups c))
            else return success)
          >> λ c. some (success, give_key op leaf c))
        c

  abbrev pub set_data : SetOp → (want_data : Bool) → Node S → Step S X
  set_data op want_data leaf = set_item op want_data leaf leaf.dup

  -- From `set1:` on, where `leaf` is the node with the index `i`.
  unfoldable pub set1 : SetOp → (want_data : Bool) → TreePage S → ℕ → Step S X
  unfolding set_item
  set1 op want_data mp i c =
      (if mp.is_leaf2
          then (if gives_key op then with_top (λ mp ki. leaf2_key true mp ki) else return success)
          else with_node mp i (set_data op want_data))
        (update (λ i. record i { initialized = true; eof = false }) c)

  -- `if (leaf == NULL)`, and otherwise.
  unfoldable pub found_leaf : SetOp → (want_data : Bool) → TreePage S → Option ℕ → Step S X
  unfolding set1
  found_leaf op want_data mp (some i) c = set1 op want_data mp i c
  found_leaf op want_data mp none c = (mdb_cursor_sibling e.read true c >>= set_eof e dups) >>= λ r.
      (return r.0 >> with_top λ mp ki. assert mp.is_leaf (set1 op want_data mp 0)) r.1

  -- From `set2:` on.
  unfoldable pub set2 : SetOp → (want_exact want_data : Bool) → TreePage S → Step S X
  unfolding found_leaf
  set2 op want_exact want_data mp c =
      mdb_node_search e.compare_with (page_view mp) c.info.key c.info.md_cmp >>= λ r.
      (if want_exact && not r.exact then return notfound else found_leaf op want_data mp r.node)
        (set_ki r.index c)

  -- `rc = mdb_page_search(mc, key, 0)`, and on.
  unfoldable pub set_search : SetOp → (want_exact want_data : Bool) → Step S X
  unfolding mdb_page_search set2
  set_search op want_exact want_data c =
      (mdb_page_search e ps_key c.info.key false false
          >> with_top λ mp ki. assert mp.is_leaf (set2 op want_exact want_data mp))
        c

  -- The sign of md_cmp(key, &nodekey) for the node with the index `i`.
  abbrev pub at_node : TreePage S → ℕ → (less same more : Step S X) → Step S X
  at_node mp i less same more =
      with_node mp i λ n c. by_sign (e.compare_with c.info.md_cmp c.info.key n.key) less same more c

  -- The node with the index `i` is the one: `mc->mc_ki[mc->mc_top] = i; goto set1;`
  unfoldable pub hit : SetOp → (want_data : Bool) → TreePage S → ℕ → Step S X
  unfolding set1
  hit op want_data mp i c = set1 op want_data mp i (set_ki i c)

  -- `mc->mc_flags &= ~C_EOF; goto set2;`
  unfoldable pub set2_here : SetOp → (want_exact want_data : Bool) → TreePage S → Step S X
  unfolding set2
  set2_here op want_exact want_data mp c =
      set2 op want_exact want_data mp (update (λ i. record i { eof = false }) c)

  -- The key is between the first and the last one of the page.
  unfoldable pub within : SetOp → (want_exact want_data : Bool) → TreePage S → ℕ → Step S X
  unfolding set2_here
  within op want_exact want_data mp ki =
      if ltb ki (numkeys mp)
      then at_node mp ki (set2_here op want_exact want_data mp) (set1 op want_data mp ki)
          (set2_here op want_exact want_data mp)
      else set2_here op want_exact want_data mp

  -- `If any parents have right-sibs, search.`
  unfoldable pub set_right : SetOp → (want_exact want_data : Bool) → TreePage S → Step S X
  unfolding set_search
  set_right op want_exact want_data mp c = some_right (parents c.below) >>= λ b.
      if b then set_search op want_exact want_data c else some (notfound, set_ki (numkeys mp) c)

  -- The key is greater than the first one of the page.
  unfoldable pub set_above : SetOp → (want_exact want_data : Bool) → TreePage S → ℕ → Step S X
  unfolding set_right within hit
  set_above op want_exact want_data mp ki =
      if ltb 1 (numkeys mp)
      then at_node mp (numkeys mp - 1) (within op want_exact want_data mp ki)
          (hit op want_data mp (numkeys mp - 1)) (set_right op want_exact want_data mp)
      else set_right op want_exact want_data mp

  -- The key is less than the first one of the page.
  unfoldable pub set_below : SetOp → (want_exact want_data : Bool) → TreePage S → Step S X
  unfolding set_search hit
  set_below op want_exact want_data mp c =
      if has_parent c
      then set_search op want_exact want_data c
      else if is_set_range op && not want_exact
      then hit op want_data mp 0 c
      else some (notfound, set_ki 0 c)

  -- `See if we're already on the right page`
  unfoldable pub set_here : SetOp → (want_exact want_data : Bool) → Step S X
  unfolding set_above set_below
  set_here op want_exact want_data = with_top λ mp ki.
      if numkeys mp == 0
      then (λ c. some (notfound, set_ki 0 c))
      else at_node mp 0 (set_below op want_exact want_data mp) (hit op want_data mp 0)
          (set_above op want_exact want_data mp ki)

  -- `exactp` is not NULL exactly if it is wanted; the key is that of the cursor's state.
  unfoldable pub mdb_cursor_set : SetOp → (want_exact want_data : Bool) → Step S X
  unfolding set_here
  mdb_cursor_set op want_exact want_data c =
      if length c.info.key == 0
      then some (bad_valsize, c)
      else if c.info.initialized
      then set_here op want_exact want_data (clear_if e dups c)
      else set_search op want_exact want_data (forget_page (clear_if e dups c))
