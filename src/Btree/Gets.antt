-- ===== src/Btree/Gets.antt =====
-- mdb.c: mdb_get finds a key exactly if a leaf node of the tree has it.
use Prim.Native.Nat.Ordering.{lt, eq}
use kotlin_lmdb.Common.{
  ℕ, ◌<◌, true, false, not, Option, some, List, [], ◌∷◌, length, leb, ◌==◌, ◌≡◌, ◌≢◌, ◌⊎◌, inl, inr,
  refl, sym, ap, ◌∙◌, subst, arith, >>=-some, get_elem?-lt_length,
}
use kotlin_lmdb.Comparers.Lex.{sign, Preorders}
use kotlin_lmdb.Engine.{Cmp, is_cint}
use kotlin_lmdb.Engine.NodeLoop.{Placed}
use kotlin_lmdb.Btree.{Rc, success, notfound, Node, TreePage, Info, Cursor, numkeys, indx, update}
use kotlin_lmdb.Btree.Search.{
  mdb_node_read, Store, mdb_page_search, mdb_page_search_root, search_tree, search_from, ps_key,
}
use kotlin_lmdb.Btree.Move.{Dups, put_data, clear_if}
use kotlin_lmdb.Btree.Set.{
  set_at, set_item, set1, found_leaf, set2, set_search, mdb_cursor_set, forget_page,
}
use kotlin_lmdb.Btree.Lookup.{blank_cursor, mdb_cursor_init, mdb_get}
use kotlin_lmdb.Btree.Steps.{if-true, if-false, then_step, else_step, assert-true, on_some-some}
use kotlin_lmdb.Btree.Tree.{leaves, at, cursor_at, value, IsTree}
use kotlin_lmdb.Btree.First.{begun, in_tree, two_keys, to_root-frame}
use kotlin_lmdb.Btree.Next.{read_payload-value}
use kotlin_lmdb.Btree.Order.{IsIn, key_at, in_bounds, IsSorted}
use kotlin_lmdb.Btree.Find.{GivesPage, node_search, key_order}
use kotlin_lmdb.Btree.Found.{by_key, search_at-key}

-- A transaction's knowledge of the database, and the key to look for.
abbrev pub asked {κ} : {X : Type κ} → Cmp → (key : List ℕ) → (root : ℕ) → Info X → Info X
asked cmp key root i = record (in_tree root (by_key cmp i)) { key = key }

module _ {κ} {S : Type 0} {X : Type κ} (e : Store S X) (dups : Dups S X) (cmp : Cmp)
    (plain : is_cint cmp ≡ false) (order : Preorders (λ x y. sign (e.compare_with cmp x y)))
    (key : List ℕ) (h : ℕ) (p : TreePage S) (root : ℕ) (free : e.blocked ≡ false) (big : 1 < root)
    (low : h < 32) (there : e.read root ≡ some p) (t : IsTree e.read h p)
    (sorted : IsSorted e.read (e.compare_with cmp) h p) (i : Info X) where
  abbrev blank : Cursor S X
  blank = forget_page (clear_if e dups (blank_cursor e dups (asked cmp key root i)))

  found_page :
      GivesPage e cmp plain order key h p blank.info
        (mdb_page_search e ps_key key false false blank)
  unfolding mdb_page_search search_tree search_from mdb_page_search_root
  found_page =
      let found =
        search_at-key e cmp plain order key h 33 p 0 [] [] blank.info (omega arith) (omega arith) t
          sorted in
      record {
        leaf = found.leaf;
        key_was = found.key_was;
        up = found.up;
        above = found.above;
        returns =
            else_step _ _ _ free
            ∙ assert-true _ _ (two_keys false root big)
            ∙ >>=-some _ (>>=-some _ (to_root-frame e p root blank there (λ q. absurd (cc q))) refl)
                found.returns;
        is_leaf = found.is_leaf;
        rising = found.rising;
        holds_key = found.holds_key;
        part_of = found.part_of;
      }

  abbrev page : TreePage S
  page = found_page.leaf

  -- The cursor on the leaf page.
  abbrev on_page : ℕ → Cursor S X
  on_page k = cursor_at (at page k ∷ found_page.up) found_page.above (begun blank.info)

  -- No node of the leaf page has the key, where the search says so.
  absent :
      (x : ℕ)
      → ((x ≡ numkeys page)
          ⊎ ((x < numkeys page) × (sign (key_order e cmp plain order key page x) ≡ lt)))
      → Placed (key_order e cmp plain order key page) 0 (numkeys page) x false
      → (m : Node S) → IsIn m (leaves e.read h p)
      → sign (e.compare_with cmp key m.key) ≢ eq
  absent x here placed m inside same =
      let (j, at_j) = found_page.holds_key m same inside in
      let l = in_bounds page.nodes j m at_j in
      let here_eq =
        subst (λ k. sign (e.compare_with cmp key k) ≡ eq) (sym (key_at page.nodes j m at_j)) same in
      elim (three j x) [
        | inl a ↦ cc (placed.before j (omega arith) a, here_eq)
        | inr (inl a) ↦ cc (placed.behind j a l, here_eq)
        | inr (inr a) ↦ (elim here [
          | inl end ↦ omega arith
          | inr (b, less) ↦ cc (
            subst (λ y. sign (key_order e cmp plain order key page y) ≡ lt) (sym a) less,
            here_eq,
          )
        ])
      ]
    where
      three : (j x : ℕ) → (j < x) ⊎ ((x < j) ⊎ (j ≡ x))
      three j x = ground arith

  -- What a lookup returns.
  abbrev pub GivesKey : Option (Rc × Cursor S X) → Type κ
  GivesKey r =
      ((c : Cursor S X) × (r ≡ some (notfound, c))
        × ((m : Node S) → IsIn m (leaves e.read h p) → sign (e.compare_with cmp key m.key) ≢ eq))
      ⊎ ((n : Node S) × (c : Cursor S X) × (r ≡ some (success, c))
          × IsIn n (leaves e.read h p)
          × (sign (e.compare_with cmp key n.key) ≡ eq)
          × (value e.read n ≡ some c.info.datum))

  -- On the leaf page: the search, and what follows it.
  on_page-set2 : (k : ℕ) → GivesKey (set2 e dups set_at true true page (on_page k))
  unfolding set2 found_leaf set1 set_item mdb_node_read
  on_page-set2 k =
      let (r, found, placed, node) =
        node_search e cmp plain order key page 0 (if-true _ _ found_page.is_leaf.leaf)
          found_page.is_leaf.has_key found_page.rising in
      elim placed.here [
        | inr (ex, here) ↦ inl (
          on_page (indx r.index),
          >>=-some _ found (then_step _ _ _ (ap not ex)),
          absent r.index here (
              subst (Placed (key_order e cmp plain order key page) 0 (numkeys page) r.index) ex
                placed),
        )
        | inl (ex, inside, same) ↦
            let (n, en) = get_elem?-lt_length page.nodes r.index inside in
            let item = found_page.is_leaf.plain r.index n en in
            inr (
              n,
              update (λ i. record i { datum = item.value_of })
                  (clear_if e dups (on_page (indx r.index))),
              let c = on_page (indx r.index) in
                  >>=-some _ found (
                    else_step _ _ _ (ap not ex)
                    ∙ ap (λ o. found_leaf e dups set_at true page o c)
                        (node ∙ if-false _ _ (outside r.index inside))
                    ∙ else_step _ _ _ found_page.is_leaf.not_leaf2
                    ∙ on_some-some _ _ en
                    ∙ ap (λ o. set_item e dups set_at true n o c) item.no_dup
                    ∙ >>=-some _
                        (read_payload-value e n.payload put_data (clear_if e dups c) item.value_of
                          item.reads)
                        refl),
              found_page.part_of n (r.index, en),
              subst (λ k. sign (e.compare_with cmp key k) ≡ eq) (key_at page.nodes r.index n en)
                  same,
              item.reads,
            )
      ]
    where
      outside : (x : ℕ) → x < numkeys page → leb (numkeys page) x ≡ false
      outside x l = ground arith

  -- In a transaction that is not blocked, on a tree without duplicates of at most 32 levels whose keys
  -- are sorted in an order other than mdb_cmp_cint that is a total preorder, mdb_get for a key of at
  -- least one byte returns MDB_SUCCESS and the data of a leaf node with an equal key, or
  -- MDB_NOTFOUND, and then no leaf node has an equal key.
  pub mdb_get-GivesKey :
      0 < length key → GivesKey (mdb_get e dups true true true (asked cmp key root i))
  unfolding mdb_get mdb_cursor_init mdb_cursor_set set_search
  mdb_get-GivesKey some_byte =
      let byte : (length key == 0) ≡ false = ground arith in
      subst GivesKey
        (sym (
          if-false _ _ free
          ∙ if-false _ _ byte
          ∙ >>=-some _ found_page.returns (assert-true _ _ found_page.is_leaf.leaf)))
        (on_page-set2 found_page.key_was)
