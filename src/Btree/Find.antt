-- ===== src/Btree/Find.antt =====
-- mdb.c: mdb_page_search with a key ends at the leaf page that has the nodes with the key.
use Prim.Native.Nat.Ordering.{lt, eq, gt}
use kotlin_lmdb.Common.{
  ℕ, suc, ◌-◌, ◌<◌, ◌^◌, true, false, ◌||◌, Option, none, some, List, [], ◌∷◌, length, get_elem?,
  get_or, leb, ltb, if◌then◌else◌, ℤ, Ordering, ◌≡◌, ◌≢◌, inl, inr, refl, sym, ap, ◌∙◌, subst,
  arith, >>=-some,
}
use kotlin_lmdb.Comparers.Lex.{sign, Preorders}
use kotlin_lmdb.Engine.{
  Page, Cmp, cmp_cint, cmp_long, cmp_int, cmp_other, is_cint, choose_cmp, Found, first_key,
  mdb_node_search,
}
use kotlin_lmdb.Engine.NodeLoop.{Placed}
use kotlin_lmdb.Engine.NodePlace.{IsRisingPage, mdb_node_search-Placed}
use kotlin_lmdb.Btree.{
  Rc, success, Node, TreePage, Frame, Info, Cursor, Step, numkeys, page_view, indx, last_of, assert,
}
use kotlin_lmdb.Btree.Stack.{drop_first}
use kotlin_lmdb.Btree.Search.{Store, ps_key, follow_node, follow, descend, step_down}
use kotlin_lmdb.Btree.Steps.{if-true, if-false, assert-true, on_some-some, on_page-some}
use kotlin_lmdb.Btree.Tree.{leaves, Place, at, cursor_at, IsLeafPage}
use kotlin_lmdb.Btree.Right.{push-cursor_at}
use kotlin_lmdb.Btree.First.{begun, two_keys}
use kotlin_lmdb.Btree.Order.{IsIn, length-keys, IsChild}

gt_ne_lt : (o : Ordering) → o ≡ gt → o ≢ lt
gt_ne_lt o h k = cc

eq_ne_lt : (o : Ordering) → o ≡ eq → o ≢ lt
eq_ne_lt o h k = cc

module _ {κ} {S : Type 0} {X : Type κ} (e : Store S X) where
  -- The child that the search in a branch page leads to.
  module _ (p : TreePage S) (r : ℕ → ℤ) (found : Found) (l : 1 < numkeys p) (s : numkeys p < 2 ^ 16)
      (placed : Placed r 1 (numkeys p) found.index found.exact)
      (node : found.node ≡ (if leb (numkeys p) found.index then none else some found.index)) where
    abbrev Leads : ℕ → Type κ
    Leads i = (k : ℕ → Step S X) (c : Cursor S X) → follow e found p k c ≡ k i c

    last-IsChild :
        found.node ≡ none
        → found.index ≡ numkeys p
        → (i : ℕ) × IsChild (λ i. sign (r i)) (numkeys p) i × Leads i
    last-IsChild none_there end =
        let last : indx (last_of (numkeys p)) ≡ numkeys p - 1 = omega (arith, l, s) in
        (
          numkeys p - 1,
          (
            omega arith,
            (λ a.
                gt_ne_lt (sign (r (numkeys p - 1)))
                  (placed.before (numkeys p - 1) a (omega arith))),
            λ b. absurd (omega arith),
          ),
          λ k c.
              ap (λ o. follow_node e o found.exact found.index p k c) none_there
              ∙ ap (λ i. k i c) last,
        )

    exact-IsChild :
        found.node ≡ some found.index
        → found.exact ≡ true
        → found.index < numkeys p
        → sign (r found.index) ≡ eq
        → (i : ℕ) × IsChild (λ i. sign (r i)) (numkeys p) i × Leads i
    exact-IsChild there ex inside same = (
      found.index,
      (
        inside,
        (λ a. eq_ne_lt (sign (r found.index)) same),
        λ b. placed.behind (suc found.index) (omega arith) b,
      ),
      λ k c.
          ap (λ o. follow_node e o found.exact found.index p k c) there
          ∙ ap (λ b. follow_node e (some found.index) b found.index p k c) ex,
    )

    before-IsChild :
        found.node ≡ some found.index
        → found.exact ≡ false
        → found.index < numkeys p
        → sign (r found.index) ≡ lt
        → (i : ℕ) × IsChild (λ i. sign (r i)) (numkeys p) i × Leads i
    before-IsChild there ex inside less =
        let x = found.index in
        let back : suc (x - 1) ≡ x = omega (arith, placed.from_first) in
        let low : ltb 0 x ≡ true = ground (arith, placed.from_first) in
        (
          x - 1,
          (
            omega arith,
            (λ a.
                gt_ne_lt (sign (r (x - 1)))
                  (placed.before (x - 1) a (omega (arith, placed.from_first)))),
            λ b. subst (λ j. sign (r j) ≡ lt) (sym back) less,
          ),
          λ k c.
              ap (λ o. follow_node e o found.exact x p k c) there
              ∙ ap (λ b. follow_node e (some x) b x p k c) ex
              ∙ assert-true _ _ low,
        )

    pub found-IsChild : (i : ℕ) × IsChild (λ i. sign (r i)) (numkeys p) i × Leads i
    found-IsChild = elim placed.here [
      | inl (ex, inside, same) ↦ exact-IsChild (node ∙ if-false _ _ (outside inside)) ex inside same
      | inr (ex, inl end) ↦ last-IsChild (node ∙ if-true _ _ (at_last end)) end
      | inr (ex, inr (inside, less)) ↦
          before-IsChild (node ∙ if-false _ _ (outside inside)) ex inside less
    ]
      where
        outside : found.index < numkeys p → leb (numkeys p) found.index ≡ false
        outside h = ground arith

        at_last : found.index ≡ numkeys p → leb (numkeys p) found.index ≡ true
        at_last h = ground arith

chosen-other : (mp : Page) (c : Cmp) → is_cint c ≡ false → choose_cmp mp c ≡ some c
unfolding choose_cmp
chosen-other mp cmp_cint h = absurd (cc h)
chosen-other mp cmp_long h = refl
chosen-other mp cmp_int h = refl
chosen-other mp cmp_other h = refl

module _ {κ} {S : Type 0} {X : Type κ} (e : Store S X) (cmp : Cmp) (plain : is_cint cmp ≡ false)
    (order : Preorders (λ x y. sign (e.compare_with cmp x y))) (key : List ℕ) where
  abbrev pub key_order : TreePage S → ℕ → ℤ
  key_order p i = e.compare_with cmp key (get_or (page_view p).keys i [])

  -- mdb_node_search in a page whose keys rise from node `first` on.
  pub node_search :
      (p : TreePage S) (first : ℕ)
      → first_key (page_view p) ≡ first
      → first < numkeys p
      → IsRisingPage (e.compare_with cmp) (page_view p)
      → (r : Found) × (mdb_node_search e.compare_with (page_view p) key cmp ≡ some r)
        × Placed (key_order p) first (numkeys p) r.index r.exact
        × (r.node ≡ (if leb (numkeys p) r.index then none else some r.index))
  node_search p first low l rising =
      let n = length-keys p.nodes in
      let (r, q, placed, node) =
        mdb_node_search-Placed e.compare_with (page_view p) key cmp cmp
          (chosen-other (page_view p) cmp plain) order rising (omega (arith, low, n)) in
      (
        r,
        q,
        subst (λ a. Placed (key_order p) a (numkeys p) r.index r.exact) low
            (subst (λ b. Placed (key_order p) (first_key (page_view p)) b r.index r.exact) n
              placed),
        node ∙ ap (λ b. if leb b r.index then none else some r.index) n,
      )

  -- The leaf page that a search for the key ends at has all nodes with the key.
  pub record GivesPage (h : ℕ) (p : TreePage S) (i : Info X) (r : Option (Rc × Cursor S X))
      : Type κ where
    pub leaf : TreePage S
    pub key_was : ℕ
    pub up : List (Place S)
    pub above : List (Frame S)
    pub returns : r ≡ some (success, cursor_at (at leaf key_was ∷ up) above (begun i))
    pub is_leaf : IsLeafPage e.read leaf
    pub rising : IsRisingPage (e.compare_with cmp) (page_view leaf)
    pub holds_key :
        (m : Node S)
        → sign (e.compare_with cmp key m.key) ≡ eq
        → IsIn m (leaves e.read h p)
        → IsIn m leaf.nodes
    pub part_of : (m : Node S) → IsIn m leaf.nodes → IsIn m (leaves e.read h p)

  -- One step down, to the child that the key leads to.
  module _ (p : TreePage S) (k : ℕ) (path : List (Place S)) (above : List (Frame S))
      (i : Info X) where
    pub step_down-key :
        (r : Found) (j : ℕ) (n : Node S) (q : TreePage S)
        → 1 < numkeys p
        → numkeys p < 2 ^ 16
        → suc (length path) < 32
        → mdb_node_search e.compare_with (page_view p) key cmp ≡ some r
        → ((k : ℕ → Step S X) (c : Cursor S X) → follow e r p k c ≡ k j c)
        → j < numkeys p
        → get_elem? p.nodes j ≡ some n
        → e.read n.child ≡ some q
        → assert
            (e.is_free_dbi || ltb 1 (numkeys p))
            (descend e ps_key key p k)
            (cursor_at (at p k ∷ path) above (record i { md_cmp = cmp }))
          ≡ some (
            success,
            cursor_at (at q 0 ∷ at p j ∷ path) (drop_first above) (record i { md_cmp = cmp }),
          )
    step_down-key r j n q l s d found leads inside en er =
        let i' = record i { md_cmp = cmp } in
        let within : ltb j (numkeys p) ≡ true = ground arith in
        let stored : indx j ≡ j = omega (arith, s) in
        assert-true _ _ (two_keys e.is_free_dbi (numkeys p) l)
        ∙ >>=-some _ found (
            leads (step_down e p) (cursor_at (at p (indx r.index) ∷ path) above i')
            ∙ assert-true _ _ within
            ∙ on_some-some _ _ en
            ∙ on_page-some _ _ _ er
            ∙ push-cursor_at q (at p (indx j) ∷ path) above i' d
            ∙ ap (λ a. some (success, cursor_at (at q 0 ∷ at p a ∷ path) (drop_first above) i'))
                stored)
