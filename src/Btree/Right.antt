-- ===== src/Btree/Right.antt =====
-- mdb.c: mdb_cursor_sibling moves to the next page of its level, or stays where there is none.
use kotlin_lmdb.Common.{
  ℕ, zero, suc, ◌+◌, ◌≤◌, ◌<◌, true, false, Option, none, some, List, [], ◌∷◌, ◌++◌, map, length,
  get_elem?, leb, ◌≡◌, ◌⊎◌, inl, inr, refl, sym, ap, ◌∙◌, subst, arith, Bool-cases, >>=-some,
  get_elem?-lt_length,
}
use mathlib.Core.List.{append_assoc}
use kotlin_lmdb.Btree.{Rc, success, notfound, Node, TreePage, Frame, Info, Cursor, numkeys, indx}
use kotlin_lmdb.Btree.Stack.{
  mdb_cursor_push, drop_first, enter_child, sibling_at, mdb_cursor_sibling, undo,
}
use kotlin_lmdb.Btree.Steps.{if-true, if-false, assert-true, on_some-some, on_page-some}
use kotlin_lmdb.Btree.Tree.{
  flat, drop, Place, frame, at, cursor_at, IsTree, under, leaves, IsPath, after,
}

abbrev some_or {ℓ} : {A : Type ℓ} → A → Option A → A
some_or d none = d
some_or d (some a) = a

module _ {ℓ} {A : Type ℓ} where
  pub drop-get_elem? :
      (xs : List A) (k : ℕ) (x : A) → get_elem? xs k ≡ some x → drop k xs ≡ x ∷ drop (suc k) xs
  drop-get_elem? [] k x e = absurd (cc e)
  drop-get_elem? (y ∷ ys) zero x e = ap (λ o. some_or y o ∷ ys) e
  drop-get_elem? (y ∷ ys) (suc k) x e = drop-get_elem? ys k x e

  pub drop-all : (xs : List A) (k : ℕ) → length xs ≤ k → drop k xs ≡ []
  drop-all [] zero h = refl
  drop-all [] (suc k) h = refl
  drop-all (x ∷ xs) zero h = absurd (omega arith)
  drop-all (x ∷ xs) (suc k) h = drop-all xs k (omega arith)

length-frame {ℓ} : {S : Type ℓ} (path : List (Place S)) → length (map frame path) ≡ length path
length-frame [] = refl
length-frame (a ∷ path) = ap suc (length-frame path)

fits_stack : (n : ℕ) → n < 32 → leb 32 n ≡ false
fits_stack n h = ground arith

module _ {ℓ κ} {S : Type ℓ} {X : Type κ} where
  pub push-cursor_at :
      (q : TreePage S) (path : List (Place S)) (above : List (Frame S)) (i : Info X)
      → length path < 32
      → mdb_cursor_push q (cursor_at path above i)
        ≡ some (success, cursor_at (at q 0 ∷ path) (drop_first above) i)
  unfolding mdb_cursor_push
  push-cursor_at q path above i h =
      if-false _ _ (ap (leb 32) (length-frame path) ∙ fits_stack (length path) h)

module _ {ℓ} {S : Type ℓ} (read : ℕ → Option (TreePage S)) where
  -- The leaf nodes from a key of a page on are those of its child, and those after it.
  pub under-child :
      (h : ℕ) (p : TreePage S) (k : ℕ) (n : Node S) (q : TreePage S)
      → get_elem? p.nodes k ≡ some n
      → read n.child ≡ some q
      → flat (under read (suc h)) (drop k p.nodes)
        ≡ leaves read h q ++ flat (under read (suc h)) (drop (suc k) p.nodes)
  under-child h p k n q e r =
      ap (flat (under read (suc h))) (drop-get_elem? p.nodes k n e)
      ∙ ap (λ o. opened o ++ flat (under read (suc h)) (drop (suc k) p.nodes)) r
    where
      opened : Option (TreePage S) → List (Node S)
      opened o = elim o [ none ↦ [] | some q ↦ flat (under read h) q.nodes ]

  -- The parent, at `b`, has no page to the right of `a`.
  past_end :
      (b : Place S)
      → leb (numkeys b.page) (b.index + 1) ≡ true
      → drop (suc b.index) b.page.nodes ≡ []
  past_end b e = drop-all b.page.nodes (suc b.index) (ground arith)

  pub after-parent :
      (h : ℕ) (b : Place S) (path : List (Place S))
      → leb (numkeys b.page) (b.index + 1) ≡ true
      → after read h (b ∷ path) ≡ after read (suc h) path
  after-parent h b path e =
      ap (λ ns. flat (under read h) ns ++ after read (suc h) path) (past_end b e)

module _ {ℓ κ} {S : Type ℓ} {X : Type κ} (read : ℕ → Option (TreePage S)) where
  abbrev landed : Option (Rc × Cursor S X) → Option (Rc × Cursor S X)
  landed o = elim o [ none ↦ none | some r ↦ some (success, r.1) ]

  module _ (h : ℕ) (p : TreePage S) (k : ℕ) (path : List (Place S)) (above : List (Frame S))
      (g : Frame S) (i : Info X) where
    child-entered :
        (n : Node S) (q : TreePage S)
        → p.is_branch ≡ true
        → suc (length path) < 32
        → get_elem? p.nodes k ≡ some n
        → read n.child ≡ some q
        → enter_child read true (cursor_at (at p k ∷ path) (g ∷ above) i)
          ≡ some (success, cursor_at (at q 0 ∷ at p k ∷ path) above i)
    child-entered n q b d e r =
        assert-true _ _ b
        ∙ on_some-some _ _ e
        ∙ on_page-some _ _ _ r
        ∙ ap landed (push-cursor_at q (at p k ∷ path) (g ∷ above) i d)

    -- mdb_cursor_sibling, after the parent has its key.
    enter_child-right :
        IsTree read (suc h) p
        → k < numkeys p
        → suc (length path) < 32
        → (n : Node S) × (q : TreePage S) × (get_elem? p.nodes k ≡ some n)
          × (read n.child ≡ some q)
          × IsTree read h q
          × (enter_child read true (cursor_at (at p k ∷ path) (g ∷ above) i)
              ≡ some (success, cursor_at (at q 0 ∷ at p k ∷ path) above i))
    enter_child-right (b, children) l d =
        let (n, e) = get_elem?-lt_length p.nodes k l in
        let (q, r, t) = children k n e in (n, q, e, r, t, child-entered n q b.branch d e r)

  -- There is no page to the right and the cursor is as before, or the cursor is at the first key
  -- of the next page of its level.
  abbrev pub MovedRight :
      (h : ℕ) (a : Place S) (path : List (Place S)) (above : List (Frame S)) (i : Info X)
      → Option (Rc × Cursor S X)
      → Type (ℓ ⊔ κ)
  MovedRight h a path above i r =
      ((r ≡ some (notfound, cursor_at (a ∷ path) above i)) × (after read (suc h) path ≡ []))
      ⊎ ((q : TreePage S) × (path' : List (Place S)) × (r
            ≡ some (success, cursor_at (at q 0 ∷ path') above i))
          × IsTree read h q
          × IsPath read (suc h) path'
          × (length path' ≡ length path)
          × (leaves read h q ++ after read (suc h) path' ≡ after read (suc h) path))

  -- The parent's own sibling `q` is entered at its first child.
  parent-moved :
      (h : ℕ) (a b : Place S) (path path' : List (Place S)) (above : List (Frame S)) (i : Info X)
      (q : TreePage S)
      → leb (numkeys b.page) (b.index + 1) ≡ true
      → length path' ≡ length path
      → suc (length path) < 32
      → sibling_at read (suc (length path)) true (cursor_at (b ∷ path) (frame a ∷ above) i)
        ≡ some (success, cursor_at (at q 0 ∷ path') (frame a ∷ above) i)
      → IsTree read (suc h) q
      → IsPath read (suc (suc h)) path'
      → leaves read (suc h) q ++ after read (suc (suc h)) path' ≡ after read (suc (suc h)) path
      → MovedRight h a
          (b ∷ path)
          above
          i
          (sibling_at read (suc (suc (length path))) true (cursor_at (a ∷ b ∷ path) above i))
  unfolding sibling_at
  parent-moved h a b path path' above i q e len l m t w rest =
      let (n, r, en, er, tr, entered) =
        enter_child-right h q 0 path' above (frame a) i t (omega (arith, t.0.has_keys))
          (omega arith) in
      inr (
        r,
        at q 0 ∷ path',
        >>=-some _ (if-true _ _ e ∙ >>=-some undo m refl) entered,
        tr,
        (t, omega (arith, t.0.has_keys), w),
        ap suc len,
        sym (append_assoc (leaves read h r) _ _)
            ∙ ap (λ ns. ns ++ after read (suc (suc h)) path')
                (sym (under-child read h q 0 n r en er))
            ∙ rest
            ∙ sym (after-parent read (suc h) b path e),
      )

  -- The parent goes on to its next key.
  parent-shifted :
      (h : ℕ) (a b : Place S) (path : List (Place S)) (above : List (Frame S)) (i : Info X)
      → leb (numkeys b.page) (b.index + 1) ≡ false
      → suc (length path) < 32
      → IsTree read (suc h) b.page
      → IsPath read (suc (suc h)) path
      → MovedRight h a
          (b ∷ path)
          above
          i
          (sibling_at read (suc (suc (length path))) true (cursor_at (a ∷ b ∷ path) above i))
  unfolding sibling_at
  parent-shifted h a b path above i e l t w =
      let k = suc b.index in
      let small : k < numkeys b.page = ground arith in
      let stored : indx (b.index + 1) ≡ k = omega (arith, t.0.fits) in
      let (n, r, en, er, tr, entered) =
        enter_child-right h b.page k path above (frame a) i t small l in
      inr (
        r,
        at b.page k ∷ path,
        >>=-some _
            (if-false _ _ e
              ∙ ap (λ j. some (success, cursor_at (at b.page j ∷ path) (frame a ∷ above) i)) stored)
            entered,
        tr,
        (t, small, w),
        refl,
        sym (append_assoc (leaves read h r) _ _)
            ∙ ap (λ ns. ns ++ after read (suc (suc h)) path)
                (sym (under-child read h b.page k n r en er)),
      )

  pub sibling_at-right :
      (path : List (Place S)) (h : ℕ) (a : Place S) (above : List (Frame S)) (i : Info X)
      → IsPath read (suc h) path
      → length path < 32
      → MovedRight h a path above i
          (sibling_at read (suc (length path)) true (cursor_at (a ∷ path) above i))
  unfolding sibling_at
  sibling_at-right [] h a above i w l = inl (refl, refl)
  sibling_at-right (b ∷ path) h a above i (t, k, w) l =
      elim (Bool-cases (leb (numkeys b.page) (b.index + 1))) [
        | inl e ↦ (elim (sibling_at-right path (suc h) b (frame a ∷ above) i w (omega arith)) [
          | inl (m, none_left) ↦ inl (
            >>=-some _ (if-true _ _ e ∙ >>=-some undo m refl) refl,
            after-parent read (suc h) b path e ∙ none_left,
          )
          | inr (q, path', m, tq, wq, len, rest) ↦
              parent-moved h a b path path' above i q e len l m tq wq rest
        ])
        | inr e ↦ parent-shifted h a b path above i e l t w
      ]

  -- On a path of at most 32 pages whose pages are roots of trees, mdb_cursor_sibling to the right
  -- returns MDB_NOTFOUND and leaves the cursor as it is, if the path has no leaf node to its
  -- right; or it puts the cursor at the first key of a page of the same level, such that the nodes
  -- under this page and to the right of it are those to the right of the page before.
  pub mdb_cursor_sibling-MovedRight :
      (h : ℕ) (a : Place S) (path : List (Place S)) (above : List (Frame S)) (i : Info X)
      → IsPath read (suc h) path
      → length path < 32
      → MovedRight h a path above i (mdb_cursor_sibling read true (cursor_at (a ∷ path) above i))
  unfolding mdb_cursor_sibling
  mdb_cursor_sibling-MovedRight h a path above i w l =
      subst
        (λ n.
          MovedRight h a path above i (sibling_at read (suc n) true (cursor_at (a ∷ path) above i)))
        (sym (length-frame path)) (sibling_at-right path h a above i w l)
