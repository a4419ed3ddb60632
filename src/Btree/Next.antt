-- ===== src/Btree/Next.antt =====
-- mdb.c: mdb_cursor_next visits the leaf nodes of a tree without duplicates in order.
use kotlin_lmdb.Common.{
  ℕ, suc, ◌+◌, ◌<◌, true, false, Option, none, some, List, [], ◌∷◌, ◌++◌, length, get_elem?, leb,
  ◌>>=◌, ◌≡◌, ◌⊎◌, inl, inr, refl, sym, ap, ◌∙◌, subst, arith, Bool-cases, Option-cases, >>=-some,
  get_elem?-lt_length,
}
use mathlib.Core.Option.{some-injective, none-ne-some}
use kotlin_lmdb.Btree.{
  Rc, success, notfound, Payload, inline, overflow, Node, TreePage, Frame, Info, Cursor, numkeys,
  indx, Step, proceed, ◌>>◌, bytes,
}
use kotlin_lmdb.Btree.Search.{Store, read_payload, mdb_node_read}
use kotlin_lmdb.Btree.Move.{
  Dups, XStep, Move, next_item, put_data, read_item, item_data, put_key, step_right, set_eof,
  next_from, advance, mdb_cursor_next,
}
use kotlin_lmdb.Btree.Steps.{else_step, if-true, if-false, assert-true, on_some-some, on_page-some}
use kotlin_lmdb.Btree.Tree.{
  flat, drop, Place, at, cursor_at, payload_value, value, IsLeafPage, under, IsPath, after,
}
use kotlin_lmdb.Btree.Right.{mdb_cursor_sibling-MovedRight, drop-get_elem?, after-parent}

-- C_INITIALIZED is set, and C_EOF, C_DEL and MDB_DUPSORT are not.
abbrev pub live {κ} : {X : Type κ} → Info X → Info X
live i = record i { initialized = true; eof = false; del = false; dupsort = false }

module _ {ℓ κ} {S : Type ℓ} {X : Type κ} (e : Store S X) where
  payload_gone :
      (size pgno : ℕ) → e.read pgno ≡ none → payload_value e.read (overflow size pgno) ≡ none
  payload_gone size pgno h = ap (λ o. o >>= λ omp. some (bytes size omp.metadata)) h

  pub read_payload-value :
      (p : Payload) (k : List ℕ → Step S X) (c : Cursor S X) (d : List ℕ)
      → payload_value e.read p ≡ some d
      → read_payload e p k c ≡ k d c
  read_payload-value (inline b) k c d h = ap (λ d. k d c) (some-injective b d h)
  read_payload-value (overflow size pgno) k c d h = elim (Option-cases (e.read pgno)) [
    | inl gone ↦ absurd (none-ne-some d (sym (payload_gone size pgno gone) ∙ h))
    | inr (omp, there) ↦
        on_page-some _ _ c there
        ∙ ap (λ d. k d c) (some-injective _ d (sym (>>=-some _ there refl) ∙ h))
  ]

  -- The cursor is on a leaf node `n`, and gave its key and its data `d`.
  pub record GivesItem (n : Node S) (d : List ℕ) (a : Place S) (path : List (Place S))
      (above : List (Frame S)) (j : Info X) (r : Option (Rc × Cursor S X)) : Type (ℓ ⊔ κ) where
    pub returns :
        r ≡ some (success, cursor_at (a ∷ path) above (record j { key = n.key; datum = d }))
    pub on_node : get_elem? a.page.nodes a.index ≡ some n
    pub its_value : value e.read n ≡ some d
    pub on_path : IsPath e.read 0 (a ∷ path)

  -- The next leaf node, or the end.
  abbrev pub GivesNext :
      (a : Place S) (path : List (Place S)) (above : List (Frame S)) (i : Info X)
      → Option (Rc × Cursor S X)
      → Type (ℓ ⊔ κ)
  GivesNext a path above i r =
      ((r ≡ some (notfound, cursor_at (a ∷ path) above (record (live i) { eof = true })))
        × (after e.read 0 (a ∷ path) ≡ []))
      ⊎ ((n : Node S) × (d : List ℕ) × (a' : Place S) × (path' : List (Place S)) × GivesItem n d a'
            path' above (live i) r
          × (length path' ≡ length path)
          × (after e.read 0 (a ∷ path) ≡ n ∷ after e.read 0 (a' ∷ path')))

  module _ (dups : Dups S X) (i : Info X) where
    -- The data and the key of a leaf node are read.
    pub read_item-reads :
        (f : XStep X) (n : Node S) (d : List ℕ) (c : Cursor S X)
        → n.dup ≡ none
        → value e.read n ≡ some d
        → read_item e dups f true true n c
          ≡ some (success, record c { info = record c.info { key = n.key; datum = d } })
    unfolding read_item item_data mdb_node_read
    read_item-reads f n d c plain h =
        ap (λ o. item_data e dups f true n o c >>= proceed (put_key true n)) plain
        ∙ ap (λ r. r >>= proceed (put_key true n)) (read_payload-value n.payload put_data c d h)

    next_item-reads :
        (a : Place S) (path : List (Place S)) (above : List (Frame S)) (n : Node S) (d : List ℕ)
        → IsLeafPage e.read a.page
        → get_elem? a.page.nodes a.index ≡ some n
        → n.dup ≡ none
        → value e.read n ≡ some d
        → next_item e dups true true (cursor_at (a ∷ path) above i)
          ≡ some (success, cursor_at (a ∷ path) above (record i { key = n.key; datum = d }))
    unfolding next_item
    next_item-reads a path above n d leaf there plain h =
        else_step _ _ _ leaf.not_leaf2
        ∙ assert-true _ _ leaf.leaf
        ∙ on_some-some _ _ there
        ∙ read_item-reads dups.first n d (cursor_at (a ∷ path) above i) plain h

module _ {ℓ κ} {S : Type ℓ} {X : Type κ} (e : Store S X) (dups : Dups S X) where
  next_item-GivesItem :
      (p : TreePage S) (k : ℕ) (path : List (Place S)) (above : List (Frame S)) (i : Info X)
      → IsLeafPage e.read p
      → k < numkeys p
      → IsPath e.read 1 path
      → (n : Node S) × (d : List ℕ) × GivesItem e n d
          (at p k)
          path
          above
          i
          (next_item e dups true true (cursor_at (at p k ∷ path) above i))
        × (flat (under e.read 0) (drop k p.nodes)
            ≡ n ∷ flat (under e.read 0) (drop (suc k) p.nodes))
  next_item-GivesItem p k path above i leaf l w =
      let (n, there) = get_elem?-lt_length p.nodes k l in
      let plain = leaf.plain k n there in
      (
        n,
        plain.value_of,
        record {
          returns =
              next_item-reads e dups i (at p k) path above n plain.value_of leaf there plain.no_dup
                plain.reads;
          on_node = there;
          its_value = plain.reads;
          on_path = (leaf, l, w);
        },
        ap (flat (under e.read 0)) (drop-get_elem? p.nodes k n there),
      )

  module _ (a : Place S) (path : List (Place S)) (above : List (Frame S)) (i : Info X)
      (w : IsPath e.read 0 (a ∷ path)) (l : length path < 32) where
    next-sibling :
        leb (numkeys a.page) (a.index + 1) ≡ true
        → GivesNext e a path above i (
            (step_right e dups >> next_item e dups true true) (cursor_at (a ∷ path) above (live i)))
    next-sibling edge = elim (mdb_cursor_sibling-MovedRight e.read 0 a path above (live i) w.2 l) [
      | inl (m, none_left) ↦ inl (
        >>=-some _ (if-true _ _ edge ∙ >>=-some (set_eof e dups) m refl) refl,
        after-parent e.read 0 a path edge ∙ none_left,
      )
      | inr (q, path', m, tq, wq, len, rest) ↦
          let (n, d, gives, first) =
            next_item-GivesItem q 0 path' above (live i) tq tq.has_key wq in
          inr (
            n,
            d,
            at q 0,
            path',
            subst (GivesItem e n d (at q 0) path' above (live i))
                (sym (>>=-some _ (if-true _ _ edge ∙ >>=-some (set_eof e dups) m refl) refl)) gives,
            len,
            after-parent e.read 0 a path edge
                ∙ sym rest
                ∙ ap (λ ns. ns ++ after e.read 1 path') first,
          )
    ]

    next-shifted :
        leb (numkeys a.page) (a.index + 1) ≡ false
        → GivesNext e a path above i (
            (step_right e dups >> next_item e dups true true) (cursor_at (a ∷ path) above (live i)))
    next-shifted inside =
        let k = suc a.index in
        let small : k < numkeys a.page = ground arith in
        let stored : indx (a.index + 1) ≡ k = omega (arith, w.0.fits) in
        let (n, d, gives, first) = next_item-GivesItem a.page k path above (live i) w.0 small w.2 in
        inr (
          n,
          d,
          at a.page k,
          path,
          subst (GivesItem e n d (at a.page k) path above (live i))
              (sym (
                >>=-some _
                  (if-false _ _ inside
                    ∙ ap (λ j. some (success, cursor_at (at a.page j ∷ path) above (live i)))
                        stored)
                  refl))
              gives,
          refl,
          ap (λ ns. ns ++ after e.read 1 path) first,
        )

    -- In a database without MDB_DUPSORT, for a cursor with C_INITIALIZED set and C_EOF and C_DEL clear
    -- that is on a path of at most 32 pages to a key, mdb_cursor_next for key and data, with any
    -- of its operations, returns MDB_NOTFOUND, sets C_EOF and leaves the cursor where it is,
    -- if no leaf node is to the right; or it puts the cursor on the first leaf node to the right,
    -- gives its key and its data, and has the other ones to its right.
    pub mdb_cursor_next-GivesNext :
        (op : Move)
        → GivesNext e a path above i
            (mdb_cursor_next e dups op true true (cursor_at (a ∷ path) above (live i)))
    unfolding mdb_cursor_next next_from advance
    mdb_cursor_next-GivesNext op = elim (Bool-cases (leb (numkeys a.page) (a.index + 1))) [
      | inl edge ↦ next-sibling edge
      | inr inside ↦ next-shifted inside
    ]
