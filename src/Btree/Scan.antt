-- ===== src/Btree/Scan.antt =====
-- mdb.c: mdb_cursor_get with MDB_FIRST, and then MDB_NEXT until it fails, visits a whole tree.
use kotlin_lmdb.Common.{
  ℕ, zero, suc, ◌+◌, ◌<◌, true, false, ◌||◌, not, Option, none, some, List, [], ◌∷◌, ◌++◌, map,
  length, ltb, if◌then◌else◌, ◌>>=◌, ◌≡◌, inl, inr, refl, sym, ap, ap₂, ◌∙◌, arith, >>=-some,
  get_elem?-lt_length,
}
use mathlib.Core.List.{append-nil}
use kotlin_lmdb.Btree.{Rc, success, notfound, Node, TreePage, Frame, Info, Cursor}
use kotlin_lmdb.Btree.Search.{Store, bottom, holds_root}
use kotlin_lmdb.Btree.Move.{Dups, move_any, mdb_cursor_first}
use kotlin_lmdb.Btree.Get.{first, next, get_case, mdb_cursor_get}
use kotlin_lmdb.Btree.Steps.{then_step, else_step, assert-true, on_some-some}
use kotlin_lmdb.Btree.Tree.{flat, Place, at, cursor_at, value, IsTree, under, leaves, IsPath, after}
use kotlin_lmdb.Btree.Right.{drop-get_elem?}
use kotlin_lmdb.Btree.Next.{live, read_item-reads, GivesItem, GivesNext, mdb_cursor_next-GivesNext}
use kotlin_lmdb.Btree.First.{in_tree, begun, mdb_page_search-GivesFirst}

-- Neither C_DEL nor MDB_DUPSORT is set.
abbrev pub without_dups {κ} : {X : Type κ} → Info X → Info X
without_dups i = record i { del = false; dupsort = false }

module _ {ℓ κ} {S : Type ℓ} {X : Type κ} (e : Store S X) (dups : Dups S X) where
  abbrev cleared : Info X → Info X
  cleared i = record i { xcursor = if dups.exists then dups.reset i.xcursor else i.xcursor }

  module _ (h : ℕ) (p : TreePage S) (root : ℕ) (below above : List (Frame S)) (i : Info X)
      (free : e.blocked ≡ false) (big : 1 < root) (low : h < 32) (there : e.read root ≡ some p)
      (fresh : holds_root (bottom below above).0 root ≡ true → (bottom below above).0.page ≡ some p)
      (t : IsTree e.read h p) (searches : (not i.initialized || ltb 1 (length below)) ≡ true) where
    abbrev start : Cursor S X
    start = record { below = below; above = above; info = in_tree root i }

    -- mdb_cursor_first puts a cursor that has to search on the first leaf node of the tree and
    -- gives its key and its data.
    mdb_cursor_first-GivesItem :
        (n : Node S) × (d : List ℕ) × (a : Place S) × (up : List (Place S)) × (rest : List
          (Frame S))
        × GivesItem e n d a up rest
            (begun (in_tree root (cleared i)))
            (mdb_cursor_first e dups true true start)
        × (length up ≡ h)
        × (leaves e.read h p ≡ n ∷ after e.read 0 (a ∷ up))
    unfolding mdb_cursor_first
    mdb_cursor_first-GivesItem =
        let found =
          mdb_page_search-GivesFirst e h p root below above (cleared i) free big low there fresh
            t in
        let q = found.leaf in
        let leaf = found.is_leaf in
        let (n, en) = get_elem?-lt_length q.nodes 0 leaf.has_key in
        let plain = leaf.plain 0 n en in
        let j = begun (in_tree root (cleared i)) in
        (
          n,
          plain.value_of,
          at q 0,
          found.up,
          found.above,
          record {
            returns = >>=-some _ (then_step _ _ _ searches ∙ found.returns) (
                assert-true _ _ leaf.leaf
                ∙ else_step _ _ _ leaf.not_leaf2
                ∙ on_some-some _ _ en
                ∙ read_item-reads e dups j dups.first n plain.value_of
                    (cursor_at (at q 0 ∷ found.up) found.above j) plain.no_dup plain.reads);
            on_node = en;
            its_value = plain.reads;
            on_path = (leaf, leaf.has_key, found.on_path);
          },
          omega (arith, found.depth),
          sym (append-nil (leaves e.read h p))
              ∙ sym found.same
              ∙ ap (λ ns. flat (under e.read 0) ns ++ after e.read 1 found.up)
                  (drop-get_elem? q.nodes 0 n en),
        )

  -- What a caller does with MDB_NEXT after a call that returned: it notes the key and the data, until
  -- MDB_NOTFOUND; `none` also where the fuel runs out.
  unfoldable pub drain : ℕ → Rc × Cursor S X → Option (List (List ℕ × List ℕ))
  unfolding mdb_cursor_get
  drain zero r = none
  drain (suc f) (success, c) = mdb_cursor_get e dups next true true c >>= drain f >>= λ items.
      some ((c.info.key, c.info.datum) ∷ items)
  drain (suc f) (notfound, c) = some []
  drain (suc f) (rc, c) = none

  abbrev or_empty : Option (List ℕ) → List ℕ
  or_empty none = []
  or_empty (some d) = d

  -- The key and the data of a leaf node.
  abbrev pub item : Node S → List ℕ × List ℕ
  item n = (n.key, or_empty (value e.read n))

  abbrev on_item : Node S → List ℕ → Info X → Info X
  on_item n d i = record (live i) { key = n.key; datum = d }

  module _ (free : e.blocked ≡ false) where
    get_next :
        (a : Place S) (path : List (Place S)) (above : List (Frame S)) (i : Info X)
        → IsPath e.read 0 (a ∷ path)
        → length path < 32
        → GivesNext e a path above i
            (mdb_cursor_get e dups next true true (cursor_at (a ∷ path) above (live i)))
    unfolding mdb_cursor_get get_case
    get_next a path above i w l =
        elim (mdb_cursor_next-GivesNext e dups a path above i w l move_any) [
          | inl (m, k) ↦ inl (else_step _ _ _ free ∙ >>=-some _ m refl, k)
          | inr (n, d, a', path', gives, len, k) ↦ inr (
            n,
            d,
            a',
            path',
            record {
              returns = else_step _ _ _ free ∙ >>=-some _ gives.returns refl;
              on_node = gives.on_node;
              its_value = gives.its_value;
              on_path = gives.on_path;
            },
            len,
            k,
          )
        ]

    note : (n : Node S) (d : List ℕ) → value e.read n ≡ some d → (n.key, d) ≡ item n
    note n d h = ap (λ o. (n.key, or_empty o)) (sym h)

    -- From a leaf node on, MDB_NEXT gives the nodes to its right.
    drain-after :
        (f : ℕ) (n : Node S) (d : List ℕ) (a : Place S) (path : List (Place S))
        (above : List (Frame S)) (i : Info X)
        → length (after e.read 0 (a ∷ path)) + 1 < f
        → value e.read n ≡ some d
        → IsPath e.read 0 (a ∷ path)
        → length path < 32
        → drain f (success, cursor_at (a ∷ path) above (on_item n d i))
          ≡ some (item n ∷ map item (after e.read 0 (a ∷ path)))
    unfolding drain
    drain-after zero n d a path above i l v w s = absurd (omega arith)
    drain-after (suc zero) n d a path above i l v w s = absurd (omega arith)
    drain-after (suc (suc f)) n d a path above i l v w s =
        let j = record i { key = n.key; datum = d } in
        elim (get_next a path above j w s) [
          | inl (m, none_left) ↦
              >>=-some _ (>>=-some (drain (suc f)) m refl)
                (ap some (ap₂ (λ x xs. x ∷ xs) (note n d v) (ap (map item) (sym none_left))))
          | inr (n', d', a', path', gives, len, rest) ↦
              >>=-some _
                (>>=-some (drain (suc f)) gives.returns (
                  drain-after (suc f) n' d' a' path' above j
                    (fewer (after e.read 0 (a' ∷ path')) (after e.read 0 (a ∷ path)) n' f rest l)
                    gives.its_value gives.on_path (omega arith)))
                (ap some (ap₂ (λ x xs. x ∷ xs) (note n d v) (ap (map item) (sym rest))))
        ]
      where
        fewer :
            (xs ys : List (Node S)) (n : Node S) (f : ℕ)
            → ys ≡ n ∷ xs
            → length ys + 1 < suc (suc f)
            → length xs + 1 < suc f
        fewer xs ys n f h k = omega (arith, ap length h)

    -- In a transaction that is not blocked, on a tree without duplicates of at most 32 levels that
    -- can be read, MDB_FIRST with a cursor that is not on a page, or has a parent page, and then
    -- MDB_NEXT until MDB_NOTFOUND return the keys and the data of all leaf nodes of the tree, in
    -- order, and no others; as many calls as there are leaf nodes, and one more, are enough.
    pub mdb_cursor_get-leaves :
        (h : ℕ) (p : TreePage S) (root : ℕ) (below above : List (Frame S)) (i : Info X)
        → 1 < root
        → h < 32
        → e.read root ≡ some p
        → (holds_root (bottom below above).0 root ≡ true → (bottom below above).0.page ≡ some p)
        → IsTree e.read h p
        → (not i.initialized || ltb 1 (length below)) ≡ true
        → (mdb_cursor_get e dups first true true
              (record { below = below; above = above; info = in_tree root (without_dups i) })
            >>= drain (length (leaves e.read h p) + 1))
          ≡ some (map item (leaves e.read h p))
    unfolding mdb_cursor_get get_case
    mdb_cursor_get-leaves h p root below above i big low there fresh t searches =
        let i' = without_dups i in
        let (n, d, a, up, rest, gives, depth, all) =
          mdb_cursor_first-GivesItem h p root below above i' free big low there fresh t searches in
        >>=-some _ (else_step _ _ _ free ∙ >>=-some _ gives.returns refl) (
          drain-after (length (leaves e.read h p) + 1) n d a up rest (in_tree root (cleared i'))
            (enough (after e.read 0 (a ∷ up)) (leaves e.read h p) n all) gives.its_value
            gives.on_path (omega (arith, depth))
          ∙ ap some (ap (map item) (sym all)))
      where
        enough : (xs ys : List (Node S)) (n : Node S) → ys ≡ n ∷ xs → length xs + 1 < length ys + 1
        enough xs ys n h = omega (arith, ap length h)
