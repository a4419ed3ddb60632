-- ===== src/Btree/First.antt =====
-- mdb.c: mdb_page_search_root and mdb_cursor_first go down to the first leaf node of a tree.
use kotlin_lmdb.Common.{
  ℕ, zero, suc, ◌+◌, ◌<◌, Bool, true, false, ◌||◌, Option, some, List, [], ◌∷◌, ◌++◌, length,
  get_elem?, ltb, ◌≡◌, inl, inr, refl, sym, ap, ◌∙◌, arith, Bool-cases, >>=-some,
  get_elem?-lt_length,
}
use mathlib.Core.List.{append_assoc}
use kotlin_lmdb.Btree.{Rc, success, Node, TreePage, Frame, Info, Cursor, numkeys, assert}
use kotlin_lmdb.Btree.Stack.{drop_first}
use kotlin_lmdb.Btree.Search.{
  bottom, holds_root, to_root, start_at, search_tree, search_from, mdb_page_search,
  mdb_page_search_root, Store, ps_first, descend, search_round, search_at,
}
use kotlin_lmdb.Btree.Steps.{
  then_step, else_step, if-true, if-false, assert-true, on_some-some, on_page-some,
}
use kotlin_lmdb.Btree.Tree.{Place, frame, at, cursor_at, IsLeafPage, IsTree, leaves, IsPath, after}
use kotlin_lmdb.Btree.Right.{push-cursor_at, under-child}

pub two_keys : (b : Bool) (n : ℕ) → 1 < n → (b || ltb 1 n) ≡ true
two_keys true n h = refl
two_keys false n h = ground arith

one_key : (n : ℕ) → 1 < n → ltb 0 n ≡ true
one_key n h = ground arith

-- DB_STALE is not set, and md_root is `root`.
abbrev pub in_tree {κ} : {X : Type κ} → (root : ℕ) → Info X → Info X
in_tree root i = record i { stale = false; root = some root }

-- C_INITIALIZED is set, and C_EOF is not.
abbrev pub begun {κ} : {X : Type κ} → Info X → Info X
begun i = record i { initialized = true; eof = false }

module _ {ℓ κ} {S : Type ℓ} {X : Type κ} (e : Store S X) where
  -- The leaf page that a search for the first one ends at: nothing is to its left.
  pub record GivesFirst (h : ℕ) (p : TreePage S) (path : List (Place S)) (i : Info X)
      (r : Option (Rc × Cursor S X)) : Type (ℓ ⊔ κ) where
    pub leaf : TreePage S
    pub key_was : ℕ
    pub up : List (Place S)
    pub above : List (Frame S)
    pub returns : r ≡ some (success, cursor_at (at leaf key_was ∷ up) above (begun i))
    pub is_leaf : IsLeafPage e.read leaf
    pub on_path : IsPath e.read 1 up
    pub depth : length up ≡ length path + h
    pub same :
        leaves e.read 0 leaf ++ after e.read 1 up ≡ leaves e.read h p ++ after e.read (suc h) path

  -- One step down, to the first child.
  module _ (key : List ℕ) (p : TreePage S) (k : ℕ) (path : List (Place S)) (above : List (Frame S))
      (i : Info X) where
    step_down-first :
        (n : Node S) (q : TreePage S)
        → 1 < numkeys p
        → suc (length path) < 32
        → get_elem? p.nodes 0 ≡ some n
        → e.read n.child ≡ some q
        → assert
            (e.is_free_dbi || ltb 1 (numkeys p))
            (descend e ps_first key p k)
            (cursor_at (at p k ∷ path) above i)
          ≡ some (success, cursor_at (at q 0 ∷ at p 0 ∷ path) (drop_first above) i)
    step_down-first n q l d en er =
        assert-true _ _ (two_keys e.is_free_dbi (numkeys p) l)
        ∙ assert-true _ _ (one_key (numkeys p) l)
        ∙ on_some-some _ _ en
        ∙ on_page-some _ _ _ er
        ∙ push-cursor_at q (at p 0 ∷ path) above i d

  pub search_at-first :
      (h f : ℕ) (key : List ℕ) (p : TreePage S) (k : ℕ) (path : List (Place S))
      (above : List (Frame S)) (i : Info X)
      → h < f
      → length path + h < 32
      → IsTree e.read h p
      → IsPath e.read (suc h) path
      → GivesFirst h p path i (search_at e f ps_first key false (cursor_at (at p k ∷ path) above i))
  unfolding search_at search_round
  search_at-first h zero key p k path above i l d t w = absurd (omega arith)
  search_at-first zero (suc f) key p k path above i l d t w = record {
    leaf = p;
    key_was = k;
    up = path;
    above = above;
    returns = else_step _ _ _ t.not_branch ∙ if-true _ _ t.leaf;
    is_leaf = t;
    on_path = w;
    depth = omega arith;
    same = refl;
  }
  search_at-first (suc h) (suc f) key p k path above i l d t w =
      let (b, children) = t in
      let (n, en) = get_elem?-lt_length p.nodes 0 (omega (arith, b.has_keys)) in
      let (q, er, tq) = children 0 n en in
      let down = step_down-first key p k path above i n q b.has_keys (omega arith) en er in
      let rest =
        search_at-first h f key q 0 (at p 0 ∷ path) (drop_first above) i (omega arith) (omega arith)
          tq (t, omega (arith, b.has_keys), w) in
      record {
        leaf = rest.leaf;
        key_was = rest.key_was;
        up = rest.up;
        above = rest.above;
        returns = then_step _ _ _ b.branch ∙ >>=-some _ (>>=-some _ down refl) rest.returns;
        is_leaf = rest.is_leaf;
        on_path = rest.on_path;
        depth = omega (arith, rest.depth);
        same =
            rest.same
            ∙ sym (append_assoc (leaves e.read h q) _ _)
            ∙ ap (λ ns. ns ++ after e.read (suc (suc h)) path)
                (sym (under-child e.read h p 0 n q en er));
      }

  -- The bottom entry of the stack is mdb_page_search's root frame, up to the page that it holds.
  module _ (p : TreePage S) (root : ℕ) (c : Cursor S X) where
    abbrev start : Frame S
    start = (bottom c.below c.above).0

    start-page : start.page ≡ some p → start ≡ frame (at p start.ki)
    start-page h = ap (λ o. (let f : Frame S = record { page = o; ki = start.ki } in f)) h

    -- A bottom entry with the number of the root holds the root.
    pub to_root-frame :
        e.read root ≡ some p
        → (holds_root start root ≡ true → start.page ≡ some p)
        → to_root e root c
          ≡ some (success, cursor_at (at p start.ki ∷ []) (bottom c.below c.above).1 c.info)
    to_root-frame there fresh = elim (Bool-cases (holds_root start root)) [
      | inl same ↦
          if-true _ _ same
          ∙ ap (λ f. some (success, start_at e f (bottom c.below c.above).1 c))
              (start-page (fresh same))
      | inr other ↦ if-false _ _ other ∙ on_page-some _ _ _ there
    ]

  -- In a transaction that is not blocked, mdb_page_search for the first page ends at a leaf page
  -- with nothing to its left.
  pub mdb_page_search-GivesFirst :
      (h : ℕ) (p : TreePage S) (root : ℕ) (below above : List (Frame S)) (i : Info X)
      → e.blocked ≡ false
      → 1 < root
      → h < 32
      → e.read root ≡ some p
      → (holds_root (bottom below above).0 root ≡ true → (bottom below above).0.page ≡ some p)
      → IsTree e.read h p
      → GivesFirst h p [] (in_tree root i) (
          mdb_page_search e ps_first [] false false
            (record { below = below; above = above; info = in_tree root i }))
  unfolding mdb_page_search search_tree search_from mdb_page_search_root
  mdb_page_search-GivesFirst h p root below above i free r l there fresh t =
      let c : Cursor S X = record { below = below; above = above; info = in_tree root i } in
      let k = (bottom below above).0.ki in
      let rest = (bottom below above).1 in
      let found =
        search_at-first h 33 [] p k [] rest (in_tree root i) (omega arith) (omega arith) t tt in
      record {
        leaf = found.leaf;
        key_was = found.key_was;
        up = found.up;
        above = found.above;
        returns =
            else_step _ _ _ free
            ∙ assert-true _ _ (two_keys false root r)
            ∙ >>=-some _ (>>=-some _ (to_root-frame p root c there fresh) refl) found.returns;
        is_leaf = found.is_leaf;
        on_path = found.on_path;
        depth = found.depth;
        same = found.same;
      }
