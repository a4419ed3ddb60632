-- ===== src/Btree/Found.antt =====
-- mdb.c: mdb_page_search and mdb_get with a key, on a tree whose keys are sorted.
use Prim.Native.Nat.Ordering.{eq}
use kotlin_lmdb.Common.{
  ℕ, zero, suc, ◌+◌, ◌<◌, false, Option, none, some, List, [], ◌∷◌, length, get_elem?, get_or, ◌≡◌,
  refl, sym, ap, ◌∙◌, subst, arith, >>=-some, get_elem?-lt_length,
}
use mathlib.Core.Option.{some-injective, none-ne-some}
use kotlin_lmdb.Comparers.Lex.{sign, Preorders}
use kotlin_lmdb.Engine.{Cmp, is_cint}
use kotlin_lmdb.Btree.{Node, TreePage, Frame, Info, numkeys, page_view}
use kotlin_lmdb.Btree.Stack.{drop_first}
use kotlin_lmdb.Btree.Search.{Store, ps_key, search_round, search_at}
use kotlin_lmdb.Btree.Steps.{if-true, if-false, then_step, else_step}
use kotlin_lmdb.Btree.Tree.{flat, under, leaves, Place, at, cursor_at, IsTree}
use kotlin_lmdb.Btree.Order.{IsIn, in_flat, flat_in, ord, IsSorted, IsChild, in_child}
use kotlin_lmdb.Btree.Find.{GivesPage, node_search, step_down-key, found-IsChild}

-- md_cmp
abbrev pub by_key {κ} : {X : Type κ} → Cmp → Info X → Info X
by_key cmp i = record i { md_cmp = cmp }

module _ {S : Type 0} (read : ℕ → Option (TreePage S)) where
  only : (m n : Node S) → IsIn m (n ∷ []) → n ≡ m
  only m n (zero, h) = some-injective n m h
  only m n (suc i, h) = absurd (none-ne-some m h)

  leaf_nodes : (m : Node S) (p : TreePage S) → IsIn m (leaves read 0 p) → IsIn m p.nodes
  leaf_nodes m p k =
      let (i, n, h, l) = in_flat (under read 0) m p.nodes k in (i, h ∙ ap some (only m n l))

  in_leaf : (m : Node S) (p : TreePage S) → IsIn m p.nodes → IsIn m (leaves read 0 p)
  in_leaf m p (i, h) = flat_in (under read 0) m p.nodes i m h (0, refl)

  abbrev opened : ℕ → Option (TreePage S) → List (Node S)
  opened h o = elim o [ none ↦ [] | some q ↦ flat (under read h) q.nodes ]

  -- The nodes under a child are those of the page that it reads.
  under-read :
      (h : ℕ) (m n : Node S) (q : TreePage S)
      → read n.child ≡ some q
      → under read (suc h) n ≡ leaves read h q
  under-read h m n q r = ap (opened h) r

module _ {κ} {S : Type 0} {X : Type κ} (e : Store S X) (cmp : Cmp) (plain : is_cint cmp ≡ false)
    (order : Preorders (λ x y. sign (e.compare_with cmp x y))) (key : List ℕ) where
  -- The nodes with the key are under the child that the key leads to.
  module _ (h : ℕ) (p : TreePage S) (t : IsTree e.read (suc h) p)
      (sorted : IsSorted e.read (e.compare_with cmp) (suc h) p) (j : ℕ) (n : Node S)
      (q : TreePage S) (en : get_elem? p.nodes j ≡ some n) (er : e.read n.child ≡ some q)
      (child : IsChild
        (λ i. ord e.read (e.compare_with cmp) key (get_or (page_view p).keys i []))
        (numkeys p)
        j)
      (m : Node S) where
    down_holds :
        sign (e.compare_with cmp key m.key) ≡ eq
        → IsIn m (leaves e.read (suc h) p)
        → IsIn m (leaves e.read h q)
    down_holds same inside =
        let (i, n', en', l) = in_flat (under e.read (suc h)) m p.nodes inside in
        let (q', er', t') = t.1 i n' en' in
        let l' = subst (IsIn m) (under-read e.read h m n' q' er') l in
        let i_j =
          in_child e.read (e.compare_with cmp) order key p h sorted j i n' q' m en' er' l' same
            child in
        let nodes = some-injective n' n (sym en' ∙ ap (get_elem? p.nodes) i_j ∙ en) in
        subst (IsIn m) (under-read e.read h m n q er)
          (subst (λ n. IsIn m (under e.read (suc h) n)) nodes l)

    down_part : IsIn m (leaves e.read h q) → IsIn m (leaves e.read (suc h) p)
    down_part inside =
        flat_in (under e.read (suc h)) m p.nodes j n en
          (subst (IsIn m) (sym (under-read e.read h m n q er)) inside)

  pub search_at-key :
      (h f : ℕ) (p : TreePage S) (k : ℕ) (path : List (Place S)) (above : List (Frame S))
      (i : Info X)
      → h < f
      → length path + h < 32
      → IsTree e.read h p
      → IsSorted e.read (e.compare_with cmp) h p
      → GivesPage e cmp plain order key h p
          (by_key cmp i)
          (search_at e f ps_key key false (cursor_at (at p k ∷ path) above (by_key cmp i)))
  unfolding search_at search_round
  search_at-key h zero p k path above i l d t w = absurd (omega arith)
  search_at-key zero (suc f) p k path above i l d t w = record {
    leaf = p;
    key_was = k;
    up = path;
    above = above;
    returns = else_step _ _ _ t.not_branch ∙ if-true _ _ t.leaf;
    is_leaf = t;
    rising = w;
    holds_key = λ m same inside. leaf_nodes e.read m p inside;
    part_of = λ m inside. in_leaf e.read m p inside;
  }
  search_at-key (suc h) (suc f) p k path above i l d (b, children) (rising, below) =
      let (r, found, placed, node) =
        node_search e cmp plain order key p 1 (if-false _ _ b.not_leaf) b.has_keys rising in
      let (j, child, leads) = found-IsChild e p _ r b.has_keys b.fits placed node in
      let (n, en) = get_elem?-lt_length p.nodes j child.0 in
      let (q, er, tq) = children j n en in
      let down =
        step_down-key e cmp plain order key p k path above i r j n q b.has_keys b.fits (omega arith)
          found leads child.0 en er in
      let rest =
        search_at-key h f q 0 (at p j ∷ path) (drop_first above) i (omega arith) (omega arith) tq
          (below j n q en er).1 in
      record {
        leaf = rest.leaf;
        key_was = rest.key_was;
        up = rest.up;
        above = rest.above;
        returns = then_step _ _ _ b.branch ∙ >>=-some _ (>>=-some _ down refl) rest.returns;
        is_leaf = rest.is_leaf;
        rising = rest.rising;
        holds_key = λ m same inside.
            rest.holds_key m same
              (down_holds h p (b, children) (rising, below) j n q en er child m same inside);
        part_of = λ m inside.
            down_part h p (b, children) (rising, below) j n q en er child m (rest.part_of m inside);
      }
