-- ===== src/Examples/Lookups.antt =====
-- mdb_get on the tree of Examples/Trees, whose keys are sorted.
use Prim.Native.Nat.Ordering.{lt, gt}
use kotlin_lmdb.Common.{
  ℕ, zero, suc, true, some, [], ◌∷◌, get_elem?, ◌≡◌, ◌≢◌, refl, sym, ap, subst, arith,
}
use mathlib.Core.Option.{some-injective, none-ne-some}
use kotlin_lmdb.Comparers.Lex.{lex}
use kotlin_lmdb.Engine.{cmp_other}
use kotlin_lmdb.Engine.NodePlace.{IsRisingPage}
use kotlin_lmdb.Btree.{page_view}
use kotlin_lmdb.Btree.Lookup.{mdb_get}
use kotlin_lmdb.Btree.Tree.{leaves}
use kotlin_lmdb.Btree.Order.{IsIn, ord, Bounded, IsSorted}
use kotlin_lmdb.Btree.Gets.{asked, GivesKey, mdb_get-GivesKey}
use kotlin_lmdb.Examples.Pages.{by_bytes, by_bytes-Preorders}
use kotlin_lmdb.Examples.Trees.{
  Item, APage, left_page, right_page, root_page, pages, engine, no_dups, fresh_info, root-IsTree,
}

left-IsRisingPage : IsRisingPage (by_bytes cmp_other) (page_view left_page)
unfolding lex
left-IsRisingPage zero zero h k l = absurd (omega arith)
left-IsRisingPage zero (suc zero) h k l = refl
left-IsRisingPage zero (suc (suc j)) h k l = absurd (omega arith)
left-IsRisingPage (suc i) j h k l = absurd (omega arith)

right-IsRisingPage : IsRisingPage (by_bytes cmp_other) (page_view right_page)
right-IsRisingPage i j h k l = absurd (omega arith)

root-IsRisingPage : IsRisingPage (by_bytes cmp_other) (page_view root_page)
root-IsRisingPage i j h k l = absurd (omega arith)

-- The keys of the left page are less than the separator.
left_less :
    (m : Item)
    → IsIn m (leaves pages 0 left_page)
    → ord pages (by_bytes cmp_other) m.key (9 ∷ []) ≡ lt
unfolding lex
left_less m (zero, h) =
    subst (λ n. ord pages (by_bytes cmp_other) n.key (9 ∷ []) ≡ lt) (some-injective _ m h) refl
left_less m (suc zero, h) =
    subst (λ n. ord pages (by_bytes cmp_other) n.key (9 ∷ []) ≡ lt) (some-injective _ m h) refl
left_less m (suc (suc i), h) = absurd (none-ne-some m h)

right_not_less :
    (m : Item)
    → IsIn m (leaves pages 0 right_page)
    → ord pages (by_bytes cmp_other) (9 ∷ []) m.key ≢ gt
unfolding lex
right_not_less m (zero, h) =
    subst (λ n. ord pages (by_bytes cmp_other) (9 ∷ []) n.key ≢ gt) (some-injective _ m h)
      (λ k. cc k)
right_not_less m (suc i, h) = absurd (none-ne-some m h)

abbrev Sorted : ℕ → Item → APage → Type 0
Sorted i n q =
    Bounded pages (by_bytes cmp_other) 0 i root_page n q × IsSorted pages (by_bytes cmp_other) 0 q

left_sorted : (n : Item) (q : APage) → left_page ≡ q → Sorted 0 n q
left_sorted n q e = subst (Sorted 0 n) e (
  record {
    from_key = λ l m k. absurd (omega arith);
    to_next = λ n' h m k.
        subst (λ s. ord pages (by_bytes cmp_other) m.key s.key ≡ lt) (some-injective _ n' h)
          (left_less m k);
  },
  left-IsRisingPage,
)

right_sorted : (n : Item) (q : APage) → n.key ≡ 9 ∷ [] → right_page ≡ q → Sorted 1 n q
right_sorted n q key e = subst (Sorted 1 n) e (
  record {
    from_key = λ l m k.
        subst (λ s. ord pages (by_bytes cmp_other) s m.key ≢ gt) (sym key) (right_not_less m k);
    to_next = λ n' h m k. absurd (none-ne-some n' h);
  },
  right-IsRisingPage,
)

children_sorted :
    (i : ℕ) (n : Item) (q : APage)
    → get_elem? root_page.nodes i ≡ some n
    → pages n.child ≡ some q
    → Sorted i n q
children_sorted zero n q h r =
    left_sorted n q
      (some-injective _ q (subst (λ s. pages s.child ≡ some q) (sym (some-injective _ n h)) r))
children_sorted (suc zero) n q h r =
    right_sorted n q (sym (ap (λ s. s.key) (some-injective _ n h)))
      (some-injective _ q (subst (λ s. pages s.child ≡ some q) (sym (some-injective _ n h)) r))
children_sorted (suc (suc i)) n q h r = absurd (none-ne-some n h)

mdb_get-GivesKey_example :
    GivesKey engine no_dups cmp_other refl by_bytes-Preorders
      (5 ∷ [])
      1
      root_page
      2
      refl
      (omega arith)
      (omega arith)
      refl
      root-IsTree
      (root-IsRisingPage, children_sorted)
      fresh_info
      (mdb_get engine no_dups true true true (asked cmp_other (5 ∷ []) 2 fresh_info))
mdb_get-GivesKey_example =
    mdb_get-GivesKey engine no_dups cmp_other refl by_bytes-Preorders (5 ∷ []) 1 root_page 2 refl
      (omega arith) (omega arith) refl root-IsTree (root-IsRisingPage, children_sorted) fresh_info
      (omega arith)
