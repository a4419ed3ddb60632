-- ===== src/Examples/Pages.antt =====
-- mdb_node_search in a branch page of three nodes, mdb_cmp_memn and mdb_cmp_memnr, at short byte strings.
use Prim.Native.Nat.Ordering.{lt, eq, gt}
use kotlin_lmdb.Common.{
  ℕ, zero, suc, true, false, some, none, List, [], ◌∷◌, get_or, leb, ℤ, pos, negsuc, Ordering, ◌≡◌,
  refl, arith, sym, ap, ◌∙◌, if◌then◌else◌,
}
use kotlin_lmdb.Comparers.Lex.{lex, sign, swap, Preorders, lex-Orders}
use kotlin_lmdb.Engine.{Page, Cmp, cmp_other, Found, choose_cmp, mdb_node_search}
use kotlin_lmdb.Comparers.{bitwise_compare}
use kotlin_lmdb.Engine.Compare.{lex_to, IsMemcmp, mdb_cmp_memn, mdb_cmp_memn-bitwise_compare}
use kotlin_lmdb.Engine.Reverse.{Says, reverse, mdb_cmp_memnr, mdb_cmp_memnr-reverse}
use kotlin_lmdb.Engine.NodeLoop.{Placed}
use kotlin_lmdb.Engine.NodePlace.{IsRisingPage, mdb_node_search-Placed}

abbrev pub of_order : Ordering → ℤ
of_order lt = negsuc 0
of_order eq = pos 0
of_order gt = pos 1

sign-of_order : (o : Ordering) → sign (of_order o) ≡ o
sign-of_order lt = refl
sign-of_order eq = refl
sign-of_order gt = refl

abbrev pub by_bytes : Cmp → List ℕ → List ℕ → ℤ
by_bytes c x y = of_order (lex x y)

pub by_bytes-Preorders : Preorders (λ x y. sign (by_bytes cmp_other x y))
by_bytes-Preorders =
    let o = lex-Orders.order in
    record {
      flip = λ a b. sign-of_order (lex b a) ∙ o.flip a b ∙ ap swap (sym (sign-of_order (lex a b)));
      step = λ a b c h k.
          sign-of_order (lex a c)
          ∙ o.step a b c (sym (sign-of_order (lex a b)) ∙ h) (sym (sign-of_order (lex b c)) ∙ k);
      tie_left = λ a b c h.
          sign-of_order (lex a c)
          ∙ o.tie_left a b c (sym (sign-of_order (lex a b)) ∙ h)
          ∙ sym (sign-of_order (lex b c));
    }

abbrev branch : Page
branch = record { is_leaf = false; is_branch = true; keys = [] ∷ (5 ∷ []) ∷ (9 ∷ []) ∷ [] }

branch-IsRisingPage : IsRisingPage (by_bytes cmp_other) branch
unfolding lex
branch-IsRisingPage zero j h k l = absurd (omega arith)
branch-IsRisingPage (suc zero) zero h k l = absurd (omega arith)
branch-IsRisingPage (suc zero) (suc zero) h k l = absurd (omega arith)
branch-IsRisingPage (suc zero) (suc (suc zero)) h k l = refl
branch-IsRisingPage (suc zero) (suc (suc (suc j))) h k l = absurd (omega arith)
branch-IsRisingPage (suc (suc i)) j h k l = absurd (omega arith)

chosen : choose_cmp branch cmp_other ≡ some cmp_other
unfolding choose_cmp
chosen = refl

-- The one node of a branch page is not compared: `*exactp` is 1, and NULL is returned.
one_node :
    mdb_node_search by_bytes (record branch { keys = [] ∷ [] }) (7 ∷ []) cmp_other
    ≡ some (record { index = 0; exact = true; node = none })
unfolding mdb_node_search
one_node = refl

mdb_node_search-Placed_example :
    (r : Found) × (mdb_node_search by_bytes branch (7 ∷ []) cmp_other ≡ some r)
    × Placed (λ i. by_bytes cmp_other (7 ∷ []) (get_or branch.keys i [])) 1 3 r.index r.exact
    × (r.node ≡ (if leb 3 r.index then none else some r.index))
mdb_node_search-Placed_example =
    mdb_node_search-Placed by_bytes branch (7 ∷ []) cmp_other cmp_other chosen by_bytes-Preorders
      branch-IsRisingPage (omega arith)

-- memcmp, as the order of the first bytes that differ.
abbrev order_memcmp : List ℕ → List ℕ → ℕ → ℤ
order_memcmp a b n = of_order (lex_to n a b)

order_memcmp-IsMemcmp : IsMemcmp order_memcmp
order_memcmp-IsMemcmp a b n h k = sign-of_order (lex_to n a b)

mdb_cmp_memn-bitwise_compare_example :
    sign (mdb_cmp_memn order_memcmp (7 ∷ 200 ∷ []) (7 ∷ []))
    ≡ sign (bitwise_compare (some (7 ∷ 200 ∷ [])) (some (7 ∷ [])))
mdb_cmp_memn-bitwise_compare_example =
    mdb_cmp_memn-bitwise_compare order_memcmp order_memcmp-IsMemcmp (7 ∷ 200 ∷ []) (7 ∷ [])
      (omega arith) (omega arith) (omega arith) (omega arith)

-- The key 7 goes between 5 and 9.
search_branch :
    mdb_node_search by_bytes branch (7 ∷ []) cmp_other
    ≡ some (record { index = 2; exact = false; node = some 2 })
unfolding mdb_node_search lex
search_branch = refl

mdb_cmp_memnr-reverse_example :
    Says
      (lex (reverse (7 ∷ 200 ∷ [])) (reverse (3 ∷ 9 ∷ 200 ∷ [])))
      (mdb_cmp_memnr (7 ∷ 200 ∷ []) (3 ∷ 9 ∷ 200 ∷ []))
mdb_cmp_memnr-reverse_example = mdb_cmp_memnr-reverse (7 ∷ 200 ∷ []) (3 ∷ 9 ∷ 200 ∷ [])

-- 7 is before 9, and a string is after its own end.
memnr_less : mdb_cmp_memnr (7 ∷ 200 ∷ []) (3 ∷ 9 ∷ 200 ∷ []) ≡ some (negsuc 1)
unfolding mdb_cmp_memnr
memnr_less = refl

memnr_longer : mdb_cmp_memnr (7 ∷ 9 ∷ 200 ∷ []) (200 ∷ []) ≡ some (pos 1)
unfolding mdb_cmp_memnr
memnr_longer = refl
