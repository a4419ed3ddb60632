-- ===== src/Engine/NodePlace.antt =====
-- Where mdb_node_search ends: the place of a key among ordered keys.
use Prim.Native.Nat.Ordering.{lt, eq, gt}
use kotlin_lmdb.Common.{
  ℕ, zero, suc, ◌≤◌, ◌<◌, true, ◌&&◌, Option, none, some, List, [], ◌∷◌, length, get_elem?, get_or,
  ltb, leb, ℤ, pos, is_zero, Ordering, ◌≡◌, ◌≢◌, refl, arith, sym, ap, ◌∙◌, subst, >>=-some,
  if◌then◌else◌,
}
use kotlin_lmdb.Comparers.Lex.{sign, Preorders}
use kotlin_lmdb.Engine.{
  Page, Cmp, choose_cmp, past, Found, found, first_key, probe, mdb_node_search,
}
use kotlin_lmdb.Engine.NodeLoop.{Split, Placed, loop-Ends, starts}

no_lt : (a b : Ordering) → (a ≡ lt → b ≡ lt) → (a ≡ eq → b ≡ lt) → b ≢ lt → a ≡ gt
no_lt lt b h k n = absurd (n (h refl))
no_lt eq b h k n = absurd (n (k refl))
no_lt gt b h k n = refl

no_gt : (a b : Ordering) → (a ≡ lt → b ≡ lt) → (a ≡ eq → b ≡ lt) → a ≢ gt → b ≡ lt
no_gt lt b h k n = h refl
no_gt eq b h k n = k refl
no_gt gt b h k n = absurd (n refl)

-- The keys of the page from `first` on rise in the order of the comparison.
abbrev pub IsRisingPage : (List ℕ → List ℕ → ℤ) → Page → Type 0
IsRisingPage f mp =
    (i j : ℕ)
    → first_key mp ≤ i
    → i < j
    → j < length mp.keys
    → sign (f (get_or mp.keys i []) (get_or mp.keys j [])) ≡ lt

module _ (f : List ℕ → List ℕ → ℤ) (order : Preorders (λ x y. sign (f x y))) (mp : Page)
    (key : List ℕ) (rising : IsRisingPage f mp) where
  abbrev value : ℕ → ℤ
  value i = f key (get_or mp.keys i [])

  later_lt :
      (i j : ℕ)
      → sign (f (get_or mp.keys i []) (get_or mp.keys j [])) ≡ lt
      → (sign (value i) ≡ lt → sign (value j) ≡ lt) × (sign (value i) ≡ eq → sign (value j) ≡ lt)
  later_lt i j e =
      let x = get_or mp.keys i [] in
      let y = get_or mp.keys j [] in
      (λ h. order.step key x y h e, λ h. order.tie_left key x y h ∙ e)

  value-Split : Split value (first_key mp) (length mp.keys)
  value-Split = record {
    gt_below = λ i j a b c h. let (l, t) = later_lt i j (rising i j a b c) in no_lt _ _ l t h;
    lt_above = λ i j a b c h. let (l, t) = later_lt i j (rising i j a b c) in no_gt _ _ l t h;
  }

get_or-some : (ks : List (List ℕ)) (i : ℕ) → i < length ks → get_elem? ks i ≡ some (get_or ks i [])
get_or-some [] i h = absurd (omega arith)
get_or-some (k ∷ ks) zero h = refl
get_or-some (k ∷ ks) (suc i) h = get_or-some ks i (omega arith)

positive_keys : (n : ℕ) (rc : ℤ) → 0 < n → (is_zero rc && ltb 0 n) ≡ is_zero rc
positive_keys n rc h = ground arith

module _ (compare_with : Cmp → List ℕ → List ℕ → ℤ) (mp : Page) (key : List ℕ) (md_cmp c : Cmp)
    (chosen : choose_cmp mp md_cmp ≡ some c) (order : Preorders (λ x y. sign (compare_with c x y)))
    (rising : IsRisingPage (compare_with c) mp) (some_key : first_key mp < length mp.keys) where
  reads_page :
      (i : ℕ)
      → i < length mp.keys
      → probe compare_with mp key c i ≡ some (compare_with c key (get_or mp.keys i []))
  reads_page i h =
      ap
        (λ (o : Option (List ℕ)).
          (let v : Option ℤ = elim o [ none ↦ none | some k ↦ some (compare_with c key k) ] in v))
        (get_or-some mp.keys i h)

  -- In a page that has a key to compare, which is another one than the first in a branch page, and
  -- whose keys rise in the order of the comparison that mdb_node_search chooses, a total
  -- preorder, the search returns. The index that it stores is the place of the key: all keys before
  -- it, from node 1 on in a branch page, are less and all after it greater, and the key there
  -- is equal exactly if `*exactp` is 1. The node returned is the one at the index, or NULL if
  -- all keys are less.
  pub mdb_node_search-Placed :
      (r : Found) × (mdb_node_search compare_with mp key md_cmp ≡ some r)
      × Placed
          (λ i. compare_with c key (get_or mp.keys i []))
          (first_key mp)
          (length mp.keys)
          r.index
          r.exact
      × (r.node ≡ (if leb (length mp.keys) r.index then none else some r.index))
  unfolding mdb_node_search
  mdb_node_search-Placed =
      let n = length mp.keys in
      let f = compare_with c in
      let entered : ltb (first_key mp) n ≡ true = ground (arith, some_key) in
      let (q, e, placed) =
        loop-Ends (value f order mp key rising) (probe compare_with mp key c) (first_key mp) n
          (value-Split f order mp key rising) reads_page (suc n) (first_key mp) n 0 (pos 0)
          (starts (value f order mp key rising) (probe compare_with mp key c) (first_key mp) n
            (value-Split f order mp key rising) reads_page some_key)
          (omega arith) in
      (
        found (first_key mp) n q.0 q.1,
        >>=-some _ chosen (>>=-some _ e refl),
        subst
            (Placed (λ i. compare_with c key (get_or mp.keys i [])) (first_key mp) n (past q.0 q.1))
            (sym (positive_keys n q.1 (omega arith))) placed,
        ap (λ b. if leb n (past q.0 q.1) then none else (if b then some (past q.0 q.1) else none))
            entered,
      )
