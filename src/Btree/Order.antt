-- ===== src/Btree/Order.antt =====
-- The order of the keys of a B+tree, and which child of a branch page has a key: what
-- mdb_page_search_root relies on.
use Prim.Native.Nat.Ordering.{lt, eq, gt}
use kotlin_lmdb.Common.{
  ℕ, zero, suc, ◌≤◌, ◌<◌, Option, some, List, [], ◌∷◌, ◌++◌, map, length, get_elem?, get_or, ℤ,
  Ordering, ◌≡◌, ◌≢◌, ◌⊎◌, inl, inr, refl, sym, ap, ◌∙◌, subst, arith, get_elem?-lt_length,
}
use mathlib.Core.Option.{some-injective, none-ne-some}
use kotlin_lmdb.Comparers.Lex.{sign, swap, Preorders}
use kotlin_lmdb.Engine.{first_key}
use kotlin_lmdb.Engine.NodePlace.{IsRisingPage}
use kotlin_lmdb.Btree.{Node, TreePage, numkeys, page_view}
use kotlin_lmdb.Btree.Tree.{flat, leaves}

abbrev pub IsIn {ℓ} : {A : Type ℓ} → A → List A → Type ℓ
IsIn x xs = (i : ℕ) × (get_elem? xs i ≡ some x)

module _ {ℓ} {A : Type ℓ} where
  in_append : (x : A) (xs ys : List A) → IsIn x (xs ++ ys) → IsIn x xs ⊎ IsIn x ys
  in_append x [] ys m = inr m
  in_append x (y ∷ xs) ys (zero, h) = inl (zero, h)
  in_append x (y ∷ xs) ys (suc i, h) = elim (in_append x xs ys (i, h)) [
    | inl (j, k) ↦ inl (suc j, k)
    | inr k ↦ inr k
  ]

  in_left : (x : A) (xs ys : List A) → IsIn x xs → IsIn x (xs ++ ys)
  in_left x [] ys (i, h) = absurd (none-ne-some x h)
  in_left x (y ∷ xs) ys (zero, h) = (zero, h)
  in_left x (y ∷ xs) ys (suc i, h) = let (j, k) = in_left x xs ys (i, h) in (suc j, k)

  in_right : (x : A) (xs ys : List A) → IsIn x ys → IsIn x (xs ++ ys)
  in_right x [] ys m = m
  in_right x (y ∷ xs) ys m = let (j, k) = in_right x xs ys m in (suc j, k)

  pub in_flat :
      (f : A → List A) (x : A) (xs : List A)
      → IsIn x (flat f xs)
      → (i : ℕ) × (y : A) × (get_elem? xs i ≡ some y) × IsIn x (f y)
  in_flat f x [] (i, h) = absurd (none-ne-some x h)
  in_flat f x (y ∷ ys) m = elim (in_append x (f y) (flat f ys) m) [
    | inl k ↦ (0, y, refl, k)
    | inr k ↦ let (i, z, h, l) = in_flat f x ys k in (suc i, z, h, l)
  ]

  pub flat_in :
      (f : A → List A) (x : A) (xs : List A) (i : ℕ) (y : A)
      → get_elem? xs i ≡ some y
      → IsIn x (f y)
      → IsIn x (flat f xs)
  flat_in f x [] i y h m = absurd (none-ne-some y h)
  flat_in f x (z ∷ zs) zero y h m =
      in_left x (f z) (flat f zs) (subst (λ w. IsIn x (f w)) (sym (some-injective z y h)) m)
  flat_in f x (z ∷ zs) (suc i) y h m = in_right x (f z) (flat f zs) (flat_in f x zs i y h m)

module _ {ℓ} {S : Type ℓ} where
  pub length-keys : (ns : List (Node S)) → length (map (λ n. n.key) ns) ≡ length ns
  length-keys [] = refl
  length-keys (n ∷ ns) = ap suc (length-keys ns)

  -- The key that the search of a page sees at the index of a node.
  pub key_at :
      (ns : List (Node S)) (i : ℕ) (n : Node S)
      → get_elem? ns i ≡ some n
      → get_or (map (λ n. n.key) ns) i [] ≡ n.key
  key_at [] i n h = absurd (none-ne-some n h)
  key_at (m ∷ ns) zero n h = ap (λ n. n.key) (some-injective m n h)
  key_at (m ∷ ns) (suc i) n h = key_at ns i n h

  pub in_bounds :
      (ns : List (Node S)) (i : ℕ) (n : Node S) → get_elem? ns i ≡ some n → i < length ns
  in_bounds [] i n h = absurd (none-ne-some n h)
  in_bounds (m ∷ ns) zero n h = omega arith
  in_bounds (m ∷ ns) (suc i) n h = omega (arith, in_bounds ns i n h)

module _ {S : Type 0} (read : ℕ → Option (TreePage S)) (f : List ℕ → List ℕ → ℤ) where
  abbrev pub ord : List ℕ → List ℕ → Ordering
  ord x y = sign (f x y)

  -- The separators of a branch page bound the keys of the leaf nodes under the children: those of the
  -- child at `i` are not less than the key at `i`, and less than the one after it.
  pub record Bounded (h i : ℕ) (p : TreePage S) (n : Node S) (q : TreePage S) : Type 0 where
    pub from_key : 1 ≤ i → (m : Node S) → IsIn m (leaves read h q) → ord n.key m.key ≢ gt
    pub to_next :
        (n' : Node S)
        → get_elem? p.nodes (suc i) ≡ some n'
        → (m : Node S) → IsIn m (leaves read h q)
        → ord m.key n'.key ≡ lt

  -- The keys of every page rise, and the separators bound what is under them.
  abbrev pub IsSorted : ℕ → TreePage S → Type 0
  IsSorted zero p = IsRisingPage f (page_view p)
  IsSorted (suc h) p =
      IsRisingPage f (page_view p)
      × ((i : ℕ) (n : Node S) (q : TreePage S)
          → get_elem? p.nodes i ≡ some n
          → read n.child ≡ some q
          → Bounded h i p n q × IsSorted h q)

-- The place of a search among the children of a branch page with `n` keys: the child to follow.
abbrev pub IsChild : (r : ℕ → Ordering) → (n i : ℕ) → Type 0
IsChild r n i = (i < n) × ((1 ≤ i) → r i ≢ lt) × ((suc i < n) → r (suc i) ≡ lt)

module _ {S : Type 0} (read : ℕ → Option (TreePage S)) (f : List ℕ → List ℕ → ℤ)
    (order : Preorders (λ x y. sign (f x y))) (key : List ℕ) where
  -- Only the child to follow has nodes with the key.
  module _ (p : TreePage S) (h : ℕ) (sorted : IsSorted read f (suc h) p) (i j : ℕ) (n : Node S)
      (q : TreePage S) (m : Node S) (at_j : get_elem? p.nodes j ≡ some n)
      (there : read n.child ≡ some q) (inside : IsIn m (leaves read h q))
      (same : ord read f key m.key ≡ eq)
      (child : IsChild (λ i. ord read f key (get_or (page_view p).keys i [])) (numkeys p) i) where
    abbrev key_of : ℕ → List ℕ
    key_of k = get_or (page_view p).keys k []

    first_low : first_key (page_view p) ≤ 1
    first_low = ground arith

    rising : (a b : ℕ) → 1 ≤ a → a < b → b < numkeys p → ord read f (key_of a) (key_of b) ≡ lt
    rising a b k l t =
        sorted.0 a b (omega (arith, first_low)) l (omega (arith, length-keys p.nodes))

    equal_or_less : (a b : ℕ) → a ≤ b → (a ≡ b) ⊎ (a < b)
    equal_or_less a b k = ground arith

    -- Keys from `a` on are greater than what is less than the key at `a`.
    less_later :
        (x : List ℕ) (a b : ℕ)
        → 1 ≤ a
        → a ≤ b
        → b < numkeys p
        → ord read f x (key_of a) ≡ lt
        → ord read f x (key_of b) ≡ lt
    less_later x a b k l t e = elim (equal_or_less a b l) [
      | inl q ↦ subst (λ c. ord read f x (key_of c) ≡ lt) q e
      | inr q ↦ order.step x (key_of a) (key_of b) e (rising a b k q t)
    ]

    not_before : ¬ (j < i)
    not_before l =
        let (n', en') = get_elem?-lt_length p.nodes (suc j) (omega (arith, child.0)) in
        let below = (sorted.1 j n q at_j there).0.to_next n' en' m inside in
        let less =
          subst (λ k. ord read f m.key k ≡ lt) (sym (key_at p.nodes (suc j) n' en')) below in
        child.1 (omega arith) (
          order.tie_left key m.key (key_of i) same
          ∙ less_later m.key (suc j) i (omega arith) (omega arith) child.0 less)

    not_after : ¬ (i < j)
    not_after l =
        let in_page = in_bounds p.nodes j n at_j in
        let less =
          less_later key (suc i) j (omega arith) (omega arith) in_page (child.2 (omega arith)) in
        let here = subst (λ k. ord read f key k ≡ lt) (key_at p.nodes j n at_j) less in
        (sorted.1 j n q at_j there).0.from_key (omega arith) m inside
          (order.flip m.key n.key ∙ ap swap (sym (order.tie_left key m.key n.key same) ∙ here))

    pub in_child : j ≡ i
    in_child = elim (three i j) [
      | inl l ↦ absurd (not_before l)
      | inr (inl l) ↦ absurd (not_after l)
      | inr (inr e) ↦ e
    ]
      where
        three : (i j : ℕ) → (j < i) ⊎ ((i < j) ⊎ (j ≡ i))
        three i j = ground arith
