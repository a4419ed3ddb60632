-- ===== src/Id2l/Insert.antt =====
-- mdb_mid2l_insert: the shift, the checks, and the order of the array.
use kotlin_lmdb.Common.{
  ℕ, ◌+◌, ◌-◌, ◌≤◌, ◌<◌, some, get_elem?, get_elem?-lt_length, ◌≡◌, ◌≢◌, ◌⊎◌, inl, inr, arith, refl,
  Option, sym, ap, ◌∙◌, List, ◌>>=◌, >>=-some, leb, if◌then◌else◌, dec_lt, pos, negsuc, ℤ, subst,
}
use kotlin_lmdb.Idl.Memory.{um_max}
use kotlin_lmdb.Id2l.{Id2, count, mid_at, insert_at, insert_checked, mdb_mid2l_insert}
use kotlin_lmdb.Id2l.Locate.{IsId2l, IsRising, IsPlace, mdb_mid2l_search-IsPlace}
use kotlin_lmdb.Id2l.Shift.{Inserted, insert_at_lem}

abbrev mid_of : Option Id2 → Option ℕ
mid_of c = c >>= λ c. some c.mid

-- Where a cell of the new array comes from.
abbrev Origin : List Id2 → Id2 → ℕ → (i v : ℕ) → Type 0
Origin ids id x i v =
    ((i < x) × (mid_at ids i ≡ some v))
    ⊎ (((i ≡ x) × (v ≡ id.mid)) ⊎ ((x < i) × (mid_at ids (i - 1) ≡ some v)))

module _ (ids : List Id2) (id : Id2) (x : ℕ) (new : List Id2) (t : Inserted ids id x new) where
  mid_at-eq :
      (xs ys : List Id2) (i j : ℕ) → get_elem? xs i ≡ get_elem? ys j → mid_at xs i ≡ mid_at ys j
  mid_at-eq xs ys i j e = ap mid_of e

  from_put : (v : ℕ) → mid_at new x ≡ some v → v ≡ id.mid
  from_put v e = ground (arith, ap mid_of t.put)

  from_after :
      (i v : ℕ) → x < i → i ≤ count ids + 1 → mid_at new i ≡ some v → mid_at ids (i - 1) ≡ some v
  from_after i v h k e =
      sym (mid_at-eq new ids (i - 1 + 1) (i - 1) (t.after (i - 1) (omega arith) (omega arith)))
      ∙ ap (mid_at new) (let f : i - 1 + 1 ≡ i = omega arith in f)
      ∙ e

  origin : (i v : ℕ) → 1 ≤ i → i ≤ count ids + 1 → mid_at new i ≡ some v → Origin ids id x i v
  origin i v h k e = elim (dec_lt i x) [
    | yes l ↦ inl (l, sym (mid_at-eq new ids i i (t.before i h l)) ∙ e)
    | no l ↦ elim (dec_lt x i) [
      | yes m ↦ inr (inr (m, from_after i v m k e))
      | no m ↦
          let same : i ≡ x = omega arith in
          inr (inl (same, from_put v (subst (λ j. mid_at new j ≡ some v) same e)))
    ]
  ]

  module _ (s : IsRising ids) (low : (i v : ℕ) → 1 ≤ i → i < x → mid_at ids i ≡ some v → v < id.mid)
      (high : (i v : ℕ) → x ≤ i → i ≤ count ids → mid_at ids i ≡ some v → id.mid < v) (one : 1 ≤ x)
      (hi : x ≤ count ids + 1) where
    rises :
        (i j u v : ℕ)
        → 1 ≤ i
        → i < j
        → j ≤ count ids + 1
        → Origin ids id x i u
        → Origin ids id x j v
        → u < v
    rises i j u v h k l (inl (p, eu)) (inl (q, ev)) = s i j u v h k (omega arith) eu ev
    rises i j u v h k l (inl (p, eu)) (inr (inl (q, ev))) = omega (arith, low i u h p eu)
    rises i j u v h k l (inl (p, eu)) (inr (inr (q, ev))) = elim (dec_lt i (j - 1)) [
      | yes m ↦ s i (j - 1) u v h m (omega arith) eu ev
      | no m ↦ absurd (omega arith)
    ]
    rises i j u v h k l (inr (inl (p, eu))) (inl (q, ev)) = absurd (omega arith)
    rises i j u v h k l (inr (inl (p, eu))) (inr (inl (q, ev))) = absurd (omega arith)
    rises i j u v h k l (inr (inl (p, eu))) (inr (inr (q, ev))) =
        omega (arith, high (j - 1) v (omega arith) (omega arith) ev)
    rises i j u v h k l (inr (inr (p, eu))) (inl (q, ev)) = absurd (omega arith)
    rises i j u v h k l (inr (inr (p, eu))) (inr (inl (q, ev))) = absurd (omega arith)
    rises i j u v h k l (inr (inr (p, eu))) (inr (inr (q, ev))) =
        s (i - 1) (j - 1) u v (omega arith) (omega arith) (omega arith) eu ev

    rising : IsRising new
    rising i j u v h k l eu ev =
        let last : j ≤ count ids + 1 = omega (arith, t.count_eq) in
        rises i j u v h k last (origin i u h (omega arith) eu) (origin j v (omega arith) last ev)

-- Not a word of the array changed: `id` was there, or the array was full and it was not; or it
-- went to its place, and the array is still well formed and rising.
abbrev pub Outcome : List Id2 → Id2 → ℤ × List Id2 → Type 0
Outcome ids id q =
    ((q ≡ (negsuc 0, ids)) × ((x : ℕ) × (1 ≤ x) × (x ≤ count ids) × (mid_at ids x ≡ some id.mid)))
    ⊎ (((q ≡ (negsuc 1, ids))
          × (count ids ≡ um_max)
          × ((i v : ℕ) → 1 ≤ i → i ≤ count ids → mid_at ids i ≡ some v → v ≢ id.mid))
        ⊎ ((new : List Id2) × (q ≡ (pos 0, new))
            × IsId2l new
            × IsRising new
            × ((x : ℕ) × (1 ≤ x) × (x ≤ count ids + 1) × Inserted ids id x new)))

module _ (ids : List Id2) (id : Id2) (w : IsId2l ids) (s : IsRising ids) where
  abbrev Result : Option (ℤ × List Id2) → Type 0
  Result r = (q : ℤ × List Id2) × (r ≡ some q) × Outcome ids id q

  -- The ID at the place, as the test reads it.
  here_at : (x : ℕ) → (h : ℕ) × ((if leb x (count ids) then mid_at ids x else some 0) ≡ some h)
  here_at x = elim (dec_lt (count ids) x) [
    | yes l ↦ (0, ground arith)
    | no l ↦
        let (c, e) = get_elem?-lt_length ids x (omega (arith, w.fits, w.sized)) in
        (c.mid, ground (arith, e))
  ]

  checked_dup :
      (x h : ℕ)
      → 1 ≤ x
      → x ≤ count ids
      → h ≡ id.mid
      → insert_checked ids id x h ≡ some (negsuc 0, ids)
  checked_dup x h a b e = ground arith

  checked_full :
      (x h : ℕ)
      → 1 ≤ x
      → (x ≤ count ids → h ≢ id.mid)
      → um_max ≤ count ids
      → insert_checked ids id x h ≡ some (negsuc 1, ids)
  checked_full x h a n f = ground arith

  checked_new :
      (x h : ℕ)
      → 1 ≤ x
      → (x ≤ count ids → h ≢ id.mid)
      → count ids < um_max
      → insert_checked ids id x h ≡ insert_at ids x id
  checked_new x h a n f = ground arith

  inserted :
      (x : ℕ)
      → 1 ≤ x
      → x ≤ count ids + 1
      → ((i v : ℕ) → 1 ≤ i → i < x → mid_at ids i ≡ some v → v < id.mid)
      → ((i v : ℕ) → x ≤ i → i ≤ count ids → mid_at ids i ≡ some v → id.mid < v)
      → count ids < um_max
      → Result (insert_at ids x id)
  inserted x a b lo hi f =
      let (new, e, t) = insert_at_lem ids x id w f a b in
      (
        (pos 0, new),
        e,
        inr (
            inr (
              new,
              refl,
              record { fits = omega (arith, t.count_eq); sized = t.size ∙ w.sized },
              rising ids id x new t s lo hi a b,
              (x, a, b, t),
            )),
      )

  checked :
      (x h : ℕ)
      → ((if leb x (count ids) then mid_at ids x else some 0) ≡ some h)
      → IsPlace ids id.mid x
      → Result (insert_checked ids id x h)
  checked x h e (a, b, inl (c, m)) =
      ((negsuc 0, ids), checked_dup x h a c (ground arith), inl (refl, (x, a, c, m)))
  checked x h e (a, b, inr (lo, hi)) =
      let fresh : x ≤ count ids → h ≢ id.mid =
        λ c q. let l : id.mid < h = hi x h (omega arith) c (ground arith) in omega arith in
      let absent : (i v : ℕ) → 1 ≤ i → i ≤ count ids → mid_at ids i ≡ some v → v ≢ id.mid =
        λ i v p q m. elim (dec_lt i x) [
          | yes l ↦ λ r. let k : v < id.mid = lo i v p l m in omega arith
          | no l ↦ λ r. let k : id.mid < v = hi i v (omega arith) q m in omega arith
        ] in
      elim (dec_lt (count ids) um_max) [
        | yes f ↦ subst Result (sym (checked_new x h a fresh f)) (inserted x a b lo hi f)
        | no f ↦ (
          (negsuc 1, ids),
          checked_full x h a fresh (omega arith),
          inr (inl (refl, omega (arith, w.fits), λ i v p q m. absent i v p q m)),
        )
      ]

  -- On a well-formed array whose IDs rise, mdb_mid2l_insert never leaves the array, and has one
  -- of three outcomes: the ID is there, and the result is -1; the ID is not there and the array
  -- is full, and the result is -2; or the result is 0, the new pair stands at its place, the
  -- pairs from there on have moved up by one cell, and the array is well formed and rising.
  -- The array is unchanged in the first two.
  pub mdb_mid2l_insert-Outcome :
      (q : ℤ × List Id2) × (mdb_mid2l_insert ids id ≡ some q) × Outcome ids id q
  unfolding mdb_mid2l_insert
  mdb_mid2l_insert-Outcome =
      let (x, e, p) = mdb_mid2l_search-IsPlace ids id.mid w s in
      let (h, f) = here_at x in
      let (q, g, o) = checked x h f p in (q, >>=-some _ e (>>=-some _ f g), o)
