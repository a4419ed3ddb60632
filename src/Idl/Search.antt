-- ===== src/Idl/Search.antt =====
-- The binary search that mdb_midl_search and mdb_mid2l_search share: its loop invariant.
use Prim.Native.Nat.Ordering.{lt, eq, gt}
use kotlin_lmdb.Common.{
  ℕ, zero, suc, ◌+◌, ◌-◌, ◌/◌, ◌^◌, ◌≤◌, ◌<◌, Option, none, some, Ordering, ◌≡◌, ◌≢◌, ◌⊎◌, inl, inr,
  arith, refl,
}
use kotlin_lmdb.Idl.{u32, finish, round, bisect}
use native.Mathlib.Nat.{pow-suc}

-- Cells 1..N can be read, and come as a block of `gt`, then `eq`, then a block of `lt`.
pub record Ordered (p : ℕ → Option Ordering) (N : ℕ) : Type 0 where
  pub reads : (i : ℕ) → 1 ≤ i → i ≤ N → p i ≢ none
  pub down : (i j : ℕ) → 1 ≤ i → i ≤ j → j ≤ N → p j ≡ some gt → p i ≡ some gt
  pub up : (i j : ℕ) → 1 ≤ i → i ≤ j → j ≤ N → p i ≡ some lt → p j ≡ some lt

-- The place of the ID: a cell that holds it, or the first cell after the block of `gt`.
abbrev pub Located : (p : ℕ → Option Ordering) → (N x : ℕ) → Type 0
Located p N x =
    (1 ≤ x)
    × (x ≤ N + 1)
    × (((x ≤ N) × (p x ≡ some eq))
        ⊎ (((i : ℕ) → 1 ≤ i → i < x → p i ≡ some gt) × ((i : ℕ) → x ≤ i → i ≤ N → p i ≡ some lt)))

pub record Inv (p : ℕ → Option Ordering) (N base c n : ℕ) (val : Ordering) : Type 0 where
  fits : base + n ≤ N
  below : (i : ℕ) → 1 ≤ i → i ≤ base → p i ≡ some gt
  above : (i : ℕ) → base + n < i → i ≤ N → p i ≡ some lt
  at_gt : val ≡ gt → c ≡ base
  at_lt : val ≡ lt → c ≡ base + n + 1
  at_eq : val ≡ eq → (c ≡ 1) × (base ≡ 0)

module _ (p : ℕ → Option Ordering) (N : ℕ) (small : N + 1 < 2 ^ 32) (o : Ordered p N) where
  finish-eq : (base c : ℕ) (val : Ordering) → Inv p N base c 0 val → finish val c ≡ base + 1
  unfolding finish
  finish-eq base c lt v = ground (arith, v.at_lt refl)
  finish-eq base c eq v = ground (arith, v.at_eq refl)
  finish-eq base c gt v = ground (arith, v.at_gt refl)

  middle : (base n : ℕ) → base + n ≤ N → n ≢ 0 → u32 (base + n / 2 + 1) ≡ base + n / 2 + 1
  middle base n h z = omega arith

  rest : (base n : ℕ) → base + n ≤ N → n ≢ 0 → u32 (n + 2 ^ 32 - (n / 2 + 1)) ≡ n - (n / 2 + 1)
  rest base n h z = omega arith

  left-Inv :
      (base c n : ℕ) (val : Ordering)
      → Inv p N base c n val
      → n ≢ 0
      → p (base + n / 2 + 1) ≡ some lt
      → Inv p N base (base + n / 2 + 1) (n / 2) lt
  left-Inv base c n val v z e = record {
    fits = omega arith;
    below = v.below;
    above = λ i h k. o.up (base + n / 2 + 1) i (omega arith) (omega arith) k e;
    at_gt = λ x. ground arith;
    at_lt = λ x. omega arith;
    at_eq = λ x. ground arith;
  }

  right-Inv :
      (base c n : ℕ) (val : Ordering)
      → Inv p N base c n val
      → n ≢ 0
      → p (base + n / 2 + 1) ≡ some gt
      → Inv p N (base + n / 2 + 1) (base + n / 2 + 1) (n - (n / 2 + 1)) gt
  right-Inv base c n val v z e = record {
    fits = omega arith;
    below = λ i h k. o.down i (base + n / 2 + 1) h k (omega arith) e;
    above = λ i h k. v.above i (omega arith) k;
    at_gt = λ x. refl;
    at_lt = λ x. ground arith;
    at_eq = λ x. ground arith;
  }

  bisect-suc :
      (k base c n : ℕ) (val : Ordering)
      → bisect p (suc k) base c n val ≡ round p (bisect p k) base c n val
  unfolding bisect
  bisect-suc k base c n val = refl

  module _ (next : ℕ → ℕ → ℕ → Ordering → Option ℕ) (base c n : ℕ) (val : Ordering) where
    round-stop : n ≡ 0 → round p next base c n val ≡ some (finish val c)
    unfolding round
    round-stop z = rw z

    round-lt :
        base + n ≤ N
        → n ≢ 0
        → p (base + n / 2 + 1) ≡ some lt
        → round p next base c n val ≡ next base (base + n / 2 + 1) (n / 2) lt
    unfolding round
    round-lt h z e = rw (middle base n h z, e) (ground arith)

    round-gt :
        base + n ≤ N
        → n ≢ 0
        → p (base + n / 2 + 1) ≡ some gt
        → round p next base c n val
          ≡ next (base + n / 2 + 1) (base + n / 2 + 1) (n - (n / 2 + 1)) gt
    unfolding round
    round-gt h z e = rw (middle base n h z, e) (ground (arith, rest base n h z))

    round-eq :
        base + n ≤ N
        → n ≢ 0
        → p (base + n / 2 + 1) ≡ some eq
        → round p next base c n val ≡ some (base + n / 2 + 1)
    unfolding round
    round-eq h z e = rw (middle base n h z, e) (ground arith)

  probe_cases : (i : ℕ) → 1 ≤ i → i ≤ N → (p i ≡ some lt) ⊎ ((p i ≡ some gt) ⊎ (p i ≡ some eq))
  probe_cases i h k = split (p i) (o.reads i h k)
    where
      split : (r : Option Ordering) → r ≢ none → (r ≡ some lt) ⊎ ((r ≡ some gt) ⊎ (r ≡ some eq))
      split none f = absurd (f refl)
      split (some lt) f = inl refl
      split (some gt) f = inr (inl refl)
      split (some eq) f = inr (inr refl)

  -- With 2 ^ k above the width, k + 1 rounds find the place.
  bisect-Located :
      (k base c n : ℕ) (val : Ordering)
      → n < 2 ^ k
      → Inv p N base c n val
      → (x : ℕ) × (bisect p (suc k) base c n val ≡ some x) × Located p N x
  bisect-Located k base c zero val h v = (
    base + 1,
    rw (
      bisect-suc k base c 0 val,
      round-stop (bisect p k) base c 0 val refl,
      finish-eq base c val v,
    ),
    (
      omega arith,
      omega (arith, v.fits),
      inr (λ i h k. v.below i h (omega arith), λ i h k. v.above i (omega arith) k),
    ),
  )
  bisect-Located zero base c (suc n) val h v = absurd (omega arith)
  bisect-Located (suc k) base c (suc n) val h v =
      rw (bisect-suc (suc k) base c (suc n) val)
        (elim (probe_cases (base + suc n / 2 + 1) (omega arith) (omega (arith, v.fits))) [
          | inl e ↦ rw (round-lt (bisect p (suc k)) base c (suc n) val v.fits (omega arith) e) (
              bisect-Located k base (base + suc n / 2 + 1) (suc n / 2) lt (grind (arith, pow-suc))
                (left-Inv base c (suc n) val v (omega arith) e))
          | inr (inl e) ↦
              rw (round-gt (bisect p (suc k)) base c (suc n) val v.fits (omega arith) e) (
                bisect-Located k (base + suc n / 2 + 1) (base + suc n / 2 + 1)
                  (suc n - (suc n / 2 + 1)) gt (grind (arith, pow-suc))
                  (right-Inv base c (suc n) val v (omega arith) e))
          | inr (inr e) ↦ (
            base + suc n / 2 + 1,
            round-eq (bisect p (suc k)) base c (suc n) val v.fits (omega arith) e,
            (omega arith, omega (arith, v.fits), inl (omega (arith, v.fits), e)),
          )
        ])

  -- Both searches start with the whole list and no value of CMP yet.
  pub bisect_whole : (x : ℕ) × (bisect p 33 0 1 (u32 N) eq ≡ some x) × Located p N x
  bisect_whole = rw (let e : u32 N ≡ N = omega arith in e) (
      bisect-Located 32 0 1 N eq (omega arith) (record {
        fits = omega arith;
        below = λ i h k. absurd (omega arith);
        above = λ i h k. absurd (omega arith);
        at_gt = λ x. ground arith;
        at_lt = λ x. ground arith;
        at_eq = λ x. (refl, refl);
      }))
