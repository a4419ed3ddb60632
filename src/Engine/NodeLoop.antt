-- ===== src/Engine/NodeLoop.antt =====
-- The loop of mdb_node_search: its invariant, and where it ends.
use Prim.Native.Nat.Ordering.{lt, eq, gt}
use kotlin_lmdb.Common.{
  ℕ, zero, suc, ◌+◌, ◌-◌, ◌/◌, ◌≤◌, ◌<◌, Bool, true, false, Option, some, ℤ, pos, negsuc, is_zero,
  Ordering, ◌≡◌, ◌≢◌, ◌⊎◌, inl, inr, refl, arith, sym, ap, ◌∙◌, subst,
}
use kotlin_lmdb.Comparers.Lex.{sign}
use kotlin_lmdb.Engine.{search_next, search_round, search_loop, past}

-- `r i` is the value of cmp at node i: the nodes from `first` on are a block of `gt`, at most one
-- `eq`, and a block of `lt`.
pub record Split (r : ℕ → ℤ) (first N : ℕ) : Type 0 where
  pub gt_below : (i j : ℕ) → first ≤ i → i < j → j < N → sign (r j) ≢ lt → sign (r i) ≡ gt
  pub lt_above : (i j : ℕ) → first ≤ i → i < j → j < N → sign (r i) ≢ gt → sign (r j) ≡ lt

pub record Inv (r : ℕ → ℤ) (first N low hi i : ℕ) (rc : ℤ) : Type 0 where
  low_first : first ≤ low
  low_hi : low ≤ hi
  hi_N : hi ≤ N
  below : (j : ℕ) → first ≤ j → j < low → sign (r j) ≡ gt
  above : (j : ℕ) → hi ≤ j → j < N → sign (r j) ≡ lt
  at_gt : sign rc ≡ gt → suc i ≡ low
  at_lt : sign rc ≡ lt → i ≡ hi
  at_eq : sign rc ≡ eq → low < hi

-- The place: all keys before it are less, all keys after it greater, and the one at it is equal if
-- `exact`, and else greater, or not there.
pub record Placed (r : ℕ → ℤ) (first N x : ℕ) (exact : Bool) : Type 0 where
  pub from_first : first ≤ x
  pub to_N : x ≤ N
  pub before : (j : ℕ) → first ≤ j → j < x → sign (r j) ≡ gt
  pub behind : (j : ℕ) → x < j → j < N → sign (r j) ≡ lt
  pub here :
      ((exact ≡ true) × (x < N) × (sign (r x) ≡ eq))
      ⊎ ((exact ≡ false) × ((x ≡ N) ⊎ ((x < N) × (sign (r x) ≡ lt))))

below_or_at : (j m : ℕ) → j < suc m → (j < m) ⊎ (j ≡ m)
below_or_at j m h = ground arith

at_or_after : (m j : ℕ) → m ≤ j → (m < j) ⊎ (j ≡ m)
at_or_after m j h = ground arith

module _ (r : ℕ → ℤ) (p : ℕ → Option ℤ) (first N : ℕ) (s : Split r first N)
    (reads : (i : ℕ) → i < N → p i ≡ some (r i)) where
  abbrev pub Ends : Option (ℕ × ℤ) → Type 0
  Ends o = (q : ℕ × ℤ) × (o ≡ some q) × Placed r first N (past q.0 q.1) (is_zero q.1)

  between :
      (low hi i x : ℕ) (rc : ℤ)
      → Inv r first N low hi i rc
      → hi ≤ low
      → x ≡ low
      → Placed r first N x false
  between low hi i x rc v h e = record {
    from_first = omega (arith, v.low_first);
    to_N = omega (arith, v.low_hi, v.hi_N);
    before = λ j a b. v.below j a (omega arith);
    behind = λ j a b. v.above j (omega arith) b;
    here = inr (
      refl,
      rest_or_lt x N (sign (r x)) (omega (arith, v.low_hi, v.hi_N))
          (λ k. v.above x (omega arith) k),
    );
  }
    where
      rest_or_lt :
          (x N : ℕ) (o : Ordering) → x ≤ N → (x < N → o ≡ lt) → (x ≡ N) ⊎ ((x < N) × (o ≡ lt))
      rest_or_lt x N o h k = ground arith

  at_end :
      (low hi i : ℕ) (rc : ℤ)
      → Inv r first N low hi i rc
      → hi ≤ low
      → Placed r first N (past i rc) (is_zero rc)
  at_end low hi i (pos zero) v h = absurd (omega (arith, v.at_eq refl))
  at_end low hi i (pos (suc n)) v h =
      subst (Placed r first N (suc i)) (sym (positive n))
        (between low hi i (suc i) (pos (suc n)) v h (v.at_gt refl))
    where
      positive : (n : ℕ) → is_zero (pos (suc n)) ≡ false
      positive n = ground arith
  at_end low hi i (negsuc n) v h =
      between low hi i i (negsuc n) v h (omega (arith, v.at_lt refl, v.low_hi))

  stop : (m : ℕ) → first ≤ m → m < N → sign (r m) ≡ eq → Placed r first N m true
  stop m h k e = record {
    from_first = h;
    to_N = omega arith;
    before = λ j a b. s.gt_below j m a b k (λ x. cc);
    behind = λ j a b. s.lt_above m j h a b (λ x. cc);
    here = inl (refl, k, e);
  }

  go_right :
      (low hi i m : ℕ) (rc d : ℤ)
      → Inv r first N low hi i rc
      → low ≤ m
      → m < hi
      → r m ≡ d
      → sign d ≡ gt
      → Inv r first N (suc m) hi m d
  go_right low hi i m rc d v a b e g = record {
    low_first = omega (arith, v.low_first);
    low_hi = omega arith;
    hi_N = v.hi_N;
    below = λ j x y. s_below j x y;
    above = v.above;
    at_gt = λ x. refl;
    at_lt = λ x. cc;
    at_eq = λ x. cc;
  }
    where
      at_m : sign (r m) ≡ gt
      at_m = ap sign e ∙ g

      s_below : (j : ℕ) → first ≤ j → j < suc m → sign (r j) ≡ gt
      s_below j x y = elim (below_or_at j m y) [
        | inl q ↦ s.gt_below j m x q (omega (arith, v.hi_N)) (λ z. cc)
        | inr q ↦ ap (λ n. sign (r n)) q ∙ at_m
      ]

  go_left :
      (low hi i m : ℕ) (rc d : ℤ)
      → Inv r first N low hi i rc
      → low ≤ m
      → m < hi
      → r m ≡ d
      → sign d ≡ lt
      → Inv r first N low m m d
  go_left low hi i m rc d v a b e g = record {
    low_first = v.low_first;
    low_hi = a;
    hi_N = omega (arith, v.hi_N);
    below = v.below;
    above = λ j x y. s_above j x y;
    at_gt = λ x. cc;
    at_lt = λ x. refl;
    at_eq = λ x. cc;
  }
    where
      at_m : sign (r m) ≡ lt
      at_m = ap sign e ∙ g

      s_above : (j : ℕ) → m ≤ j → j < N → sign (r j) ≡ lt
      s_above j x y = elim (at_or_after m j x) [
        | inl q ↦ s.lt_above m j (omega (arith, v.low_first)) q y (λ z. cc)
        | inr q ↦ ap (λ n. sign (r n)) q ∙ at_m
      ]

  middle : (low hi : ℕ) → low < hi → (low ≤ (low + (hi - 1)) / 2) × ((low + (hi - 1)) / 2 < hi)
  middle low hi h = omega arith

  round_end :
      (next : ℕ → ℕ → ℕ → ℤ → Option (ℕ × ℤ)) (low hi i : ℕ) (rc : ℤ)
      → hi ≤ low
      → search_round p next low hi i rc ≡ some (i, rc)
  unfolding search_round
  round_end next low hi i rc h = ground arith

  round_go :
      (next : ℕ → ℕ → ℕ → ℤ → Option (ℕ × ℤ)) (low hi i : ℕ) (rc c : ℤ)
      → low < hi
      → p ((low + (hi - 1)) / 2) ≡ some c
      → search_round p next low hi i rc ≡ search_next next low hi ((low + (hi - 1)) / 2) c
  unfolding search_round
  round_go next low hi i rc c h e = ground arith

  next-Ends :
      (next : ℕ → ℕ → ℕ → ℤ → Option (ℕ × ℤ)) (f low hi i m : ℕ) (rc c : ℤ)
      → ((low hi i : ℕ) (rc : ℤ)
          → Inv r first N low hi i rc
          → hi < low + f
          → Ends (next low hi i rc))
      → Inv r first N low hi i rc
      → hi < low + suc f
      → low ≤ m
      → m < hi
      → r m ≡ c
      → Ends (search_next next low hi m c)
  next-Ends next f low hi i m rc (pos zero) ih v h a b e =
      ((m, pos 0), refl, stop m (omega (arith, v.low_first)) (omega (arith, v.hi_N)) (ap sign e))
  next-Ends next f low hi i m rc (pos (suc n)) ih v h a b e =
      ih (suc m) hi m (pos (suc n)) (go_right low hi i m rc (pos (suc n)) v a b e refl)
        (omega arith)
  next-Ends next f low hi i m rc (negsuc n) ih v h a b e =
      ih low m m (negsuc n) (go_left low hi i m rc (negsuc n) v a b e refl) (omega arith)

  -- The rounds go on until a key is equal, or nothing is left between low and high.
  pub loop-Ends :
      (fuel low hi i : ℕ) (rc : ℤ)
      → Inv r first N low hi i rc
      → hi < low + fuel
      → Ends (search_loop p fuel low hi i rc)
  unfolding search_loop
  loop-Ends zero low hi i rc v h = absurd (omega (arith, v.low_hi))
  loop-Ends (suc f) low hi i rc v h = elim (below_or_at low hi (omega (arith, v.low_hi))) [
    | inr q ↦
        let done = at_end low hi i rc v (omega arith) in
        ((i, rc), round_end (search_loop p f) low hi i rc (omega arith), done)
    | inl q ↦
        let m = (low + (hi - 1)) / 2 in
        let (a, b) = middle low hi q in
        let inside : m < N = omega (arith, v.hi_N) in
        subst Ends (sym (round_go (search_loop p f) low hi i rc (r m) q (reads m inside)))
          (next-Ends (search_loop p f) f low hi i m rc (r m) (loop-Ends f) v h a b refl)
  ]

  pub starts : first < N → Inv r first N first N 0 (pos 0)
  starts h = record {
    low_first = omega arith;
    low_hi = omega arith;
    hi_N = omega arith;
    below = λ j a b. absurd (omega arith);
    above = λ j a b. absurd (omega arith);
    at_gt = λ x. cc;
    at_lt = λ x. cc;
    at_eq = λ x. h;
  }
