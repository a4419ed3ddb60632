-- ===== src/Comparers/Lex.antt =====
-- The orders that the comparison functions are to have, and their laws.
use Prim.Native.Nat.Ordering.{lt, eq, gt}
use kotlin_lmdb.Common.{
  ℕ, zero, suc, ◌<◌, List, [], ◌∷◌, ◌≡◌, refl, arith, ap, compare, Ordering, ℤ, pos, negsuc,
}

abbrev pub swap : Ordering → Ordering
swap lt = gt
swap eq = eq
swap gt = lt

-- The first key decides, and the second where they tie.
abbrev pub then_by : Ordering → Ordering → Ordering
then_by eq o = o
then_by o _ = o

-- Byte by byte, and a prefix first.
unfoldable pub lex : List ℕ → List ℕ → Ordering
lex [] [] = eq
lex [] (b ∷ bs) = lt
lex (a ∷ as') [] = gt
lex (a ∷ as') (b ∷ bs) = then_by (compare a b) (lex as' bs)

abbrev pub sign : ℤ → Ordering
sign (pos zero) = eq
sign (pos (suc n)) = gt
sign (negsuc n) = lt

abbrev pub IsBytes : List ℕ → Type 0
IsBytes [] = Unit {0}
IsBytes (b ∷ bs) = (b < 256) × IsBytes bs

-- A comparison that may tie on different values.
pub record Preorders {ℓ} {A : Type ℓ} (f : A → A → Ordering) : Type ℓ where
  pub flip : (a b : A) → f b a ≡ swap (f a b)
  pub step : (a b c : A) → f a b ≡ lt → f b c ≡ lt → f a c ≡ lt
  pub tie_left : (a b c : A) → f a b ≡ eq → f a c ≡ f b c

-- A total order on byte strings.
pub record Orders (f : List ℕ → List ℕ → Ordering) : Type 0 where
  pub order : Preorders f
  pub same : (a b : List ℕ) → f a b ≡ eq → a ≡ b

pub compare-Preorders {ℓ} :
    {A : Type ℓ} (key : A → ℕ) → Preorders (λ (a b : A). compare (key a) (key b))
compare-Preorders key = record {
  flip = λ a b. ground arith;
  step = λ a b c p q. ground arith;
  tie_left = λ a b c p. ground arith;
}

lex_flip : (a b : List ℕ) → lex b a ≡ swap (lex a b)
unfolding lex
lex_flip [] [] = refl
lex_flip [] (b ∷ bs) = refl
lex_flip (a ∷ as') [] = refl
lex_flip (a ∷ as') (b ∷ bs) = ground (arith, lex_flip as' bs)

lex_same : (a b : List ℕ) → lex a b ≡ eq → a ≡ b
unfolding lex
lex_same [] [] e = refl
lex_same [] (b ∷ bs) e = cc
lex_same (a ∷ as') [] e = cc
lex_same (a ∷ as') (b ∷ bs) e = ground (arith, lex_same as' bs)

pub lex_self : (a : List ℕ) → lex a a ≡ eq
unfolding lex
lex_self [] = refl
lex_self (a ∷ as') = ground (arith, lex_self as')

lex_step : (a b c : List ℕ) → lex a b ≡ lt → lex b c ≡ lt → lex a c ≡ lt
unfolding lex
lex_step [] [] c p q = cc
lex_step [] (b ∷ bs) [] p q = cc
lex_step [] (b ∷ bs) (c ∷ cs) p q = refl
lex_step (a ∷ as') [] c p q = cc
lex_step (a ∷ as') (b ∷ bs) [] p q = cc
lex_step (a ∷ as') (b ∷ bs) (c ∷ cs) p q =
    ground (arith, lex_step as' bs cs, lex_same as' bs, lex_same bs cs)

pub lex-Orders : Orders lex
lex-Orders = record {
  order = record {
    flip = lex_flip;
    step = lex_step;
    tie_left = λ a b c e. ap (λ a. lex a c) (lex_same a b e);
  };
  same = lex_same;
}

-- Comparing by a key first and by an order where the keys tie is an order.
pub then_by-Orders :
    (f g : List ℕ → List ℕ → Ordering)
    → Preorders f
    → Orders g
    → Orders (λ a b. then_by (f a b) (g a b))
then_by-Orders f g p o = record {
  order = record {
    flip = λ a b. ground (arith, p.flip a b, o.order.flip a b);
    step = λ a b c h k. ground (
      arith,
      p.step a b c,
      p.tie_left a b c,
      p.tie_left b c a,
      p.flip a b,
      p.flip a c,
      p.flip b c,
      o.order.step a b c,
    );
    tie_left = λ a b c h. ap (λ a. then_by (f a c) (g a c)) (o.same a b (ground arith));
  };
  same = λ a b h. o.same a b (ground arith);
}

-- Two integers, as `<` of Int compares them.
abbrev pub compare_int : ℤ → ℤ → Ordering
compare_int (pos a) (pos b) = compare a b
compare_int (pos a) (negsuc b) = gt
compare_int (negsuc a) (pos b) = lt
compare_int (negsuc a) (negsuc b) = compare b a

compare_int_flip : (a b : ℤ) → compare_int b a ≡ swap (compare_int a b)
compare_int_flip (pos a) (pos b) = ground arith
compare_int_flip (pos a) (negsuc b) = refl
compare_int_flip (negsuc a) (pos b) = refl
compare_int_flip (negsuc a) (negsuc b) = ground arith

compare_int_step : (a b c : ℤ) → compare_int a b ≡ lt → compare_int b c ≡ lt → compare_int a c ≡ lt
compare_int_step a b c p q = ground arith

compare_int_tie : (a b : ℤ) → compare_int a b ≡ eq → a ≡ b
compare_int_tie a b e = ground arith

pub compare_int-Preorders :
    (key : List ℕ → ℤ) → Preorders (λ (a b : List ℕ). compare_int (key a) (key b))
compare_int-Preorders key = record {
  flip = λ a b. compare_int_flip (key a) (key b);
  step = λ a b c. compare_int_step (key a) (key b) (key c);
  tie_left = λ a b c e. ap (λ k. compare_int k (key c)) (compare_int_tie (key a) (key b) e);
}

pub swap-Orders : (f : List ℕ → List ℕ → Ordering) → Orders f → Orders (λ a b. swap (f a b))
swap-Orders f o = record {
  order = record {
    flip = λ a b. ground (arith, o.order.flip a b);
    step = λ a b c p q.
        ground (arith, o.order.flip a b, o.order.flip b c, o.order.flip a c, o.order.step c b a);
    tie_left = λ a b c e. ap (λ a. swap (f a c)) (o.same a b (ground arith));
  };
  same = λ a b e. o.same a b (ground arith);
}

pub compare_int_self : (a : ℤ) → compare_int a a ≡ eq
compare_int_self (pos a) = ground arith
compare_int_self (negsuc a) = ground arith
