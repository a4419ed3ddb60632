-- ===== src/Engine/Reverse.antt =====
-- mdb.c: mdb_cmp_memnr, the order of keys with MDB_REVERSEKEY. A pointer is an offset into its bytes.
use Prim.Native.Nat.Ordering.{lt, gt}
use mathlib.Core.Option.{some-injective}
use kotlin_lmdb.Common.{
  ℕ, zero, suc, ◌-◌, ◌≤◌, Bool, true, false, Option, none, some, List, [], ◌∷◌, ◌++◌, length,
  get_elem?, get_elem?-lt_length, ltb, ℤ, pos, negsuc, sub_ℕ, compare, Ordering, if◌then◌else◌,
  ◌>>=◌, >>=-some, ◌≡◌, refl, sym, ap, ap₂, ◌∙◌, subst, arith,
}
use kotlin_lmdb.Comparers.Lex.{lex, sign, then_by}
use kotlin_lmdb.Comparers.Orders.{sign-sub_ℕ}

-- `return len_diff<0 ? -1 : len_diff;`
abbrev pub len_result : ℤ → ℤ
len_result (pos n) = pos n
len_result (negsuc n) = negsuc 0

-- `if (diff) return diff;` in the loop.
abbrev pub unless_zero : ℤ → Option ℤ → Option ℤ
unless_zero (pos zero) rest = rest
unless_zero diff rest = some diff

-- `*--p`; `none` is a read outside of the bytes.
abbrev pub before : List ℕ → ℕ → Option ℕ
before bytes zero = none
before bytes (suc p) = get_elem? bytes p

module _ (a b : List ℕ) (p1_lim : ℕ) (len_diff : ℤ) where
  abbrev pub memnr_loop : (p1 p2 : ℕ) → Option ℤ
  memnr_loop zero p2 = some (len_result len_diff)
  memnr_loop (suc p1) p2 =
      let rest = memnr_loop p1 (p2 - 1) in
      if ltb p1_lim (suc p1)
      then (before a (suc p1) >>= λ x. before b p2 >>= λ y. unless_zero (sub_ℕ x y) rest)
      else some (len_result len_diff)

unfoldable pub mdb_cmp_memnr : List ℕ → List ℕ → Option ℤ
mdb_cmp_memnr a b =
    let longer = ltb (length b) (length a) in
    memnr_loop a b (if longer then length a - length b else 0)
      (if longer then pos 1 else sub_ℕ (length a) (length b)) (length a) (length b)

abbrev pub reverse : List ℕ → List ℕ
reverse [] = []
reverse (x ∷ xs) = reverse xs ++ (x ∷ [])

abbrev take : ℕ → List ℕ → List ℕ
take zero xs = []
take (suc n) [] = []
take (suc n) (x ∷ xs) = x ∷ take n xs

take-length : (xs : List ℕ) → take (length xs) xs ≡ xs
take-length [] = refl
take-length (x ∷ xs) = ap (λ ys. x ∷ ys) (take-length xs)

reverse-take :
    (xs : List ℕ) (i x : ℕ)
    → get_elem? xs i ≡ some x
    → reverse (take (suc i) xs) ≡ x ∷ reverse (take i xs)
reverse-take [] i x e = cc
reverse-take (y ∷ ys) zero x e = ap (λ z. z ∷ []) (some-injective y x e)
reverse-take (y ∷ ys) (suc i) x e = ap (λ zs. zs ++ (y ∷ [])) (reverse-take ys i x e)

-- What the comparison of `a` and `b` says.
abbrev pub Says : Ordering → Option ℤ → Type 0
Says o none = ⊥
Says o (some d) = sign d ≡ o

Says-unless_zero :
    (d : ℤ) (rest : Option ℤ) (o : Ordering)
    → Says o rest
    → Says (then_by (sign d) o) (unless_zero d rest)
Says-unless_zero (pos zero) rest o h = h
Says-unless_zero (pos (suc n)) rest o h = refl
Says-unless_zero (negsuc n) rest o h = refl

Says-then :
    (t : Bool) (x y : Option ℤ) (o : Ordering) → t ≡ true → Says o x → Says o (if t then x else y)
Says-then t x y o e h = subst (λ t. Says o (if t then x else y)) (sym e) h

Says-else :
    (t : Bool) (x y : Option ℤ) (o : Ordering) → t ≡ false → Says o y → Says o (if t then x else y)
Says-else t x y o e h = subst (λ t. Says o (if t then x else y)) (sym e) h

sign-len_result : (d : ℤ) → sign (len_result d) ≡ sign d
sign-len_result (pos n) = refl
sign-len_result (negsuc n) = refl

limit : (m n : ℕ) → (if ltb n m then m - n else 0) ≡ m - n
limit m n = ground arith

sign-len_diff : (m n : ℕ) → sign (if ltb n m then pos 1 else sub_ℕ m n) ≡ compare m n
sign-len_diff m n = ground arith

module _ (a b : List ℕ) where
  abbrev tails : ℕ → ℕ → Ordering
  tails p1 p2 = lex (reverse (take p1 a)) (reverse (take p2 b))

  memnr_loop_lem :
      (l : ℕ) (d : ℤ) (p1 p2 : ℕ)
      → p1 ≤ length a
      → p2 ≤ length b
      → l ≡ p1 - p2
      → sign d ≡ compare p1 p2
      → Says (tails p1 p2) (memnr_loop a b l d p1 p2)
  unfolding lex
  memnr_loop_lem l d zero zero m n e s = sign-len_result d ∙ s
  memnr_loop_lem l d zero (suc p2) m n e s =
      let y = get_elem?-lt_length b p2 (omega arith) in
      let c : compare 0 (suc p2) ≡ lt = ground arith in
      subst (λ ys. sign (len_result d) ≡ lex [] ys) (sym (reverse-take b p2 y.0 y.1))
        (sign-len_result d ∙ s ∙ c)
  memnr_loop_lem l d (suc p1) zero m n e s =
      let x = get_elem?-lt_length a p1 (omega arith) in
      let c : compare (suc p1) 0 ≡ gt = ground arith in
      Says-else (ltb l (suc p1)) _ _ _ (ground arith) (
        subst (λ xs. sign (len_result d) ≡ lex xs []) (sym (reverse-take a p1 x.0 x.1))
          (sign-len_result d ∙ s ∙ c))
  memnr_loop_lem l d (suc p1) (suc p2) m n e s =
      let x = get_elem?-lt_length a p1 (omega arith) in
      let y = get_elem?-lt_length b p2 (omega arith) in
      let rest = memnr_loop a b l d p1 (suc p2 - 1) in
      let back : p2 ≡ suc p2 - 1 = omega arith in
      let c : compare (suc p1) (suc p2) ≡ compare p1 p2 = ground arith in
      let ih : Says (tails p1 p2) rest =
        subst (λ p. Says (tails p1 p2) (memnr_loop a b l d p1 p)) back
          (memnr_loop_lem l d p1 p2 (omega arith) (omega arith) (omega arith) (s ∙ c)) in
      let body = get_elem? a p1 >>= λ u. get_elem? b p2 >>= λ v. unless_zero (sub_ℕ u v) rest in
      let read : body ≡ unless_zero (sub_ℕ x.0 y.0) rest = >>=-some _ x.1 (>>=-some _ y.1 refl) in
      let here : then_by (sign (sub_ℕ x.0 y.0)) (tails p1 p2) ≡ tails (suc p1) (suc p2) =
        ap (λ o. then_by o (tails p1 p2)) (sign-sub_ℕ x.0 y.0)
        ∙ sym (ap₂ lex (reverse-take a p1 x.0 x.1) (reverse-take b p2 y.0 y.1)) in
      Says-then (ltb l (suc p1)) _ _ _ (ground arith) (
        subst (λ o. Says o body) here
          (subst (Says (then_by (sign (sub_ℕ x.0 y.0)) (tails p1 p2))) (sym read)
            (Says-unless_zero (sub_ℕ x.0 y.0) rest (tails p1 p2) ih)))

  -- mdb_cmp_memnr reads only inside of the two byte strings, and its result has the sign of their
  -- order byte by byte from the last byte on, where a string that the other one ends with is
  -- before the other one.
  pub mdb_cmp_memnr-reverse : Says (lex (reverse a) (reverse b)) (mdb_cmp_memnr a b)
  unfolding mdb_cmp_memnr
  mdb_cmp_memnr-reverse =
      let h : Says (tails (length a) (length b)) (mdb_cmp_memnr a b) =
        memnr_loop_lem _ _ (length a) (length b) (omega arith) (omega arith)
          (limit (length a) (length b)) (sign-len_diff (length a) (length b)) in
      subst (λ o. Says o (mdb_cmp_memnr a b))
        (ap₂ (λ xs ys. lex (reverse xs) (reverse ys)) (take-length a) (take-length b)) h
