-- ===== src/Comparers/Orders.antt =====
-- The standard comparison functions order byte strings as their names say.
use Prim.Native.Nat.Ordering.{lt, eq, gt}
use kotlin_lmdb.Common.{
  ℕ, zero, suc, ◌+◌, ◌*◌, ◌^◌, ◌<◌, Bool, true, false, none, some, List, [], ◌∷◌, length, ◌≡◌, refl,
  arith, sym, ap, ◌∙◌, compare, Ordering, ℤ, pos, negsuc, sub_ℕ, neg, ap₂, subst, if◌then◌else◌,
  Bool-cases, inl, inr,
}
use native.Mathlib.Nat.{pow-suc}
use kotlin_lmdb.Comparers.{
  Val, first_diff, or_else, size_diff, bitwise_bytes, bitwise_compare, integer_key_bytes,
  length_bytes, integer_key_compare, length_compare, content_equals, lt_int, eq_int,
  hash_code_bytes,
}
use kotlin_lmdb.Comparers.Lex.{
  swap, then_by, lex, sign, IsBytes, compare_int, compare_int_self, lex_self,
}

pub sign-sub_ℕ : (a b : ℕ) → sign (sub_ℕ a b) ≡ compare a b
sign-sub_ℕ a b = ground arith

pub sign-neg : (d : ℤ) → sign (neg d) ≡ swap (sign d)
sign-neg (pos zero) = refl
sign-neg (pos (suc n)) = refl
sign-neg (negsuc n) = refl

-- With a tie-break of the sign of the sizes, the loop orders byte by byte.
sign-first_diff :
    (a b : List ℕ) (d : ℤ)
    → IsBytes a
    → IsBytes b
    → sign d ≡ compare (length a) (length b)
    → sign (or_else (first_diff a b) d) ≡ lex a b
unfolding first_diff lex
sign-first_diff [] [] d p q e = e
sign-first_diff [] (b ∷ bs) d p q e = ground arith
sign-first_diff (a ∷ as') [] d p q e = ground arith
sign-first_diff (a ∷ as') (b ∷ bs) d p q e = ground (arith, sign-first_diff as' bs d p.1 q.1)

-- The sign of the loop alone, on strings of one length.
pub sign-bitwise_bytes : (a b : List ℕ) → IsBytes a → IsBytes b → sign (bitwise_bytes a b) ≡ lex a b
unfolding bitwise_bytes
sign-bitwise_bytes a b p q =
    sign-first_diff a b (size_diff a b) p q (sign-sub_ℕ (length a) (length b))

-- Shorter first, and byte by byte where the lengths are one.
abbrev pub by_length : List ℕ → List ℕ → Ordering
by_length a b = then_by (compare (length a) (length b)) (lex a b)

-- By the hash code, and byte by byte where the hash codes are one.
abbrev pub by_hash : (List ℕ → ℤ) → List ℕ → List ℕ → Ordering
by_hash hash a b = then_by (compare_int (hash a) (hash b)) (lex a b)

pub sign-length_bytes :
    (a b : List ℕ) → IsBytes a → IsBytes b → sign (length_bytes a b) ≡ by_length a b
unfolding length_bytes bitwise_compare
sign-length_bytes a b p q = ground (arith, sign-bitwise_bytes a b p q)

-- Where the lengths are one, what the loop gives when it finds no difference does not matter
-- between 0 and the difference of the lengths.
pub integer_key_bytes-length_bytes : (a b : List ℕ) → integer_key_bytes a b ≡ length_bytes a b
unfolding integer_key_bytes length_bytes bitwise_compare bitwise_bytes
integer_key_bytes-length_bytes a b = ground arith

content_equals-eq : (a b : List ℕ) → content_equals a b ≡ true → a ≡ b
unfolding content_equals
content_equals-eq [] [] e = refl
content_equals-eq [] (b ∷ bs) e = cc
content_equals-eq (a ∷ as') [] e = cc
content_equals-eq (a ∷ as') (b ∷ bs) e = ground (arith, content_equals-eq as' bs)

-- The two tests of the hash codes tell how they compare.
compare_int_tests :
    (x y : ℤ) → compare_int x y ≡ (if eq_int x y then eq else (if lt_int x y then lt else gt))
compare_int_tests (pos x) (pos y) = ground arith
compare_int_tests (pos x) (negsuc y) = refl
compare_int_tests (negsuc x) (pos y) = refl
compare_int_tests (negsuc x) (negsuc y) = ground arith

by_hash_self : (hash : List ℕ → ℤ) (a b : List ℕ) → a ≡ b → by_hash hash a b ≡ eq
by_hash_self hash a b e =
    subst (λ b. by_hash hash a b ≡ eq) e (rw (compare_int_self (hash a)) (lex_self a))

hash_step :
    (equal same less : Bool) (d : ℤ)
    → equal ≡ false
    → sign (if equal then pos 0 else (if same then d else (if less then negsuc 0 else pos 1)))
      ≡ then_by (if same then eq else (if less then lt else gt)) (sign d)
hash_step equal same less d e = ground arith

pub sign-hash_code_bytes :
    (hash : List ℕ → ℤ) (a b : List ℕ)
    → IsBytes a
    → IsBytes b
    → sign (hash_code_bytes hash a b) ≡ by_hash hash a b
unfolding hash_code_bytes bitwise_compare
sign-hash_code_bytes hash a b p q = elim (Bool-cases (content_equals a b)) [
  | inl e ↦ rw e (sym (by_hash_self hash a b (content_equals-eq a b e)))
  | inr e ↦
      hash_step (content_equals a b) (eq_int (hash a) (hash b)) (lt_int (hash a) (hash b))
        (bitwise_bytes a b) e
      ∙ ap₂ then_by (sym (compare_int_tests (hash a) (hash b))) (sign-bitwise_bytes a b p q)
]

-- The number that the bytes spell, most significant first.
abbrev pub be_value : List ℕ → ℕ
be_value [] = 0
be_value (b ∷ bs) = b * 256 ^ length bs + be_value bs

be_value-lt : (bs : List ℕ) → IsBytes bs → be_value bs < 256 ^ length bs
be_value-lt [] p = omega arith
be_value-lt (b ∷ bs) p = grind (arith, be_value-lt bs p.1, pow-suc 256 (length bs))

high_byte : (a b x y w : ℕ) → a < b → x < w → a * w + x < b * w + y
high_byte a b x y w h k = grind arith

same_length : (m n : ℕ) (o : Ordering) → m ≡ n → then_by (compare m n) o ≡ o
same_length m n o e = ground arith

compare-high_byte :
    (a b x y w : ℕ)
    → x < w
    → y < w
    → then_by (compare a b) (compare x y) ≡ compare (a * w + x) (b * w + y)
compare-high_byte a b x y w h k = ground (arith, high_byte a b x y w, high_byte b a y x w)

lex-be_value :
    (a b : List ℕ)
    → IsBytes a
    → IsBytes b
    → length a ≡ length b
    → lex a b ≡ compare (be_value a) (be_value b)
unfolding lex
lex-be_value [] [] p q e = refl
lex-be_value [] (b ∷ bs) p q e = absurd (omega arith)
lex-be_value (a ∷ as') [] p q e = absurd (omega arith)
lex-be_value (a ∷ as') (b ∷ bs) p q e =
    let same : length as' ≡ length bs = omega arith in
    ap (then_by (compare a b)) (lex-be_value as' bs p.1 q.1 same)
    ∙ compare-high_byte a b (be_value as') (be_value bs) (256 ^ length as') (be_value-lt as' p.1)
        (rw same (be_value-lt bs q.1))
    ∙ ap (λ n. compare (a * 256 ^ length as' + be_value as') (b * 256 ^ n + be_value bs)) same

-- On byte strings of one length integerKeyCompare has the sign of the comparison of the unsigned
-- numbers that the bytes spell with the most significant byte first.
pub integer_key_compare-be_value :
    (a b : List ℕ)
    → IsBytes a
    → IsBytes b
    → length a ≡ length b
    → sign (integer_key_compare (some a) (some b)) ≡ compare (be_value a) (be_value b)
unfolding integer_key_compare
integer_key_compare-be_value a b p q e =
    ap sign (integer_key_bytes-length_bytes a b)
    ∙ sign-length_bytes a b p q
    ∙ same_length (length a) (length b) (lex a b) e
    ∙ lex-be_value a b p q e

-- integerKeyCompare and lengthCompare are the same function, null values included.
pub integer_key_compare-length_compare : (a b : Val) → integer_key_compare a b ≡ length_compare a b
unfolding integer_key_compare length_compare
integer_key_compare-length_compare none b = refl
integer_key_compare-length_compare (some a) none = refl
integer_key_compare-length_compare (some a) (some b) = integer_key_bytes-length_bytes a b
