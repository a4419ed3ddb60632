-- ===== src/Comparers.antt =====
-- ValComparers.kt: the comparison functions. A Val is what its toByteArray gives: its bytes, by
-- their bit patterns, or null.
pub mod Lex
pub mod Orders
pub mod Registry
use kotlin_lmdb.Common.{
  ℕ, zero, suc, ◌+◌, ◌-◌, ◌%◌, ◌<◌, Bool, true, false, ◌||◌, ◌&&◌, not, Option, none, some, List,
  [], ◌∷◌, length, ◌==◌, leb, ltb, if◌then◌else◌, ℤ, pos, negsuc, neg, neg_ℕ, sub_ℕ, is_zero,
}

abbrev pub Val : Type 0
Val = Option (List ℕ)

-- `b.toInt() and 0xFF`
abbrev pub unsigned : ℕ → ℕ
unsigned b = b % 256

-- The loop over the bytes that both have: the first difference that is not 0.
unfoldable pub first_diff : List ℕ → List ℕ → Option ℤ
first_diff [] bs = none
first_diff (a ∷ as') [] = none
first_diff (a ∷ as') (b ∷ bs) =
    let diff = sub_ℕ (unsigned a) (unsigned b) in
    let rest = first_diff as' bs in if is_zero diff then rest else some diff

abbrev pub or_else : Option ℤ → ℤ → ℤ
or_else none d = d
or_else (some d') d = d'

-- `a.toByteArray() ?: return -1`, `b.toByteArray() ?: return 1`, and then the rest.
abbrev pub with_bytes : (List ℕ → List ℕ → ℤ) → Val → Val → ℤ
with_bytes f none b = negsuc 0
with_bytes f (some a) none = pos 1
with_bytes f (some a) (some b) = f a b

abbrev pub size_diff : List ℕ → List ℕ → ℤ
size_diff a b = sub_ℕ (length a) (length b)

unfoldable pub bitwise_bytes : List ℕ → List ℕ → ℤ
unfolding first_diff
bitwise_bytes a b = or_else (first_diff a b) (size_diff a b)

unfoldable pub bitwise_compare : Val → Val → ℤ
unfolding bitwise_bytes
bitwise_compare a b = with_bytes bitwise_bytes a b

unfoldable pub reverse_bitwise_compare : Val → Val → ℤ
reverse_bitwise_compare a b = neg (bitwise_compare a b)

unfoldable pub lexicographical_string_compare : Val → Val → ℤ
lexicographical_string_compare a b =
    with_bytes (λ a b. or_else (first_diff a b) (size_diff a b)) a b

unfoldable pub reverse_lexicographical_string_compare : Val → Val → ℤ
reverse_lexicographical_string_compare a b = neg (lexicographical_string_compare a b)

unfoldable pub integer_key_bytes : List ℕ → List ℕ → ℤ
integer_key_bytes a b =
    if length a == length b then or_else (first_diff a b) (pos 0) else size_diff a b

unfoldable pub integer_key_compare : Val → Val → ℤ
integer_key_compare a b = with_bytes integer_key_bytes a b

unfoldable pub reverse_integer_key_compare : Val → Val → ℤ
reverse_integer_key_compare a b = neg (integer_key_compare a b)

unfoldable pub length_bytes : List ℕ → List ℕ → ℤ
length_bytes a b =
    if is_zero (size_diff a b) then bitwise_compare (some a) (some b) else size_diff a b

unfoldable pub length_compare : Val → Val → ℤ
length_compare a b = with_bytes length_bytes a b

unfoldable pub reverse_length_compare : Val → Val → ℤ
reverse_length_compare a b = neg (length_compare a b)

unfoldable pub length_only_compare : Val → Val → ℤ
length_only_compare a b = with_bytes size_diff a b

unfoldable pub reverse_length_only_compare : Val → Val → ℤ
reverse_length_only_compare a b = neg (length_only_compare a b)

-- ByteArray.contentEquals
unfoldable pub content_equals : List ℕ → List ℕ → Bool
content_equals [] [] = true
content_equals [] (b ∷ bs) = false
content_equals (a ∷ as') [] = false
content_equals (a ∷ as') (b ∷ bs) = a == b && content_equals as' bs

-- `<` and `==` of Int.
abbrev pub lt_int : ℤ → ℤ → Bool
lt_int (pos a) (pos b) = ltb a b
lt_int (pos a) (negsuc b) = false
lt_int (negsuc a) (pos b) = true
lt_int (negsuc a) (negsuc b) = ltb b a

abbrev pub eq_int : ℤ → ℤ → Bool
eq_int (pos a) (pos b) = a == b
eq_int (negsuc a) (negsuc b) = a == b
eq_int _ _ = false

-- `hash` is contentHashCode of the Kotlin library.
module _ (hash : List ℕ → ℤ) where
  unfoldable pub hash_code_bytes : List ℕ → List ℕ → ℤ
  hash_code_bytes a b =
      if content_equals a b
      then pos 0
      else (if eq_int (hash a) (hash b)
          then bitwise_compare (some a) (some b)
          else (if lt_int (hash a) (hash b) then negsuc 0 else pos 1))

  unfoldable pub hash_code_compare : Val → Val → ℤ
  hash_code_compare a b = with_bytes hash_code_bytes a b

  unfoldable pub reverse_hash_code_compare : Val → Val → ℤ
  reverse_hash_code_compare a b = neg (hash_code_compare a b)
