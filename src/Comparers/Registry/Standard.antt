-- ===== src/Comparers/Registry/Standard.antt =====
-- The table of standard comparers against the orders that its names promise.
use Prim.Native.Nat.Ordering.{lt, eq, gt}
use kotlin_lmdb.Common.{
  ℕ, none, some, List, length as size, ◌≡◌, refl, sym, ap, ◌∙◌, compare, Ordering, ℤ, neg, pos,
  Option, subst, ◌↔◌,
}
use kotlin_lmdb.Comparers.{
  bitwise_bytes, bitwise_compare, reverse_bitwise_compare, lexicographical_string_compare,
  reverse_lexicographical_string_compare, integer_key_bytes, integer_key_compare,
  reverse_integer_key_compare, length_compare, reverse_length_compare, size_diff,
  length_only_compare, reverse_length_only_compare, hash_code_compare, reverse_hash_code_compare,
}
use kotlin_lmdb.Comparers.Lex.{
  swap, lex, sign, IsBytes, Orders, lex-Orders, then_by-Orders, swap-Orders, compare-Preorders,
  compare_int-Preorders,
}
use kotlin_lmdb.Comparers.Orders.{
  by_length, by_hash, sign-neg, sign-bitwise_bytes, sign-length_bytes, sign-hash_code_bytes,
  integer_key_bytes-length_bytes, sign-sub_ℕ,
}
use kotlin_lmdb.Comparers.Registry.{
  ValComparer, bitwise, reverse_bitwise, lexicographic_string, reverse_lexicographic_string,
  integer_key, reverse_integer_key, length, reverse_length, length_only, reverse_length_only,
  hash_code, reverse_hash_code, custom_1, custom_2, custom_3, custom_4, ValCompare,
  standard_comparers,
}

-- The order that each name promises; the custom slots promise none.
abbrev pub order_of : (List ℕ → ℤ) → ValComparer → List ℕ → List ℕ → Ordering
order_of hash bitwise a b = lex a b
order_of hash reverse_bitwise a b = swap (lex a b)
order_of hash lexicographic_string a b = lex a b
order_of hash reverse_lexicographic_string a b = swap (lex a b)
order_of hash integer_key a b = by_length a b
order_of hash reverse_integer_key a b = swap (by_length a b)
order_of hash length a b = by_length a b
order_of hash reverse_length a b = swap (by_length a b)
order_of hash length_only a b = compare (size a) (size b)
order_of hash reverse_length_only a b = swap (compare (size a) (size b))
order_of hash hash_code a b = by_hash hash a b
order_of hash reverse_hash_code a b = swap (by_hash hash a b)
order_of hash _ a b = eq

module _ (hash : List ℕ → ℤ) (a b : List ℕ) (p : IsBytes a) (q : IsBytes b) where
  sign-integer_key_bytes : sign (integer_key_bytes a b) ≡ by_length a b
  sign-integer_key_bytes = ap sign (integer_key_bytes-length_bytes a b) ∙ sign-length_bytes a b p q

  reversed : (d : ℤ) (o : Ordering) → sign d ≡ o → sign (neg d) ≡ swap o
  reversed d o e = sign-neg d ∙ ap swap e

  value : Option ValCompare → ℤ
  value none = pos 0
  value (some f) = f (some a) (some b)

  carry :
      (g f : ValCompare) (o : Ordering)
      → sign (g (some a) (some b)) ≡ o
      → some g ≡ some f
      → sign (f (some a) (some b)) ≡ o
  unfolding value
  carry g f o h e = ap (λ m. sign (value m)) (sym e) ∙ h

  sign-size_diff : sign (size_diff a b) ≡ compare (size a) (size b)
  sign-size_diff = sign-sub_ℕ (size a) (size b)

  -- The sign that each standard comparer gives on two byte strings is the one of the order that
  -- its name promises.
  pub standard_comparers-order_of :
      (c : ValComparer) (f : ValCompare)
      → standard_comparers hash c ≡ some f
      → sign (f (some a) (some b)) ≡ order_of hash c a b
  unfolding bitwise_compare reverse_bitwise_compare lexicographical_string_compare
      reverse_lexicographical_string_compare integer_key_compare reverse_integer_key_compare
      length_compare reverse_length_compare length_only_compare reverse_length_only_compare
      hash_code_compare reverse_hash_code_compare bitwise_bytes
  standard_comparers-order_of bitwise f e = carry bitwise_compare f _ (sign-bitwise_bytes a b p q) e
  standard_comparers-order_of reverse_bitwise f e =
      carry reverse_bitwise_compare f _ (reversed _ _ (sign-bitwise_bytes a b p q)) e
  standard_comparers-order_of lexicographic_string f e =
      carry lexicographical_string_compare f _ (sign-bitwise_bytes a b p q) e
  standard_comparers-order_of reverse_lexicographic_string f e =
      carry reverse_lexicographical_string_compare f _ (reversed _ _ (sign-bitwise_bytes a b p q)) e
  standard_comparers-order_of integer_key f e =
      carry integer_key_compare f _ sign-integer_key_bytes e
  standard_comparers-order_of reverse_integer_key f e =
      carry reverse_integer_key_compare f _ (reversed _ _ sign-integer_key_bytes) e
  standard_comparers-order_of length f e = carry length_compare f _ (sign-length_bytes a b p q) e
  standard_comparers-order_of reverse_length f e =
      carry reverse_length_compare f _ (reversed _ _ (sign-length_bytes a b p q)) e
  standard_comparers-order_of length_only f e = carry length_only_compare f _ sign-size_diff e
  standard_comparers-order_of reverse_length_only f e =
      carry reverse_length_only_compare f _ (reversed _ _ sign-size_diff) e
  standard_comparers-order_of hash_code f e =
      carry (hash_code_compare hash) f _ (sign-hash_code_bytes hash a b p q) e
  standard_comparers-order_of reverse_hash_code f e =
      carry (reverse_hash_code_compare hash) f _ (reversed _ _ (sign-hash_code_bytes hash a b p q))
        e
  standard_comparers-order_of custom_1 f e = cc
  standard_comparers-order_of custom_2 f e = cc
  standard_comparers-order_of custom_3 f e = cc
  standard_comparers-order_of custom_4 f e = cc

-- The comparers that look at all of the bytes.
abbrev IsFull : ValComparer → Type 0
IsFull length_only = ⊥
IsFull reverse_length_only = ⊥
IsFull custom_1 = ⊥
IsFull custom_2 = ⊥
IsFull custom_3 = ⊥
IsFull custom_4 = ⊥
IsFull _ = Unit {0}

by_length-Orders : Orders by_length
by_length-Orders = then_by-Orders _ lex (compare-Preorders size) lex-Orders

by_hash-Orders : (hash : List ℕ → ℤ) → Orders (by_hash hash)
by_hash-Orders hash = then_by-Orders _ lex (compare_int-Preorders hash) lex-Orders

order_of-Orders : (hash : List ℕ → ℤ) (c : ValComparer) → IsFull c → Orders (order_of hash c)
order_of-Orders hash bitwise h = lex-Orders
order_of-Orders hash reverse_bitwise h = swap-Orders lex lex-Orders
order_of-Orders hash lexicographic_string h = lex-Orders
order_of-Orders hash reverse_lexicographic_string h = swap-Orders lex lex-Orders
order_of-Orders hash integer_key h = by_length-Orders
order_of-Orders hash reverse_integer_key h = swap-Orders by_length by_length-Orders
order_of-Orders hash length h = by_length-Orders
order_of-Orders hash reverse_length h = swap-Orders by_length by_length-Orders
order_of-Orders hash hash_code h = by_hash-Orders hash
order_of-Orders hash reverse_hash_code h = swap-Orders (by_hash hash) (by_hash-Orders hash)
order_of-Orders hash length_only h = elim h [ ]
order_of-Orders hash reverse_length_only h = elim h [ ]
order_of-Orders hash custom_1 h = elim h [ ]
order_of-Orders hash custom_2 h = elim h [ ]
order_of-Orders hash custom_3 h = elim h [ ]
order_of-Orders hash custom_4 h = elim h [ ]

self_tie : (o : Ordering) → o ≡ swap o → o ≡ eq
self_tie lt e = cc
self_tie eq e = refl
self_tie gt e = cc

module _ (hash : List ℕ → ℤ) (c : ValComparer) (f : ValCompare) (full : IsFull c)
    (e : standard_comparers hash c ≡ some f) where
  -- Every standard comparer but the two that look at lengths only is antisymmetric on byte strings,
  -- and gives 0 exactly on equal strings, whatever the hash function.
  pub standard_comparers_antisymmetric :
      (x y : List ℕ)
      → IsBytes x
      → IsBytes y
      → (sign (f (some y) (some x)) ≡ swap (sign (f (some x) (some y))))
        × ((sign (f (some x) (some y)) ≡ eq) ↔ (x ≡ y))
  standard_comparers_antisymmetric x y p q =
      let o = order_of-Orders hash c full in
      let xy = standard_comparers-order_of hash x y p q c f e in
      let yx = standard_comparers-order_of hash y x q p c f e in
      let xx = standard_comparers-order_of hash x x p p c f e in
      (
        yx ∙ o.order.flip x y ∙ ap swap (sym xy),
        (
          λ h. o.same x y (sym xy ∙ h),
          λ h.
              subst (λ z. sign (f (some x) (some z)) ≡ eq) h
                (xx ∙ self_tie (order_of hash c x x) (o.order.flip x x)),
        ),
      )

  -- Every standard comparer but the two that look at lengths only is transitive on byte strings,
  -- whatever the hash function.
  pub standard_comparers_transitive :
      (x y z : List ℕ)
      → IsBytes x
      → IsBytes y
      → IsBytes z
      → sign (f (some x) (some y)) ≡ lt
      → sign (f (some y) (some z)) ≡ lt
      → sign (f (some x) (some z)) ≡ lt
  standard_comparers_transitive x y z p q r h k =
      let o = order_of-Orders hash c full in
      let xy = standard_comparers-order_of hash x y p q c f e in
      let yz = standard_comparers-order_of hash y z q r c f e in
      let xz = standard_comparers-order_of hash x z p r c f e in
      xz ∙ o.order.step x y z (sym xy ∙ h) (sym yz ∙ k)
