-- ===== src/Engine/Compare.antt =====
-- mdb.c: mdb_cmp_memn, the default order of keys.
use Prim.Native.Nat.Ordering.{eq, gt}
use kotlin_lmdb.Common.{
  ℕ, zero, suc, ◌^◌, ◌≤◌, ◌<◌, true, false, some, List, [], ◌∷◌, length, ltb, ℤ, pos, negsuc, sub_ℕ,
  compare, Ordering, ◌≡◌, ◌⊎◌, inl, inr, refl, arith, sym, ap, ap₂, ◌∙◌, if◌then◌else◌,
}
use kotlin_lmdb.Idl.{u32}
use kotlin_lmdb.Comparers.{bitwise_compare}
use kotlin_lmdb.Comparers.Lex.{lex, sign, then_by, IsBytes}
use kotlin_lmdb.Comparers.Orders.{sign-bitwise_bytes, sign-sub_ℕ}

-- `return diff ? diff : len_diff<0 ? -1 : len_diff;`
abbrev pub memn_result : (diff len_diff : ℤ) → ℤ
memn_result (pos zero) (negsuc n) = negsuc 0
memn_result (pos zero) d = d
memn_result diff _ = diff

-- `memcmp` is the function of the C library.
unfoldable pub mdb_cmp_memn : (memcmp : List ℕ → List ℕ → ℕ → ℤ) → List ℕ → List ℕ → ℤ
mdb_cmp_memn memcmp a b =
    let longer = ltb (length b) (length a) in
    let len_diff = if longer then pos 1 else sub_ℕ (length a) (length b) in
    let len = u32 (if longer then length b else length a) in memn_result (memcmp a b len) len_diff

-- The first `n` bytes decide, or tie.
abbrev pub lex_to : ℕ → List ℕ → List ℕ → Ordering
lex_to (suc n) (x ∷ a) (y ∷ b) = then_by (compare x y) (lex_to n a b)
lex_to _ _ _ = eq

-- What the C library documents of memcmp.
abbrev pub IsMemcmp : (List ℕ → List ℕ → ℕ → ℤ) → Type 0
IsMemcmp memcmp =
    (a b : List ℕ) (n : ℕ) → n ≤ length a → n ≤ length b → sign (memcmp a b n) ≡ lex_to n a b

sign-memn_result : (d l : ℤ) → sign (memn_result d l) ≡ then_by (sign d) (sign l)
sign-memn_result (pos zero) (pos n) = refl
sign-memn_result (pos zero) (negsuc n) = refl
sign-memn_result (pos (suc m)) l = refl
sign-memn_result (negsuc m) l = refl

lex_to-shorter :
    (a b : List ℕ)
    → length a ≤ length b
    → then_by (lex_to (length a) a b) (compare (length a) (length b)) ≡ lex a b
unfolding lex
lex_to-shorter [] [] h = refl
lex_to-shorter [] (y ∷ b) h = ground arith
lex_to-shorter (x ∷ a) [] h = absurd (omega arith)
lex_to-shorter (x ∷ a) (y ∷ b) h = ground (arith, lex_to-shorter a b (omega arith))

lex_to-longer : (a b : List ℕ) → length b < length a → then_by (lex_to (length b) a b) gt ≡ lex a b
unfolding lex
lex_to-longer [] b h = absurd (omega arith)
lex_to-longer (x ∷ a) [] h = refl
lex_to-longer (x ∷ a) (y ∷ b) h = ground (arith, lex_to-longer a b (omega arith))

module _ (memcmp : List ℕ → List ℕ → ℕ → ℤ) (w : IsMemcmp memcmp) (a b : List ℕ)
    (m : length a < 2 ^ 32) (n : length b < 2 ^ 32) where
  memn_shorter :
      length a ≤ length b
      → mdb_cmp_memn memcmp a b ≡ memn_result (memcmp a b (length a)) (sub_ℕ (length a) (length b))
  unfolding mdb_cmp_memn
  memn_shorter h =
      let f : ltb (length b) (length a) ≡ false = ground arith in
      let g : u32 (length a) ≡ length a = omega arith in
      ap
        (λ l.
          memn_result (memcmp a b (u32 (if l then length b else length a)))
            (if l then pos 1 else sub_ℕ (length a) (length b)))
        f
      ∙ ap (λ k. memn_result (memcmp a b k) (sub_ℕ (length a) (length b))) g

  memn_longer :
      length b < length a → mdb_cmp_memn memcmp a b ≡ memn_result (memcmp a b (length b)) (pos 1)
  unfolding mdb_cmp_memn
  memn_longer h =
      let f : ltb (length b) (length a) ≡ true = ground arith in
      let g : u32 (length b) ≡ length b = omega arith in
      ap
        (λ l.
          memn_result (memcmp a b (u32 (if l then length b else length a)))
            (if l then pos 1 else sub_ℕ (length a) (length b)))
        f
      ∙ ap (λ k. memn_result (memcmp a b k) (pos 1)) g

  sign-mdb_cmp_memn : sign (mdb_cmp_memn memcmp a b) ≡ lex a b
  sign-mdb_cmp_memn = elim (shorter (length a) (length b)) [
    | inl h ↦
        ap sign (memn_shorter h)
        ∙ sign-memn_result _ _
        ∙ ap₂ then_by (w a b (length a) (omega arith) h) (sign-sub_ℕ (length a) (length b))
        ∙ lex_to-shorter a b h
    | inr h ↦
        ap sign (memn_longer h)
        ∙ sign-memn_result _ _
        ∙ ap (λ o. then_by o gt) (w a b (length b) (omega arith) (omega arith))
        ∙ lex_to-longer a b h
  ]
    where
      shorter : (x y : ℕ) → (x ≤ y) ⊎ (y < x)
      shorter x y = ground arith

  -- On byte strings of less than 2^32 bytes the engine's default order of keys is the order of
  -- the Kotlin comparer BITWISE: both functions have the same sign.
  pub mdb_cmp_memn-bitwise_compare :
      IsBytes a
      → IsBytes b
      → sign (mdb_cmp_memn memcmp a b) ≡ sign (bitwise_compare (some a) (some b))
  unfolding bitwise_compare
  mdb_cmp_memn-bitwise_compare p q = sign-mdb_cmp_memn ∙ sym (sign-bitwise_bytes a b p q)
