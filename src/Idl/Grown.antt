-- ===== src/Idl/Grown.antt =====
-- midl.c: a list that has grown, and one that an ID has been added to.
use kotlin_lmdb.Common.{
  ℕ, zero, suc, ◌+◌, ◌*◌, ◌^◌, ◌≤◌, ◌<◌, Option, none, some, List, [], ◌∷◌, get_elem?, get_or, set,
  length, ◌≡◌, ◌⊎◌, inl, inr, arith, refl, length-set, get_elem?-set_self, get_elem?-set_ne, sym,
  ◌∙◌, ap, ap₂, subst,
}
use kotlin_lmdb.Idl.{Idl, IsIdl, u64, count}
use kotlin_lmdb.Idl.Memory.{
  Allocator, IsAllocator, enomem, mdb_midl_grow, from_block, regrow, as_int,
}
use native.Mathlib.Nat.{mod-eq_of_lt, add-zero}
use kotlin_lmdb.Idl.Append.{append_write}

-- `new` has `num` more cells than `old`, and holds what `old` held.
pub record Grown (old new : Idl) (num : ℕ) : Type 0 where
  pub cap_eq : new.cap ≡ old.cap + num
  pub sized : length new.cells ≡ old.cap + num + 1
  pub keeps : (i : ℕ) → i ≤ old.cap → get_elem? new.cells i ≡ get_elem? old.cells i

module _ (a : Allocator) (ok : IsAllocator a) where
  pub bytes : (n : ℕ) → n < 2 ^ 60 → u64 (n * 8) ≡ n * 8
  bytes n h = omega arith

  abbrev pub Outcome : Idl → ℕ → ℕ × Idl → Type 0
  Outcome ids num r =
      ((r ≡ (enomem, ids)) × (a.realloc (ids.cap ∷ ids.cells) ((ids.cap + num + 2) * 8) ≡ none))
      ⊎ ((idn : Idl) × (r ≡ (0, idn)) × Grown ids idn num)

  -- What mdb_midl_grow makes of the block that realloc returns.
  regrown :
      (ids : Idl) (num : ℕ)
      → IsIdl ids
      → (b : Option (List ℕ)) → a.realloc (ids.cap ∷ ids.cells) ((ids.cap + num + 2) * 8) ≡ b
      → Outcome ids num (regrow ids (from_block b (ids.cap + num)))
  regrown ids num w none e = inl (refl, e)
  regrown ids num w (some []) e =
      absurd (omega (arith, ok.realloc_size (ids.cap ∷ ids.cells) [] (ids.cap + num + 2) e))
  regrown ids num w (some (c ∷ cells)) e = inr (
    record { cap = ids.cap + num; cells = cells },
    refl,
    record {
      cap_eq = refl;
      sized =
          omega (arith, ok.realloc_size (ids.cap ∷ ids.cells) (c ∷ cells) (ids.cap + num + 2) e);
      keeps = λ i h.
          ok.realloc_keeps (ids.cap ∷ ids.cells) (c ∷ cells) (ids.cap + num + 2) (suc i) e
            (omega (arith, w.sized)) (omega arith);
    },
  )

  -- An int that is not negative.
  as_int_lem : (num : ℕ) → num < 2 ^ 31 → as_int num ≡ num
  as_int_lem num h = ground arith

  mdb_midl_grow_eq :
      (ids : Idl) (num : ℕ)
      → ids.cap + num < 2 ^ 59
      → num < 2 ^ 31
      → mdb_midl_grow a ids num
        ≡ regrow ids
            (from_block (a.realloc (ids.cap ∷ ids.cells) ((ids.cap + num + 2) * 8)) (ids.cap + num))
  unfolding mdb_midl_grow
  mdb_midl_grow_eq ids num h l =
      ap
        (λ n. regrow ids (
          from_block (a.realloc (ids.cap ∷ ids.cells) (u64 ((ids.cap + n + 2) * 8)))
            (u64 (ids.cap + n))))
        (as_int_lem num l)
      ∙ ap₂ (λ b c. regrow ids (from_block (a.realloc (ids.cap ∷ ids.cells) b) c))
          (bytes (ids.cap + num + 2) (omega arith)) (mod-eq_of_lt (omega arith))

  -- Either realloc gave nothing and the list is as before, or it has grown.
  pub mdb_midl_grow_lem :
      (ids : Idl) (num : ℕ)
      → IsIdl ids
      → ids.cap + num < 2 ^ 59
      → num < 2 ^ 31
      → Outcome ids num (mdb_midl_grow a ids num)
  mdb_midl_grow_lem ids num w h l =
      subst (Outcome ids num) (sym (mdb_midl_grow_eq ids num h l)) (regrown ids num w _ refl)

-- `new` is `old` with `ids` at the end.
pub record Appended (old : Idl) (added : List ℕ) (new : Idl) : Type 0 where
  pub valid : IsIdl new
  pub count_eq : count new ≡ count old + length added
  pub keeps : (i : ℕ) → 1 ≤ i → i ≤ count old → get_elem? new.cells i ≡ get_elem? old.cells i
  pub adds :
      (i v : ℕ) → get_elem? added i ≡ some v → get_elem? new.cells (count old + 1 + i) ≡ some v

pub count-set : (cells : List ℕ) (n : ℕ) → 0 < length cells → get_or (set cells 0 n) 0 0 ≡ n
count-set [] n h = elim h [ ]
count-set (x ∷ cells) n h = refl

count-set_ne : (cells : List ℕ) (i n d : ℕ) → 0 < i → get_or (set cells i n) 0 d ≡ get_or cells 0 d
count-set_ne [] i n d h = refl
count-set_ne (x ∷ cells) zero n d h = elim h [ ]
count-set_ne (x ∷ cells) (suc i) n d h = refl

pub count-eq : (xs ys : List ℕ) → get_elem? xs 0 ≡ get_elem? ys 0 → get_or xs 0 0 ≡ get_or ys 0 0
count-eq [] [] e = refl
count-eq [] (y ∷ ys) e = cc
count-eq (x ∷ xs) [] e = cc
count-eq (x ∷ xs) (y ∷ ys) e = ground arith

-- The two writes of mdb_midl_append, where there is room.
pub append_write_lem :
    (ids : Idl) (id : ℕ)
    → IsIdl ids
    → count ids < ids.cap
    → ids.cap < 2 ^ 59
    → (new : Idl) × (append_write id ids ≡ some new) × Appended ids (id ∷ []) new
unfolding append_write
append_write_lem ids id w h k =
    let n = count ids + 1 in
    (
      record ids { cells = set (set ids.cells 0 n) n id },
      ground (arith, length-set ids.cells 0 n, w.sized),
      record {
        valid = record {
          fits = omega (arith, counted);
          sized = length-set (set ids.cells 0 n) n id ∙ length-set ids.cells 0 n ∙ w.sized;
        };
        count_eq = counted;
        keeps = λ i p q.
            get_elem?-set_ne (set ids.cells 0 n) n i id (omega arith)
            ∙ get_elem?-set_ne ids.cells 0 i n (omega arith);
        adds = adds;
      },
    )
  where
    counted : get_or (set (set ids.cells 0 (count ids + 1)) (count ids + 1) id) 0 0 ≡ count ids + 1
    counted =
        count-set_ne (set ids.cells 0 (count ids + 1)) (count ids + 1) id 0 (omega arith)
        ∙ count-set ids.cells (count ids + 1) (omega (arith, w.sized))

    adds :
        (i v : ℕ)
        → get_elem? (id ∷ []) i ≡ some v
        → get_elem? (set (set ids.cells 0 (count ids + 1)) (count ids + 1) id) (count ids + 1 + i)
          ≡ some v
    adds zero v e = rw (add-zero (count ids + 1)) (
        get_elem?-set_self (set ids.cells 0 (count ids + 1)) (count ids + 1) id
          (omega (arith, length-set ids.cells 0 (count ids + 1), w.sized))
        ∙ e)
    adds (suc i) v e = cc
