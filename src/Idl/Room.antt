-- ===== src/Idl/Room.antt =====
-- midl.c: mdb_midl_alloc and mdb_midl_need, for lists of at most 2^31 IDs.
use mathlib.Core.Option
use kotlin_lmdb.Common.{
  ℕ, zero, suc, ◌+◌, ◌-◌, ◌*◌, ◌/◌, ◌^◌, ◌≤◌, ◌<◌, Option, none, some, List, [], ◌∷◌, get_elem?,
  set, length-set, get_elem?-lt_length, ltb, if◌then◌else◌, ◌≡◌, ◌⊎◌, inl, inr, refl, sym, ap, ◌∙◌,
  subst, arith, Bool-cases,
}
use kotlin_lmdb.Idl.{Idl, IsIdl, IsFalling, u32, u64, count}
use kotlin_lmdb.Idl.Grown.{count-set, count-eq}
use kotlin_lmdb.Idl.Memory.{
  Allocator, IsAllocator, enomem, from_block, regrow, mdb_midl_alloc, mdb_midl_need,
}
use kotlin_lmdb.Idl.MergeCells.{Has}

-- `new` has the IDs of `old` in their cells, and room for `n`.
pub record Roomier (old new : Idl) (n : ℕ) : Type 0 where
  pub valid : IsIdl new
  pub count_eq : count new ≡ count old
  pub cap_small : new.cap < 2 ^ 32
  pub room : n ≤ new.cap
  pub keeps : (p : ℕ) → p ≤ count old → get_elem? new.cells p ≡ get_elem? old.cells p

module _ (old new : Idl) (n : ℕ) (r : Roomier old new n) where
  pub Roomier-IsFalling : IsFalling old → IsFalling new
  Roomier-IsFalling f i j x y h l b ex ey =
      f i j x y h l (omega (arith, r.count_eq)) (sym (r.keeps i (omega (arith, r.count_eq))) ∙ ex)
        (sym (r.keeps j (omega (arith, r.count_eq))) ∙ ey)

  pub Roomier-Has : (v : ℕ) → Has new v → Has old v
  Roomier-Has v (p, h, l, e) =
      let b : p ≤ count old = omega (arith, r.count_eq) in (p, h, b, sym (r.keeps p b) ∙ e)

  pub Has-Roomier : (v : ℕ) → Has old v → Has new v
  Has-Roomier v (p, h, l, e) = (p, h, omega (arith, r.count_eq), r.keeps p l ∙ e)

-- Cell `p` is at least as far below the first as it comes after it.
falling_from_first :
    (ids : Idl) (m : ℕ)
    → IsIdl ids
    → IsFalling ids
    → ((v : ℕ) → Has ids v → v < m)
    → (p v : ℕ) → p < count ids
    → get_elem? ids.cells (suc p) ≡ some v
    → v + p < m
falling_from_first ids m w f b zero v l e =
    let h : v < m = b v (1, omega arith, omega arith, e) in omega arith
falling_from_first ids m w f b (suc p) v l e =
    let (x, g) = get_elem?-lt_length ids.cells (suc p) (omega (arith, w.fits, w.sized)) in
    let less : v < x = f (suc p) (suc (suc p)) x v (omega arith) (omega arith) (omega arith) g e in
    omega (arith, falling_from_first ids m w f b p x (omega arith) g)

-- A falling list of numbers below `m` is not longer than `m`.
pub count-le :
    (ids : Idl) (m : ℕ) → IsIdl ids → IsFalling ids → ((v : ℕ) → Has ids v → v < m) → count ids ≤ m
count-le ids m w f b = go (count ids) refl
  where
    go : (n : ℕ) → count ids ≡ n → n ≤ m
    go zero e = omega arith
    go (suc n) e =
        let (v, g) = get_elem?-lt_length ids.cells (suc n) (omega (arith, w.fits, w.sized)) in
        omega (arith, falling_from_first ids m w f b n v (omega arith) g)

module _ (a : Allocator) (ok : IsAllocator a) where
  abbrev pub Needed : Idl → ℕ → ℕ × Idl → Type 0
  Needed ids n r = (r ≡ (enomem, ids)) ⊎ ((new : Idl) × (r ≡ (0, new)) × Roomier ids new n)

  regrow-Needed :
      (ids : Idl) (n room : ℕ)
      → IsIdl ids
      → ids.cap < n
      → n + 2 ≤ room
      → room < 2 ^ 32
      → (b : Option (List ℕ)) → a.realloc (ids.cap ∷ ids.cells) (room * 8) ≡ b
      → Needed ids n (regrow ids (from_block b (room - 2)))
  regrow-Needed ids n room w l r h none e = inl refl
  regrow-Needed ids n room w l r h (some []) e =
      absurd (omega (arith, ok.realloc_size (ids.cap ∷ ids.cells) [] room e))
  regrow-Needed ids n room w l r h (some (c ∷ cells)) e =
      let size = ok.realloc_size (ids.cap ∷ ids.cells) (c ∷ cells) room e in
      let keeps : (p : ℕ) → p ≤ ids.cap → get_elem? cells p ≡ get_elem? ids.cells p = λ p q.
        ok.realloc_keeps (ids.cap ∷ ids.cells) (c ∷ cells) room (suc p) e (omega (arith, w.sized))
          (omega arith) in
      let counted = count-eq cells ids.cells (keeps 0 (omega arith)) in
      inr (
        record { cap = room - 2; cells = cells },
        refl,
        record {
          valid = record { fits = omega (arith, counted, w.fits); sized = omega (arith, size) };
          count_eq = counted;
          cap_small = omega arith;
          room = omega arith;
          keeps = λ p q. keeps p (omega (arith, w.fits));
        },
      )

  abbrev room_for : ℕ → ℕ
  room_for n = (n + n / 4 + (256 + 2)) / 256 * 256

  abbrev needing : (ids : Idl) (need room new_cap : ℕ) → ℕ × Idl
  needing ids need room new_cap =
      if ltb ids.cap need
      then regrow ids (from_block (a.realloc (ids.cap ∷ ids.cells) (room * 8)) new_cap)
      else (0, ids)

  need_eq :
      (ids : Idl) (num : ℕ)
      → num + count ids ≤ 2 ^ 31
      → mdb_midl_need a ids num
        ≡ needing ids
            (num + count ids)
            (room_for (num + count ids))
            (room_for (num + count ids) - 2)
  unfolding mdb_midl_need
  need_eq ids num small =
      let n = num + count ids in
      let same : u32 n ≡ n = omega arith in
      let fits : u32 (n + n / 4 + (256 + 2)) ≡ n + n / 4 + (256 + 2) = omega arith in
      let less : u32 (room_for n + 2 ^ 32 - 2) ≡ room_for n - 2 = omega arith in
      ap
        (λ m.
          needing ids m (u32 (m + m / 4 + (256 + 2)) / 256 * 256)
            (u32 (u32 (m + m / 4 + (256 + 2)) / 256 * 256 + 2 ^ 32 - 2)))
        same
      ∙ ap (λ m. needing ids n (m / 256 * 256) (u32 (m / 256 * 256 + 2 ^ 32 - 2))) fits
      ∙ ap (needing ids n (room_for n)) less

  needing_lem :
      (ids : Idl) (n : ℕ)
      → IsIdl ids
      → ids.cap < 2 ^ 32
      → n ≤ 2 ^ 31
      → Needed ids n (needing ids n (room_for n) (room_for n - 2))
  needing_lem ids n w h small = elim (Bool-cases (ltb ids.cap n)) [
    | inl less ↦
        rw less
          (regrow-Needed ids n (room_for n) w (ground arith) (omega arith) (omega arith) _ refl)
    | inr enough ↦ inr (
      ids,
      rw enough,
      record {
        valid = w;
        count_eq = refl;
        cap_small = h;
        room = ground arith;
        keeps = λ p q. refl;
      },
    )
  ]

  -- mdb_midl_need makes room for `num` more IDs, or answers ENOMEM and leaves the list.
  pub mdb_midl_need-Needed :
      (ids : Idl) (num : ℕ)
      → IsIdl ids
      → ids.cap < 2 ^ 32
      → num + count ids ≤ 2 ^ 31
      → Needed ids (num + count ids) (mdb_midl_need a ids num)
  mdb_midl_need-Needed ids num w h small =
      subst (Needed ids (num + count ids)) (sym (need_eq ids num small))
        (needing_lem ids (num + count ids) w h small)

  abbrev pub Made : ℕ → Option Idl → Type 0
  Made num o =
      (o ≡ none) ⊎ ((ids : Idl) × (o ≡ some ids) × IsIdl ids × (count ids ≡ 0) × (ids.cap ≡ num))

  abbrev zeroed : Option (List ℕ) → ℕ → Option Idl
  zeroed b num =
      Option.map (λ (ids : Idl). record ids { cells = set ids.cells 0 0 }) (from_block b num)

  zeroed-Made :
      (num : ℕ) (b : Option (List ℕ)) → a.malloc ((num + 2) * 8) ≡ b → Made num (zeroed b num)
  zeroed-Made num none e = inl refl
  zeroed-Made num (some []) e = absurd (omega (arith, ok.malloc_size (num + 2) [] e))
  zeroed-Made num (some (c ∷ cells)) e =
      let size = ok.malloc_size (num + 2) (c ∷ cells) e in
      let empty = count-set cells 0 (omega (arith, size)) in
      inr (
        record { cap = num; cells = set cells 0 0 },
        refl,
        record { fits = omega (arith, empty); sized = omega (arith, length-set cells 0 0, size) },
        empty,
        refl,
      )

  -- mdb_midl_alloc gives an empty list with room for `num` IDs, or NULL.
  pub mdb_midl_alloc-Made : (num : ℕ) → num < 2 ^ 32 → Made num (mdb_midl_alloc a num)
  unfolding mdb_midl_alloc
  mdb_midl_alloc-Made num h =
      let bytes : u64 ((num + 2) * 8) ≡ (num + 2) * 8 = omega arith in
      subst (λ n. Made num (zeroed (a.malloc n) num)) (sym bytes) (zeroed-Made num _ refl)
