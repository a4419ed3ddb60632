-- ===== src/Idl/AppendLaws.antt =====
-- mdb_midl_append, mdb_midl_append_list and mdb_midl_append_range: what they add and keep.
use mathlib.Core.Option
use kotlin_lmdb.Common.{
  ℕ, none, ◌+◌, ◌*◌, ◌^◌, ◌≤◌, ◌<◌, Option, some, List, ◌∷◌, get_elem?, length, ◌≡◌, ◌⊎◌, inl, inr,
  arith, refl, ap, ◌∙◌, subst,
}
use kotlin_lmdb.Idl.{Idl, IsIdl, count}
use kotlin_lmdb.Idl.Memory.{Allocator, IsAllocator, enomem, mdb_midl_grow}
use kotlin_lmdb.Idl.Append.{after_room}
use kotlin_lmdb.Idl.Grown.{Grown, mdb_midl_grow_lem, Appended, count-eq}

Grown-count : (old new : Idl) (num : ℕ) → Grown old new num → count new ≡ count old
Grown-count old new num g = count-eq new.cells old.cells (g.keeps 0 (omega arith))

Grown-IsIdl : (old new : Idl) (num : ℕ) → IsIdl old → Grown old new num → IsIdl new
Grown-IsIdl old new num w g = record {
  fits = omega (arith, Grown-count old new num g, w.fits, g.cap_eq);
  sized = omega (arith, g.sized, g.cap_eq);
}

Grown-none : (ids : Idl) → IsIdl ids → Grown ids ids 0
Grown-none ids w = record {
  cap_eq = omega arith;
  sized = omega (arith, w.sized);
  keeps = λ i h. refl;
}

-- What is appended after growing is appended.
Appended-Grown :
    (old mid new : Idl) (num : ℕ) (added : List ℕ)
    → IsIdl old
    → Grown old mid num
    → Appended mid added new
    → Appended old added new
Appended-Grown old mid new num added w g p =
    let e = Grown-count old mid num g in
    record {
      valid = p.valid;
      count_eq = p.count_eq ∙ ap (λ c. c + length added) e;
      keeps = λ i h k. p.keeps i h (omega (arith, e)) ∙ g.keeps i (omega (arith, w.fits));
      adds = λ i v h. subst (λ c. get_elem? new.cells (c + 1 + i) ≡ some v) e (p.adds i v h);
    }

-- realloc gave nothing for the list with room for `num` more IDs.
abbrev pub Refused : Allocator → Idl → ℕ → Type 0
Refused a ids num = a.realloc (ids.cap ∷ ids.cells) ((ids.cap + num + 2) * 8) ≡ none

-- The list has grown enough for `len` more IDs, or it was too full and realloc gave nothing for it.
abbrev pub Roomy : Allocator → Idl → (num len : ℕ) → ℕ × Idl → Type 0
Roomy a ids num len r =
    ((r ≡ (enomem, ids)) × (ids.cap ≤ count ids + len) × Refused a ids num)
    ⊎ ((mid : Idl) × (more : ℕ) × (r ≡ (0, mid))
        × Grown ids mid more
        × (count ids + len ≤ mid.cap)
        × (mid.cap < 2 ^ 59))

-- The IDs are added; or the list is too full, realloc gave nothing for `num` more, and it is as
-- before.
abbrev pub Extended : Allocator → Idl → (num : ℕ) → List ℕ → ℕ × Idl → Type 0
Extended a ids num added r =
    ((r ≡ (enomem, ids)) × (ids.cap ≤ count ids + length added) × Refused a ids num)
    ⊎ ((new : Idl) × (r ≡ (0, new)) × Appended ids added new)

abbrev Writes : (Idl → Option Idl) → List ℕ → Type 0
Writes write added =
    (m : Idl)
    → IsIdl m
    → count m + length added ≤ m.cap
    → m.cap < 2 ^ 59
    → (new : Idl) × (write m ≡ some new) × Appended m added new

pub after_room_lem :
    (a : Allocator) (ids : Idl) (grow : ℕ) (added : List ℕ) (write : Idl → Option Idl) (r : ℕ × Idl)
    → IsIdl ids
    → Writes write added
    → Roomy a ids grow (length added) r
    → (q : ℕ × Idl) × (after_room r write ≡ some q) × Extended a ids grow added q
after_room_lem a ids grow added write r w ws (inl (e, f, n)) =
    ((enomem, ids), ap (λ x. after_room x write) e, inl (refl, f, n))
after_room_lem a ids grow added write r w ws (inr (mid, num, e, g, h, k)) =
    let (new, f, p) =
      ws mid (Grown-IsIdl ids mid num w g) (omega (arith, Grown-count ids mid num g)) k in
    (
      (0, new),
      ap (λ x. after_room x write) e ∙ ap (λ o. Option.map {B = ℕ × Idl} (λ ids'. (0, ids')) o) f,
      inr (new, refl, Appended-Grown ids mid new num added w g p),
    )

module _ (a : Allocator) (ok : IsAllocator a) where
  -- Growing by `num` makes the room that is needed, where the capacity stays below 2 ^ 59.
  pub grow-Roomy :
      (ids : Idl) (num len : ℕ)
      → IsIdl ids
      → ids.cap + num < 2 ^ 59
      → num < 2 ^ 31
      → ids.cap ≤ count ids + len
      → count ids + len ≤ ids.cap + num
      → Roomy a ids num len (mdb_midl_grow a ids num)
  grow-Roomy ids num len w h int k l = elim (mdb_midl_grow_lem a ok ids num w h int) [
    | inl (e, n) ↦ inl (e, k, n)
    | inr (idn, e, g) ↦ inr (idn, num, e, g, omega (arith, g.cap_eq), omega (arith, g.cap_eq))
  ]

  pub stay-Roomy :
      (ids : Idl) (num len : ℕ)
      → IsIdl ids
      → ids.cap < 2 ^ 59
      → count ids + len ≤ ids.cap
      → Roomy a ids num len (0, ids)
  stay-Roomy ids num len w h k = inr (ids, 0, refl, Grown-none ids w, k, h)
