-- ===== src/Id2l/Locate.antt =====
-- mdb_mid2l_search on a sorted array.
use Prim.Native.Nat.Ordering.{lt, eq, gt}
use kotlin_lmdb.Common.{
  ℕ, ◌+◌, ◌≤◌, ◌<◌, some, get_elem?-lt_length, length, ◌≡◌, ◌⊎◌, inl, inr, arith, refl, compare,
  sym, ap, ◌∙◌, List, >>=-some,
}
use kotlin_lmdb.Idl.Search.{Ordered, Located, bisect_whole}
use kotlin_lmdb.Idl.Memory.{um_max}
use kotlin_lmdb.Id2l.{Id2, count, mid_at, probe, mdb_mid2l_search}

-- The array has its MDB_IDL_UM_SIZE cells, and at most MDB_IDL_UM_MAX are in use.
pub record IsId2l (ids : List Id2) : Type 0 where
  pub fits : count ids ≤ um_max
  pub sized : length ids ≡ um_max + 1

-- The IDs rise strictly from cell 1 to the last.
abbrev pub IsRising : List Id2 → Type 0
IsRising ids =
    (i j x y : ℕ)
    → 1 ≤ i
    → i < j
    → j ≤ count ids
    → mid_at ids i ≡ some x
    → mid_at ids j ≡ some y
    → x < y

-- Position `x` is the place of `id`: it holds `id`, or the cells before it hold smaller IDs and
-- the cells from it on larger ones.
abbrev pub IsPlace : List Id2 → (id x : ℕ) → Type 0
IsPlace ids id x =
    (1 ≤ x)
    × (x ≤ count ids + 1)
    × (((x ≤ count ids) × (mid_at ids x ≡ some id))
        ⊎ (((i v : ℕ) → 1 ≤ i → i < x → mid_at ids i ≡ some v → v < id)
            × ((i v : ℕ) → x ≤ i → i ≤ count ids → mid_at ids i ≡ some v → id < v)))

module _ (ids : List Id2) (id : ℕ) (w : IsId2l ids) (s : IsRising ids) where
  cell : (i : ℕ) → i ≤ count ids → (v : ℕ) × (mid_at ids i ≡ some v)
  cell i h =
      let (c, e) = get_elem?-lt_length ids i (omega (arith, w.fits, w.sized)) in
      (c.mid, >>=-some _ e refl)

  probe_at : (i v : ℕ) → mid_at ids i ≡ some v → probe ids id i ≡ some (compare id v)
  probe_at i v e = >>=-some _ e refl

  equal : (v : ℕ) → some (compare id v) ≡ some eq → id ≡ v
  equal v e = ground arith

  greater : (v : ℕ) → some (compare id v) ≡ some gt → v < id
  greater v e = ground arith

  less : (v : ℕ) → some (compare id v) ≡ some lt → id < v
  less v e = ground arith

  to_gt : (x y : ℕ) → x ≤ y → some (compare id y) ≡ some gt → some (compare id x) ≡ some gt
  to_gt x y h e = ground arith

  to_lt : (x y : ℕ) → x ≤ y → some (compare id x) ≡ some lt → some (compare id y) ≡ some lt
  to_lt x y h e = ground arith

  monotone :
      (i j x y : ℕ)
      → 1 ≤ i
      → i ≤ j
      → j ≤ count ids
      → mid_at ids i ≡ some x
      → mid_at ids j ≡ some y
      → x ≤ y
  monotone i j x y h k l ex ey = ground (arith, s i j x y)

  -- A rising array is what the binary search needs.
  probe-Ordered : Ordered (probe ids id) (count ids)
  probe-Ordered = record {
    reads = λ i h k e. let (x, ex) = cell i k in cc (probe_at i x ex);
    down = λ i j h k l e.
        let (x, ex) = cell i (omega arith) in
        let (y, ey) = cell j l in
        rw (probe_at i x ex) (to_gt x y (monotone i j x y h k l ex ey) (sym (probe_at j y ey) ∙ e));
    up = λ i j h k l e.
        let (x, ex) = cell i (omega arith) in
        let (y, ey) = cell j l in
        rw (probe_at j y ey) (to_lt x y (monotone i j x y h k l ex ey) (sym (probe_at i x ex) ∙ e));
  }

  at_eq : (x : ℕ) → x ≤ count ids → probe ids id x ≡ some eq → mid_at ids x ≡ some id
  at_eq x h e = let (v, ev) = cell x h in ev ∙ ap some (sym (equal v (sym (probe_at x v ev) ∙ e)))

  at_gt : (x v : ℕ) → probe ids id x ≡ some gt → mid_at ids x ≡ some v → v < id
  at_gt x v e ev = greater v (sym (probe_at x v ev) ∙ e)

  at_lt : (x v : ℕ) → probe ids id x ≡ some lt → mid_at ids x ≡ some v → id < v
  at_lt x v e ev = less v (sym (probe_at x v ev) ∙ e)

  place : (x : ℕ) → Located (probe ids id) (count ids) x → IsPlace ids id x
  place x (a, b, inl (h, e)) = (a, b, inl (h, at_eq x h e))
  place x (a, b, inr (g, l)) =
      (a, b, inr (λ i v h k. at_gt i v (g i h k), λ i v h k. at_lt i v (l i h k)))

  -- On a well-formed array whose IDs rise, mdb_mid2l_search reads inside the array and returns
  -- the place of the ID: the position that holds it, or else the position that separates the
  -- smaller IDs from the larger ones.
  pub mdb_mid2l_search-IsPlace : (x : ℕ) × (mdb_mid2l_search ids id ≡ some x) × IsPlace ids id x
  unfolding mdb_mid2l_search
  mdb_mid2l_search-IsPlace =
      let (x, e, l) =
        bisect_whole (probe ids id) (count ids) (omega (arith, w.fits)) probe-Ordered in
      (x, e, place x l)
