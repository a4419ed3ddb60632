-- ===== src/Idl/Locate.antt =====
-- mdb_midl_search on a sorted list.
use Prim.Native.Nat.Ordering.{lt, eq, gt}
use kotlin_lmdb.Common.{
  ℕ, ◌+◌, ◌^◌, ◌≤◌, ◌<◌, some, get_elem?, get_elem?-lt_length, ◌≡◌, ◌⊎◌, inl, inr, arith, compare,
}
use kotlin_lmdb.Idl.{Idl, IsIdl, IsFalling, count, probe, mdb_midl_search}
use kotlin_lmdb.Idl.Search.{Ordered, Located, bisect_whole}

-- Position `x` is the place of `id`: it holds `id`, or the cells before it hold larger IDs and the
-- cells from it on smaller ones.
abbrev pub IsPlace : Idl → (id x : ℕ) → Type 0
IsPlace ids id x =
    (1 ≤ x)
    × (x ≤ count ids + 1)
    × (((x ≤ count ids) × (get_elem? ids.cells x ≡ some id))
        ⊎ (((i v : ℕ) → 1 ≤ i → i < x → get_elem? ids.cells i ≡ some v → id < v)
            × ((i v : ℕ) → x ≤ i → i ≤ count ids → get_elem? ids.cells i ≡ some v → v < id)))

module _ (ids : Idl) (id : ℕ) (w : IsIdl ids) (s : IsFalling ids) where
  cell : (i : ℕ) → i ≤ count ids → (v : ℕ) × (get_elem? ids.cells i ≡ some v)
  cell i h = get_elem?-lt_length ids.cells i (omega (arith, w.fits, w.sized))

  probe_at : (i v : ℕ) → get_elem? ids.cells i ≡ some v → probe ids id i ≡ some (compare v id)
  probe_at i v e = rw (e, probe)

  down :
      (i j x y : ℕ)
      → 1 ≤ i
      → i ≤ j
      → j ≤ count ids
      → get_elem? ids.cells i ≡ some x
      → get_elem? ids.cells j ≡ some y
      → y ≤ x
  down i j x y h k l ex ey = ground (arith, s i j x y)

  -- A falling list is what the binary search needs.
  probe-Ordered : Ordered (probe ids id) (count ids)
  probe-Ordered = record {
    reads = λ i h k e. let (x, ex) = cell i k in cc (probe_at i x ex);
    down = λ i j h k l e.
        let (x, ex) = cell i (omega arith) in
        let (y, ey) = cell j l in ground (arith, probe_at i x ex, probe_at j y ey, down i j x y);
    up = λ i j h k l e.
        let (x, ex) = cell i (omega arith) in
        let (y, ey) = cell j l in ground (arith, probe_at i x ex, probe_at j y ey, down i j x y);
  }

  at_eq : (x : ℕ) → x ≤ count ids → probe ids id x ≡ some eq → get_elem? ids.cells x ≡ some id
  at_eq x h e = let (v, ev) = cell x h in ground (arith, probe_at x v ev)

  at_gt : (x v : ℕ) → probe ids id x ≡ some gt → get_elem? ids.cells x ≡ some v → id < v
  at_gt x v e ev = ground (arith, probe_at x v ev)

  at_lt : (x v : ℕ) → probe ids id x ≡ some lt → get_elem? ids.cells x ≡ some v → v < id
  at_lt x v e ev = ground (arith, probe_at x v ev)

  place : (x : ℕ) → Located (probe ids id) (count ids) x → IsPlace ids id x
  place x (a, b, inl (h, e)) = (a, b, inl (h, at_eq x h e))
  place x (a, b, inr (g, l)) =
      (a, b, inr (λ i v h k. at_gt i v (g i h k), λ i v h k. at_lt i v (l i h k)))

  -- On a well-formed list of fewer than 2^32 - 1 IDs that fall, mdb_midl_search reads inside the
  -- list and returns the place of the ID: the position that holds it, or else the position
  -- that separates the larger IDs from the smaller ones.
  pub mdb_midl_search-IsPlace :
      count ids + 1 < 2 ^ 32 → (x : ℕ) × (mdb_midl_search ids id ≡ some x) × IsPlace ids id x
  unfolding mdb_midl_search
  mdb_midl_search-IsPlace small =
      let (x, e, l) = bisect_whole (probe ids id) (count ids) small probe-Ordered in
      (x, e, place x l)
