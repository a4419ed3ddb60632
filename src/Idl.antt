-- ===== src/Idl.antt =====
-- midl.c: ID lists. An `MDB_IDL` points into an array of MDB_ID: the cell before it holds the
-- capacity, cell 0 the count, and the cells from 1 on the IDs, largest first.
-- The capacity is the field `cap`; `cells` is the memory from cell 0 to the end of the allocation.
-- A read or a write outside the allocation is a fault, `none`.
pub mod Search
pub mod Locate
pub mod Memory
pub mod Append
pub mod Grown
pub mod AppendLaws
pub mod Copies
pub mod CopyLaws
pub mod Merge
pub mod MergeCells
pub mod MergeSteps
pub mod MergeLaws
pub mod Room
use kotlin_lmdb.Common.{
  ℕ, length, zero, suc, ◌≡◌, ◌<◌, ◌+◌, ◌-◌, ◌*◌, ◌/◌, ◌%◌, ◌^◌, ◌≤◌, Option, none, some, compare,
  Ordering, List, [], ◌∷◌, get_elem?, get_or, set, length, ltb, leb, ◌==◌, if◌then◌else◌, ℤ, pos,
  negsuc,
}

-- `unsigned` is 32 bits wide; MDB_ID is a size_t of 64.
abbrev pub u32 : ℕ → ℕ
u32 n = n % 2 ^ 32

abbrev pub u64 : ℕ → ℕ
u64 n = n % 2 ^ 64

-- CMP(x, y): `lt` for -1, `eq` for 0, `gt` for 1.
abbrev pub cmp : ℕ → ℕ → Ordering
cmp x y = compare x y

-- `if (val > 0) ++cursor; return cursor;`
unfoldable pub finish : Ordering → ℕ → ℕ
finish Ordering.gt cursor = u32 (cursor + 1)
finish _ cursor = cursor

-- One round of the loop of both searches: `probe i` is the value of CMP at cell i, and `next` goes
-- on with the new base, cursor, n and val.
unfoldable pub round :
    (probe : ℕ → Option Ordering) (next : ℕ → ℕ → ℕ → Ordering → Option ℕ)
    → (base cursor n : ℕ) (val : Ordering) → Option ℕ
unfolding finish
round probe next base cursor n val =
    let pivot = n / 2 in
    let c = u32 (base + pivot + 1) in
    if n == 0 then some (finish val cursor) else (elim (probe c) [
      | none ↦ none
      | some Ordering.lt ↦ next base c pivot Ordering.lt
      | some Ordering.gt ↦ next c c (u32 (n + 2 ^ 32 - (pivot + 1))) Ordering.gt
      | some Ordering.eq ↦ some c
    ])

-- The loop; `none` also where the fuel, which bounds the rounds, runs out.
unfoldable pub bisect :
    (probe : ℕ → Option Ordering) (fuel base cursor n : ℕ) (val : Ordering) → Option ℕ
unfolding round
bisect probe zero = λ base cursor n val. none
bisect probe (suc f) = round probe (bisect probe f)

pub record Idl : Type 0 where
  pub cap : ℕ
  pub cells : List ℕ

-- ids[0]
abbrev pub count : Idl → ℕ
count ids = get_or ids.cells 0 0

-- The count is within the capacity, and the allocation is as long as the capacity says.
pub record IsIdl (ids : Idl) : Type 0 where
  pub fits : count ids ≤ ids.cap
  pub sized : length ids.cells ≡ ids.cap + 1

-- The IDs fall strictly from cell 1 to the last.
abbrev pub IsFalling : Idl → Type 0
IsFalling ids =
    (i j x y : ℕ)
    → 1 ≤ i
    → i < j
    → j ≤ count ids
    → get_elem? ids.cells i ≡ some x
    → get_elem? ids.cells j ≡ some y
    → y < x

-- `CMP(ids[cursor], id)`
abbrev pub probe : Idl → ℕ → ℕ → Option Ordering
probe ids id c = elim (get_elem? ids.cells c) [ none ↦ none | some v ↦ some (cmp v id) ]

-- The rounds halve `n`, which fits 32 bits: 33 rounds are enough.
unfoldable pub mdb_midl_search : Idl → ℕ → Option ℕ
unfolding bisect
mdb_midl_search ids id = bisect (probe ids id) 33 0 1 (u32 (count ids)) Ordering.eq
