-- ===== src/Id2l.antt =====
-- midl.c: MDB_ID2L, an array of (ID, pointer) pairs, smallest ID first. The ID of cell 0 is the
-- count. The array is allocated with MDB_IDL_UM_SIZE cells.
pub mod Locate
pub mod Shift
pub mod Insert
use kotlin_lmdb.Common.{
  ℕ, zero, suc, ◌+◌, ◌-◌, ◌≤◌, ◌<◌, ◌≡◌, Option, none, some, ◌>>=◌, List, [], ◌∷◌, get_elem?, set,
  length, ltb, leb, ◌==◌, if◌then◌else◌, ◌&&◌, Ordering, ℤ, pos, negsuc,
}
use kotlin_lmdb.Idl.{u32, u64, cmp, bisect}
use kotlin_lmdb.Idl.Memory.{um_max, store}

-- The pointer is the number of what it points to.
pub record Id2 : Type 0 where
  pub mid : ℕ
  pub mptr : ℕ

-- ids[0].mid; an array of no cells has none.
abbrev pub count : List Id2 → ℕ
count [] = 0
count (c ∷ cells) = c.mid

abbrev pub mid_at : List Id2 → ℕ → Option ℕ
mid_at ids i = do c ← get_elem? ids i; some c.mid

-- `CMP(id, ids[cursor].mid)`
abbrev pub probe : List Id2 → ℕ → ℕ → Option Ordering
probe ids id c = do v ← mid_at ids c; some (cmp id v)

unfoldable pub mdb_mid2l_search : List Id2 → ℕ → Option ℕ
mdb_mid2l_search ids id = bisect (probe ids id) 33 0 1 (u32 (count ids)) Ordering.eq

-- `ids[0].mid++`
abbrev pub bump : List Id2 → List Id2
bump [] = []
bump (c ∷ cells) = record c { mid = u64 (c.mid + 1) } ∷ cells

-- `for (i=…; i>x; i--) ids[i] = ids[i-1];`, by the rounds left: `i` is `x` plus them.
unfoldable pub shift_up : List Id2 → ℕ → ℕ → Option (List Id2)
shift_up ids x zero = some ids
shift_up ids x (suc r) = do
  c ← get_elem? ids (x + r)
  ids' ← store ids (x + suc r) c
  shift_up ids' x r

-- The part of mdb_mid2l_insert after the checks.
unfoldable pub insert_at : List Id2 → ℕ → Id2 → Option (ℤ × List Id2)
insert_at ids x id = do
  ids' ← shift_up (bump ids) x (u32 (count (bump ids)) - x)
  ids'' ← store ids' x id
  some (pos 0, ids'')

-- The checks of mdb_mid2l_insert, where `here` is the ID at `x`; -2 is negsuc 1, -1 is negsuc 0.
abbrev pub insert_checked : List Id2 → Id2 → (x here : ℕ) → Option (ℤ × List Id2)
insert_checked ids id x here =
    if ltb x 1
    then some (negsuc 1, ids)
    else (if leb x (count ids) && here == id.mid
        then some (negsuc 0, ids)
        else (if leb um_max (count ids) then some (negsuc 1, ids) else insert_at ids x id))

-- `x <= ids[0].mid && ids[x].mid == …` reads the cell only where `x` is in use.
unfoldable pub mdb_mid2l_insert : List Id2 → Id2 → Option (ℤ × List Id2)
mdb_mid2l_insert ids id = do
  x ← mdb_mid2l_search ids id.mid
  here ← (if leb x (count ids) then mid_at ids x else some 0)
  insert_checked ids id x here

unfoldable pub mdb_mid2l_append : List Id2 → Id2 → Option (ℤ × List Id2)
mdb_mid2l_append ids id =
    if leb um_max (count ids)
    then some (negsuc 1, ids)
    else (do ids' ← store (bump ids) (count (bump ids)) id; some (pos 0, ids'))
