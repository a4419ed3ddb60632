-- ===== src/Examples/PageGets.antt =====
-- mdb_page_get in a transaction that has spilled a page and has dirty pages.
use kotlin_lmdb.Idl
use kotlin_lmdb.Common.{◌+◌, ◌<◌, ◌^◌, false, some, none, [], ◌∷◌, ◌≡◌, subst, arith}
use mathlib.Core.Option.{some-injective}
use kotlin_lmdb.Idl.{Idl, IsIdl, IsFalling}
use kotlin_lmdb.Btree.Pages.{Level, PageTxn, Lookup, mdb_page_get}
use kotlin_lmdb.Btree.Overlay.{IsLevel, Sees, mdb_page_get-Sees}
use kotlin_lmdb.Examples.IdLists.{two, two-IsIdl, two-IsFalling}
use kotlin_lmdb.Examples.IdPairs.{pairs, pairs-IsId2l, pairs-IsRising}

abbrev level : Level
level = record { spilled = some two; dirty = pairs }

abbrev IsSorted : Idl → Type 0
IsSorted ids = IsIdl ids × (Idl.count ids + 1 < 2 ^ 32) × IsFalling ids

sorted : (ids : Idl) → some two ≡ some ids → IsSorted ids
sorted ids e = subst IsSorted (some-injective two ids e) (two-IsIdl, omega arith, two-IsFalling)

level-IsLevel : IsLevel level
level-IsLevel = record {
  spill_Idl = λ ids e. (sorted ids e).0;
  spill_small = λ ids e. (sorted ids e).1;
  spill_Falling = λ ids e. (sorted ids e).2;
  dirty_Id2l = pairs-IsId2l;
  dirty_Rising = pairs-IsRising;
}

abbrev txn : PageTxn (Unit {0})
txn = record {
  direct = false;
  levels = level ∷ [];
  next_pgno = 20;
  map_page = λ n. none;
  ptr_page = λ n. none;
}

-- Page 9 is dirty, behind the pointer 200.
mdb_page_get-Sees_example :
    (r : Lookup) × (mdb_page_get txn 9 ≡ some r) × Sees 20 9 (level ∷ []) 1 r
mdb_page_get-Sees_example = mdb_page_get-Sees txn 9 (level-IsLevel, tt)
