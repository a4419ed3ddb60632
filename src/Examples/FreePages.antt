-- ===== src/Examples/FreePages.antt =====
-- Free pages: merging two lists, and an allocation while a reader keeps a record from reuse.
use kotlin_lmdb.Common.{
  ℕ, zero, suc, ◌-◌, ◌≤◌, ◌<◌, false, none, some, [], ◌∷◌, leb, ◌==◌, if◌then◌else◌, ◌≡◌, ◌⊎◌, inl,
  inr, refl, sym, arith,
}
use mathlib.Core.Option
use mathlib.Core.Option.{some-injective}
use kotlin_lmdb.Idl.{Idl, IsFalling}
use kotlin_lmdb.Idl.Memory.{mdb_midl_alloc}
use kotlin_lmdb.Idl.Merge.{mdb_midl_xmerge}
use kotlin_lmdb.Idl.MergeCells.{Has, Merged}
use kotlin_lmdb.Idl.MergeLaws.{mdb_midl_xmerge-Merged}
use kotlin_lmdb.Btree.{Rc, success, notfound}
use kotlin_lmdb.Alloc.{
  Op, first, set_range, next, FreeDb, Setting, Space, Readers, Choice, tail, hunt, mdb_find_oldest,
  seek,
}
use kotlin_lmdb.Alloc.Finish.{first_hunt, take_range}
use kotlin_lmdb.Alloc.Oldest.{Reads, mdb_find_oldest_lem}
use kotlin_lmdb.Examples.IdLists.{two, two-IsIdl, two-IsFalling, zeros, fill}
use kotlin_lmdb.Examples.IdPairs.{pairs}

abbrev one : Idl
one = record { cap = 1; cells = 1 ∷ 7 ∷ [] }

two-Has : (v : ℕ) → Has two v → (v ≡ 9) ⊎ (v ≡ 4)
two-Has v (zero, h, l, e) = absurd (omega arith)
two-Has v (suc zero, h, l, e) = inl (sym (some-injective 9 v e))
two-Has v (suc (suc zero), h, l, e) = inr (sym (some-injective 4 v e))
two-Has v (suc (suc (suc p)), h, l, e) = absurd (omega arith)

one-Has : (v : ℕ) → Has one v → v ≡ 7
one-Has v (zero, h, l, e) = absurd (omega arith)
one-Has v (suc zero, h, l, e) = sym (some-injective 7 v e)
one-Has v (suc (suc p), h, l, e) = absurd (omega arith)

one-IsFalling : IsFalling one
one-IsFalling i j x y h k l ex ey = absurd (omega arith)

apart : (v : ℕ) → Has two v → Has one v → ⊥
apart v p q = omega (arith, two-Has v p, one-Has v q)

mdb_midl_xmerge-Merged_example :
    (new : Idl) × (mdb_midl_xmerge two one ≡ some new) × Merged two one new
mdb_midl_xmerge-Merged_example =
    mdb_midl_xmerge-Merged two one two-IsIdl (omega arith) two-IsFalling one-IsFalling apart
      (omega arith) (λ v q. omega (arith, one-Has v q)) (omega arith)

taken_out : take_range 1 2 two ≡ some (record { cap = 4; cells = 1 ∷ 9 ∷ 4 ∷ 0 ∷ 0 ∷ [] })
unfolding take_range
taken_out = refl

-- Transaction 3 freed the pages 7 and 6, transaction 5 the page 8. A cursor is the key that it is on.
abbrev from_3 : Idl
from_3 = record { cap = 2; cells = 2 ∷ 7 ∷ 6 ∷ [] }

abbrev from_5 : Idl
from_5 = record { cap = 1; cells = 1 ∷ 8 ∷ [] }

abbrev near : ℕ → Rc × ℕ × ℕ
near l =
    if leb l 3 then (success, 3, 3) else (if leb l 5 then (success, 5, 5) else (notfound, 0, 0))

abbrev get_record : Op → ℕ → ℕ → Rc × ℕ × ℕ
get_record first l c = near 1
get_record set_range l c = near l
get_record next l c = near (suc c)

abbrev read_record : ℕ → Rc × Idl
read_record c =
    if c == 3 then (success, from_3) else (if c == 5 then (success, from_5) else (notfound, from_5))

abbrev records : FreeDb ℕ
records = record { start = 0; get = get_record; read = read_record }

-- A reader looks at the state after transaction 5, in the slot of process 42.
abbrev table : Readers
table = record { mti_numreaders = 1; mti_readers = λ i. record { mr_pid = 42; mr_txnid = 5 } }

abbrev setting : Setting ℕ
setting = record {
  mt_txnid = 8;
  me_txns = some table;
  me_maxpg = 100;
  writemap = false;
  page_malloc = λ n. some 77;
  map_page = λ n. n;
  allocator = zeros;
  free_db = records;
}

-- The pages 4 and 9 are dirty.
abbrev before : Space
before = record {
  mt_loose_pgs = [];
  mt_loose_count = 0;
  mt_dirty_room = 10;
  dirty_list = pairs;
  mt_next_pgno = 12;
  me_pglast = 0;
  me_pgoldest = 2;
  me_pghead = none;
  txn_error = false;
}

oldest : mdb_find_oldest 8 (some table) ≡ 5
unfolding mdb_find_oldest
oldest = refl

-- The reader keeps transaction 5's record from being read: page 6 is the last of the list.
hunts :
    Option.map {B = Choice} (λ r. r.0) (hunt setting 9 0 first (first_hunt setting 1 before))
    ≡ some (tail 2 6)
unfolding hunt mdb_find_oldest mdb_midl_alloc fill mdb_midl_xmerge seek
hunts = refl

abbrev key_of : ℕ → ℕ
key_of c = c

mdb_find_oldest_lem_example :
    (mdb_find_oldest 8 (some table) < 8)
    × ((t : ℕ) → Reads (some table) t → mdb_find_oldest 8 (some table) ≤ t)
    × ((mdb_find_oldest 8 (some table) ≡ 8 - 1)
        ⊎ Reads (some table) (mdb_find_oldest 8 (some table)))
mdb_find_oldest_lem_example = mdb_find_oldest_lem 8 (some table) (omega arith)
