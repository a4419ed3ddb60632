-- ===== src/Alloc/Finish.antt =====
-- mdb.c: mdb_page_dirty and the end of mdb_page_alloc, from `search_done` on.
use kotlin_lmdb.Common.{
  ℕ, zero, suc, ◌+◌, ◌-◌, ◌*◌, ◌^◌, Bool, true, false, Option, none, some, List, [], ◌∷◌, get_elem?,
  set, leb, ◌==◌, if◌then◌else◌, ◌>>=◌, ℤ, pos,
}
use kotlin_lmdb.Idl.{Idl, u32, u64, count}
use kotlin_lmdb.Idl.Memory.{store}
use kotlin_lmdb.Id2l.{Id2, mdb_mid2l_insert, mdb_mid2l_append}
use kotlin_lmdb.Btree.{success, txn_full, map_full}
use kotlin_lmdb.Alloc.{Code, rc, enomem, Op, Setting, Space, Result, Choice, Hunt, hunt}

-- `for (j = i-num; j < mop_len; ) mop[++j] = mop[++i];`, by the rounds left.
unfoldable pub move_down : (rounds i j : ℕ) → List ℕ → Option (List ℕ)
move_down zero i j mop = some mop
move_down (suc r) i j mop = do
  v ← get_elem? mop (suc i)
  c ← store mop (suc j) v
  move_down r (suc i) (suc j) c

-- `mop[0] = mop_len -= num;` and the loop.
unfoldable pub take_range : (num i : ℕ) → Idl → Option Idl
unfolding move_down
take_range num i mop =
    let len = count mop - num in
    do
      c ← move_down (len - (i - num)) i (i - num) (set mop.cells 0 len)
      some (record mop { cells = c })

-- mdb_tassert(txn, rc == 0), and `txn->mt_dirty_room--`.
abbrev pub asserted : Space → ℤ × List Id2 → Option Space
asserted s (pos zero, dl) =
    some (record s { dirty_list = dl; mt_dirty_room = u32 (s.mt_dirty_room + 2 ^ 32 - 1) })
asserted s (code, dl) = none

unfoldable pub mdb_page_dirty : (writemap : Bool) → Id2 → Space → Option Space
mdb_page_dirty writemap mp s =
    (if writemap then mdb_mid2l_append s.dirty_list mp else mdb_mid2l_insert s.dirty_list mp)
    >>= asserted s

-- The end, with the page's memory and what was done to the free list or mt_next_pgno.
abbrev pub deliver : (writemap : Bool) → Id2 → Space → Option Result
deliver writemap np s = mdb_page_dirty writemap np s >>= λ s'. some (rc success, some np, s')

-- `fail:`
abbrev pub fail : Code → Space → Option Result
fail code s = some (code, none, record s { txn_error = true })

module _ {C : Type 0} (e : Setting C) where
  abbrev pub memory : (num pgno : ℕ) → Option ℕ
  memory num pgno = if e.writemap then some (e.map_page pgno) else e.page_malloc num

  abbrev pub take_tail : (num i : ℕ) → Id2 → Space → Option Idl → Option Result
  take_tail num i np s none = none
  take_tail num i np s (some mop) =
      take_range num i mop >>= λ mop'. deliver e.writemap np (record s { me_pghead = some mop' })

  -- From `search_done` on.
  abbrev pub search_done : (num : ℕ) → Choice × Space → Option Result
  search_done num (Choice.tail i pgno, s) = elim (memory num pgno) [
    | none ↦ fail enomem s
    | some ptr ↦ take_tail num i (record { mid = pgno; mptr = ptr }) s s.me_pghead
  ]
  search_done num (Choice.fresh, s) =
      let pgno = s.mt_next_pgno in
      if leb e.me_maxpg (u64 (pgno + num)) then fail (rc map_full) s else elim (memory num pgno) [
        | none ↦ fail enomem s
        | some ptr ↦
            deliver e.writemap (record { mid = pgno; mptr = ptr })
              (record s { mt_next_pgno = u64 (pgno + num) })
      ]
  search_done num (Choice.failed code, s) = fail code s

  -- `last` grows in every round and stays below the transaction's number, which bounds the rounds.
  abbrev pub first_hunt : (num : ℕ) → Space → Hunt C
  first_hunt num s = record {
    retry = num * 60;
    last = 0;
    oldest = 0;
    found_old = false;
    m2 = e.free_db.start;
    space = s;
  }

  unfoldable pub alloc_unloose : (num : ℕ) → Space → Option Result
  unfolding hunt
  alloc_unloose num s =
      if s.mt_dirty_room == 0
      then fail (rc txn_full) s
      else (hunt e (suc e.mt_txnid) (num - 1) Op.first (first_hunt num s) >>= search_done num)

  -- `if (num == 1 && txn->mt_loose_pgs)`
  abbrev pub with_loose : (num : ℕ) → Space → List Id2 → Option Result
  with_loose num s [] = alloc_unloose num s
  with_loose num s (np ∷ nps) =
      if num == 1
      then some (
        rc success,
        some np,
        record s { mt_loose_pgs = nps; mt_loose_count = s.mt_loose_count - 1 },
      )
      else alloc_unloose num s

  -- `num` is positive.
  unfoldable pub mdb_page_alloc : (num : ℕ) → Space → Option Result
  mdb_page_alloc num s = with_loose num s s.mt_loose_pgs
