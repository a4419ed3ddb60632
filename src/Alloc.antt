-- ===== src/Alloc.antt =====
-- mdb.c: mdb_find_oldest, mdb_page_dirty and mdb_page_alloc, which reuses the pages that older
-- transactions freed. A page is its number and the address of its memory, as in a dirty list.
pub mod Finish
pub mod Oldest
pub mod Sound
pub mod Kept
pub mod SeekLaws
pub mod HuntRecord
pub mod HuntLaws
pub mod Take
pub mod Deliver
pub mod Allocates
use kotlin_lmdb.Common.{
  ℕ, zero, suc, ◌+◌, ◌-◌, ◌*◌, ◌^◌, Bool, true, false, Option, none, some, List, [], ◌∷◌, get_elem?,
  set, ltb, leb, ◌==◌, if◌then◌else◌, ◌>>=◌, ℤ, pos, negsuc,
}
use kotlin_lmdb.Idl.{Idl, u32, u64, count}
use kotlin_lmdb.Idl.Memory.{Allocator, store, mdb_midl_alloc, mdb_midl_need}
use kotlin_lmdb.Idl.Merge.{mdb_midl_xmerge}
use kotlin_lmdb.Id2l.{Id2, mdb_mid2l_insert, mdb_mid2l_append}
use kotlin_lmdb.Btree.{Rc, success, notfound, txn_full, map_full}

-- A slot of the reader table.
pub record Reader : Type 0 where
  pub mr_pid : ℕ
  pub mr_txnid : ℕ

-- me_txns: mti_numreaders and mti_readers.
pub record Readers : Type 0 where
  pub mti_numreaders : ℕ
  pub mti_readers : ℕ → Reader

-- One slot: `if (r[i].mr_pid) { mr = r[i].mr_txnid; if (oldest > mr) oldest = mr; }`
abbrev pub older_of : Reader → ℕ → ℕ
older_of r oldest =
    if r.mr_pid == 0 then oldest else (if ltb r.mr_txnid oldest then r.mr_txnid else oldest)

-- `for (i = ...; --i >= 0; )`
unfoldable pub find_loop : (ℕ → Reader) → (i oldest : ℕ) → ℕ
find_loop r zero oldest = oldest
find_loop r (suc i) oldest = find_loop r i (older_of (r i) oldest)

unfoldable pub mdb_find_oldest : (txnid : ℕ) → Option Readers → ℕ
unfolding find_loop
mdb_find_oldest txnid none = txnid - 1
mdb_find_oldest txnid (some t) = find_loop t.mti_readers t.mti_numreaders (txnid - 1)

-- A code of lmdb.h, or ENOMEM of the C library.
pub data Code : Type 0 where
  rc : Rc → Code
  enomem : Code

pub data Op : Type 0 where
  first set_range next : Op

-- The cursor on the freeDB: mdb_cursor_init, mdb_cursor_get with the key of MDB_SET_RANGE, which
-- gives the key of the record, and mdb_node_read of the record that the cursor is on.
pub record FreeDb (C : Type 0) : Type 0 where
  pub start : C
  pub get : Op → ℕ → C → Rc × ℕ × C
  pub read : C → Rc × Idl

-- What mdb_page_alloc reads and does not change. `page_malloc` is mdb_page_malloc, `map_page` the
-- address of a page in the map.
pub record Setting (C : Type 0) : Type 0 where
  pub mt_txnid : ℕ
  pub me_txns : Option Readers
  pub me_maxpg : ℕ
  pub writemap : Bool
  pub page_malloc : ℕ → Option ℕ
  pub map_page : ℕ → ℕ
  pub allocator : Allocator
  pub free_db : FreeDb C

-- What it changes: the fields of MDB_txn, those of MDB_env from me_pglast on, and MDB_TXN_ERROR.
pub record Space : Type 0 where
  pub mt_loose_pgs : List Id2
  pub mt_loose_count : ℕ
  pub mt_dirty_room : ℕ
  pub dirty_list : List Id2
  pub mt_next_pgno : ℕ
  pub me_pglast : ℕ
  pub me_pgoldest : ℕ
  pub me_pghead : Option Idl
  pub txn_error : Bool

-- The result: the code, *mp and the changed state.
abbrev pub Result : Type 0
Result = Code × Option Id2 × Space

-- `mop ? mop[0] : 0`
abbrev pub mop_len : Option Idl → ℕ
mop_len none = 0
mop_len (some mop) = count mop

-- The do loop: the position and the page of a range of `n2 + 1` pages.
unfoldable pub seek : (mop : List ℕ) (n2 i : ℕ) → Option (Option (ℕ × ℕ))
seek mop n2 zero = some none
seek mop n2 (suc i) =
    let rest = seek mop n2 i in
    do
      pgno ← get_elem? mop (suc i)
      far ← get_elem? mop (suc i - n2)
      if far == u64 (pgno + n2)
          then some (some (suc i, pgno))
          else (if ltb n2 i then rest else some none)

abbrev pub seek_in : ℕ → Option Idl → Option (Option (ℕ × ℕ))
seek_in n2 none = some none
seek_in n2 (some mop) = if ltb n2 (count mop) then seek mop.cells n2 (count mop) else some none

-- How the search ends: at a range of the list, with `break`, or with `goto fail`.
pub data Choice : Type 0 where
  tail : (i pgno : ℕ) → Choice
  fresh : Choice
  failed : Code → Choice

-- The locals of the loop, and what it changes.
pub record Hunt (C : Type 0) : Type 0 where
  pub retry : ℕ
  pub last : ℕ
  pub oldest : ℕ
  pub found_old : Bool
  pub m2 : C
  pub space : Space

abbrev pub Ends : Type 0
Ends = Option (Choice × Space)

module _ {C : Type 0} (e : Setting C) where
  -- The first iteration: `last`, `oldest` and the cursor, and MDB_SET_RANGE after a last record.
  abbrev pub prepare : Op → Hunt C → Op × Hunt C
  prepare Op.first h = (
    (if h.space.me_pglast == 0 then Op.first else Op.set_range),
    record h { last = h.space.me_pglast; oldest = h.space.me_pgoldest; m2 = e.free_db.start },
  )
  prepare op h = (op, h)

  -- `if (!found_old) { oldest = mdb_find_oldest(txn); env->me_pgoldest = oldest; found_old = 1; }`
  abbrev pub look_again : Hunt C → Hunt C
  look_again h =
      let oldest = mdb_find_oldest e.mt_txnid e.me_txns in
      if h.found_old then h else record h {
        oldest = oldest;
        found_old = true;
        space = record h.space { me_pgoldest = oldest };
      }

  -- `if (oldest <= last) { ... if (oldest <= last) break; }`, and else what comes after.
  abbrev pub unless_recent : Hunt C → (Hunt C → Ends) → Ends
  unless_recent h k =
      if leb h.oldest h.last
      then (let h' = look_again h in
          if leb h'.oldest h'.last then some (Choice.fresh, h'.space) else k h')
      else k h

  -- `env->me_pglast = last; mdb_midl_xmerge(mop, idl);`, and the next iteration.
  abbrev pub merge_record : (again : Hunt C → Ends) → Idl → Hunt C → Idl → Ends
  merge_record again idl h mop = mdb_midl_xmerge mop idl >>= λ merged.
      again (record h { space = record h.space { me_pglast = h.last; me_pghead = some merged } })

  abbrev pub grown : (again : Hunt C → Ends) → Idl → Hunt C → ℕ × Idl → Ends
  grown again idl h (zero, mop) = merge_record again idl h mop
  grown again idl h (suc code, mop) = some (Choice.failed enomem, h.space)

  -- `if (!mop) mdb_midl_alloc(i) else mdb_midl_need(&env->me_pghead, i)`
  abbrev pub make_room : (again : Hunt C → Ends) → Idl → Hunt C → Option Idl → Ends
  make_room again idl h none = elim (mdb_midl_alloc e.allocator (u32 (count idl))) [
    | none ↦ some (Choice.failed enomem, h.space)
    | some mop ↦ merge_record again idl h mop
  ]
  make_room again idl h (some mop) =
      grown again idl h (mdb_midl_need e.allocator mop (u32 (count idl)))

  abbrev pub use_record : (again : Hunt C → Ends) → Hunt C → Rc × Idl → Ends
  use_record again h (success, idl) = make_room again idl h h.space.me_pghead
  use_record again h (code, idl) = some (Choice.failed (rc code), h.space)

  -- After mdb_cursor_get.
  abbrev pub at_record : (again : Hunt C → Ends) → Hunt C → Rc × ℕ × C → Ends
  at_record again h (success, key, m2) =
      unless_recent (record h { last = key; m2 = m2 })
        λ h'. use_record again h' (e.free_db.read h'.m2)
  at_record again h (notfound, key, m2) = some (Choice.fresh, h.space)
  at_record again h (code, key, m2) = some (Choice.failed (rc code), h.space)

  abbrev pub fetch : (again : Hunt C → Ends) → Op → Hunt C → Ends
  fetch again op h =
      let p = prepare op h in
      unless_recent (record p.1 { last = u64 (p.1.last + 1) })
        λ h'. at_record again h' (e.free_db.get p.0 h'.last h'.m2)

  -- After the do loop: `goto search_done`, or `if (--retry < 0) break;` and the fetch.
  abbrev pub after_seek : (again : Hunt C → Ends) → Op → Hunt C → Bool → Option (ℕ × ℕ) → Ends
  after_seek again op h sought (some (i, pgno)) = some (Choice.tail i pgno, h.space)
  after_seek again op h true none =
      if h.retry == 0
      then some (Choice.fresh, h.space)
      else fetch again op (record h { retry = h.retry - 1 })
  after_seek again op h false none = fetch again op h

  -- The for loop, on fuel; `n2` is num - 1.
  unfoldable pub hunt : ℕ → ℕ → Op → Hunt C → Ends
  hunt zero n2 op h = none
  hunt (suc fuel) n2 op h = seek_in n2 h.space.me_pghead >>= λ r.
      after_seek (hunt fuel n2 Op.next) op h (ltb n2 (mop_len h.space.me_pghead)) r
