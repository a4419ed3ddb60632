-- ===== src/Alloc/Sound.antt =====
-- mdb.c: what mdb_page_alloc relies on, and keeps: which pages may be handed out.
use kotlin_lmdb.Common.{ℕ, ◌+◌, ◌^◌, ◌≤◌, ◌<◌, Option, none, some, ◌≡◌}
use kotlin_lmdb.Idl.{Idl, IsIdl, IsFalling}
use kotlin_lmdb.Idl.Memory.{um_max, IsAllocator}
use kotlin_lmdb.Idl.MergeCells.{Has}
use kotlin_lmdb.Id2l.{count, mid_at}
use kotlin_lmdb.Id2l.Locate.{IsId2l, IsRising}
use kotlin_lmdb.Btree.{success}
use kotlin_lmdb.Alloc.{Op, FreeDb, Setting, Space}
use kotlin_lmdb.Alloc.Oldest.{Reads}

-- The record of transaction `t` in the freeDB has the page `v`.
abbrev pub Frees : {C : Type 0} → FreeDb C → (C → ℕ) → ℕ → ℕ → Type 0
Frees {C} fd key_of t v =
    (c : C) × (idl : Idl) × (fd.read c ≡ (success, idl)) × (key_of c ≡ t) × Has idl v

-- What the freeDB and a cursor on it do: the keys that MDB_FIRST, MDB_SET_RANGE and MDB_NEXT give
-- go up, a record is a falling list, and no page is in two records.
pub record IsFreeDb {C : Type 0} (fd : FreeDb C) (key_of : C → ℕ) : Type 0 where
  pub key_at :
      (op : Op) (l : ℕ) (c : C) (k : ℕ) (c' : C) → fd.get op l c ≡ (success, k, c') → key_of c' ≡ k
  pub from_first : (l : ℕ) (c : C) (k : ℕ) (c' : C) → fd.get Op.first l c ≡ (success, k, c') → 1 ≤ k
  pub from_key :
      (l : ℕ) (c : C) (k : ℕ) (c' : C) → fd.get Op.set_range l c ≡ (success, k, c') → l ≤ k
  pub after :
      (l : ℕ) (c : C) (k : ℕ) (c' : C) → fd.get Op.next l c ≡ (success, k, c') → key_of c < k
  pub valid : (c : C) (idl : Idl) → fd.read c ≡ (success, idl) → IsIdl idl × IsFalling idl
  pub apart : (t t' v : ℕ) → Frees fd key_of t v → Frees fd key_of t' v → t ≡ t'

-- A page of me_pghead.
abbrev pub Held : Option Idl → ℕ → Type 0
Held none v = ⊥
Held (some mop) v = Has mop v

abbrev pub IsHead : Option Idl → Type 0
IsHead none = Unit
IsHead (some mop) = IsIdl mop × IsFalling mop × (mop.cap < 2 ^ 32)

module _ {C : Type 0} (e : Setting C) (key_of : C → ℕ) where
  -- A page that is not to be handed out: it is not new, not in me_pghead, and not in a record of the
  -- freeDB that is still to be read.
  pub record Taken (s : Space) (v : ℕ) : Type 0 where
    pub old : v < s.mt_next_pgno
    pub not_held : ¬ Held s.me_pghead v
    pub passed : (t : ℕ) → Frees e.free_db key_of t v → t ≤ s.me_pglast

  -- The free pages: me_pghead is a falling list of pages that transactions up to me_pglast freed,
  -- all of them before me_pgoldest, and this is not after the transaction of any reader. The freeDB
  -- has only pages in use, fewer than 2^30.
  pub record IsSound (s : Space) : Type 0 where
    pub head : IsHead s.me_pghead
    pub freed :
        (v : ℕ)
        → Held s.me_pghead v
        → (t : ℕ) × Frees e.free_db key_of t v × (t ≤ s.me_pglast) × (t < s.me_pgoldest)
    pub readers : (t : ℕ) → Reads e.me_txns t → s.me_pgoldest ≤ t
    pub current : s.me_pgoldest < e.mt_txnid
    pub merged : s.me_pglast < e.mt_txnid
    pub known : (t v : ℕ) → Frees e.free_db key_of t v → v < s.mt_next_pgno
    pub bounded : s.mt_next_pgno ≤ 2 ^ 30

  -- The dirty list: it rises, has the room that mt_dirty_room says, and its pages are taken.
  pub record IsDirtySound (s : Space) : Type 0 where
    pub valid : IsId2l s.dirty_list
    pub rising : IsRising s.dirty_list
    pub room : count s.dirty_list + s.mt_dirty_room ≤ um_max
    pub taken :
        (i v : ℕ) → 1 ≤ i → i ≤ count s.dirty_list → mid_at s.dirty_list i ≡ some v → Taken s v

  -- The transaction and the library it stands on.
  pub record IsSetting : Type 0 where
    pub allocator : IsAllocator e.allocator
    pub free_db : IsFreeDb e.free_db key_of
    pub number : e.mt_txnid < 2 ^ 63
    pub map_size : e.me_maxpg ≤ 2 ^ 30

  -- A transaction whose number is below that of the transaction and of every reader.
  abbrev pub IsOver : ℕ → Type 0
  IsOver t = (t < e.mt_txnid) × ((r : ℕ) → Reads e.me_txns r → t < r)
