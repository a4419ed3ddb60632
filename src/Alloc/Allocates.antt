-- ===== src/Alloc/Allocates.antt =====
-- mdb.c: mdb_page_alloc hands out pages that nobody uses, and no page twice.
use kotlin_lmdb.Common.{ℕ, ◌+◌, ◌-◌, ◌≤◌, ◌<◌, true, Option, none, some, ◌∷◌, ◌≡◌, ◌≢◌, ◌⊎◌}
use kotlin_lmdb.Idl.{Idl}
use kotlin_lmdb.Id2l.{Id2}
use kotlin_lmdb.Id2l
use kotlin_lmdb.Id2l.Shift.{Inserted}
use kotlin_lmdb.Btree.{success}
use kotlin_lmdb.Alloc.{Code, rc, Setting, Space, Result}
use kotlin_lmdb.Alloc.Sound.{Frees, Taken, IsSound, IsDirtySound, IsOver}
use kotlin_lmdb.Alloc.Kept.{Kept}

module _ {C : Type 0} (e : Setting C) (key_of : C → ℕ) where
  -- A page that may be handed out: it is beyond those in use, or a transaction freed it that is
  -- over for every reader.
  abbrev pub IsFree : Space → ℕ → Type 0
  IsFree s v = (s.mt_next_pgno ≤ v) ⊎ ((t : ℕ) × Frees e.free_db key_of t v × IsOver e key_of t)

  -- A failure, with MDB_TXN_ERROR set.
  pub record IsRefused (s : Space) (code : Code) (mp : Option Id2) (s' : Space) : Type 0 where
    pub code_ne : code ≢ rc success
    pub no_page : mp ≡ none
    pub error : s'.txn_error ≡ true
    pub sound : IsSound e key_of s'
    pub dirty : IsDirtySound e key_of s'
    pub taken : (v : ℕ) → Taken e key_of s v → Taken e key_of s' v

  -- `num` new pages from that of `np` on.
  pub record IsAllocated (num : ℕ) (s : Space) (np : Id2) (s' : Space) : Type 0 where
    pub free : (v : ℕ) → np.mid ≤ v → v < np.mid + num → IsFree s v
    pub untaken : (v : ℕ) → np.mid ≤ v → v < np.mid + num → ¬ Taken e key_of s v
    pub now_taken : (v : ℕ) → np.mid ≤ v → v < np.mid + num → Taken e key_of s' v
    pub dirtied :
        (x : ℕ) × (1 ≤ x)
        × (x ≤ Id2l.count s.dirty_list + 1)
        × Inserted s.dirty_list np x s'.dirty_list
    pub taken : (v : ℕ) → Taken e key_of s v → Taken e key_of s' v
    pub sound : IsSound e key_of s'
    pub dirty : IsDirtySound e key_of s'

  abbrev pub Allocates : ℕ → Space → Option Result → Type 0
  Allocates num s r =
      ((code : Code) × (mp : Option Id2) × (s' : Space) × (r ≡ some (code, mp, s'))
        × IsRefused s code mp s')
      ⊎ ((np : Id2) × (s' : Space) × (r ≡ some (rc success, some np, s')) × IsAllocated num s np s')

  -- A loose page is reused, if one is wanted and there is one.
  pub record IsLoose (num : ℕ) (s : Space) (np : Id2) (s' : Space) : Type 0 where
    pub one : num ≡ 1
    pub first : s.mt_loose_pgs ≡ np ∷ s'.mt_loose_pgs
    pub rest :
        s' ≡ record s { mt_loose_pgs = s'.mt_loose_pgs; mt_loose_count = s.mt_loose_count - 1 }

  abbrev pub Outcome : ℕ → Space → Option Result → Type 0
  Outcome num s r =
      ((np : Id2) × (s' : Space) × (r ≡ some (rc success, some np, s')) × IsLoose num s np s')
      ⊎ Allocates num s r
