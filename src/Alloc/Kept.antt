-- ===== src/Alloc/Kept.antt =====
-- mdb.c: what the loop of mdb_page_alloc keeps, and how it ends.
use kotlin_lmdb.Common.{ℕ, ◌+◌, ◌-◌, ◌≤◌, ◌<◌, Option, none, some, get_elem?, ◌≡◌, ◌≢◌, refl, ◌∙◌}
use kotlin_lmdb.Idl.{Idl, count}
use kotlin_lmdb.Btree.{success}
use kotlin_lmdb.Alloc.{rc, Setting, Space, Choice, tail, fresh, failed, Hunt, Ends}
use kotlin_lmdb.Alloc.Sound.{Taken, IsSound}

-- The fields that the loop leaves alone.
pub record Same (s s' : Space) : Type 0 where
  pub loose : s'.mt_loose_pgs ≡ s.mt_loose_pgs
  pub loose_count : s'.mt_loose_count ≡ s.mt_loose_count
  pub dirty_room : s'.mt_dirty_room ≡ s.mt_dirty_room
  pub dirty_list : s'.dirty_list ≡ s.dirty_list
  pub next : s'.mt_next_pgno ≡ s.mt_next_pgno
  pub error : s'.txn_error ≡ s.txn_error

-- What the end of the loop says.
abbrev pub IsChoice : ℕ → Choice → Option Idl → Type 0
IsChoice n2 (tail i pgno) none = ⊥
IsChoice n2 (tail i pgno) (some mop) =
    (n2 < i)
    × (i ≤ count mop)
    × (get_elem? mop.cells i ≡ some pgno)
    × (get_elem? mop.cells (i - n2) ≡ some (pgno + n2))
IsChoice n2 fresh head = Unit
IsChoice n2 (failed code) head = code ≢ rc success

module _ {C : Type 0} (e : Setting C) (key_of : C → ℕ) where
  -- What is sound stays so, and what is taken stays taken.
  pub record Kept (s s' : Space) : Type 0 where
    pub sound : IsSound e key_of s'
    pub taken : (v : ℕ) → Taken e key_of s v → Taken e key_of s' v
    pub same : Same s s'

  pub Kept-trans : (s t u : Space) → Kept s t → Kept t u → Kept s u
  Kept-trans s t u p q = record {
    sound = q.sound;
    taken = λ v h. q.taken v (p.taken v h);
    same = record {
      loose = q.same.loose ∙ p.same.loose;
      loose_count = q.same.loose_count ∙ p.same.loose_count;
      dirty_room = q.same.dirty_room ∙ p.same.dirty_room;
      dirty_list = q.same.dirty_list ∙ p.same.dirty_list;
      next = q.same.next ∙ p.same.next;
      error = q.same.error ∙ p.same.error;
    };
  }

  abbrev pub Good : ℕ → Space → Ends → Type 0
  Good n2 s r =
      (ch : Choice) × (s' : Space) × (r ≡ some (ch, s')) × Kept s s' × IsChoice n2 ch s'.me_pghead

  pub Good-after : (n2 : ℕ) (s t : Space) (r : Ends) → Kept s t → Good n2 t r → Good n2 s r
  Good-after n2 s t r k (ch, s', e, k', c) = (ch, s', e, Kept-trans s t s' k k', c)

  pub stays : (h : Hunt C) → IsSound e key_of h.space → Kept h.space h.space
  stays h q = record {
    sound = q;
    taken = λ v k. k;
    same = record {
      loose = refl;
      loose_count = refl;
      dirty_room = refl;
      dirty_list = refl;
      next = refl;
      error = refl;
    };
  }

  -- The state after a record.
  pub record IsOnRecord (h : Hunt C) : Type 0 where
    pub sound : IsSound e key_of h.space
    pub agrees : h.oldest ≡ h.space.me_pgoldest
    pub last_is : h.last ≡ h.space.me_pglast
    pub on : key_of h.m2 ≡ h.last
    pub recent : h.last < h.oldest
