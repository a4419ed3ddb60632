-- ===== src/Txn/Lifecycle.antt =====
-- The life of a transaction object on the JVM: when its calls misuse the native handle.
use kotlin_lmdb.Common.{
  ℕ, Bool, true, false, [], ℤ, List, ◌∷◌, ◌++◌, ◌≡◌, ◌≢◌, arith, refl, sym, subst, ◌↔◌,
}
use kotlin_lmdb.Checks.{ok, check, check_read}
use kotlin_lmdb.Txn.{
  TxnState, ready, done, reset, released, Call, txn_begin, txn_id, txn_abort, txn_commit, data_call,
  Txn, Op, get_id, abort, reset_op, close, renew, commit, data_op, read_op, Handle, live, freed,
  misused, use_handle, handle_after, handle, Allowed,
}
use kotlin_lmdb.Txn.Jvm.{new_txn, step, run, Disciplined}

pub handle_after-append :
    (h : Handle) (cs : List Call) (c : Call)
    → handle_after h (cs ++ (c ∷ [])) ≡ use_handle (handle_after h cs) c
handle_after-append h [] c = refl
handle_after-append h (d ∷ cs) c = handle_after-append (use_handle h d) cs c

-- The handle is live exactly in the state ready, and no state is reset.
abbrev pub Matches : TxnState → Handle → Type 0
Matches ready h = h ≡ live
Matches done h = h ≡ freed
Matches reset h = ⊥
Matches released h = h ≡ freed

abbrev pub at : TxnState → Bool → List Call → Txn
at s c cs = record { state = s; is_closed = c; calls = cs }

module _ (c : Bool) (cs : List Call) where
  Matches-at :
      (s : TxnState) (o : Op)
      → Matches s (handle_after live cs)
      → Allowed s o
      → Matches (step (at s c cs) o).1.state (handle (step (at s c cs) o).1)
  unfolding step check check_read
  Matches-at reset o m a = elim m [ ]
  Matches-at ready get_id m a = ground (arith, handle_after-append live cs txn_id)
  Matches-at ready abort m a = ground (arith, handle_after-append live cs txn_abort)
  Matches-at ready close m a = ground (arith, handle_after-append live cs txn_abort)
  Matches-at ready (commit rc) m a = ground (arith, handle_after-append live cs txn_commit)
  Matches-at ready (data_op rc) m a = ground (arith, handle_after-append live cs data_call)
  Matches-at ready (read_op rc) m a = ground (arith, handle_after-append live cs data_call)
  Matches-at ready reset_op m a = m
  Matches-at ready (renew rc) m a = m
  Matches-at done (data_op rc) m a = cc
  Matches-at done (read_op rc) m a = cc
  Matches-at done _ m a = m
  Matches-at released (data_op rc) m a = cc
  Matches-at released (read_op rc) m a = cc
  Matches-at released reset_op m a = absurd (a refl)
  Matches-at released _ m a = m

-- An allowed operation keeps the handle live exactly in the state ready.
pub step-Matches :
    (t : Txn) (o : Op)
    → Matches t.state (handle t)
    → Allowed t.state o
    → Matches (step t o).1.state (handle (step t o).1)
step-Matches t o m a = Matches-at t.is_closed t.calls t.state o m a

run-Matches :
    (t : Txn) (os : List Op)
    → Matches t.state (handle t)
    → Disciplined t os
    → Matches (run t os).state (handle (run t os))
unfolding run
run-Matches t [] m d = m
run-Matches t (o ∷ os) m d = run-Matches (step t o).1 os (step-Matches t o m d.0) d.1

pub new_txn_lem :
    (flags : ℕ) (rc : ℤ) (t : Txn)
    → new_txn true flags rc ≡ ok t
    → t ≡ at ready false (txn_begin flags ∷ [])
unfolding new_txn check
new_txn_lem flags rc t e = ground arith

pub new_txn-Matches :
    (flags : ℕ) (rc : ℤ) (t : Txn) → new_txn true flags rc ≡ ok t → Matches t.state (handle t)
new_txn-Matches flags rc t e =
    subst (λ t. Matches t.state (handle t)) (sym (new_txn_lem flags rc t e)) refl

pub Matches-misused : (s : TxnState) (h : Handle) → Matches s h → h ≢ misused
Matches-misused ready h m e = cc
Matches-misused done h m e = cc
Matches-misused released h m e = cc
Matches-misused reset h m e = elim m [ ]

Matches-live : (s : TxnState) (h : Handle) → Matches s h → (s ≡ ready) ↔ (h ≡ live)
Matches-live ready h m = (λ e. m, λ e. refl)
Matches-live done h m = (λ e. cc, λ e. cc)
Matches-live released h m = (λ e. cc, λ e. cc)
Matches-live reset h m = elim m [ ]

pub Matches-reset : (s : TxnState) (h : Handle) → Matches s h → s ≢ reset
Matches-reset ready h m e = cc
Matches-reset done h m e = cc
Matches-reset released h m e = cc
Matches-reset reset h m e = m

module _ (flags : ℕ) (rc : ℤ) (t : Txn) (begun : new_txn true flags rc ≡ ok t) (os : List Op)
    (d : Disciplined t os) where
  pub reached : Matches (run t os).state (handle (run t os))
  reached = run-Matches t os (new_txn-Matches flags rc t begun) d

  -- From mdb_txn_begin on, operations that are allowed in the state that they meet never use the
  -- native handle after it is freed, however they end; and the handle is live exactly while the
  -- object says Ready.
  pub run-handle :
      (handle (run t os) ≢ misused) × (((run t os).state ≡ ready) ↔ (handle (run t os) ≡ live))
  run-handle = (
    Matches-misused (run t os).state (handle (run t os)) reached,
    Matches-live (run t os).state (handle (run t os)) reached,
  )
