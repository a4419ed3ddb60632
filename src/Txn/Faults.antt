-- ===== src/Txn/Faults.antt =====
-- Where the transaction class breaks: operations that misuse the native handle, and reset, renew and
-- the options of a child, which have no effect.
use kotlin_lmdb.Common.{ℕ, Bool, true, ℤ, List, ◌≡◌, ◌≢◌, arith, refl, ◌↔◌}
use kotlin_lmdb.Checks.{ok, thrown, check, check_read, invalid_for_reset, invalid_for_renew}
use kotlin_lmdb.Txn.{
  TxnState, ready, done, reset, released, Call, txn_reset, data_call, Txn, Op, get_id, abort,
  reset_op, close, renew, commit, data_op, read_op, live, misused, handle_after, handle, Allowed,
}
use kotlin_lmdb.Txn.Jvm.{new_txn, step, run, Disciplined}
use kotlin_lmdb.Txn.Lifecycle.{
  Matches, at, handle_after-append, step-Matches, Matches-misused, Matches-reset, reached,
}

misuse_at :
    (c : Bool) (cs : List Call) (s : TxnState) (o : Op)
    → Matches s (handle_after live cs)
    → ¬ Allowed s o
    → handle (step (at s c cs) o).1 ≡ misused
unfolding step check check_read
misuse_at c cs ready (data_op rc) m a = absurd (a refl)
misuse_at c cs ready (read_op rc) m a = absurd (a refl)
misuse_at c cs ready reset_op m a = absurd (a (λ e. cc))
misuse_at c cs done (data_op rc) m a = ground (arith, handle_after-append live cs data_call)
misuse_at c cs done (read_op rc) m a = ground (arith, handle_after-append live cs data_call)
misuse_at c cs done reset_op m a = absurd (a (λ e. cc))
misuse_at c cs released (data_op rc) m a = ground (arith, handle_after-append live cs data_call)
misuse_at c cs released (read_op rc) m a = ground (arith, handle_after-append live cs data_call)
misuse_at c cs released reset_op m a = ground (arith, handle_after-append live cs txn_reset)
misuse_at c cs reset o m a = elim m [ ]
misuse_at c cs s get_id m a = absurd (a tt)
misuse_at c cs s abort m a = absurd (a tt)
misuse_at c cs s close m a = absurd (a tt)
misuse_at c cs s (commit rc) m a = absurd (a tt)
misuse_at c cs s (renew rc) m a = absurd (a tt)

-- On a transaction whose handle is live exactly while it is Ready, an operation misuses the native
-- handle exactly if it is a data operation in another state than Ready, or a reset after close:
-- no data operation checks the state first.
pub step-misused :
    (t : Txn) (o : Op)
    → Matches t.state (handle t)
    → (handle (step t o).1 ≡ misused) ↔ (¬ Allowed t.state o)
step-misused t o m = (
  λ e a. Matches-misused (step t o).1.state (handle (step t o).1) (step-Matches t o m a) e,
  λ a. misuse_at t.is_closed t.calls t.state o m a,
)

renew_at :
    (c : Bool) (cs : List Call) (s : TxnState) (rc : ℤ)
    → s ≢ reset
    → step (at s c cs) (renew rc) ≡ (thrown invalid_for_renew, at s c cs)
unfolding step
renew_at c cs reset rc n = absurd (n refl)
renew_at c cs _ rc n = refl

reset_at :
    (c : Bool) (cs : List Call) (s : TxnState)
    → s ≢ reset
    → s ≢ released
    → step (at s c cs) reset_op ≡ (thrown invalid_for_reset, at s c cs)
unfolding step
reset_at c cs reset n m = absurd (n refl)
reset_at c cs released n m = absurd (m refl)
reset_at c cs _ n m = refl

module _ (flags : ℕ) (rc : ℤ) (t : Txn) (begun : new_txn true flags rc ≡ ok t) (os : List Op)
    (d : Disciplined t os) where
  stays : (run t os).state ≢ reset
  stays = Matches-reset (run t os).state (handle (run t os)) (reached flags rc t begun os d)

  -- After any allowed operations on a new transaction, renew throws whatever mdb_txn_renew would
  -- answer, without a call of the native library or a change of the object.
  pub renew_never : (code : ℤ) → step (run t os) (renew code) ≡ (thrown invalid_for_renew, run t os)
  renew_never code = let r = run t os in renew_at r.is_closed r.calls r.state code stays

  -- After any allowed operations on a new transaction that leave it unclosed, reset throws, without
  -- a call of the native library or a change of the object: no such transaction becomes Reset.
  pub reset_never :
      (run t os).state ≢ released → step (run t os) reset_op ≡ (thrown invalid_for_reset, run t os)
  reset_never m = let r = run t os in reset_at r.is_closed r.calls r.state stays m
