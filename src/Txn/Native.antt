-- ===== src/Txn/Native.antt =====
-- nativeMain/kotlin/Txn.kt. `abort` sets the state before its call, and `close` keeps a flag.
use kotlin_lmdb.Common.{true, false, [], ℤ, List, ◌∷◌}
use kotlin_lmdb.Checks.{Result, ok, check, check_read}
use kotlin_lmdb.Txn.{
  TxnState, ready, done, released, txn_id, txn_abort, txn_commit, data_call, Txn, Step, call, enter,
  checked, check_ready, Op, get_id, abort, reset_op, close, renew, commit, data_op, read_op,
  Allowed,
}
use kotlin_lmdb.Txn.Jvm.{reset_in, renew_in}

pub id_of : Txn → Step
id_of t = check_ready t (λ t. (ok tt, call txn_id t))

pub abort_of : Txn → Step
abort_of t = check_ready t (λ t. (ok tt, call txn_abort (enter done t)))

pub reset_of : Txn → Step
reset_of t = reset_in t.state t

pub renew_of : Txn → ℤ → Step
unfolding check
renew_of t rc = renew_in t.state t rc

pub commit_of : Txn → ℤ → Step
unfolding check
commit_of t rc =
    check_ready t (λ t. checked (check rc) (call txn_commit (enter done t)) (λ t. (ok tt, t)))

-- After `isClosed = true`.
abbrev pub close_in : TxnState → Txn → Step
close_in released t = (ok tt, t)
close_in ready t = (ok tt, enter released (call txn_abort t))
close_in _ t = (ok tt, enter released t)

pub close_of : Txn → Step
close_of t = elim t.is_closed [
  | true ↦ (ok tt, t)
  | false ↦ close_in t.state (record t { is_closed = true })
]

pub data_of : Txn → ℤ → Step
unfolding check
data_of t rc = checked (check rc) (call data_call t) (λ t. (ok tt, t))

-- get uses buildReadResult: MDB_NOTFOUND is a result.
pub read_of : Txn → ℤ → Step
unfolding check_read
read_of t rc = checked (check_read rc) (call data_call t) (λ t. (ok tt, t))

unfoldable pub step : Txn → Op → Step
unfolding id_of abort_of reset_of renew_of commit_of close_of data_of read_of
step t get_id = id_of t
step t abort = abort_of t
step t reset_op = reset_of t
step t close = close_of t
step t (renew rc) = renew_of t rc
step t (commit rc) = commit_of t rc
step t (data_op rc) = data_of t rc
step t (read_op rc) = read_of t rc

unfoldable pub run : Txn → List Op → Txn
run t [] = t
run t (o ∷ os) = run (step t o).1 os

-- The result of each operation in turn.
unfoldable pub trace : Txn → List Op → List (Result (Unit {0}))
trace t [] = []
trace t (o ∷ os) = (step t o).0 ∷ trace (step t o).1 os

-- Every operation is allowed in the state that it meets.
abbrev pub Disciplined : Txn → List Op → Type 0
Disciplined t [] = Unit {0}
Disciplined t (o ∷ os) = Allowed t.state o × Disciplined (step t o).1 os
