-- ===== src/Txn/Jvm.antt =====
-- jvmMain/kotlin/Txn.kt.
use kotlin_lmdb.Common.{ℕ, Bool, true, false, [], ℤ, List, ◌∷◌}
use kotlin_lmdb.Checks.{
  Result, ok, thrown, check, check_read, env_not_open, invalid_for_reset, invalid_for_renew,
}
use kotlin_lmdb.Options.{TxnOption, txn_option, to_flags}
use kotlin_lmdb.Txn.{
  TxnState, ready, done, reset, released, txn_begin, txn_id, txn_abort, txn_reset, txn_renew,
  txn_commit, data_call, Txn, Step, call, enter, checked, check_ready, Op, get_id, abort, reset_op,
  close, renew, commit, data_op, read_op, Allowed,
}

-- The constructor: `open` is env.isOpened, `flags` the options' bits, `rc` the code of
-- mdb_txn_begin.
unfoldable pub new_txn : (open' : Bool) (flags : ℕ) (rc : ℤ) → Result Txn
new_txn false flags rc = thrown env_not_open
new_txn true flags rc = elim (check rc) [
  | thrown e ↦ thrown e
  | ok r ↦ ok (record { state = ready; is_closed = false; calls = txn_begin flags ∷ [] })
]

pub id_of : Txn → Step
id_of t = check_ready t (λ t. (ok tt, call txn_id t))

pub abort_of : Txn → Step
abort_of t = check_ready t (λ t. (ok tt, enter done (call txn_abort t)))

-- The `when` of reset(), by the state.
abbrev pub reset_in : TxnState → Txn → Step
reset_in ready t = (thrown invalid_for_reset, t)
reset_in done t = (thrown invalid_for_reset, t)
reset_in reset t = (ok tt, call txn_reset (enter reset t))
reset_in released t = (ok tt, call txn_reset (enter reset t))

pub reset_of : Txn → Step
reset_of t = reset_in t.state t

abbrev pub renew_in : TxnState → Txn → ℤ → Step
renew_in reset t rc =
    checked (check rc) (call txn_renew (enter done t)) (λ t. (ok tt, enter ready t))
renew_in _ t rc = (thrown invalid_for_renew, t)

pub renew_of : Txn → ℤ → Step
unfolding check
renew_of t rc = renew_in t.state t rc

pub commit_of : Txn → ℤ → Step
unfolding check
commit_of t rc =
    check_ready t (λ t. checked (check rc) (call txn_commit (enter done t)) (λ t. (ok tt, t)))

abbrev pub close_in : TxnState → Txn → Step
close_in released t = (ok tt, t)
close_in ready t = (ok tt, enter released (call txn_abort t))
close_in _ t = (ok tt, enter released t)

pub close_of : Txn → Step
close_of t = close_in t.state t

-- put, delete, drop, empty, openCursor and dbiOpen do not look at the state.
pub data_of : Txn → ℤ → Step
unfolding check
data_of t rc = checked (check rc) (call data_call t) (λ t. (ok tt, t))

-- begin(vararg options) makes `Txn(env, this)`: its options are not passed on, and those of the
-- constructor are none.
unfoldable pub begin_child : (open' : Bool) (options : List TxnOption) (rc : ℤ) → Result Txn
unfolding new_txn to_flags
begin_child open' options rc = new_txn open' (to_flags txn_option []) rc

-- get uses buildReadResult: MDB_NOTFOUND is a result.
pub read_of : Txn → ℤ → Step
unfolding check_read
read_of t rc = checked (check_read rc) (call data_call t) (λ t. (ok tt, t))

unfoldable pub step : Txn → Op → Step
unfolding id_of abort_of reset_of renew_of commit_of close_of data_of read_of
step t get_id = id_of t
step t abort = abort_of t
step t reset_op = reset_of t
step t close = close_of t
step t (renew rc) = renew_of t rc
step t (commit rc) = commit_of t rc
step t (data_op rc) = data_of t rc
step t (read_op rc) = read_of t rc

-- Each operation in turn, whether or not the ones before it threw.
unfoldable pub run : Txn → List Op → Txn
run t [] = t
run t (o ∷ os) = run (step t o).1 os

-- The result of each operation in turn.
unfoldable pub trace : Txn → List Op → List (Result (Unit {0}))
trace t [] = []
trace t (o ∷ os) = (step t o).0 ∷ trace (step t o).1 os

-- Every operation is allowed in the state that it meets.
abbrev pub Disciplined : Txn → List Op → Type 0
Disciplined t [] = Unit {0}
Disciplined t (o ∷ os) = Allowed t.state o × Disciplined (step t o).1 os
