-- ===== src/Examples/Transactions.antt =====
-- Transactions: the theorems at short lives of an object, and where the platforms part.
use kotlin_lmdb.Common.{true, false, List, [], ◌∷◌, ◌≡◌, ◌≢◌, refl, pos, negsuc, ◌↔◌}
use kotlin_lmdb.Checks.{ok, thrown, check, check_read, invalid_for_reset, invalid_for_renew}
use kotlin_lmdb.Txn.{
  ready, done, released, Call, txn_begin, txn_abort, txn_commit, txn_reset, Txn, Op, get_id,
  reset_op, close, renew, commit, data_op, read_op, live, misused, handle, Allowed,
}
use kotlin_lmdb.Options.{TxnOption, to_flags, fold_flags}
use kotlin_lmdb.Txn.Jvm
use kotlin_lmdb.Txn.Native
use kotlin_lmdb.Txn.Lifecycle.{run-handle}
use kotlin_lmdb.Txn.Platforms.{Jvm-Native}
use kotlin_lmdb.Txn.Faults.{step-misused, reset_never, renew_never}

program : Unit {0}
unfolding Jvm.step Jvm.run Jvm.trace Jvm.new_txn Jvm.begin_child Native.step Native.run Native.trace
    check check_read to_flags fold_flags
program = tt

-- A new read-only transaction.
abbrev begun : Txn
begun = record { state = ready; is_closed = false; calls = txn_begin 0x20000 ∷ [] }

abbrev work : List Op
work = data_op (pos 0) ∷ read_op (negsuc 30797) ∷ reset_op ∷ commit (pos 0) ∷ get_id ∷ []

new_begun : Jvm.new_txn true 0x20000 (pos 0) ≡ ok begun
unfolding program
new_begun = refl

work-Disciplined : Jvm.Disciplined begun work
unfolding program
work-Disciplined = (refl, (refl, ((λ e. cc), (tt, (tt, tt)))))

run-handle_example :
    (handle (Jvm.run begun work) ≢ misused)
    × (((Jvm.run begun work).state ≡ ready) ↔ (handle (Jvm.run begun work) ≡ live))
run-handle_example = run-handle 0x20000 (pos 0) begun new_begun work work-Disciplined

Jvm-Native_example :
    (Native.trace begun work ≡ Jvm.trace begun work)
    × ((Native.run begun work).state ≡ (Jvm.run begun work).state)
    × ((Native.run begun work).calls ≡ (Jvm.run begun work).calls)
Jvm-Native_example = Jvm-Native 0x20000 (pos 0) begun new_begun work work-Disciplined

-- After a commit.
abbrev committed : Txn
committed = record { state = done; is_closed = false; calls = txn_begin 0 ∷ txn_commit ∷ [] }

step-misused_example :
    (handle (Jvm.step committed (data_op (pos 0))).1 ≡ misused)
    ↔ (¬ Allowed committed.state (data_op (pos 0)))
step-misused_example = step-misused committed (data_op (pos 0)) refl

work_ends : (Jvm.run begun work).state ≡ done
unfolding program
work_ends = refl

work_unclosed : (Jvm.run begun work).state ≢ released
unfolding program
work_unclosed e = cc

reset_never_example :
    Jvm.step (Jvm.run begun work) reset_op ≡ (thrown invalid_for_reset, Jvm.run begun work)
reset_never_example =
    reset_never 0x20000 (pos 0) begun new_begun work work-Disciplined work_unclosed

-- A child that is asked to be read-only is begun with flags 0.
new_child :
    Jvm.begin_child true (TxnOption.read_only ∷ []) (pos 0)
    ≡ ok (record { state = ready; is_closed = false; calls = txn_begin 0 ∷ [] })
unfolding program
new_child = refl

renew_never_example :
    Jvm.step (Jvm.run begun work) (renew (pos 0)) ≡ (thrown invalid_for_renew, Jvm.run begun work)
renew_never_example = renew_never 0x20000 (pos 0) begun new_begun work work-Disciplined (pos 0)

-- Outside those rules the platforms part: a transaction that is closed, reset, renewed and closed
-- again is aborted by the JVM class and left open by the native one.
abbrev again : List Op
again = close ∷ reset_op ∷ renew (pos 0) ∷ close ∷ []

jvm_again :
    (Jvm.run begun again).calls
    ≡ txn_begin 0x20000 ∷ txn_abort ∷ txn_reset ∷ Call.txn_renew ∷ txn_abort ∷ []
unfolding program
jvm_again = refl

native_again :
    (Native.run begun again).calls ≡ txn_begin 0x20000 ∷ txn_abort ∷ txn_reset ∷ Call.txn_renew ∷ []
unfolding program
native_again = refl
