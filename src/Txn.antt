-- ===== src/Txn.antt =====
-- Txn.kt: the state of a transaction object, the calls that it makes of the native library, and
-- the parts that the JVM and the native class share. `Txn.Jvm` and `Txn.Native` are the classes.
pub mod Jvm
pub mod Native
pub mod Lifecycle
pub mod Platforms
pub mod Faults
use kotlin_lmdb.Common.{ℕ, zero, suc, ◌+◌, Bool, true, false, List, [], ◌∷◌, ◌++◌, ℤ, ◌≡◌, ◌≢◌}
use kotlin_lmdb.Checks.{Exception, Result, ok, thrown, check, invalid_state, env_not_open}

pub data TxnState : Type 0 where
  ready done reset released : TxnState

-- The calls that take the native handle; `data_call` is any of mdb_get, mdb_put, mdb_del, mdb_drop,
-- mdb_cursor_open, mdb_dbi_open, mdb_set_compare and mdb_set_dupsort.
pub data Call : Type 0 where
  txn_begin : ℕ → Call
  txn_id txn_abort txn_reset txn_renew txn_commit data_call : Call

-- `calls` lists the calls made with this handle, the first one first. `is_closed` is a field of the
-- native class alone; the JVM class leaves it false.
pub record Txn : Type 0 where
  pub state : TxnState
  pub is_closed : Bool
  pub calls : List Call

-- A method returns, or throws, and leaves the object in a state.
abbrev pub Step : Type 0
Step = Result (Unit {0}) × Txn

abbrev pub call : Call → Txn → Txn
call c t = record t { calls = t.calls ++ (c ∷ []) }

abbrev pub enter : TxnState → Txn → Txn
enter s t = record t { state = s }

-- `check(rc)`, and then the rest.
abbrev pub checked : Result ℤ → Txn → (Txn → Step) → Step
checked (ok rc) t rest = rest t
checked (thrown e) t rest = (thrown e, t)

abbrev pub is_ready : TxnState → Bool
is_ready ready = true
is_ready _ = false

-- checkReady(), and then the rest.
abbrev pub check_ready : Txn → (Txn → Step) → Step
check_ready t rest = elim (is_ready t.state) [ true ↦ rest t | false ↦ (thrown invalid_state, t) ]

-- What a caller does with a transaction; an operation that the native library answers carries
-- the status code that it returns.
pub data Op : Type 0 where
  get_id abort reset_op close : Op
  renew commit : ℤ → Op
  -- put, delete, drop, empty, openCursor and dbiOpen; and get
  data_op read_op : ℤ → Op

-- What the calls have made of the native handle: mdb_txn_abort and mdb_txn_commit free it, and any
-- call with a freed handle misuses it.
pub data Handle : Type 0 where
  live freed misused : Handle

abbrev pub use_handle : Handle → Call → Handle
use_handle live txn_abort = freed
use_handle live txn_commit = freed
use_handle live _ = live
use_handle freed _ = misused
use_handle misused _ = misused

abbrev pub handle_after : Handle → List Call → Handle
handle_after h [] = h
handle_after h (c ∷ cs) = handle_after (use_handle h c) cs

abbrev pub handle : Txn → Handle
handle t = handle_after live t.calls

-- A data operation is for a ready transaction, and reset for one that is not released.
abbrev pub Allowed : TxnState → Op → Type 0
Allowed s (data_op rc) = s ≡ ready
Allowed s (read_op rc) = s ≡ ready
Allowed s reset_op = s ≢ released
Allowed s _ = Unit {0}
