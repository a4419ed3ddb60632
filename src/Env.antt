-- ===== src/Env.antt =====
-- Env.kt: the state of an environment object, the calls that it makes of the native library, and
-- what a caller does with it. `Env.Jvm` and `Env.Native` are the classes.
pub mod Jvm
pub mod Native
pub mod Lifecycle
pub mod Flags
use kotlin_lmdb.Common.{ℕ, Bool, true, false, List, [], ◌∷◌, ◌++◌, ◌||◌, ℤ, ◌≡◌}
use kotlin_lmdb.Checks.{Result, ok, thrown}
use kotlin_lmdb.Txn.{Handle, live, freed, misused}

-- `env_call` is any function of the library but mdb_env_open and mdb_env_close.
pub data EnvCall : Type 0 where
  env_open : ℕ → EnvCall
  env_close env_call : EnvCall

-- `calls` lists the calls made with this handle, the first one first.
pub record Env : Type 0 where
  pub is_opened : Bool
  pub is_closed : Bool
  pub max_databases : ℕ
  pub map_size : ℕ
  pub max_readers : ℕ
  pub calls : List EnvCall

abbrev pub EnvStep : Type 0
EnvStep = Result (Unit {0}) × Env

abbrev pub call : EnvCall → Env → Env
call c e = record e { calls = e.calls ++ (c ∷ []) }

-- `check(rc)`, and then the rest.
abbrev pub checked : Result ℤ → Env → (Env → EnvStep) → EnvStep
checked (ok rc) e rest = rest e
checked (thrown x) e rest = (thrown x, e)

-- What a caller does; an operation that the native library answers carries the status code.
pub data EnvOp : Type 0 where
  -- the bits of the options
  open_env : ℕ → ℤ → EnvOp
  close_env max_key_size : EnvOp
  set_max_databases set_map_size set_max_readers : ℕ → ℤ → EnvOp
  -- the getters of maxReaders, staleReaderCount and info, copyTo and sync
  check_call : ℤ → EnvOp
  get_stat : ℤ → EnvOp

-- What the calls have made of the native handle: mdb_env_close frees it.
abbrev pub use_env : Handle → EnvCall → Handle
use_env live env_close = freed
use_env live _ = live
use_env freed _ = misused
use_env misused _ = misused

abbrev pub env_handle_after : Handle → List EnvCall → Handle
env_handle_after h [] = h
env_handle_after h (c ∷ cs) = env_handle_after (use_env h c) cs

abbrev pub env_handle : Env → Handle
env_handle e = env_handle_after live e.calls

abbrev pub closes : EnvOp → Bool
closes close_env = true
closes _ = false

abbrev pub opens : EnvOp → Bool
opens (open_env flags rc) = true
opens _ = false

-- Some operation of the list is an open.
abbrev pub opened : List EnvOp → Bool
opened [] = false
opened (o ∷ os) = opens o || opened os

-- Once the environment is closed, the operation closes it again.
abbrev pub Fits : (closed : Bool) → EnvOp → Type 0
Fits false o = Unit {0}
Fits true o = closes o ≡ true

-- After a close only closes follow.
abbrev pub Orderly : (closed : Bool) → List EnvOp → Type 0
Orderly closed [] = Unit {0}
Orderly closed (o ∷ os) = Fits closed o × Orderly (closes o || closed) os

-- Each operation in turn, whether or not the ones before it threw.
unfoldable pub run_env : (Env → EnvOp → EnvStep) → Env → List EnvOp → Env
run_env step e [] = e
run_env step e (o ∷ os) = run_env step (step e o).1 os
