-- ===== src/Env/Jvm.antt =====
-- src/jvmMain/kotlin/Env.kt.
use kotlin_lmdb.Common.{ℕ, true, false, [], ◌*◌, ℤ, if◌then◌else◌}
use kotlin_lmdb.Checks.{ok, check}
use kotlin_lmdb.Env.{
  env_open, env_close, env_call, Env, EnvStep, call, checked, EnvOp, open_env, close_env,
  max_key_size, set_max_databases, set_map_size, set_max_readers, check_call, get_stat,
}

abbrev pub new_env : Env
new_env = record {
  is_opened = false;
  is_closed = false;
  max_databases = 0;
  map_size = 1024 * 1024 * 100;
  max_readers = 0;
  calls = [];
}

-- The mode is taken to be an octal number.
pub open_of : Env → ℕ → ℤ → EnvStep
unfolding check
open_of e flags rc =
    checked (check rc) (call (env_open flags) (record e { is_opened = true })) (λ e. (ok tt, e))

pub close_of : Env → EnvStep
close_of e =
    let e' = if e.is_opened then call env_close e else e in
    if e.is_closed then (ok tt, e) else (ok tt, record e' { is_opened = false; is_closed = true })

-- The setters do not look at the status code.
pub set_max_databases_of : Env → ℕ → ℤ → EnvStep
set_max_databases_of e v rc = (ok tt, record (call env_call e) { max_databases = v })

pub set_map_size_of : Env → ℕ → ℤ → EnvStep
set_map_size_of e v rc = (ok tt, record (call env_call e) { map_size = v })

pub set_max_readers_of : Env → ℕ → ℤ → EnvStep
set_max_readers_of e v rc = (ok tt, record (call env_call e) { max_readers = v })

abbrev pub call_of : Env → EnvStep
call_of e = (ok tt, call env_call e)

pub check_call_of : Env → ℤ → EnvStep
unfolding check
check_call_of e rc = checked (check rc) (call env_call e) (λ e. (ok tt, e))

unfoldable pub step : Env → EnvOp → EnvStep
unfolding open_of close_of set_max_databases_of set_map_size_of set_max_readers_of check_call_of
step e (open_env flags rc) = open_of e flags rc
step e close_env = close_of e
step e max_key_size = call_of e
step e (set_max_databases v rc) = set_max_databases_of e v rc
step e (set_map_size v rc) = set_map_size_of e v rc
step e (set_max_readers v rc) = set_max_readers_of e v rc
step e (check_call rc) = check_call_of e rc
step e (get_stat rc) = call_of e
