-- ===== src/Examples/Environments.antt =====
-- Environments: the theorems at a short life of an object.
use kotlin_lmdb.Common.{List, [], ◌∷◌, ◌++◌, ◌≡◌, pos}
use kotlin_lmdb.Txn.{freed}
use kotlin_lmdb.Env.{EnvOp, open_env, close_env, check_call, set_map_size, env_handle}
use kotlin_lmdb.Env.Lifecycle.{jvm_run, native_run, run_env-close}

-- An open that fails, an open, a call and a close.
abbrev life : List EnvOp
life =
    set_map_size 4096 (pos 0)
    ∷ open_env 0 (pos 2)
    ∷ open_env 0 (pos 0)
    ∷ check_call (pos 0)
    ∷ close_env
    ∷ []

run_env-close_example :
    (env_handle (jvm_run (life ++ (close_env ∷ []))) ≡ freed)
    × (env_handle (native_run (life ++ (close_env ∷ []))) ≡ freed)
run_env-close_example = run_env-close life (tt, (tt, (tt, (tt, (tt, tt)))))
