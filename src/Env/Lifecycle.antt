-- ===== src/Env/Lifecycle.antt =====
-- The life of an environment object: when its handle is freed, and what is left of it then.
use kotlin_lmdb.Common.{
  ℕ, Bool, true, false, List, [], ◌∷◌, ◌++◌, ◌||◌, ◌≡◌, refl, arith, sym, subst, if◌then◌else◌,
}
use kotlin_lmdb.Checks.{check}
use kotlin_lmdb.Txn.{Handle, live, freed}
use kotlin_lmdb.Env.{
  EnvCall, env_open, env_close, env_call, Env, EnvStep, EnvOp, open_env, close_env, use_env,
  env_handle_after, env_handle, closes, opens, opened, Fits, Orderly, run_env,
}
use kotlin_lmdb.Env.Jvm
use kotlin_lmdb.Env.Native

env_handle_after-append :
    (h : Handle) (cs : List EnvCall) (c : EnvCall)
    → env_handle_after h (cs ++ (c ∷ [])) ≡ use_env (env_handle_after h cs) c
env_handle_after-append h [] c = refl
env_handle_after-append h (d ∷ cs) c = env_handle_after-append (use_env h d) cs c

-- `op` tells whether the environment was ever opened, `after` what isOpened then is once it is closed.
abbrev Matches : (after : Bool → Bool) (closed io : Bool) (h : Handle) (op : Bool) → Type 0
Matches after false io h op = (h ≡ live) × (io ≡ op)
Matches after true io h op = (h ≡ (if op then freed else live)) × (io ≡ after op)

abbrev env : (io closed : Bool) (d s r : ℕ) (cs : List EnvCall) → Env
env io closed d s r cs = record {
  is_opened = io;
  is_closed = closed;
  max_databases = d;
  map_size = s;
  max_readers = r;
  calls = cs;
}

abbrev Stays : (after : Bool → Bool) (e : Env) (op : Bool) → Type 0
Stays after e op = Matches after e.is_closed e.is_opened (env_handle e) op

-- What a platform's step is to do.
record Keeps (step : Env → EnvOp → EnvStep) (after : Bool → Bool) : Type 0 where
  closed_eq : (e : Env) (o : EnvOp) → (step e o).1.is_closed ≡ closes o || e.is_closed
  stays :
      (e : Env) (o : EnvOp) (op : Bool)
      → Stays after e op
      → Fits e.is_closed o
      → Stays after (step e o).1 (opens o || op)

module _ (op : Bool) (d s r : ℕ) (cs : List EnvCall) where
  jvm-Stays :
      (io closed : Bool) (o : EnvOp)
      → Stays (λ op. false) (env io closed d s r cs) op
      → Fits closed o
      → Stays (λ op. false) (Jvm.step (env io closed d s r cs) o).1 (opens o || op)
  unfolding Jvm.step check
  jvm-Stays true false close_env m a = ground (arith, env_handle_after-append live cs env_close)
  jvm-Stays false false close_env m a = ground arith
  jvm-Stays io true close_env m a = m
  jvm-Stays io false (open_env flags rc) m a =
      ground (arith, env_handle_after-append live cs (env_open flags))
  jvm-Stays io false _ m a = ground (arith, env_handle_after-append live cs env_call)
  jvm-Stays io true o m a = cc

jvm_closed :
    (d s r : ℕ) (cs : List EnvCall) (io closed : Bool) (o : EnvOp)
    → (Jvm.step (env io closed d s r cs) o).1.is_closed ≡ closes o || closed
unfolding Jvm.step check
jvm_closed d s r cs io true close_env = refl
jvm_closed d s r cs io false close_env = refl
jvm_closed d s r cs io closed o = ground arith

jvm-Keeps : Keeps Jvm.step (λ op. false)
jvm-Keeps = record {
  closed_eq =
      λ e o. jvm_closed e.max_databases e.map_size e.max_readers e.calls e.is_opened e.is_closed o;
  stays = λ e o op m f.
      jvm-Stays op e.max_databases e.map_size e.max_readers e.calls e.is_opened e.is_closed o m f;
}

module _ (op : Bool) (d s r : ℕ) (cs : List EnvCall) where
  native-Stays :
      (io closed : Bool) (o : EnvOp)
      → Stays (λ op. op) (env io closed d s r cs) op
      → Fits closed o
      → Stays (λ op. op) (Native.step (env io closed d s r cs) o).1 (opens o || op)
  unfolding Native.step check
  native-Stays true false close_env m a = ground (arith, env_handle_after-append live cs env_close)
  native-Stays false false close_env m a = ground arith
  native-Stays io true close_env m a = m
  native-Stays io false (open_env flags rc) m a =
      ground (arith, env_handle_after-append live cs (env_open flags))
  native-Stays io false _ m a = ground (arith, env_handle_after-append live cs env_call)
  native-Stays io true o m a = cc

native_closed :
    (d s r : ℕ) (cs : List EnvCall) (io closed : Bool) (o : EnvOp)
    → (Native.step (env io closed d s r cs) o).1.is_closed ≡ closes o || closed
unfolding Native.step check
native_closed d s r cs io true close_env = refl
native_closed d s r cs io false close_env = refl
native_closed d s r cs io closed o = ground arith

native-Keeps : Keeps Native.step (λ op. op)
native-Keeps = record {
  closed_eq = λ e o.
      native_closed e.max_databases e.map_size e.max_readers e.calls e.is_opened e.is_closed o;
  stays = λ e o op m f.
      native-Stays op e.max_databases e.map_size e.max_readers e.calls e.is_opened e.is_closed o m
        f;
}

module _ (step : Env → EnvOp → EnvStep) (after : Bool → Bool) (k : Keeps step after) where
  run-Stays :
      (os : List EnvOp) (e : Env) (op : Bool)
      → Stays after e op
      → Orderly e.is_closed os
      → Stays after (run_env step e os) (opened os || op)
  unfolding run_env
  run-Stays [] e op m f = m
  run-Stays (o ∷ os) e op m f =
      let rest =
        run-Stays os (step e o).1 (opens o || op) (k.stays e o op m f.0)
          (subst (λ c. Orderly c os) (sym (k.closed_eq e o)) f.1) in
      subst (λ b. Stays after (run_env step (step e o).1 os) b) (ors (opened os) (opens o) op) rest
    where
      ors : (x y z : Bool) → x || (y || z) ≡ (y || x) || z
      ors x y z = ground arith

  run_env-append :
      (e : Env) (os : List EnvOp) (o : EnvOp)
      → run_env step e (os ++ (o ∷ [])) ≡ (step (run_env step e os) o).1
  unfolding run_env
  run_env-append e [] o = refl
  run_env-append e (p ∷ os) o = run_env-append (step e p).1 os o

  Fits-close : (c : Bool) → Fits c close_env
  Fits-close false = tt
  Fits-close true = refl

  closed_after :
      (e : Env) (op : Bool)
      → Stays after e op
      → (env_handle (step e close_env).1 ≡ (if op then freed else live))
        × ((step e close_env).1.is_opened ≡ after op)
  closed_after e op m =
      let e' = (step e close_env).1 in
      subst (λ c. Matches after c e'.is_opened (env_handle e') op) (k.closed_eq e close_env)
        (k.stays e close_env op m (Fits-close e.is_closed))

  run_closed :
      (e : Env) (os : List EnvOp)
      → Stays after e false
      → Orderly e.is_closed os
      → (env_handle (run_env step e (os ++ (close_env ∷ []))) ≡ (if opened os then freed else live))
        × ((run_env step e (os ++ (close_env ∷ []))).is_opened ≡ after (opened os))
  run_closed e os m f =
      let none_yet : opened os || false ≡ opened os = ground arith in
      let m' = subst (λ b. Stays after (run_env step e os) b) none_yet (run-Stays os e false m f) in
      subst
        (λ e'.
          (env_handle e' ≡ (if opened os then freed else live))
          × (e'.is_opened ≡ after (opened os)))
        (sym (run_env-append e os close_env)) (closed_after (run_env step e os) (opened os) m')

-- The operations in turn, from a new environment on.
abbrev pub jvm_run : List EnvOp → Env
jvm_run os = run_env Jvm.step Jvm.new_env os

abbrev pub native_run : List EnvOp → Env
native_run os = run_env Native.step Native.new_env os

-- A close, after operations none of which but closes follows a close, leaves the handle freed, once
-- and unused since, if the environment was ever opened; if it never was, the handle that
-- mdb_env_create made stays live. This holds on both platforms, whether or not open threw.
pub run_env-close :
    (os : List EnvOp)
    → Orderly false os
    → (env_handle (jvm_run (os ++ (close_env ∷ []))) ≡ (if opened os then freed else live))
      × (env_handle (native_run (os ++ (close_env ∷ []))) ≡ (if opened os then freed else live))
run_env-close os f = (
  (run_closed Jvm.step (λ op. false) jvm-Keeps Jvm.new_env os (refl, refl) f).0,
  (run_closed Native.step (λ op. op) native-Keeps Native.new_env os (refl, refl) f).0,
)
