-- ===== src/Env/Flags.antt =====
-- The setter of Env.flags, over a native environment: `S` is what it keeps.
pub mod SetFlags
use kotlin_lmdb.Common.{
  ℕ, Bool, true, false, not, ◌&&◌, ◌==◌, List, [], ◌∷◌, ◌||◌, ℤ, if◌then◌else◌,
}
use kotlin_lmdb.Checks.{Result, ok, thrown, check}
use kotlin_lmdb.Options.{EnvOption, env_option, env_values, env_test}

-- mdb_env_get_flags gives the status and the bits, mdb_env_set_flags takes the bits and `onoff`.
pub record NativeEnv (S : Type 0) : Type 0 where
  pub get_flags : S → ℤ × ℕ
  pub set_flags : S → ℕ → ℕ → ℤ × S

-- Membership of a set of options, which are told apart by their bits.
abbrev pub member : EnvOption → List EnvOption → Bool
member o [] = false
member o (p ∷ ps) = env_option p == env_option o || member o ps

unfoldable pub filter : (EnvOption → Bool) → List EnvOption → List EnvOption
filter f [] = []
filter f (o ∷ os) = if f o then o ∷ filter f os else filter f os

-- `this.minus(value)`
abbrev pub minus : List EnvOption → List EnvOption → List EnvOption
minus os value = filter (λ o. not (member o value)) os

module _ {S : Type 0} (n : NativeEnv S) where
  -- The getter.
  unfoldable pub flags : S → Result (List EnvOption)
  unfolding check
  flags s =
      let (rc, flags_value) = n.get_flags s in
      elim (check rc) [ thrown e ↦ thrown e | ok r ↦ ok (filter (env_test flags_value) env_values) ]

  -- `forEach { flag -> check(mdb_env_set_flags(ptr, flag.option, onoff)) }`, and then the rest.
  unfoldable pub set_each : ℕ → List EnvOption → S → Result (Unit {0}) × S
  unfolding check
  set_each onoff [] s = (ok tt, s)
  set_each onoff (o ∷ os) s =
      let (rc, s') = n.set_flags s (env_option o) onoff in
      let rest = set_each onoff os s' in elim (check rc) [ thrown e ↦ (thrown e, s') | ok r ↦ rest ]

  -- The two loops: the options of `current` that `value` lacks, and those that it adds.
  unfoldable pub change_flags : (current value : List EnvOption) → S → Result (Unit {0}) × S
  unfolding set_each
  change_flags current value s =
      let (r, s') = set_each 0 (minus current value) s in
      let rest = set_each 1 (minus value current) s' in
      elim r [ thrown e ↦ (thrown e, s') | ok u ↦ rest ]

  -- The setter.
  unfoldable pub set_flags_of : S → List EnvOption → Result (Unit {0}) × S
  unfolding flags change_flags
  set_flags_of s value = elim (flags s) [
    | thrown e ↦ (thrown e, s)
    | ok current ↦ change_flags current value s
  ]
