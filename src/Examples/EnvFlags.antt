-- ===== src/Examples/EnvFlags.antt =====
-- The setter of Env.flags over an environment that keeps a list of options.
use kotlin_lmdb.Common.{
  ℕ, Bool, true, not, ◌&&◌, ◌||◌, ◌==◌, List, [], ◌∷◌, ◌++◌, pos, ◌≡◌, refl, arith, ap, ◌∙◌,
  if◌then◌else◌,
}
use kotlin_lmdb.Checks.{ok}
use kotlin_lmdb.Options.{EnvOption, env_option, env_values, to_flags}
use kotlin_lmdb.Options.Flags.{has, env_test-to_flags}
use kotlin_lmdb.Env.Flags.{NativeEnv, member, filter, set_flags_of}
use kotlin_lmdb.Env.Flags.SetFlags.{IsEnvFlags, member-filter, all_members, set_flags_of-on}

abbrev with_bits : ℕ → EnvOption → Bool
with_bits b p = env_option p == b

abbrev kept : NativeEnv (List EnvOption)
kept = record {
  get_flags = λ s. (pos 0, to_flags env_option s);
  set_flags = λ s b onoff. (
    pos 0,
    if onoff == 0
        then filter (λ p. not (with_bits b p)) s
        else filter (with_bits b) env_values ++ s,
  );
}

abbrev in_list : List EnvOption → EnvOption → Bool
in_list s o = member o s

has-member : (s : List EnvOption) (o : EnvOption) → has env_option s o ≡ member o s
has-member [] o = refl
has-member (p ∷ s) o = ap (λ b. (env_option p == env_option o) || b) (has-member s o)

or_assoc : (x y z : Bool) → x || (y || z) ≡ (x || y) || z
or_assoc x y z = ground arith

member-append :
    (o : EnvOption) (s t : List EnvOption) → member o (s ++ t) ≡ member o s || member o t
member-append o [] t = refl
member-append o (p ∷ s) t =
    ap (λ b. (env_option p == env_option o) || b) (member-append o s t)
    ∙ or_assoc (env_option p == env_option o) (member o s) (member o t)

==_sym : (x y : ℕ) → (x == y) ≡ (y == x)
==_sym x y = ground arith

and_not : (a : Bool) (x y : ℕ) → a && not (x == y) ≡ not (y == x) && a
and_not a x y = ground arith

kept-IsEnvFlags : IsEnvFlags kept in_list (λ o. true)
kept-IsEnvFlags = record {
  get_eq = λ s. (to_flags env_option s, refl, λ o. env_test-to_flags s o ∙ has-member s o);
  set_on = λ s o h. (
    filter (with_bits (env_option o)) env_values ++ s,
    refl,
    λ p.
        member-append p (filter (with_bits (env_option o)) env_values) s
        ∙ ap (λ b. b || member p s)
            (member-filter (with_bits (env_option o)) env_values p
                (λ q e. ap (λ b. b == env_option o) e)
              ∙ ap (λ b. b && with_bits (env_option o) p) (all_members p)
              ∙ ==_sym (env_option p) (env_option o)),
  );
  set_off = λ s o h. (
    filter (λ p. not (with_bits (env_option o) p)) s,
    refl,
    λ p.
        member-filter (λ p. not (with_bits (env_option o) p)) s p
          (λ q e. ap (λ b. not (b == env_option o)) e)
        ∙ and_not (member p s) (env_option p) (env_option o),
  );
}

abbrev before : List EnvOption
before = EnvOption.no_sync ∷ EnvOption.map_async ∷ []

abbrev wanted : List EnvOption
wanted = EnvOption.map_async ∷ EnvOption.no_meta_sync ∷ []

set_flags_of-on_example :
    (s' : List EnvOption) × (set_flags_of kept before wanted ≡ (ok tt, s'))
    × ((o : EnvOption) → in_list s' o ≡ member o wanted)
set_flags_of-on_example =
    set_flags_of-on kept in_list (λ o. true) wanted before kept-IsEnvFlags (λ o d. refl)
