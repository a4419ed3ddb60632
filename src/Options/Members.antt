-- ===== src/Options/Members.antt =====
-- The tests of Env.flags and Dbi.flags on the bits that toFlags makes of options.
use kotlin_lmdb.Common.{
  ℕ, List, [], ◌∷◌, Bool, true, false, ◌||◌, ◌==◌, if◌then◌else◌, ◌≡◌, ◌⊎◌, ◌↔◌, inl, inr, refl,
  sym, ap, ◌∙◌, arith, Bool-cases,
}
use kotlin_lmdb.Options.{EnvOption, DbiOption, env_option, dbi_option, to_flags, env_test, dbi_test}
use kotlin_lmdb.Options.Flags.{has, env_test-to_flags, dbi_test-to_flags}

-- The list holds the option.
abbrev pub Has : {O : Type 0} → List O → O → Type 0
Has [] o = ⊥
Has (p ∷ os) o = (p ≡ o) ⊎ Has os o

-- Options that can be told from their bits.
module _ {O : Type 0} (option : O → ℕ) (option_of : ℕ → O)
    (told : (o : O) → option_of (option o) ≡ o) where
  same_bits : (p o : O) → (option p == option o) ≡ true → p ≡ o
  same_bits p o e =
      let same : option p ≡ option o = ground arith in sym (told p) ∙ ap option_of same ∙ told o

  one_bit : (p o : O) → p ≡ o → (option p == option o) ≡ true
  one_bit p o e = let same : option p ≡ option o = ap option e in ground arith

  has-Has : (os : List O) (o : O) → has option os o ≡ true → Has os o
  has-Has [] o e = absurd (cc)
  has-Has (p ∷ os) o e = elim (Bool-cases (option p == option o)) [
    | inl b ↦ inl (same_bits p o b)
    | inr b ↦ inr (has-Has os o (sym (ap (λ b. b || has option os o) b) ∙ e))
  ]

  Has-has : (os : List O) (o : O) → Has os o → has option os o ≡ true
  Has-has [] o h = absurd h
  Has-has (p ∷ os) o (inl e) = ap (λ b. b || has option os o) (one_bit p o e)
  Has-has (p ∷ os) o (inr h) =
      ap (λ b. (option p == option o) || b) (Has-has os o h) ∙ or_true (option p == option o)
    where
      or_true : (b : Bool) → (b || true) ≡ true
      or_true true = refl
      or_true false = refl

abbrev env_option_of : ℕ → EnvOption
env_option_of n =
    if n == 0x01
    then EnvOption.fixed_map
    else (if n == 0x4000
        then EnvOption.no_sub_dir
        else (if n == 0x10000
            then EnvOption.no_sync
            else (if n == 0x20000
                then EnvOption.read_only
                else (if n == 0x40000
                    then EnvOption.no_meta_sync
                    else (if n == 0x80000
                        then EnvOption.write_map
                        else (if n == 0x100000
                            then EnvOption.map_async
                            else (if n == 0x200000
                                then EnvOption.no_tls
                                else (if n == 0x400000
                                    then EnvOption.no_lock
                                    else (if n == 0x800000
                                        then EnvOption.no_read_ahead
                                        else EnvOption.no_mem_init)))))))))

env_told : (o : EnvOption) → env_option_of (env_option o) ≡ o
env_told EnvOption.fixed_map = refl
env_told _ = refl

abbrev dbi_option_of : ℕ → DbiOption
dbi_option_of n =
    if n == 0x02
    then DbiOption.reverse_key
    else (if n == 0x04
        then DbiOption.dup_sort
        else (if n == 0x08
            then DbiOption.integer_key
            else (if n == 0x10
                then DbiOption.dup_fixed
                else (if n == 0x20
                    then DbiOption.integer_dup
                    else (if n == 0x40 then DbiOption.reverse_dup else DbiOption.create)))))

dbi_told : (o : DbiOption) → dbi_option_of (dbi_option o) ≡ o
dbi_told DbiOption.reverse_key = refl
dbi_told _ = refl

-- The test of Env.flags finds in the bits of any list of options exactly the options of the list,
-- no two of which have the same bits.
pub env_test-to_flags-Has :
    (os : List EnvOption) (o : EnvOption) → (env_test (to_flags env_option os) o ≡ true) ↔ Has os o
env_test-to_flags-Has os o = (
  λ e. has-Has env_option env_option_of env_told os o (sym (env_test-to_flags os o) ∙ e),
  λ h. env_test-to_flags os o ∙ Has-has env_option env_option_of env_told os o h,
)

-- The test of Dbi.flags finds in the bits of any list of options exactly the options of the list,
-- no two of which have the same bits.
pub dbi_test-to_flags-Has :
    (os : List DbiOption) (o : DbiOption) → (dbi_test (to_flags dbi_option os) o ≡ true) ↔ Has os o
dbi_test-to_flags-Has os o = (
  λ e. has-Has dbi_option dbi_option_of dbi_told os o (sym (dbi_test-to_flags os o) ∙ e),
  λ h. dbi_test-to_flags os o ∙ Has-has dbi_option dbi_option_of dbi_told os o h,
)
