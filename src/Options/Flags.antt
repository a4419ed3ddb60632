-- ===== src/Options/Flags.antt =====
-- The bits that toFlags makes of options tell the options again.
use Prim.Native.Nat.{bit_or, bit_and, max}
use kotlin_lmdb.Common.{
  ℕ, zero, suc, ◌*◌, ◌^◌, ◌≤◌, ◌<◌, List, [], ◌∷◌, Bool, true, false, not, ◌||◌, ◌==◌, ◌≡◌, refl,
  arith, ap, sym, ◌∙◌,
}
use kotlin_lmdb.Common.Bits.{bit, bit-bit_or, bit_and-pow}
use kotlin_lmdb.Options.{
  EnvOption, DbiOption, env_option, dbi_option, fold_flags, to_flags, env_test, dbi_test,
}

-- Whether the list holds the option, options being told apart by their bits.
module _ {O : Type 0} (option : O → ℕ) where
  abbrev pub has : List O → O → Bool
  has [] o = false
  has (p ∷ os) o = option p == option o || has os o

abbrev digit : Bool → ℕ
digit true = 1
digit false = 0

-- Options of one bit each: `pos` is the place of the bit.
module _ {O : Type 0} (option pos : O → ℕ)
    (apart : (o p : O) → bit (pos o) (option p) ≡ digit (option p == option o)) where
  bit-fold_flags :
      (acc : ℕ) (os : List O) (o : O)
      → bit (pos o) acc ≤ 1
      → bit (pos o) (fold_flags option acc os) ≡ max (bit (pos o) acc) (digit (has option os o))
  unfolding fold_flags
  bit-fold_flags acc [] o h = omega arith
  bit-fold_flags acc (p ∷ os) o h =
      let e : bit (pos o) (bit_or acc (option p))
          ≡ max (bit (pos o) acc) (digit (option p == option o)) =
        bit-bit_or (pos o) acc (option p) ∙ ap (max (bit (pos o) acc)) (apart o p) in
      bit-fold_flags (bit_or acc (option p)) os o (ground (arith, e))
      ∙ ap (λ b. max b (digit (has option os o))) e
      ∙ joined (bit (pos o) acc) (option p == option o) (has option os o)
    where
      joined : (a : ℕ) (x y : Bool) → max (max a (digit x)) (digit y) ≡ max a (digit (x || y))
      joined a true true = omega arith
      joined a true false = omega arith
      joined a false true = omega arith
      joined a false false = omega arith

  zero_bits : (k : ℕ) → bit k 0 ≡ 0
  zero_bits zero = refl
  zero_bits (suc k) = zero_bits k

  bit-to_flags : (os : List O) (o : O) → bit (pos o) (to_flags option os) ≡ digit (has option os o)
  unfolding to_flags
  bit-to_flags os o =
      bit-fold_flags 0 os o (omega (arith, zero_bits (pos o))) ∙ omega (arith, zero_bits (pos o))

  and-to_flags :
      (os : List O) (o : O)
      → option o ≡ 2 ^ pos o
      → bit_and (to_flags option os) (option o) ≡ digit (has option os o) * option o
  and-to_flags os o e =
      ap (bit_and (to_flags option os)) e
      ∙ bit_and-pow (pos o) (to_flags option os)
      ∙ ap (λ b. b * 2 ^ pos o) (bit-to_flags os o)
      ∙ ap (λ m. digit (has option os o) * m) (sym e)

abbrev env_pos : EnvOption → ℕ
env_pos EnvOption.fixed_map = 0
env_pos EnvOption.no_sub_dir = 14
env_pos EnvOption.no_sync = 16
env_pos EnvOption.read_only = 17
env_pos EnvOption.no_meta_sync = 18
env_pos EnvOption.write_map = 19
env_pos EnvOption.map_async = 20
env_pos EnvOption.no_tls = 21
env_pos EnvOption.no_lock = 22
env_pos EnvOption.no_read_ahead = 23
env_pos EnvOption.no_mem_init = 24

abbrev dbi_pos : DbiOption → ℕ
dbi_pos DbiOption.reverse_key = 1
dbi_pos DbiOption.dup_sort = 2
dbi_pos DbiOption.integer_key = 3
dbi_pos DbiOption.dup_fixed = 4
dbi_pos DbiOption.integer_dup = 5
dbi_pos DbiOption.reverse_dup = 6
dbi_pos DbiOption.create = 18

env_pow : (o : EnvOption) → env_option o ≡ 2 ^ env_pos o
env_pow EnvOption.fixed_map = refl
env_pow _ = refl

dbi_pow : (o : DbiOption) → dbi_option o ≡ 2 ^ dbi_pos o
dbi_pow DbiOption.reverse_key = refl
dbi_pow _ = refl

env_apart :
    (o p : EnvOption) → bit (env_pos o) (env_option p) ≡ digit (env_option p == env_option o)
env_apart EnvOption.fixed_map EnvOption.fixed_map = refl
env_apart EnvOption.fixed_map _ = refl
env_apart EnvOption.no_sub_dir EnvOption.fixed_map = refl
env_apart EnvOption.no_sub_dir _ = refl
env_apart EnvOption.no_sync EnvOption.fixed_map = refl
env_apart EnvOption.no_sync _ = refl
env_apart EnvOption.read_only EnvOption.fixed_map = refl
env_apart EnvOption.read_only _ = refl
env_apart EnvOption.no_meta_sync EnvOption.fixed_map = refl
env_apart EnvOption.no_meta_sync _ = refl
env_apart EnvOption.write_map EnvOption.fixed_map = refl
env_apart EnvOption.write_map _ = refl
env_apart EnvOption.map_async EnvOption.fixed_map = refl
env_apart EnvOption.map_async _ = refl
env_apart EnvOption.no_tls EnvOption.fixed_map = refl
env_apart EnvOption.no_tls _ = refl
env_apart EnvOption.no_lock EnvOption.fixed_map = refl
env_apart EnvOption.no_lock _ = refl
env_apart EnvOption.no_read_ahead EnvOption.fixed_map = refl
env_apart EnvOption.no_read_ahead _ = refl
env_apart EnvOption.no_mem_init EnvOption.fixed_map = refl
env_apart EnvOption.no_mem_init _ = refl

dbi_apart :
    (o p : DbiOption) → bit (dbi_pos o) (dbi_option p) ≡ digit (dbi_option p == dbi_option o)
dbi_apart DbiOption.reverse_key DbiOption.reverse_key = refl
dbi_apart DbiOption.reverse_key _ = refl
dbi_apart DbiOption.dup_sort DbiOption.reverse_key = refl
dbi_apart DbiOption.dup_sort _ = refl
dbi_apart DbiOption.integer_key DbiOption.reverse_key = refl
dbi_apart DbiOption.integer_key _ = refl
dbi_apart DbiOption.dup_fixed DbiOption.reverse_key = refl
dbi_apart DbiOption.dup_fixed _ = refl
dbi_apart DbiOption.integer_dup DbiOption.reverse_key = refl
dbi_apart DbiOption.integer_dup _ = refl
dbi_apart DbiOption.reverse_dup DbiOption.reverse_key = refl
dbi_apart DbiOption.reverse_dup _ = refl
dbi_apart DbiOption.create DbiOption.reverse_key = refl
dbi_apart DbiOption.create _ = refl

equal_test : (b : Bool) (m : ℕ) → 0 < m → (digit b * m == m) ≡ b
equal_test true m h = ground arith
equal_test false m h = ground arith

nonzero_test : (b : Bool) (m : ℕ) → 0 < m → not (digit b * m == 0) ≡ b
nonzero_test true m h = ground arith
nonzero_test false m h = ground arith

env_positive : (o : EnvOption) → 0 < env_option o
env_positive EnvOption.fixed_map = omega arith
env_positive _ = omega arith

dbi_positive : (o : DbiOption) → 0 < dbi_option o
dbi_positive DbiOption.reverse_key = omega arith
dbi_positive _ = omega arith

-- The test of Env.flags finds in the bits of any list of options exactly the options of the list.
pub env_test-to_flags :
    (os : List EnvOption) (o : EnvOption)
    → env_test (to_flags env_option os) o ≡ has env_option os o
env_test-to_flags os o =
    ap (λ m. m == env_option o) (and-to_flags env_option env_pos env_apart os o (env_pow o))
    ∙ equal_test (has env_option os o) (env_option o) (env_positive o)

-- The test of Dbi.flags finds in the bits of any list of options exactly the options of the list.
pub dbi_test-to_flags :
    (os : List DbiOption) (o : DbiOption)
    → dbi_test (to_flags dbi_option os) o ≡ has dbi_option os o
dbi_test-to_flags os o =
    ap (λ m. not (m == 0)) (and-to_flags dbi_option dbi_pos dbi_apart os o (dbi_pow o))
    ∙ nonzero_test (has dbi_option os o) (dbi_option o) (dbi_positive o)
