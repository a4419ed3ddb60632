-- ===== src/Examples/Comparisons.antt =====
-- Comparison functions, registries and flags: the theorems at short byte strings.
use Prim.Native.Nat.Ordering.{lt, eq}
use kotlin_lmdb.Common.{
  ℕ, true, none, some, List, [], ◌∷◌, ◌≡◌, refl, arith, ℤ, pos, ◌↔◌, ◌⊎◌, compare,
}
use kotlin_lmdb.Checks.{ok, thrown, only_custom_slots, not_registered}
use kotlin_lmdb.Options.{EnvOption, DbiOption, env_option, dbi_option, to_flags, env_test, dbi_test}
use kotlin_lmdb.Options.Members.{Has, env_test-to_flags-Has, dbi_test-to_flags-Has}
use kotlin_lmdb.Comparers.{bitwise_compare, integer_key_compare, length_compare}
use kotlin_lmdb.Comparers.Lex.{IsBytes, sign, swap}
use kotlin_lmdb.Comparers.Orders.{be_value, integer_key_compare-be_value}
use kotlin_lmdb.Comparers.Registry.{
  ValCompare, Slots, no_slots, assign, bitwise, custom_1, custom_2, standard_comparers,
}
use kotlin_lmdb.Comparers.Registry.Jvm
use kotlin_lmdb.Comparers.Registry.Native
use kotlin_lmdb.Comparers.Registry.Native.{Registry}
use kotlin_lmdb.Comparers.Registry.Standard.{
  standard_comparers_antisymmetric, standard_comparers_transitive,
}
use kotlin_lmdb.Comparers.Registry.Laws.{
  Jvm-register_custom_comparer, Native-register_custom_comparer,
}

abbrev no_hash : List ℕ → ℤ
no_hash b = pos 0

abbrev low : List ℕ
low = 1 ∷ 200 ∷ []

abbrev middle : List ℕ
middle = 128 ∷ 0 ∷ []

abbrev high : List ℕ
high = 255 ∷ []

low-IsBytes : IsBytes low
low-IsBytes = omega arith

middle-IsBytes : IsBytes middle
middle-IsBytes = omega arith

high-IsBytes : IsBytes high
high-IsBytes = omega arith

standard_comparers_antisymmetric_example :
    (sign (bitwise_compare (some middle) (some low))
      ≡ swap (sign (bitwise_compare (some low) (some middle))))
    × ((sign (bitwise_compare (some low) (some middle)) ≡ eq) ↔ (low ≡ middle))
standard_comparers_antisymmetric_example =
    standard_comparers_antisymmetric no_hash bitwise bitwise_compare tt refl low middle low-IsBytes
      middle-IsBytes

low-middle : sign (bitwise_compare (some low) (some middle)) ≡ lt
unfolding bitwise_compare
low-middle = refl

middle-high : sign (bitwise_compare (some middle) (some high)) ≡ lt
unfolding bitwise_compare
middle-high = refl

standard_comparers_transitive_example : sign (bitwise_compare (some low) (some high)) ≡ lt
standard_comparers_transitive_example =
    standard_comparers_transitive no_hash bitwise bitwise_compare tt refl low middle high
      low-IsBytes middle-IsBytes high-IsBytes low-middle middle-high

integer_key_compare-be_value_example :
    sign (integer_key_compare (some low) (some middle)) ≡ compare (be_value low) (be_value middle)
integer_key_compare-be_value_example =
    integer_key_compare-be_value low middle low-IsBytes middle-IsBytes refl

env_test-to_flags-Has_example :
    (env_test
        (to_flags env_option (EnvOption.no_sub_dir ∷ EnvOption.read_only ∷ []))
        EnvOption.read_only
      ≡ true)
    ↔ Has (EnvOption.no_sub_dir ∷ EnvOption.read_only ∷ []) EnvOption.read_only
env_test-to_flags-Has_example =
    env_test-to_flags-Has (EnvOption.no_sub_dir ∷ EnvOption.read_only ∷ []) EnvOption.read_only

dbi_test-to_flags-Has_example :
    (dbi_test (to_flags dbi_option (DbiOption.create ∷ [])) DbiOption.dup_sort ≡ true)
    ↔ Has (DbiOption.create ∷ []) DbiOption.dup_sort
dbi_test-to_flags-Has_example = dbi_test-to_flags-Has (DbiOption.create ∷ []) DbiOption.dup_sort

Jvm-register_custom_comparer_example :
    ((g : ValCompare) × (standard_comparers no_hash custom_1 ≡ some g)
      × (Jvm.register_custom_comparer no_slots custom_1 length_compare ≡ thrown only_custom_slots))
    ⊎ ((m' : Slots ValCompare) × (standard_comparers no_hash custom_1 ≡ none)
        × (Jvm.register_custom_comparer no_slots custom_1 length_compare ≡ ok m')
        × (Jvm.is_custom_comparer_registered m' custom_1 ≡ true)
        × (Jvm.get_comparer_callback no_hash m' custom_1 ≡ ok length_compare)
        × (Jvm.get_comparer_callback no_hash m' custom_2
            ≡ Jvm.get_comparer_callback no_hash no_slots custom_2)
        × (Jvm.is_custom_comparer_registered m' custom_2
            ≡ Jvm.is_custom_comparer_registered no_slots custom_2))
Jvm-register_custom_comparer_example =
    Jvm-register_custom_comparer no_hash no_slots custom_1 custom_2 length_compare (λ e. cc)

abbrev empty : Registry
empty = record { custom_comparers = no_slots; native_comparers = no_slots }

abbrev filled : Registry
filled = record {
  custom_comparers = assign no_slots custom_1 length_compare;
  native_comparers = no_slots;
}

fills : Native.register_custom_comparer empty custom_1 length_compare ≡ ok filled
unfolding Native.register_custom_comparer
fills = refl

unset : Native.get_native_custom_comparer empty custom_1 ≡ none
unfolding Native.get_native_custom_comparer
unset = refl

Native-register_custom_comparer_example :
    (Native.get_custom_comparer filled custom_1 ≡ some length_compare)
    × (Native.is_custom_comparer_registered filled custom_1 ≡ true)
    × (Native.get_comparer_callback no_hash filled custom_1 ≡ thrown not_registered)
Native-register_custom_comparer_example =
    Native-register_custom_comparer no_hash empty filled custom_1 length_compare fills unset
