-- ===== src/Comparers/Registry/Native.antt =====
-- nativeMain/kotlin/ValComparerRegistryImpl.kt and ValComparers.kt: two maps, one for Kotlin
-- functions and one for C functions. The C function of a standard comparer calls the Kotlin one.
use kotlin_lmdb.Common.{Bool, ◌||◌, Option, ℤ, List, if◌then◌else◌, ℕ}
use kotlin_lmdb.Checks.{Result, ok, thrown, only_custom_slots}
use kotlin_lmdb.Comparers.Registry.{
  ValComparer, ValCompare, Slots, no_slots, assign, is_custom_slot, is_custom_comparer,
  standard_comparers,
}
use kotlin_lmdb.Comparers.Registry.Jvm.{contains_key, callback}

-- A C function is known by the comparison that it makes.
pub record Registry : Type 0 where
  pub custom_comparers : Slots ValCompare
  pub native_comparers : Slots ValCompare

unfoldable pub register_custom_comparer : Registry → ValComparer → ValCompare → Result Registry
register_custom_comparer r slot f =
    if is_custom_slot slot
    then ok (record r { custom_comparers = assign r.custom_comparers slot f })
    else thrown only_custom_slots

unfoldable pub register_native_custom_comparer :
    Registry → ValComparer → ValCompare → Result Registry
register_native_custom_comparer r slot f =
    if is_custom_slot slot
    then ok (record r { native_comparers = assign r.native_comparers slot f })
    else thrown only_custom_slots

unfoldable pub get_custom_comparer : Registry → ValComparer → Option ValCompare
get_custom_comparer r slot = r.custom_comparers slot

unfoldable pub get_native_custom_comparer : Registry → ValComparer → Option ValCompare
get_native_custom_comparer r slot = r.native_comparers slot

unfoldable pub is_custom_comparer_registered : Registry → ValComparer → Bool
is_custom_comparer_registered r slot =
    contains_key r.native_comparers slot || contains_key r.custom_comparers slot

unfoldable pub is_native_custom_comparer_registered : Registry → ValComparer → Bool
is_native_custom_comparer_registered r slot = contains_key r.native_comparers slot

unfoldable pub clear_custom_comparers : Registry → Registry
clear_custom_comparers r = record { custom_comparers = no_slots; native_comparers = no_slots }

unfoldable pub get_comparer_callback : (List ℕ → ℤ) → Registry → ValComparer → Result ValCompare
unfolding get_native_custom_comparer
get_comparer_callback hash r c =
    callback (standard_comparers hash c) (is_custom_comparer c) (get_native_custom_comparer r c)
