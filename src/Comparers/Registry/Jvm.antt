-- ===== src/Comparers/Registry/Jvm.antt =====
-- jvmMain/kotlin/ValComparerRegistryImpl.kt and ValComparers.kt.
use kotlin_lmdb.Common.{Bool, true, false, Option, none, some, ℤ, List, if◌then◌else◌, ℕ}
use kotlin_lmdb.Checks.{Result, ok, thrown, only_custom_slots, not_registered, unsupported_comparer}
use kotlin_lmdb.Comparers.Registry.{
  ValComparer, ValCompare, Slots, no_slots, assign, is_custom_slot, is_custom_comparer,
  standard_comparers,
}

unfoldable pub register_custom_comparer :
    Slots ValCompare → ValComparer → ValCompare → Result (Slots ValCompare)
register_custom_comparer m slot f =
    if is_custom_slot slot then ok (assign m slot f) else thrown only_custom_slots

unfoldable pub get_custom_comparer : Slots ValCompare → ValComparer → Option ValCompare
get_custom_comparer m slot = m slot

abbrev pub contains_key : {F : Type 0} → Slots F → ValComparer → Bool
contains_key m slot = elim (m slot) [ none ↦ false | some f ↦ true ]

unfoldable pub is_custom_comparer_registered : Slots ValCompare → ValComparer → Bool
is_custom_comparer_registered m slot = contains_key m slot

unfoldable pub clear_custom_comparers : Slots ValCompare → Slots ValCompare
clear_custom_comparers m = no_slots

-- The custom function, or IllegalStateException.
abbrev pub registered : {F : Type 0} → Option F → Result F
registered none = thrown not_registered
registered (some f) = ok f

abbrev pub callback : {F : Type 0} → Option F → Bool → Option F → Result F
callback (some f) custom o = ok f
callback none true o = registered o
callback none false o = thrown unsupported_comparer

-- The function that the callback calls on the two values.
unfoldable pub get_comparer_callback :
    (List ℕ → ℤ) → Slots ValCompare → ValComparer → Result ValCompare
unfolding get_custom_comparer
get_comparer_callback hash m c =
    callback (standard_comparers hash c) (is_custom_comparer c) (get_custom_comparer m c)
