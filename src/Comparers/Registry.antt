-- ===== src/Comparers/Registry.antt =====
-- ValComparers.kt, ValComparerRegistryImpl.kt and the ValComparerImpl objects: the names of the
-- comparison functions, the tables behind them, and the registries of custom functions.
pub mod Jvm
pub mod Native
pub mod Standard
pub mod Laws
use mathlib.Core.Logic.{ite}
use kotlin_lmdb.Common.{Bool, true, false, Option, none, some, ℤ, List, if◌then◌else◌, ℕ, ◌≡◌}
use kotlin_lmdb.Checks.{Result, ok, thrown, only_custom_slots}
use kotlin_lmdb.Comparers.{
  Val, bitwise_compare, reverse_bitwise_compare, lexicographical_string_compare,
  reverse_lexicographical_string_compare, integer_key_compare, reverse_integer_key_compare,
  length_compare, reverse_length_compare, length_only_compare, reverse_length_only_compare,
  hash_code_compare, reverse_hash_code_compare,
}

pub data ValComparer : Type 0 where
  bitwise reverse_bitwise lexicographic_string reverse_lexicographic_string : ValComparer
  integer_key reverse_integer_key length reverse_length : ValComparer
  length_only reverse_length_only hash_code reverse_hash_code : ValComparer
  custom_1 custom_2 custom_3 custom_4 : ValComparer

pub ValComparer-discrete : Discrete ValComparer
ValComparer-discrete = hlevel

abbrev pub ValCompare : Type 0
ValCompare = Val → Val → ℤ

-- `standardComparers[comparer]`; `hash` is contentHashCode.
abbrev pub standard_comparers : (List ℕ → ℤ) → ValComparer → Option ValCompare
standard_comparers hash bitwise = some bitwise_compare
standard_comparers hash reverse_bitwise = some reverse_bitwise_compare
standard_comparers hash lexicographic_string = some lexicographical_string_compare
standard_comparers hash reverse_lexicographic_string = some reverse_lexicographical_string_compare
standard_comparers hash integer_key = some integer_key_compare
standard_comparers hash reverse_integer_key = some reverse_integer_key_compare
standard_comparers hash length = some length_compare
standard_comparers hash reverse_length = some reverse_length_compare
standard_comparers hash length_only = some length_only_compare
standard_comparers hash reverse_length_only = some reverse_length_only_compare
standard_comparers hash hash_code = some (hash_code_compare hash)
standard_comparers hash reverse_hash_code = some (reverse_hash_code_compare hash)
standard_comparers hash _ = none

-- The slots that registerCustomComparer and validateCustomSlot accept.
abbrev pub is_custom_slot : ValComparer → Bool
is_custom_slot custom_1 = true
is_custom_slot custom_2 = true
is_custom_slot custom_3 = true
is_custom_slot custom_4 = true
is_custom_slot _ = false

-- isCustomComparer, for the callback.
abbrev pub is_custom_comparer : ValComparer → Bool
is_custom_comparer custom_1 = true
is_custom_comparer custom_2 = true
is_custom_comparer custom_3 = true
is_custom_comparer custom_4 = true
is_custom_comparer _ = false

-- A mutable map from slots to functions.
abbrev pub Slots : Type 0 → Type 0
Slots F = ValComparer → Option F

abbrev pub no_slots : {F : Type 0} → Slots F
no_slots c = none

-- `map[slot] = f`
pub assign : {F : Type 0} → Slots F → ValComparer → F → Slots F
assign m slot f c = ite (ValComparer-discrete slot c) (some f) (m c)
