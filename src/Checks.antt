-- ===== src/Checks.antt =====
-- Checks.kt and LmdbException.kt: status codes of the native library become exceptions.
use kotlin_lmdb.Common.{Bool, false, ◌||◌, ◌==◌, if◌then◌else◌, ℤ, pos, negsuc, is_zero}

-- The exceptions of the library, by the place that throws them.
pub data Exception : Type 0 where
  -- LmdbException(native_mdb_strerror(code))
  native_error : ℤ → Exception
  -- LmdbException("Env is not open")
  env_not_open : Exception
  -- checkReady, reset and renew of a transaction in another state
  invalid_state invalid_for_reset invalid_for_renew : Exception
  -- IllegalArgumentException and IllegalStateException of the comparers
  only_custom_slots unsupported_comparer not_registered : Exception

pub data Result {ℓ} (A : Type ℓ) : Type ℓ where
  ok : A → Result A
  thrown : Exception → Result A

-- MDB_NOTFOUND, -30798.
abbrev pub not_found : ℤ
not_found = negsuc 30797

abbrev pub is_not_found : ℤ → Bool
is_not_found (pos n) = false
is_not_found (negsuc n) = n == 30797

unfoldable pub check : ℤ → Result ℤ
check result = if is_zero result then ok result else thrown (native_error result)

unfoldable pub check_read : ℤ → Result ℤ
check_read result =
    if is_zero result || is_not_found result then ok result else thrown (native_error result)

-- A Triple of a status, a key and a value.
module _ {ℓ} {V : Type ℓ} where
  unfoldable pub build_result : ℤ → V → V → Result (ℤ × V × V)
  build_result result key value =
      if is_zero result then ok (result, key, value) else thrown (native_error result)

  unfoldable pub build_read_result : ℤ → V → V → Result (ℤ × V × V)
  build_read_result result key value =
      if is_zero result || is_not_found result
      then ok (result, key, value)
      else thrown (native_error result)
