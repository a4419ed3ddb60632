-- ===== src/Cursor.antt =====
-- Cursor.kt: the cursor object, its calls of the native library, and the lazy sequence.
pub mod Walk
use kotlin_lmdb.Common.{
  ℕ, zero, suc, Bool, true, false, Option, none, some, List, [], ◌∷◌, ◌++◌, ℤ, pos, is_zero,
  if◌then◌else◌,
}
use kotlin_lmdb.Checks.{
  Exception, Result, ok, thrown, native_error, check, build_result, build_read_result,
}
use kotlin_lmdb.Options.{CursorOption, CursorPutOption, cursor_option, cursor_put_option}

-- The native cursor: `S` is what it keeps, `V` the type of the values. Each function is one of the
-- library's, with the number of the operation.
pub record NativeCursor (S V : Type 0) : Type 0 where
  -- mdb_cursor_get on the key and the value that it is given: the status, and the two after it
  pub cursor_get : S → ℕ → V → V → (ℤ × V × V) × S
  pub cursor_put : S → ℕ → V → V → (ℤ × V × V) × S
  pub cursor_del : S → ℕ → ℤ × S
  pub cursor_count : S → (ℤ × ℕ) × S
  -- MDBVal.output() and Val.output()
  pub output : V

-- A Triple of status, key and value.
abbrev pub Triple : Type 0 → Type 0
Triple V = ℤ × V × V

-- `check(…)`, and then the value that was written through the pointer.
abbrev pub and_value : {A : Type 0} → Result ℤ → A → Result A
and_value (ok r) a = ok a
and_value (thrown e) a = thrown e

-- How a run over the sequence ends: by the end of the loop, by an exception, or not within the
-- rounds that are looked at.
pub data Ending : Type 0 where
  finished still_going : Ending
  failed : Exception → Ending

-- After the last element: `hasNext = false; check(result.first)`.
abbrev pub at_end : Result ℤ → Ending
at_end (ok r) = finished
at_end (thrown e) = failed e

module _ {S V : Type 0} (n : NativeCursor S V) where
  -- get(option), get(key, option) and get(key, data, option).
  unfoldable pub get_at : S → CursorOption → Result (Triple V) × S
  unfolding build_read_result
  get_at s option =
      let ((result, key, value), s') = n.cursor_get s (cursor_option option) n.output n.output in
      (build_read_result result key value, s')

  unfoldable pub get_key : S → V → CursorOption → Result (Triple V) × S
  get_key s k option =
      let ((result, key, value), s') = n.cursor_get s (cursor_option option) k n.output in
      (build_read_result result key value, s')

  unfoldable pub get_both : S → V → V → CursorOption → Result (Triple V) × S
  get_both s k v option =
      let ((result, key, value), s') = n.cursor_get s (cursor_option option) k v in
      (build_read_result result key value, s')

  -- put of the JVM class, and of the native class, which lets MDB_NOTFOUND through.
  unfoldable pub put_jvm : S → V → V → CursorPutOption → Result (Triple V) × S
  put_jvm s k v option =
      let ((result, key, value), s') = n.cursor_put s (cursor_put_option option) k v in
      (build_result result key value, s')

  unfoldable pub put_native : S → V → V → CursorPutOption → Result (Triple V) × S
  put_native s k v option =
      let ((result, key, value), s') = n.cursor_put s (cursor_put_option option) k v in
      (build_read_result result key value, s')

  unfoldable pub delete : S → Result ℤ × S
  delete s = let (result, s') = n.cursor_del s 0 in (check result, s')

  unfoldable pub delete_duplicate_data : S → Result ℤ × S
  delete_duplicate_data s = let (result, s') = n.cursor_del s 0x20 in (check result, s')

  unfoldable pub count_duplicates : S → Result ℕ × S
  count_duplicates s =
      let ((result, count), s') = n.cursor_count s in (and_value (check result) count, s')

  unfoldable pub next : S → Result (Triple V) × S
  unfolding get_at
  next s = get_at s CursorOption.next

  -- One round of the `while` loop of asSequence, after `val result = next()`.
  unfoldable pub round :
      (S → List (Triple V) × Ending) → Result (Triple V) × S → List (Triple V) × Ending
  round rest (thrown e, s) = ([], failed e)
  round rest (ok t, s) =
      let more = rest s in if is_zero t.0 then (t ∷ more.0, more.1) else ([], at_end (check t.0))

  -- The elements that asSequence yields in at most `fuel` rounds, and how it ends.
  unfoldable pub as_sequence : ℕ → S → List (Triple V) × Ending
  unfolding round
  as_sequence zero s = ([], still_going)
  as_sequence (suc fuel) s = round (as_sequence fuel) (next s)
