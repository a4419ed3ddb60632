-- ===== src/Examples/Cursors.antt =====
-- Cursors: asSequence over a cursor that is a list of entries.
use kotlin_lmdb.Common.{ℕ, List, [], ◌∷◌, ◌≡◌, refl, arith, ℤ, pos}
use kotlin_lmdb.Checks.{native_error, not_found}
use kotlin_lmdb.Cursor.{NativeCursor, failed, as_sequence}
use kotlin_lmdb.Cursor.Walk.{Walks, triples, as_sequence-Walks}

-- The entries that are left; every get takes the next one.
abbrev take_next : List (ℕ × ℕ) → ℕ → ℕ → ℕ → (ℤ × ℕ × ℕ) × List (ℕ × ℕ)
take_next [] op k v = ((not_found, k, v), [])
take_next ((k', v') ∷ es) op k v = ((pos 0, k', v'), es)

abbrev over : NativeCursor (List (ℕ × ℕ)) ℕ
over = record {
  cursor_get = take_next;
  cursor_put = λ s op k v. ((pos 0, k, v), s);
  cursor_del = λ s op. (pos 0, s);
  cursor_count = λ s. ((pos 0, 1), s);
  output = 0;
}

abbrev entries : List (ℕ × ℕ)
entries = (1, 10) ∷ (2, 20) ∷ []

entries-Walks : Walks over entries entries
entries-Walks = ((2, 20) ∷ [], refl, ([], refl, (0, 0, [], refl)))

as_sequence-Walks_example :
    as_sequence over 5 entries ≡ (triples over entries, failed (native_error not_found))
as_sequence-Walks_example = as_sequence-Walks over entries entries 5 entries-Walks (omega arith)
