-- ===== src/Cursor/Walk.antt =====
-- What asSequence yields, and how it ends.
use kotlin_lmdb.Common.{
  ℕ, zero, suc, ◌<◌, List, [], ◌∷◌, length, ℤ, pos, ◌≡◌, ◌≢◌, refl, arith, ap, ◌∙◌,
}
use kotlin_lmdb.Checks.{Result, ok, thrown, native_error, check, build_read_result, not_found}
use kotlin_lmdb.Cursor.{NativeCursor, Triple, Ending, finished, failed, next, round, as_sequence}

module _ {S V : Type 0} (n : NativeCursor S V) where
  -- From the state on, mdb_cursor_get with MDB_NEXT gives the entries with status 0, and then
  -- MDB_NOTFOUND.
  abbrev pub Walks : S → List (V × V) → Type 0
  Walks s [] =
      (k : V) × (v : V) × (s' : S) × (n.cursor_get s 8 n.output n.output ≡ ((not_found, k, v), s'))
  Walks s ((k, v) ∷ es) =
      (s' : S) × (n.cursor_get s 8 n.output n.output ≡ ((pos 0, k, v), s')) × Walks s' es

  round-finished :
      (rest : S → List (Triple V) × Ending) (r : Result (Triple V) × S)
      → ((s : S) → (rest s).1 ≢ finished)
      → (round n rest r).1 ≢ finished
  unfolding round check
  round-finished rest (thrown e, s) h = λ p. cc
  round-finished rest (ok t, s) h = ground (arith, h s)

  -- asSequence never ends normally: whatever the native cursor answers, after any number of
  -- rounds it is still going or has thrown.
  pub as_sequence-finished : (fuel : ℕ) (s : S) → (as_sequence n fuel s).1 ≢ finished
  unfolding as_sequence
  as_sequence-finished zero s = λ p. cc
  as_sequence-finished (suc fuel) s =
      round-finished (as_sequence n fuel) (next n s) (as_sequence-finished fuel)

  next_found :
      (s s' : S) (k v : V)
      → n.cursor_get s 8 n.output n.output ≡ ((pos 0, k, v), s')
      → next n s ≡ (ok (pos 0, k, v), s')
  unfolding next
  next_found s s' k v e = ap (λ (r : (ℤ × V × V) × S). (build_read_result r.0.0 r.0.1 r.0.2, r.1)) e

  next_end :
      (s s' : S) (k v : V)
      → n.cursor_get s 8 n.output n.output ≡ ((not_found, k, v), s')
      → next n s ≡ (ok (not_found, k, v), s')
  unfolding next
  next_end s s' k v e = ap (λ (r : (ℤ × V × V) × S). (build_read_result r.0.0 r.0.1 r.0.2, r.1)) e

  abbrev pub triples : List (V × V) → List (Triple V)
  triples [] = []
  triples ((k, v) ∷ es) = (pos 0, k, v) ∷ triples es

  round_end :
      (rest : S → List (Triple V) × Ending) (s : S) (k v : V)
      → round n rest (ok (not_found, k, v), s) ≡ ([], failed (native_error not_found))
  unfolding round check
  round_end rest s k v = refl

  round_found :
      (rest : S → List (Triple V) × Ending) (s : S) (k v : V)
      → round n rest (ok (pos 0, k, v), s) ≡ ((pos 0, k, v) ∷ (rest s).0, (rest s).1)
  unfolding round
  round_found rest s k v = refl

  -- Over a cursor that walks the entries, asSequence yields all of them in their order, and then
  -- throws LmdbException with the message of MDB_NOTFOUND.
  pub as_sequence-Walks :
      (es : List (V × V)) (s : S) (fuel : ℕ)
      → Walks s es
      → length es < fuel
      → as_sequence n fuel s ≡ (triples es, failed (native_error not_found))
  unfolding as_sequence
  as_sequence-Walks es s zero w h = absurd (omega arith)
  as_sequence-Walks [] s (suc fuel) (k, v, s', e) h =
      ap (round n (as_sequence n fuel)) (next_end s s' k v e)
      ∙ round_end (as_sequence n fuel) s' k v
  as_sequence-Walks ((k, v) ∷ es) s (suc fuel) (s', e, w) h =
      ap (round n (as_sequence n fuel)) (next_found s s' k v e)
      ∙ round_found (as_sequence n fuel) s' k v
      ∙ ap
          (λ (r : List (Triple V) × Ending).
            (let q : List (Triple V) × Ending = ((pos 0, k, v) ∷ r.0, r.1) in q))
          (as_sequence-Walks es s' fuel w (omega arith))
