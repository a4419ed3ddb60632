-- ===== src/Idl/Copies.antt =====
-- midl.c: what memcpy writes in mdb_midl_append_list.
use kotlin_lmdb.Common.{
  ℕ, zero, suc, ◌+◌, ◌^◌, ◌≤◌, ◌<◌, some, List, [], ◌∷◌, get_elem?, get_or, set, >>=-some, length,
  ◌≡◌, arith, refl, length-set, get_elem?-set_ne, ap, sym, ◌∙◌,
}
use kotlin_lmdb.Idl.{Idl, IsIdl, count}
use kotlin_lmdb.Idl.Memory.{copy_to, words_at}
use kotlin_lmdb.Idl.Append.{append_list_write}
use kotlin_lmdb.Idl.Grown.{Appended, count-set}
use native.Mathlib.Nat.{mod-eq_of_lt}

-- `new` is `old` with `ws` written from cell `k` on.
pub record Copied (old : List ℕ) (k : ℕ) (ws new : List ℕ) : Type 0 where
  pub size : length new ≡ length old
  pub before : (i : ℕ) → i < k → get_elem? new i ≡ get_elem? old i
  pub written : (i v : ℕ) → get_elem? ws i ≡ some v → get_elem? new (k + i) ≡ some v

get_elem?-suc_add :
    (x : ℕ) (xs : List ℕ) (k i : ℕ) → get_elem? (x ∷ xs) (suc k + i) ≡ get_elem? xs (k + i)
get_elem?-suc_add x xs k i =
    ap (get_elem? (x ∷ xs)) (let e : suc k + i ≡ suc (k + i) = omega arith in e)

Copied-word :
    (x w : ℕ) (old ws new : List ℕ) → Copied old 0 ws new → Copied (x ∷ old) 0 (w ∷ ws) (w ∷ new)
Copied-word x w old ws new c = record {
  size = omega (arith, c.size);
  before = λ i h. absurd (omega arith);
  written = written;
}
  where
    written : (i v : ℕ) → get_elem? (w ∷ ws) i ≡ some v → get_elem? (w ∷ new) (0 + i) ≡ some v
    written zero v e = e
    written (suc i) v e =
        ap (get_elem? (w ∷ new)) (let e : 0 + suc i ≡ suc (0 + i) = omega arith in e)
        ∙ c.written i v e

Copied-skip :
    (x k : ℕ) (old ws new : List ℕ) → Copied old k ws new → Copied (x ∷ old) (suc k) ws (x ∷ new)
Copied-skip x k old ws new c = record {
  size = omega (arith, c.size);
  before = before;
  written = λ i v e. get_elem?-suc_add x new k i ∙ c.written i v e;
}
  where
    before : (i : ℕ) → i < suc k → get_elem? (x ∷ new) i ≡ get_elem? (x ∷ old) i
    before zero h = refl
    before (suc i) h = c.before i (omega arith)

-- memcpy inside the allocation writes the words and keeps what stands before them.
copy_to_lem :
    (cells : List ℕ) (k : ℕ) (ws : List ℕ)
    → k + length ws ≤ length cells
    → (new : List ℕ) × (copy_to cells k ws ≡ some new) × Copied cells k ws new
unfolding copy_to
copy_to_lem cells zero [] h =
    (cells, refl, record { size = refl; before = λ i h. refl; written = λ i v e. cc })
copy_to_lem [] zero (w ∷ ws) h = absurd (omega arith)
copy_to_lem (x ∷ cells) zero (w ∷ ws) h =
    let (new, e, c) = copy_to_lem cells zero ws (omega arith) in
    (w ∷ new, rw e, Copied-word x w cells ws new c)
copy_to_lem [] (suc k) ws h = absurd (omega arith)
copy_to_lem (x ∷ cells) (suc k) ws h =
    let (new, e, c) = copy_to_lem cells k ws (omega arith) in
    (x ∷ new, rw e, Copied-skip x k cells ws new c)

-- The words that memcpy reads are those of the cells.
pub words_at_lem :
    (cells : List ℕ) (k n : ℕ)
    → k + n ≤ length cells
    → (ws : List ℕ) × (words_at cells k n ≡ some ws)
      × (length ws ≡ n)
      × ((i : ℕ) → i < n → get_elem? ws i ≡ get_elem? cells (k + i))
unfolding words_at
words_at_lem cells zero zero h = ([], refl, refl, λ i h. absurd (omega arith))
words_at_lem [] zero (suc n) h = absurd (omega arith)
words_at_lem (x ∷ cells) zero (suc n) h =
    let (ws, e, l, c) = words_at_lem cells zero n (omega arith) in
    (x ∷ ws, rw e, ap suc l, get ws c)
  where
    get :
        (ws : List ℕ)
        → ((i : ℕ) → i < n → get_elem? ws i ≡ get_elem? cells (0 + i))
        → (i : ℕ) → i < suc n
        → get_elem? (x ∷ ws) i ≡ get_elem? (x ∷ cells) (0 + i)
    get ws c zero h = refl
    get ws c (suc i) h =
        c i (omega arith)
        ∙ ap (get_elem? (x ∷ cells)) (let e : suc (0 + i) ≡ 0 + suc i = omega arith in e)
words_at_lem [] (suc k) n h = absurd (omega arith)
words_at_lem (x ∷ cells) (suc k) n h =
    let (ws, e, l, c) = words_at_lem cells k n (omega arith) in
    (ws, e, l, λ i h. c i h ∙ sym (get_elem?-suc_add x cells k i))

-- The IDs of a list, from cell 1 on.
abbrev pub Holds : Idl → List ℕ → Type 0
Holds ids ws =
    (length ws ≡ count ids)
    × ((i : ℕ) → i < count ids → get_elem? ws i ≡ get_elem? ids.cells (1 + i))

abbrev pub list : ℕ → List ℕ → Idl
list cap cells = record { cap = cap; cells = cells }

pub append_list_write_lem :
    (app ids : Idl) (ws : List ℕ)
    → words_at app.cells 1 (count app) ≡ some ws
    → length ws ≡ count app
    → IsIdl ids
    → count ids + length ws ≤ ids.cap
    → ids.cap < 2 ^ 59
    → (new : Idl) × (append_list_write app ids ≡ some new) × Appended ids ws new
unfolding append_list_write
append_list_write_lem app ids ws e l w h k =
    let (new, f, c) = copy_to_lem ids.cells (count ids + 1) ws (omega (arith, w.sized)) in
    let n = count ids + count app in
    let counted : get_or (set new 0 n) 0 0 ≡ n = count-set new n (omega (arith, c.size, w.sized)) in
    (
      record { cap = ids.cap; cells = set new 0 n },
      >>=-some _ e (
          >>=-some _ f
            (ap (λ m. some (list ids.cap (set new 0 m))) (mod-eq_of_lt (omega (arith, l))))),
      record {
        valid = record {
          fits = omega (arith, counted, l);
          sized = length-set new 0 n ∙ c.size ∙ w.sized;
        };
        count_eq = omega (arith, counted, l);
        keeps = λ i p q. get_elem?-set_ne new 0 i n (omega arith) ∙ c.before i (omega arith);
        adds =
            λ i v p. get_elem?-set_ne new 0 (count ids + 1 + i) n (omega arith) ∙ c.written i v p;
      },
    )
