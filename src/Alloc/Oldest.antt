-- ===== src/Alloc/Oldest.antt =====
-- mdb.c: mdb_find_oldest is the least of the transactions that readers use.
use kotlin_lmdb.Common.{
  ℕ, zero, suc, ◌-◌, ◌≤◌, ◌<◌, Option, none, some, ◌≡◌, ◌≢◌, ◌⊎◌, inl, inr, refl, arith, dec_lt,
  subst, sym, ◌∙◌,
}
use kotlin_lmdb.Alloc.{Reader, Readers, older_of, find_loop, mdb_find_oldest}

-- A slot in use, and the number that its reader looks at.
abbrev pub Reads : Option Readers → ℕ → Type 0
Reads none t = ⊥
Reads (some table) t =
    (i : ℕ) × (i < table.mti_numreaders)
    × ((table.mti_readers i).mr_pid ≢ 0)
    × ((table.mti_readers i).mr_txnid ≡ t)

module _ (r : ℕ → Reader) where
  older_of_bounds :
      (x : Reader) (o : ℕ) → (older_of x o ≤ o) × (x.mr_pid ≢ 0 → older_of x o ≤ x.mr_txnid)
  older_of_bounds x o = (ground arith, λ h. ground arith)

  find_loop-le : (i o : ℕ) → find_loop r i o ≤ o
  unfolding find_loop
  find_loop-le zero o = omega arith
  find_loop-le (suc i) o =
      omega (arith, find_loop-le i (older_of (r i) o), (older_of_bounds (r i) o).0)

  find_loop-reader : (i o k : ℕ) → k < i → (r k).mr_pid ≢ 0 → find_loop r i o ≤ (r k).mr_txnid
  unfolding find_loop
  find_loop-reader zero o k h p = absurd (omega arith)
  find_loop-reader (suc i) o k h p = elim (dec_lt k i) [
    | yes q ↦ find_loop-reader i (older_of (r i) o) k q p
    | no q ↦
        let here : (r k).mr_pid ≢ 0 → older_of (r k) o ≤ (r k).mr_txnid =
          (older_of_bounds (r k) o).1 in
        let same : i ≡ k = omega arith in
        subst (λ n. find_loop r i (older_of (r n) o) ≤ (r k).mr_txnid) (sym same)
          (omega (arith, find_loop-le i (older_of (r k) o), here p))
  ]

  older_of_cases :
      (x : Reader) (o : ℕ) → (older_of x o ≡ o) ⊎ ((x.mr_pid ≢ 0) × (older_of x o ≡ x.mr_txnid))
  older_of_cases x o = ground arith

  find_loop_attained :
      (i o : ℕ)
      → (find_loop r i o ≡ o)
        ⊎ ((k : ℕ) × (k < i) × ((r k).mr_pid ≢ 0) × ((r k).mr_txnid ≡ find_loop r i o))
  unfolding find_loop
  find_loop_attained zero o = inl refl
  find_loop_attained (suc i) o = elim (find_loop_attained i (older_of (r i) o)) [
    | inl e ↦ elim (older_of_cases (r i) o) [
      | inl f ↦ inl (e ∙ f)
      | inr f ↦ inr (i, omega arith, f.0, sym f.1 ∙ sym e)
    ]
    | inr q ↦ inr (q.0, omega (arith, q.1), q.2, q.3)
  ]

-- mdb_find_oldest is the greatest number that is below the transaction and not above that of any
-- reader: it is below the former, not above the latter, and one of them.
pub mdb_find_oldest_lem :
    (txnid : ℕ) (readers : Option Readers)
    → 0 < txnid
    → (mdb_find_oldest txnid readers < txnid)
      × ((t : ℕ) → Reads readers t → mdb_find_oldest txnid readers ≤ t)
      × ((mdb_find_oldest txnid readers ≡ txnid - 1)
          ⊎ Reads readers (mdb_find_oldest txnid readers))
unfolding mdb_find_oldest
mdb_find_oldest_lem txnid none h = (omega arith, λ t f. absurd f, inl refl)
mdb_find_oldest_lem txnid (some table) h =
    let r = table.mti_readers in
    let n = table.mti_numreaders in
    (
      omega (arith, find_loop-le r n (txnid - 1)),
      λ t q.
          subst (λ x. find_loop r n (txnid - 1) ≤ x) q.3
            (find_loop-reader r n (txnid - 1) q.0 q.1 q.2),
      find_loop_attained r n (txnid - 1),
    )
