-- ===== src/Nodes/Slots.antt =====
-- mdb.c: the loops of mdb_node_add and mdb_node_del over mp_ptrs.
use kotlin_lmdb.Common.{
  ℕ, zero, suc, ◌+◌, ◌≤◌, ◌<◌, ◌==◌, ◌≡◌, ◌≢◌, ◌⊎◌, inl, inr, refl, sym, ap, ◌∙◌, arith, dec_lt,
  Bool-cases,
}
use kotlin_lmdb.Nodes.{put}
use kotlin_lmdb.Nodes.Add.{shift_ptrs}
use kotlin_lmdb.Nodes.Del.{moved_ptr, close_ptrs}

pub put_other : (f : ℕ → ℕ) (at v x : ℕ) → x ≢ at → put f at v x ≡ f x
put_other f at v x h = ground arith

pub put_here : (f : ℕ → ℕ) (at v x : ℕ) → x ≡ at → put f at v x ≡ v
put_here f at v x h = ground arith

pub shift_ptrs_low :
    (indx r : ℕ) (ptrs : ℕ → ℕ) (x : ℕ) → x ≤ indx → shift_ptrs indx r ptrs x ≡ ptrs x
unfolding shift_ptrs
shift_ptrs_low indx zero ptrs x h = refl
shift_ptrs_low indx (suc r) ptrs x h =
    shift_ptrs_low indx r _ x h
    ∙ put_other ptrs (indx + suc r) (ptrs (indx + r)) x (λ e. absurd (omega arith))

shift_ptrs_high :
    (indx r : ℕ) (ptrs : ℕ → ℕ) (x : ℕ) → indx + r < x → shift_ptrs indx r ptrs x ≡ ptrs x
unfolding shift_ptrs
shift_ptrs_high indx zero ptrs x h = refl
shift_ptrs_high indx (suc r) ptrs x h =
    shift_ptrs_high indx r _ x (omega arith)
    ∙ put_other ptrs (indx + suc r) (ptrs (indx + r)) x (λ e. absurd (omega arith))

-- The slots after `indx` have moved up by one.
pub shift_ptrs_lem :
    (indx r : ℕ) (ptrs : ℕ → ℕ) (x : ℕ)
    → indx ≤ x
    → x < indx + r
    → shift_ptrs indx r ptrs (suc x) ≡ ptrs x
unfolding shift_ptrs
shift_ptrs_lem indx zero ptrs x h l = absurd (omega arith)
shift_ptrs_lem indx (suc r) ptrs x h l = elim (dec_lt x (indx + r)) [
  | yes q ↦
      shift_ptrs_lem indx r _ x h q
      ∙ put_other ptrs (indx + suc r) (ptrs (indx + r)) x (λ e. absurd (omega arith))
  | no q ↦
      let last : x ≡ indx + r = omega arith in
      shift_ptrs_high indx r _ (suc x) (omega arith)
      ∙ put_here ptrs (indx + suc r) (ptrs (indx + r)) (suc x) (omega arith)
      ∙ ap ptrs (sym last)
]

-- Where the loop of mdb_node_del stands.
abbrev Stands : (indx i j : ℕ) → Type 0
Stands indx i j = ((i ≤ indx) × (j ≡ i)) ⊎ ((indx < i) × (suc j ≡ i))

module _ (indx ptr sz : ℕ) where
  abbrev closed : (r i j : ℕ) → (ℕ → ℕ) → ℕ → ℕ
  closed r i j ptrs = close_ptrs indx ptr sz r i j ptrs

  close_ptrs_done : (r i j : ℕ) (ptrs : ℕ → ℕ) (x : ℕ) → x < j → closed r i j ptrs x ≡ ptrs x
  unfolding close_ptrs
  close_ptrs_done zero i j ptrs x h = refl
  close_ptrs_done (suc r) i j ptrs x h = elim (Bool-cases (i == indx)) [
    | inl e ↦ rw e (close_ptrs_done r (suc i) j ptrs x h)
    | inr e ↦ rw e (
        close_ptrs_done r (suc i) (suc j) (put ptrs j (moved_ptr ptr sz (ptrs i))) x (omega arith)
        ∙ put_other ptrs j (moved_ptr ptr sz (ptrs i)) x (λ f. absurd (omega arith)))
  ]

  -- The slot `k` goes to `to`, one down if it is after `indx`.
  pub close_ptrs_lem :
      (r i j : ℕ) (ptrs : ℕ → ℕ) (k to : ℕ)
      → Stands indx i j
      → Stands indx k to
      → k ≢ indx
      → i ≤ k
      → k < i + r
      → closed r i j ptrs to ≡ moved_ptr ptr sz (ptrs k)
  unfolding close_ptrs
  close_ptrs_lem zero i j ptrs k to s t n h l = absurd (omega arith)
  close_ptrs_lem (suc r) i j ptrs k to s t n h l = elim (Bool-cases (i == indx)) [
    | inl e ↦
        let at : i ≡ indx = ground arith in
        rw e (close_ptrs_lem r (suc i) j ptrs k to (omega arith) t n (omega arith) (omega arith))
    | inr e ↦
        let off : i ≢ indx = ground arith in
        let moved = moved_ptr ptr sz (ptrs i) in
        rw e (elim (dec_lt i k) [
          | yes q ↦
              close_ptrs_lem r (suc i) (suc j) (put ptrs j moved) k to (omega arith) t n
                (omega arith) (omega arith)
              ∙ ap (moved_ptr ptr sz) (put_other ptrs j moved k (λ f. absurd (omega arith)))
          | no q ↦
              let here : i ≡ k = omega arith in
              close_ptrs_done r (suc i) (suc j) (put ptrs j moved) to (omega arith)
              ∙ put_here ptrs j moved to (omega arith)
              ∙ ap (λ x. moved_ptr ptr sz (ptrs x)) here
        ])
  ]
