-- ===== src/Idl/MergeCells.antt =====
-- midl.c: mdb_midl_xmerge writes the merged list from its end. The cells after `k` are done.
use kotlin_lmdb.Common.{
  ℕ, suc, ◌+◌, ◌≤◌, ◌<◌, some, List, get_elem?, set, length, get_elem?-set_self, get_elem?-set_ne,
  ◌≡◌, ◌⊎◌, inl, inr, ◌↔◌, sym, ap, ◌∙◌, subst, arith, dec_lt,
}
use mathlib.Core.Option.{some-injective}
use kotlin_lmdb.Idl.{Idl, IsIdl, IsFalling, count}

-- `v` is in one of the cells 1 to `n`.
abbrev pub Among : List ℕ → ℕ → ℕ → Type 0
Among cells n v = (p : ℕ) × (1 ≤ p) × (p ≤ n) × (get_elem? cells p ≡ some v)

-- `v` is an ID of the list.
abbrev pub Has : Idl → ℕ → Type 0
Has ids v = Among ids.cells (count ids) v

-- `new` is `idl` with the IDs of both.
pub record Merged (idl merge new : Idl) : Type 0 where
  pub valid : IsIdl new
  pub same_cap : new.cap ≡ idl.cap
  pub count_eq : count new ≡ count merge + count idl
  pub falling : IsFalling new
  pub same_ids : (v : ℕ) → Has new v ↔ (Has idl v ⊎ Has merge v)

-- The merged list of all IDs of `Src`, of which the cells after `k`, up to `total`, are done and
-- those of `Rest` are not.
pub record Done (total : ℕ) (Src Rest : ℕ → Type 0) (k : ℕ) (c : List ℕ) : Type 0 where
  pub fall :
      (p q x y : ℕ)
      → k < p
      → p < q
      → q ≤ total
      → get_elem? c p ≡ some x
      → get_elem? c q ≡ some y
      → y < x
  pub above : (p x y : ℕ) → Rest x → k < p → p ≤ total → get_elem? c p ≡ some y → y < x
  pub from : (p y : ℕ) → k < p → p ≤ total → get_elem? c p ≡ some y → Src y
  pub cover :
      (v : ℕ) → Src v → Rest v ⊎ ((p : ℕ) × (k < p) × (p ≤ total) × (get_elem? c p ≡ some v))

-- Writing the least of the rest at `k` leaves one cell less to do.
module _ (total : ℕ) (Src Rest Rest' : ℕ → Type 0) (k k' v : ℕ) (c : List ℕ) (down : k ≡ suc k')
    (d : Done total Src Rest k c) (within : k ≤ total) (b : k < length c) (rest : Rest v)
    (less : (x : ℕ) → Rest' x → Rest x × (v < x)) (left : (x : ℕ) → Rest x → Rest' x ⊎ (x ≡ v))
    (src : Src v) where
  abbrev pub written : List ℕ
  written = set c k v

  at_k : get_elem? written k ≡ some v
  at_k = get_elem?-set_self c k v b

  beyond : (p : ℕ) → k < p → get_elem? written p ≡ get_elem? c p
  beyond p h = get_elem?-set_ne c k p v (omega arith)

  value_at_k : (p x : ℕ) → k' < p → get_elem? written p ≡ some x → (k < p) ⊎ (x ≡ v)
  value_at_k p x h e = elim (dec_lt k p) [
    | yes q ↦ inl q
    | no q ↦ inr (
        some-injective x v
          (sym e ∙ ap (get_elem? written) (let e : p ≡ k = omega arith in e) ∙ at_k))
  ]

  pub put-Done : Done total Src Rest' k' written
  put-Done = record {
    fall = λ p q x y h i j ex ey.
        let ey' = sym (beyond q (omega arith)) ∙ ey in
        elim (value_at_k p x h ex) [
          | inl s ↦ d.fall p q x y s i j (sym (beyond p s) ∙ ex) ey'
          | inr s ↦ subst (λ t. y < t) (sym s) (d.above q v y rest (omega arith) j ey')
        ];
    above = λ p x y r h i e. elim (value_at_k p y h e) [
      | inl s ↦ d.above p x y (less x r).0 s i (sym (beyond p s) ∙ e)
      | inr s ↦ subst (λ t. t < x) (sym s) (less x r).1
    ];
    from = λ p y h i e. elim (value_at_k p y h e) [
      | inl s ↦ d.from p y s i (sym (beyond p s) ∙ e)
      | inr s ↦ subst Src (sym s) src
    ];
    cover = λ x r. elim (d.cover x r) [
      | inl q ↦ elim (left x q) [
        | inl q' ↦ inl q'
        | inr q' ↦ inr (k, omega arith, within, at_k ∙ ap some (sym q'))
      ]
      | inr q ↦ inr (q.0, omega (arith, q.1), q.2, beyond q.0 q.1 ∙ q.3)
    ];
  }
