-- ===== src/Idl/MergeSteps.antt =====
-- midl.c: the loops of mdb_midl_xmerge.
use kotlin_lmdb.Common.{
  ℕ, zero, suc, ◌+◌, ◌-◌, ◌^◌, ◌≤◌, ◌<◌, Option, some, List, get_elem?, set, ltb, length,
  length-set, get_elem?-set_self, get_elem?-set_ne, get_elem?-lt_length, >>=-some, ◌≡◌, ◌≢◌, ◌⊎◌,
  inl, inr, sym, ap, ◌∙◌, arith, dec_lt, Bool-cases,
}
use mathlib.Core.Option.{some-injective}
use kotlin_lmdb.Idl.{Idl, IsIdl, IsFalling, count}
use kotlin_lmdb.Idl.Memory.{store}
use kotlin_lmdb.Idl.Merge.{Merging, xmerge_scan}
use kotlin_lmdb.Idl.MergeCells.{Among, Has, Done, put-Done}

module _ (idl merge : Idl) (w : IsIdl idl) (w' : IsIdl merge) (falls : IsFalling idl)
    (falls' : IsFalling merge) (apart : (v : ℕ) → Has idl v → Has merge v → ⊥)
    (room : count merge + count idl ≤ idl.cap) where
  abbrev pub delimited : List ℕ
  delimited = set idl.cells 0 (2 ^ 64 - 1)

  abbrev pub total : ℕ
  total = count merge + count idl

  abbrev pub Src : ℕ → Type 0
  Src v = Has idl v ⊎ Has merge v

  abbrev pub Rest : (i j : ℕ) → ℕ → Type 0
  Rest i j v = Among idl.cells j v ⊎ Among merge.cells i v

  -- The state of the loops with `i` IDs of `merge` left.
  pub record Merges (i j old_id k : ℕ) (c : List ℕ) : Type 0 where
    pub size : length c ≡ length idl.cells
    pub keep : (p : ℕ) → p ≤ j → get_elem? c p ≡ get_elem? delimited p
    pub old : get_elem? delimited j ≡ some old_id
    pub place : k ≡ i + j
    pub i_fits : i ≤ count merge
    pub j_fits : j ≤ count idl
    pub done : Done total Src (Rest i j) k c

  pub unchanged : (p : ℕ) → 0 < p → get_elem? delimited p ≡ get_elem? idl.cells p
  unchanged p h = get_elem?-set_ne idl.cells 0 p (2 ^ 64 - 1) (omega arith)

  last_or_before :
      (cells : List ℕ) (n v x : ℕ)
      → get_elem? cells (suc n) ≡ some v
      → Among cells (suc n) x
      → Among cells n x ⊎ (x ≡ v)
  last_or_before cells n v x e (p, h, l, q) = elim (dec_lt p (suc n)) [
    | yes s ↦ inl (p, h, omega arith, q)
    | no s ↦ inr (
        some-injective x v
          (sym q ∙ ap (get_elem? cells) (let f : p ≡ suc n = omega arith in f) ∙ e))
  ]

  weaken : (cells : List ℕ) (n x : ℕ) → Among cells n x → Among cells (suc n) x
  weaken cells n x (p, h, l, q) = (p, h, omega arith, q)

  -- The last of the first `n` IDs of a falling list is the least of them.
  least :
      (ids : Idl) (n v x : ℕ)
      → IsFalling ids
      → n ≤ count ids
      → get_elem? ids.cells n ≡ some v
      → Among ids.cells n x
      → v ≤ x
  least ids n v x f l e (p, h, q, r) = elim (dec_lt p n) [
    | yes s ↦ omega (arith, f p n x v h s l r e)
    | no s ↦
        let same : x ≡ v =
          some-injective x v
            (sym r ∙ ap (get_elem? ids.cells) (let g : p ≡ n = omega arith in g) ∙ e) in
        omega arith
  ]

  -- `idl[k--] = old_id;`, where it is less than the ID to merge.
  put_old :
      (i m j old_id k : ℕ) (c : List ℕ)
      → get_elem? merge.cells (suc i) ≡ some m
      → old_id < m
      → Merges (suc i) (suc j) old_id k c
      → (old' : ℕ) × (get_elem? (set c k old_id) j ≡ some old')
        × Merges (suc i) j old' (k - 1) (set c k old_id)
  put_old i m j old_id k c e h s =
      let here = sym (unchanged (suc j) (omega arith)) ∙ s.old in
      let next =
        get_elem?-lt_length delimited j
          (omega (arith, s.j_fits, w.fits, w.sized, length-set idl.cells 0 (2 ^ 64 - 1))) in
      let keep : (p : ℕ) → p ≤ j → get_elem? (set c k old_id) p ≡ get_elem? delimited p =
        λ p l. get_elem?-set_ne c k p old_id (omega (arith, s.place)) ∙ s.keep p (omega arith) in
      (
        next.0,
        keep j (omega arith) ∙ next.1,
        record {
          size = length-set c k old_id ∙ s.size;
          keep = keep;
          old = next.1;
          place = omega (arith, s.place);
          i_fits = s.i_fits;
          j_fits = omega (arith, s.j_fits);
          done =
              put-Done total Src (Rest (suc i) (suc j)) (Rest (suc i) j) k (k - 1) old_id c
                (omega (arith, s.place)) s.done (omega (arith, s.place, s.i_fits, s.j_fits))
                (omega (arith, s.place, s.i_fits, s.j_fits, s.size, w.sized, room))
                (inl (suc j, omega arith, omega arith, here))
                (λ x r. elim r [
                  | inl q ↦ (
                    inl (weaken idl.cells j x q),
                    falls q.0 (suc j) x old_id q.1 (omega (arith, q.2)) s.j_fits q.3 here,
                  )
                  | inr q ↦ (inr q, omega (arith, least merge (suc i) m x falls' s.i_fits e q))
                ])
                (λ x r. elim r [
                  | inl q ↦ elim (last_or_before idl.cells j old_id x here q) [
                    | inl q' ↦ inl (inl q')
                    | inr q' ↦ inr q'
                  ]
                  | inr q ↦ inl (inr q)
                ])
                (inl (suc j, omega arith, s.j_fits, here));
        },
      )

  -- `idl[k--] = merge_id;`, where it is not more than `old_id`.
  pub put_merge :
      (i m j old_id k : ℕ) (c : List ℕ)
      → get_elem? merge.cells (suc i) ≡ some m
      → m ≤ old_id
      → Merges (suc i) j old_id k c
      → Merges i j old_id (k - 1) (set c k m)
  put_merge i m j old_id k c e h s = record {
    size = length-set c k m ∙ s.size;
    keep = λ p l. get_elem?-set_ne c k p m (omega (arith, s.place)) ∙ s.keep p l;
    old = s.old;
    place = omega (arith, s.place);
    i_fits = omega (arith, s.i_fits);
    j_fits = s.j_fits;
    done =
        put-Done total Src (Rest (suc i) j) (Rest i j) k (k - 1) m c (omega (arith, s.place)) s.done
          (omega (arith, s.place, s.i_fits, s.j_fits))
          (omega (arith, s.place, s.i_fits, s.j_fits, s.size, w.sized, room))
          (inr (suc i, omega arith, omega arith, e))
          (λ x r. elim r [
            | inl q ↦ (inl q, below_old x q)
            | inr q ↦ (
              inr (weaken merge.cells i x q),
              falls' q.0 (suc i) x m q.1 (omega (arith, q.2)) s.i_fits q.3 e,
            )
          ])
          (λ x r. elim r [
            | inl q ↦ inl (inl q)
            | inr q ↦ elim (last_or_before merge.cells i m x e q) [
              | inl q' ↦ inl (inr q')
              | inr q' ↦ inr q'
            ]
          ])
          (inr (suc i, omega arith, s.i_fits, e));
  }
    where
      below_old : (x : ℕ) → Among idl.cells j x → m < x
      below_old x q =
          let more : old_id ≤ x =
            least idl j old_id x falls s.j_fits
              (sym (unchanged j (omega (arith, q.1, q.2))) ∙ s.old) q in
          let other : x ≢ m = λ f.
            apart x (q.0, q.1, omega (arith, q.2, s.j_fits), q.3)
              (suc i, omega arith, s.i_fits, e ∙ ap some (sym f)) in
          omega arith

  pub store_inside :
      (i j old_id k v : ℕ) (c : List ℕ)
      → Merges (suc i) j old_id k c
      → store c k v ≡ some (set c k v)
  store_inside i j old_id k v c s =
      let inside : k < length c =
        omega (arith, s.place, s.i_fits, s.j_fits, s.size, w.sized, room) in
      ground arith

  abbrev pub merging : (j old_id k : ℕ) → List ℕ → Merging
  merging j old_id k c = record { j = j; old_id = old_id; k = k; cells = c }

  abbrev pub Scanned : (i m : ℕ) → Option Merging → Type 0
  Scanned i m r =
      (t : Merging) × (r ≡ some t) × Merges (suc i) t.j t.old_id t.k t.cells × (m ≤ t.old_id)

  -- The inner loop stops before an ID that is not less, at the latest at the delimiter.
  pub scan_lem :
      (i m j old_id k : ℕ) (c : List ℕ)
      → get_elem? merge.cells (suc i) ≡ some m
      → m < 2 ^ 64
      → Merges (suc i) j old_id k c
      → Scanned i m (xmerge_scan m j old_id k c)
  unfolding xmerge_scan
  scan_lem i m zero old_id k c e b s =
      let delimiter : old_id ≡ 2 ^ 64 - 1 =
        some-injective old_id _
          (sym s.old ∙ get_elem?-set_self idl.cells 0 (2 ^ 64 - 1) (omega (arith, w.sized))) in
      (merging 0 old_id k c, ground arith, s, omega arith)
  scan_lem i m (suc j) old_id k c e b s = elim (Bool-cases (ltb old_id m)) [
    | inl less ↦
        let (old', f, t) = put_old i m j old_id k c e (ground arith) s in
        let r = scan_lem i m j old' (k - 1) (set c k old_id) e b t in
        let inside = store_inside i (suc j) old_id k old_id c s in
        (r.0, rw less (>>=-some _ inside (>>=-some _ f r.1)), r.2, r.3)
    | inr more ↦ (merging (suc j) old_id k c, rw more, s, ground arith)
  ]
