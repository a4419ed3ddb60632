-- ===== src/Idl/MergeLaws.antt =====
-- midl.c: mdb_midl_xmerge merges.
use kotlin_lmdb.Common.{
  ℕ, zero, suc, ◌+◌, ◌-◌, ◌^◌, ◌≤◌, ◌<◌, some, List, get_elem?, set, length-set, get_elem?-set_ne,
  get_elem?-lt_length, ◌>>=◌, >>=-some, ◌≡◌, inl, inr, refl, sym, ap, ◌∙◌, arith, dec_lt,
}
use kotlin_lmdb.Idl.{Idl, IsIdl, IsFalling, u64, count}
use kotlin_lmdb.Idl.Grown.{count-set}
use native.Mathlib.Nat.{mod-eq_of_lt}
use kotlin_lmdb.Idl.Merge.{xmerge_loop, mdb_midl_xmerge}
use kotlin_lmdb.Idl.MergeCells.{Has, Merged}
use kotlin_lmdb.Idl.MergeSteps.{
  Merges, put_merge, scan_lem, store_inside, merging, delimited, total, Src, unchanged,
}

module _ (idl merge : Idl) (w : IsIdl idl) (w' : IsIdl merge) (falls : IsFalling idl)
    (falls' : IsFalling merge) (apart : (v : ℕ) → Has idl v → Has merge v → ⊥)
    (room : count merge + count idl ≤ idl.cap) where
  loop_lem :
      (i j old_id k : ℕ) (c : List ℕ)
      → ((v : ℕ) → Has merge v → v < 2 ^ 64)
      → (Merges idl merge w w' falls falls' apart room) i j old_id k c
      → (j' old' k' : ℕ) × (c' : List ℕ) × (xmerge_loop merge i
            ((merging idl merge w w' falls falls' apart room) j old_id k c)
          ≡ some c')
        × (Merges idl merge w w' falls falls' apart room) 0 j' old' k' c'
  unfolding xmerge_loop
  loop_lem zero j old_id k c b s = (j, old_id, k, c, refl, s)
  loop_lem (suc i) j old_id k c b s =
      let (m, e) =
        get_elem?-lt_length merge.cells (suc i) (omega (arith, s.i_fits, w'.fits, w'.sized)) in
      let (t, f, n, l) =
        (scan_lem idl merge w w' falls falls' apart room) i m j old_id k c e
          (b m (suc i, omega arith, s.i_fits, e)) s in
      let r =
        loop_lem i t.j t.old_id (t.k - 1) (set t.cells t.k m) b
          ((put_merge idl merge w w' falls falls' apart room) i m t.j t.old_id t.k t.cells e l n) in
      (
        r.0,
        r.1,
        r.2,
        r.3,
        >>=-some _ e (
            >>=-some _ f (
              >>=-some _
                ((store_inside idl merge w w' falls falls' apart room) i t.j t.old_id t.k m t.cells
                  n)
                r.4)),
        r.5,
      )

  start_Merges :
      (old_id : ℕ)
      → get_elem? (delimited idl merge w w' falls falls' apart room) (count idl) ≡ some old_id
      → (Merges idl merge w w' falls falls' apart room)
          (count merge)
          (count idl)
          old_id
          (total idl merge w w' falls falls' apart room)
          (delimited idl merge w w' falls falls' apart room)
  start_Merges old_id e = record {
    size = length-set idl.cells 0 (2 ^ 64 - 1);
    keep = λ p h. refl;
    old = e;
    place = refl;
    i_fits = omega arith;
    j_fits = omega arith;
    done = record {
      fall = λ p q x y h i j ex ey. absurd (omega arith);
      above = λ p x y r h i e. absurd (omega arith);
      from = λ p y h i e. absurd (omega arith);
      cover = λ v r. inl r;
    };
  }

  -- What is left of `idl` stands where it stood.
  module _ (j old_id k : ℕ) (c : List ℕ)
      (s : (Merges idl merge w w' falls falls' apart room) 0 j old_id k c) where
    abbrev result : Idl
    result = record {
      cap = idl.cap;
      cells = set c 0 (total idl merge w w' falls falls' apart room);
    }

    at_result : (p : ℕ) → 0 < p → get_elem? result.cells p ≡ get_elem? c p
    at_result p h =
        get_elem?-set_ne c 0 p (total idl merge w w' falls falls' apart room) (omega arith)

    kept : (p : ℕ) → 0 < p → p ≤ j → get_elem? c p ≡ get_elem? idl.cells p
    kept p h l = s.keep p l ∙ (unchanged idl merge w w' falls falls' apart room) p h

    count-result : count result ≡ (total idl merge w w' falls falls' apart room)
    count-result =
        count-set c (total idl merge w w' falls falls' apart room) (omega (arith, s.size, w.sized))

    result-IsFalling : IsFalling result
    result-IsFalling p q x y h i l ex ey =
        let fx = sym (at_result p (omega arith)) ∙ ex in
        let fy = sym (at_result q (omega arith)) ∙ ey in
        elim (dec_lt j p) [
          | yes a ↦
              s.done.fall p q x y (omega (arith, s.place)) i (omega (arith, count-result)) fx fy
          | no a ↦
              let gx = sym (kept p (omega arith) (omega arith)) ∙ fx in
              elim (dec_lt j q) [
                | yes b ↦
                    s.done.above q x y (inl (p, h, omega arith, gx)) (omega (arith, s.place))
                      (omega (arith, count-result)) fy
                | no b ↦
                    falls p q x y h i (omega (arith, s.j_fits)) gx
                      (sym (kept q (omega arith) (omega arith)) ∙ fy)
              ]
        ]

    result-Has : (v : ℕ) → Has result v → (Src idl merge w w' falls falls' apart room) v
    result-Has v (p, h, l, e) =
        let f = sym (at_result p (omega arith)) ∙ e in
        elim (dec_lt j p) [
          | yes a ↦ s.done.from p v (omega (arith, s.place)) (omega (arith, count-result)) f
          | no a ↦ inl (p, h, omega (arith, s.j_fits), sym (kept p (omega arith) (omega arith)) ∙ f)
        ]

    Has-result : (v : ℕ) → (Src idl merge w w' falls falls' apart room) v → Has result v
    Has-result v r = elim (s.done.cover v r) [
      | inl (inl (p, h, l, e)) ↦ (
        p,
        h,
        omega (arith, count-result, s.j_fits),
        at_result p (omega arith) ∙ kept p (omega arith) l ∙ e,
      )
      | inl (inr (p, h, l, e)) ↦ absurd (omega arith)
      | inr (p, h, l, e) ↦
          (p, omega (arith, s.place), omega (arith, count-result), at_result p (omega arith) ∙ e)
    ]

    result-Merged : Merged idl merge result
    result-Merged = record {
      valid = record {
        fits = omega (arith, count-result, room);
        sized = length-set c 0 (total idl merge w w' falls falls' apart room) ∙ s.size ∙ w.sized;
      };
      same_cap = refl;
      count_eq = count-result;
      falling = result-IsFalling;
      same_ids = λ v. (result-Has v, Has-result v);
    }

  -- On well-formed falling lists with no common ID, of which the first has room for both,
  -- mdb_midl_xmerge returns, with reads and writes inside of the lists only, and leaves in the first
  -- a falling list of exactly the IDs of both.
  pub mdb_midl_xmerge-Merged :
      ((v : ℕ) → Has merge v → v < 2 ^ 64)
      → idl.cap < 2 ^ 64
      → (new : Idl) × (mdb_midl_xmerge idl merge ≡ some new) × Merged idl merge new
  unfolding mdb_midl_xmerge
  mdb_midl_xmerge-Merged b small =
      let (old_id, e) =
        get_elem?-lt_length (delimited idl merge w w' falls falls' apart room) (count idl)
          (omega (arith, w.fits, w.sized, length-set idl.cells 0 (2 ^ 64 - 1))) in
      let (j, old', k, c, f, s) =
        loop_lem (count merge) (count idl) old_id (total idl merge w w' falls falls' apart room)
          (delimited idl merge w w' falls falls' apart room) b (start_Merges old_id e) in
      let wrap : u64 (total idl merge w w' falls falls' apart room)
          ≡ (total idl merge w w' falls falls' apart room) =
        mod-eq_of_lt (omega (arith, room)) in
      (
        result j old' k c s,
        >>=-some _ e (
            ap
              (λ n.
                xmerge_loop merge (count merge) (
                  (merging idl merge w w' falls falls' apart room) (count idl) old_id n
                    (delimited idl merge w w' falls falls' apart room))
                >>= λ d. some (record { cap = idl.cap; cells = set d 0 n }))
              wrap
            ∙ >>=-some _ f refl),
        result-Merged j old' k c s,
      )
