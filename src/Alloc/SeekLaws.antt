-- ===== src/Alloc/SeekLaws.antt =====
-- mdb.c: the do loop of mdb_page_alloc, which seeks a range of pages.
use kotlin_lmdb.Common.{
  ℕ, zero, suc, ◌+◌, ◌-◌, ◌^◌, ◌≤◌, ◌<◌, Option, none, some, get_elem?, get_elem?-lt_length, ltb,
  ◌==◌, if◌then◌else◌, >>=-some, ◌≡◌, ◌⊎◌, inl, inr, refl, sym, ap, ◌∙◌, subst, arith, Bool-cases,
}
use kotlin_lmdb.Idl.{Idl, IsIdl, u64, count}
use kotlin_lmdb.Idl.MergeCells.{Has}
use kotlin_lmdb.Alloc.{seek}

abbrev pub Sought : ℕ → Idl → ℕ → Option (Option (ℕ × ℕ)) → Type 0
Sought n2 mop i r =
    (r ≡ some none)
    ⊎ ((j pgno : ℕ) × (r ≡ some (some (j, pgno)))
        × (n2 < j)
        × (j ≤ i)
        × (get_elem? mop.cells j ≡ some pgno)
        × (get_elem? mop.cells (j - n2) ≡ some (pgno + n2)))

-- The do loop reads inside of the list, and stops at a range.
pub seek_lem :
    (n2 : ℕ) (mop : Idl) (i : ℕ)
    → IsIdl mop
    → ((v : ℕ) → Has mop v → v < 2 ^ 30)
    → mop.cap < 2 ^ 32
    → n2 < i
    → i ≤ count mop
    → Sought n2 mop i (seek mop.cells n2 i)
unfolding seek
seek_lem n2 mop zero v b c h l = absurd (omega arith)
seek_lem n2 mop (suc i) v b c h l =
    let (pgno, f) = get_elem?-lt_length mop.cells (suc i) (omega (arith, v.fits, v.sized)) in
    let (far, g) = get_elem?-lt_length mop.cells (suc i - n2) (omega (arith, v.fits, v.sized)) in
    let small : pgno < 2 ^ 30 = b pgno (suc i, omega arith, l, f) in
    let wrap : u64 (pgno + n2) ≡ pgno + n2 = omega (arith, v.fits) in
    let rest = seek mop.cells n2 i in
    let here : Sought n2 mop (suc i) (
        if far == u64 (pgno + n2)
        then some (some (suc i, pgno))
        else (if ltb n2 i then rest else some none)) =
      elim (Bool-cases (far == u64 (pgno + n2))) [
        | inl hit ↦
            let same : far ≡ pgno + n2 = ground arith in
            rw hit (inr (suc i, pgno, refl, h, omega arith, f, g ∙ ap some same))
        | inr miss ↦ rw miss (elim (Bool-cases (ltb n2 i)) [
          | inl more ↦ rw more (weaken (seek_lem n2 mop i v b c (ground arith) (omega arith)))
          | inr done ↦ rw done (inl refl)
        ])
      ] in
    subst (Sought n2 mop (suc i)) (sym (>>=-some _ f (>>=-some _ g refl))) here
  where
    weaken : Sought n2 mop i (seek mop.cells n2 i) → Sought n2 mop (suc i) (seek mop.cells n2 i)
    weaken (inl e) = inl e
    weaken (inr (j, pgno, e, h, l, f, g)) = inr (j, pgno, e, h, omega arith, f, g)
