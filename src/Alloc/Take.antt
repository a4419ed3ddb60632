-- ===== src/Alloc/Take.antt =====
-- mdb.c: the end of mdb_page_alloc takes a range of pages out of me_pghead.
use kotlin_lmdb.Common.{
  ℕ, zero, suc, ◌+◌, ◌-◌, ◌≤◌, ◌<◌, some, List, get_elem?, set, length, length-set,
  get_elem?-set_self, get_elem?-set_ne, get_elem?-lt_length, >>=-some, ◌≡◌, ◌⊎◌, inl, inr, ◌↔◌,
  refl, sym, ap, ◌∙◌, arith, dec_lt,
}
use mathlib.Core.Option.{some-injective}
use kotlin_lmdb.Idl.{Idl, IsIdl, IsFalling, count}
use kotlin_lmdb.Idl.Grown.{count-set, count-eq}
use kotlin_lmdb.Idl.Memory.{store}
use kotlin_lmdb.Idl.MergeCells.{Has}
use kotlin_lmdb.Alloc.Finish.{move_down, take_range}

-- `new` is `old` with the cells after `i` moved to those after `j`, for `r` cells.
record Moved (old : List ℕ) (r i j : ℕ) (new : List ℕ) : Type 0 where
  size : length new ≡ length old
  before : (p : ℕ) → p ≤ j → get_elem? new p ≡ get_elem? old p
  moved : (p : ℕ) → p < r → get_elem? new (suc j + p) ≡ get_elem? old (suc i + p)

move_down_lem :
    (r i j : ℕ) (c : List ℕ)
    → j ≤ i
    → i + r < length c
    → (new : List ℕ) × (move_down r i j c ≡ some new) × Moved c r i j new
unfolding move_down
move_down_lem zero i j c h l =
    (c, refl, record { size = refl; before = λ p q. refl; moved = λ p q. absurd (omega arith) })
move_down_lem (suc r) i j c h l =
    let (v, e) = get_elem?-lt_length c (suc i) (omega arith) in
    let size : length (set c (suc j) v) ≡ length c = length-set c (suc j) v in
    let (new, f, m) =
      move_down_lem r (suc i) (suc j) (set c (suc j) v) (omega arith) (omega (arith, size)) in
    let stored : store c (suc j) v ≡ some (set c (suc j) v) = ground arith in
    (
      new,
      >>=-some _ e (>>=-some _ stored f),
      record {
        size = m.size ∙ size;
        before = λ p q. m.before p (omega arith) ∙ get_elem?-set_ne c (suc j) p v (omega arith);
        moved = λ p q. elim (dec_lt 0 p) [
          | yes s ↦
              let back : suc (suc j) + (p - 1) ≡ suc j + p = omega arith in
              let from : suc (suc i) + (p - 1) ≡ suc i + p = omega arith in
              ap (get_elem? new) (sym back)
              ∙ m.moved (p - 1) (omega arith)
              ∙ get_elem?-set_ne c (suc j) (suc (suc i) + (p - 1)) v (omega arith)
              ∙ ap (get_elem? c) from
          | no s ↦
              let at : suc j + p ≡ suc j = omega arith in
              let from : suc i ≡ suc i + p = omega arith in
              ap (get_elem? new) at
              ∙ m.before (suc j) (omega arith)
              ∙ get_elem?-set_self c (suc j) v (omega arith)
              ∙ sym e
              ∙ ap (get_elem? c) from
        ];
      },
    )

-- A falling list falls by at least one from cell to cell.
falling_gap :
    (ids : Idl) (d p x y : ℕ)
    → IsIdl ids
    → IsFalling ids
    → 1 ≤ p
    → p + d ≤ count ids
    → get_elem? ids.cells p ≡ some x
    → get_elem? ids.cells (p + d) ≡ some y
    → y + d ≤ x
falling_gap ids zero p x y w f h l ex ey =
    let at : p + 0 ≡ p = omega arith in
    let same : x ≡ y = some-injective x y (sym ex ∙ ap (get_elem? ids.cells) (sym at) ∙ ey) in
    omega arith
falling_gap ids (suc d) p x y w f h l ex ey =
    let (z, ez) = get_elem?-lt_length ids.cells (p + d) (omega (arith, w.fits, w.sized)) in
    let less : y < z = f (p + d) (p + suc d) z y (omega arith) (omega arith) l ez ey in
    omega (arith, falling_gap ids d p x z w f h (omega arith) ex ez)

-- `new` is `old` without the `num` pages from `pgno` on, which are in `old`.
pub record Cut (old : Idl) (num pgno : ℕ) (new : Idl) : Type 0 where
  pub valid : IsIdl new
  pub falling : IsFalling new
  pub same_cap : new.cap ≡ old.cap
  pub held : (v : ℕ) → pgno ≤ v → v < pgno + num → Has old v
  pub left : (v : ℕ) → Has new v ↔ (Has old v × ((v < pgno) ⊎ (pgno + num ≤ v)))

module _ (mop : Idl) (w : IsIdl mop) (f : IsFalling mop) (num n2 i pgno : ℕ) (n : num ≡ suc n2)
    (low : n2 < i) (high : i ≤ count mop) (e : get_elem? mop.cells i ≡ some pgno)
    (e' : get_elem? mop.cells (i - n2) ≡ some (pgno + n2)) where
  -- The cells from `i - n2` to `i` are the pages from `pgno + n2` down to `pgno`.
  range_at : (p : ℕ) → i - n2 ≤ p → p ≤ i → get_elem? mop.cells p ≡ some (pgno + (i - p))
  range_at p h l =
      let (v, g) = get_elem?-lt_length mop.cells p (omega (arith, w.fits, w.sized)) in
      let up : p + (i - p) ≡ i = omega arith in
      let down : i - n2 + (p - (i - n2)) ≡ p = omega arith in
      let least =
        falling_gap mop (i - p) p v pgno w f (omega arith) (omega arith) g
          (ap (get_elem? mop.cells) up ∙ e) in
      let most =
        falling_gap mop (p - (i - n2)) (i - n2) (pgno + n2) v w f (omega arith) (omega arith) e'
          (ap (get_elem? mop.cells) down ∙ g) in
      let same : v ≡ pgno + (i - p) = omega arith in g ∙ ap some same

  place :
      (p v : ℕ)
      → 1 ≤ p
      → p ≤ count mop
      → get_elem? mop.cells p ≡ some v
      → ((p < i - n2) × (pgno + n2 < v))
        ⊎ (((i - n2 ≤ p) × (p ≤ i) × (pgno ≤ v) × (v < pgno + num)) ⊎ ((i < p) × (v < pgno)))
  place p v h l g = elim (dec_lt i p) [
    | yes a ↦ inr (inr (a, f i p pgno v (omega arith) a l e g))
    | no a ↦ elim (dec_lt p (i - n2)) [
      | yes b ↦ inl (b, f p (i - n2) v (pgno + n2) h b (omega arith) g e')
      | no b ↦
          let same : v ≡ pgno + (i - p) =
            some-injective v _ (sym g ∙ range_at p (omega arith) (omega arith)) in
          inr (inl (omega arith, omega arith, omega arith, omega arith))
    ]
  ]

  abbrev len : ℕ
  len = count mop - num

  module _ (c : List ℕ) (m : Moved (set mop.cells 0 len) (len - (i - num)) i (i - num) c) where
    abbrev cut : Idl
    cut = record { cap = mop.cap; cells = c }

    count-cut : count cut ≡ len
    count-cut =
        count-eq c (set mop.cells 0 len) (m.before 0 (omega arith))
        ∙ count-set mop.cells len (omega (arith, w.sized))

    low_cell : (p : ℕ) → 1 ≤ p → p ≤ i - num → get_elem? c p ≡ get_elem? mop.cells p
    low_cell p h l = m.before p l ∙ get_elem?-set_ne mop.cells 0 p len (omega arith)

    high_cell : (p : ℕ) → i - num < p → p ≤ len → get_elem? c p ≡ get_elem? mop.cells (p + num)
    high_cell p h l =
        let q = p - (i - num) - 1 in
        let at : suc (i - num) + q ≡ p = omega arith in
        let from : suc i + q ≡ p + num = omega arith in
        ap (get_elem? c) (sym at)
        ∙ m.moved q (omega arith)
        ∙ get_elem?-set_ne mop.cells 0 (suc i + q) len (omega arith)
        ∙ ap (get_elem? mop.cells) from

    -- Where a cell of the result comes from.
    source :
        (p : ℕ)
        → 1 ≤ p
        → p ≤ len
        → (q : ℕ) × (get_elem? c p ≡ get_elem? mop.cells q)
          × (((p ≤ i - num) × (q ≡ p)) ⊎ ((i - num < p) × (q ≡ p + num)))
    source p h l = elim (dec_lt (i - num) p) [
      | yes a ↦ (p + num, high_cell p a l, inr (a, refl))
      | no a ↦ (p, low_cell p h (omega arith), inl (omega arith, refl))
    ]

    cut-IsFalling : IsFalling cut
    cut-IsFalling p q x y h l b ex ey =
        let (p', ep, op) = source p h (omega (arith, count-cut)) in
        let (q', eq, oq) = source q (omega arith) (omega (arith, count-cut)) in
        f p' q' x y (omega (arith, op)) (omega (arith, op, oq)) (omega (arith, oq, count-cut))
          (sym ep ∙ ex) (sym eq ∙ ey)

    cut-Has : (v : ℕ) → Has cut v → Has mop v × ((v < pgno) ⊎ (pgno + num ≤ v))
    cut-Has v (p, h, l, g) =
        let (q, eq, o) = source p h (omega (arith, count-cut)) in
        let g' = sym eq ∙ g in
        let has : Has mop v = (q, omega (arith, o), omega (arith, o, count-cut), g') in
        (
          has,
          elim (place q v has.1 has.2 g') [
            | inl s ↦ inr (omega arith)
            | inr (inl s) ↦ absurd (omega (arith, o))
            | inr (inr s) ↦ inl s.1
          ],
        )

    Has-cut : (v : ℕ) → Has mop v × ((v < pgno) ⊎ (pgno + num ≤ v)) → Has cut v
    Has-cut v ((p, h, l, g), o) = elim (place p v h l g) [
      | inl s ↦ (p, h, omega (arith, count-cut), low_cell p h (omega arith) ∙ g)
      | inr (inl s) ↦ absurd (omega (arith, o))
      | inr (inr s) ↦
          let back : p - num + num ≡ p = omega arith in
          (
            p - num,
            omega arith,
            omega (arith, count-cut),
            high_cell (p - num) (omega arith) (omega arith) ∙ ap (get_elem? mop.cells) back ∙ g,
          )
    ]

    cut-Cut : Cut mop num pgno cut
    cut-Cut = record {
      valid = record {
        fits = omega (arith, count-cut, w.fits);
        sized = m.size ∙ length-set mop.cells 0 len ∙ w.sized;
      };
      falling = cut-IsFalling;
      same_cap = refl;
      held = λ v h l.
          let p = i - (v - pgno) in
          let same : pgno + (i - p) ≡ v = omega arith in
          (p, omega arith, omega arith, range_at p (omega arith) (omega arith) ∙ ap some same);
      left = λ v. (cut-Has v, Has-cut v);
    }

  -- A range that the do loop found is taken out of the list, inside of its memory.
  pub take_range-Cut : (new : Idl) × (take_range num i mop ≡ some new) × Cut mop num pgno new
  unfolding take_range
  take_range-Cut =
      let (c, g, m) =
        move_down_lem (len - (i - num)) i (i - num) (set mop.cells 0 len) (omega arith)
          (omega (arith, length-set mop.cells 0 len, w.fits, w.sized)) in
      (cut c m, >>=-some _ g refl, cut-Cut c m)
