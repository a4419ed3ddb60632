-- ===== src/Btree/Overlay.antt =====
-- mdb.c: the page that mdb_page_get finds is that of the innermost transaction that has the page.
use kotlin_lmdb.Idl
use kotlin_lmdb.Id2l
use kotlin_lmdb.Common.{
  ℕ, suc, ◌+◌, ◌≤◌, ◌<◌, ◌^◌, Bool, true, false, Option, none, some, List, [], ◌∷◌, get_elem?, ltb,
  ◌==◌, if◌then◌else◌, ◌>>=◌, ◌≡◌, ◌⊎◌, inl, inr, refl, sym, ap, ◌∙◌, subst, arith, Bool-cases,
  Option-cases, >>=-some, get_elem?-lt_length, ◌≢◌,
}
use kotlin_lmdb.Idl.{Idl, IsIdl, IsFalling, u64}
use kotlin_lmdb.Idl.Locate.{mdb_midl_search-IsPlace}
use kotlin_lmdb.Id2l.{Id2, mid_at}
use kotlin_lmdb.Id2l.Locate.{IsId2l, IsRising, mdb_mid2l_search-IsPlace}
use kotlin_lmdb.Btree.Pages.{
  Level, PageTxn, Lookup, in_map, at_ptr, missing, holds, spill_id, in_list, in_spill, dirty_in,
  in_dirty, ptr_at, or_dirty, or_spilled, search_levels, mdb_page_get,
}

-- The ID is in a list.
abbrev pub IsListed : Idl → ℕ → Type 0
IsListed ids id = (i : ℕ) × (1 ≤ i) × (i ≤ Idl.count ids) × (get_elem? ids.cells i ≡ some id)

abbrev pub IsSpilled : Level → ℕ → Type 0
IsSpilled l pgno = (ids : Idl) × (l.spilled ≡ some ids) × IsListed ids (spill_id pgno)

-- The dirty list has a page with the number, behind `mptr`.
abbrev pub IsDirty : Level → (pgno mptr : ℕ) → Type 0
IsDirty l pgno mptr =
    (i : ℕ) × (1 ≤ i)
    × (i ≤ Id2l.count l.dirty)
    × (get_elem? l.dirty i ≡ some (record { mid = pgno; mptr = mptr }))

-- The lists of a level are well-formed and sorted.
pub record IsLevel (l : Level) : Type 0 where
  pub spill_Idl : (ids : Idl) → l.spilled ≡ some ids → IsIdl ids
  pub spill_small : (ids : Idl) → l.spilled ≡ some ids → Idl.count ids + 1 < 2 ^ 32
  pub spill_Falling : (ids : Idl) → l.spilled ≡ some ids → IsFalling ids
  pub dirty_Id2l : IsId2l l.dirty
  pub dirty_Rising : IsRising l.dirty

-- What a page number stands for in a chain of transactions: the spilled page of the innermost one
-- that has spilled it or has it dirty, or its dirty page, or else the committed page of the map.
pub data Sees (next_pgno pgno : ℕ) : List Level → ℕ → Lookup → Type 0 where
  spilled_here :
      {l : Level}
      → {ls : List Level} → {n : ℕ} → IsSpilled l pgno
      → Sees next_pgno pgno (l ∷ ls) n (in_map n)
  dirty_here :
      {l : Level}
      → {ls : List Level} → {n m : ℕ} → ¬ IsSpilled l pgno
      → IsDirty l pgno m
      → Sees next_pgno pgno (l ∷ ls) n (at_ptr m n)
  in_parent :
      {l : Level}
      → {ls : List Level} → {n : ℕ} → {r : Lookup} → ¬ IsSpilled l pgno
      → ((m : ℕ) → ¬ IsDirty l pgno m)
      → Sees next_pgno pgno ls (suc n) r
      → Sees next_pgno pgno (l ∷ ls) n r
  committed : {n : ℕ} → pgno < next_pgno → Sees next_pgno pgno [] n (in_map 0)
  not_allocated : {n : ℕ} → next_pgno ≤ pgno → Sees next_pgno pgno [] n missing

holds_same : (n x id : ℕ) → x ≤ n → holds n x (some id) id ≡ some true
holds_same n x id h = ground arith

holds_beyond : (n x id : ℕ) (c : Option ℕ) → n < x → holds n x c id ≡ some false
holds_beyond n x id c h = ground arith

holds_other : (n x id v : ℕ) → v ≢ id → holds n x (some v) id ≡ some false
holds_other n x id v h = ground arith

inside_or_beyond : (x n : ℕ) → (x ≤ n) ⊎ (n < x)
inside_or_beyond x n = ground arith

-- A search's position `x` in a list with the cells `cell 1` to `cell n`.
module _ (cell : ℕ → Option ℕ) (n id x : ℕ) where
  abbrev IsIn : Type 0
  IsIn = (i : ℕ) × (1 ≤ i) × (i ≤ n) × (cell i ≡ some id)

  holds-false :
      (x ≤ n → (v : ℕ) × (cell x ≡ some v)) → 1 ≤ x → ¬ IsIn → holds n x (cell x) id ≡ some false
  holds-false reads h none_in = elim (inside_or_beyond x n) [
    | inr k ↦ holds_beyond n x id (cell x) k
    | inl k ↦
        let (v, e) = reads k in
        subst (λ c. holds n x c id ≡ some false) (sym e)
          (holds_other n x id v (λ q. none_in (x, h, k, e ∙ ap some q)))
  ]

  holds-true : x ≤ n → cell x ≡ some id → holds n x (cell x) id ≡ some true
  holds-true h e = subst (λ c. holds n x c id ≡ some true) (sym e) (holds_same n x id h)

  apart : (less : (i v : ℕ) → 1 ≤ i → i ≤ n → cell i ≡ some v → v ≢ id) → ¬ IsIn
  apart less (i, h, k, e) = less i id h k e refl

module _ (ids : Idl) (id : ℕ) (w : IsIdl ids) (small : Idl.count ids + 1 < 2 ^ 32)
    (s : IsFalling ids) where
  in_list-true_or_false :
      ((in_list ids id ≡ some true) × IsListed ids id)
      ⊎ ((in_list ids id ≡ some false) × (¬ IsListed ids id))
  in_list-true_or_false =
      let n = Idl.count ids in
      let cell = get_elem? ids.cells in
      let (x, e, at) = mdb_midl_search-IsPlace ids id w s small in
      let (a, b, place) = at in
      elim place [
        | inl (h, f) ↦ inl (>>=-some _ e (holds-true cell n id x h f), (x, a, h, f))
        | inr (g, l) ↦
            let out = apart cell n id x (λ i v h k f q. elim (inside_or_beyond x i) [
              | inl j ↦ omega (arith, l i v j k f)
              | inr j ↦ omega (arith, g i v h j f)
            ]) in
            inr (
              >>=-some _ e (
                  holds-false cell n id x
                    (λ h. get_elem?-lt_length ids.cells x (omega (arith, w.fits, w.sized))) a out),
              out,
            )
      ]

module _ (dl : List Id2) (pgno : ℕ) (w : IsId2l dl) (s : IsRising dl) where
  abbrev IsEntry : ℕ → Type 0
  IsEntry m =
      (i : ℕ) × (1 ≤ i)
      × (i ≤ Id2l.count dl)
      × (get_elem? dl i ≡ some (record { mid = pgno; mptr = m }))

  some_mid : (a b : ℕ) → some a ≡ some b → a ≡ b
  some_mid a b e = ground arith

  cell : (x : ℕ) → x ≤ Id2l.count dl → (c : Id2) × (get_elem? dl x ≡ some c)
  cell x h = get_elem?-lt_length dl x (omega (arith, w.fits, w.sized))

  entry :
      (x : ℕ)
      → x ≤ Id2l.count dl
      → mid_at dl x ≡ some pgno
      → (m : ℕ) × (get_elem? dl x ≡ some (record { mid = pgno; mptr = m }))
  entry x h e =
      let (c, f) = cell x h in
      (
        c.mptr,
        f
            ∙ ap (λ p. some (record { mid = p; mptr = c.mptr }))
                (some_mid c.mid pgno (sym (>>=-some _ f refl) ∙ e)),
      )

  dirty_in-some_or_none :
      ((m : ℕ) × (dirty_in dl pgno ≡ some (some m)) × IsEntry m)
      ⊎ ((dirty_in dl pgno ≡ some none) × ((m : ℕ) → ¬ IsEntry m))
  dirty_in-some_or_none =
      let n = Id2l.count dl in
      let (x, e, at) = mdb_mid2l_search-IsPlace dl pgno w s in
      let (a, b, place) = at in
      elim place [
        | inl (h, f) ↦
            let (m, k) = entry x h f in
            inl (
              m,
              >>=-some _ e (
                  >>=-some (ptr_at dl x) (holds-true (mid_at dl) n pgno x h f) (>>=-some _ k refl)),
              (x, a, h, k),
            )
        | inr (g, l) ↦
            let out = apart (mid_at dl) n pgno x (λ i v h k f q. elim (inside_or_beyond x i) [
              | inl j ↦ omega (arith, l i v j k f)
              | inr j ↦ omega (arith, g i v h j f)
            ]) in
            inr (
              >>=-some _ e (
                  >>=-some (ptr_at dl x)
                    (holds-false (mid_at dl) n pgno x
                      (λ h. let (c, k) = cell x h in (c.mid, >>=-some _ k refl)) a out)
                    refl),
              λ m (i, h, k, q). out (i, h, k, >>=-some _ q refl),
            )
      ]

module _ (l : Level) (pgno : ℕ) (w : IsLevel l) where
  in_spill-true_or_false :
      ((in_spill l pgno ≡ some true) × IsSpilled l pgno)
      ⊎ ((in_spill l pgno ≡ some false) × (¬ IsSpilled l pgno))
  in_spill-true_or_false = elim (Option-cases l.spilled) [
    | inl e ↦ inr (ap list_or_not e, λ (ids, f, listed). cc)
    | inr (ids, e) ↦
        (elim (in_list-true_or_false ids (spill_id pgno) (w.spill_Idl ids e) (w.spill_small ids e)
          (w.spill_Falling ids e)) [
            | inl (f, listed) ↦ inl (ap list_or_not e ∙ f, (ids, e, listed))
            | inr (f, absent) ↦ inr (
              ap list_or_not e ∙ f,
              λ (ids', e', listed).
                  absent
                    (subst (λ k. IsListed k (spill_id pgno)) (same ids' ids (sym e' ∙ e)) listed),
            )
          ])
  ]
    where
      list_or_not : Option Idl → Option Bool
      list_or_not none = some false
      list_or_not (some ids) = in_list ids (spill_id pgno)

      same : (a b : Idl) → some a ≡ some b → a ≡ b
      same a b e = ground arith

  in_dirty-some_or_none :
      ((m : ℕ) × (in_dirty l pgno ≡ some (some m)) × IsDirty l pgno m)
      ⊎ ((in_dirty l pgno ≡ some none) × ((m : ℕ) → ¬ IsDirty l pgno m))
  in_dirty-some_or_none = elim (Bool-cases (Id2l.count l.dirty == 0)) [
    | inr e ↦
        let skip = ap (λ b. if b then some none else dirty_in l.dirty pgno) e in
        (elim (dirty_in-some_or_none l.dirty pgno w.dirty_Id2l w.dirty_Rising) [
          | inl (m, f, k) ↦ inl (m, skip ∙ f, k)
          | inr (f, k) ↦ inr (skip ∙ f, k)
        ])
    | inl e ↦
        inr (
          ap (λ b. if b then some none else dirty_in l.dirty pgno) e,
          λ m (i, h, k, q). ground arith,
        )
  ]

-- All the lists of a chain of transactions are well-formed and sorted.
abbrev pub AreLevels : List Level → Type 0
AreLevels [] = Unit
AreLevels (l ∷ ls) = IsLevel l × AreLevels ls

search_levels-Sees :
    (next_pgno pgno : ℕ) (ls : List Level) (n : ℕ)
    → AreLevels ls
    → (r : Lookup) × (search_levels ls n next_pgno pgno ≡ some r) × Sees next_pgno pgno ls n r
unfolding search_levels
search_levels-Sees next_pgno pgno [] n w = elim (inside_or_beyond next_pgno pgno) [
  | inl h ↦ (missing, outside h, not_allocated h)
  | inr h ↦ (in_map 0, inside h, committed h)
]
  where
    outside :
        next_pgno ≤ pgno → some (if ltb pgno next_pgno then in_map 0 else missing) ≡ some missing
    outside h = ground arith

    inside :
        pgno < next_pgno → some (if ltb pgno next_pgno then in_map 0 else missing) ≡ some (in_map 0)
    inside h = ground arith
search_levels-Sees next_pgno pgno (l ∷ ls) n (w, ws) =
    let rest = search_levels ls (suc n) next_pgno pgno in
    let dirty = in_dirty l pgno >>= or_dirty n rest in
    elim (in_spill-true_or_false l pgno w) [
      | inl (e, h) ↦ (in_map n, >>=-some (or_spilled n dirty) e refl, spilled_here h)
      | inr (e, h) ↦ (elim (in_dirty-some_or_none l pgno w) [
        | inl (m, f, k) ↦ (
          at_ptr m n,
          >>=-some (or_spilled n dirty) e (>>=-some (or_dirty n rest) f refl),
          dirty_here h k,
        )
        | inr (f, k) ↦
            let (r, q, sees) = search_levels-Sees next_pgno pgno ls (suc n) ws in
            (
              r,
              >>=-some (or_spilled n dirty) e (>>=-some (or_dirty n rest) f q),
              in_parent h k sees,
            )
      ])
    ]

-- Where the spill lists and dirty lists of a transaction and its parents are well-formed and
-- sorted, mdb_page_get finds, and gives the level of, the page of the innermost transaction that has
-- spilled it to the map or has it in its dirty list; where none has, or with MDB_RDONLY or
-- MDB_WRITEMAP, the committed page if the number is allocated, and else MDB_PAGE_NOTFOUND.
pub mdb_page_get-Sees {ℓ} :
    {S : Type ℓ} (t : PageTxn S) (pgno : ℕ)
    → AreLevels (if t.direct then [] else t.levels)
    → (r : Lookup) × (mdb_page_get t pgno ≡ some r)
      × Sees t.next_pgno pgno (if t.direct then [] else t.levels) 1 r
unfolding mdb_page_get
mdb_page_get-Sees t pgno w =
    search_levels-Sees t.next_pgno pgno (if t.direct then [] else t.levels) 1 w
