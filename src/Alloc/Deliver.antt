-- ===== src/Alloc/Deliver.antt =====
-- mdb.c: mdb_page_dirty puts a page of mdb_page_alloc in the dirty list.
use kotlin_lmdb.Common.{
  ℕ, ◌+◌, ◌-◌, ◌^◌, ◌≤◌, ◌<◌, false, Option, some, List, get_elem?, ◌>>=◌, ◌≡◌, ◌⊎◌, inl, inr, refl,
  sym, ap, ◌∙◌, subst, arith, dec_lt, ℤ, pos,
}
use mathlib.Core.Option.{some-injective}
use kotlin_lmdb.Idl.{u32}
use kotlin_lmdb.Id2l.{Id2, count, mid_at, mdb_mid2l_insert}
use kotlin_lmdb.Id2l.Locate.{IsId2l, IsRising}
use kotlin_lmdb.Id2l.Shift.{Inserted}
use kotlin_lmdb.Id2l.Insert.{Outcome, mdb_mid2l_insert-Outcome}
use kotlin_lmdb.Btree.{success}
use kotlin_lmdb.Alloc.{rc, Setting, Space, Result}
use kotlin_lmdb.Alloc.Finish.{asserted, mdb_page_dirty, deliver}
use kotlin_lmdb.Alloc.Sound.{Taken, IsSound, IsDirtySound}

-- A cell of the new list is the pair, or a cell of the old one.
Inserted-from :
    (ids new : List Id2) (id : Id2) (x i v : ℕ)
    → 1 ≤ x
    → x ≤ count ids + 1
    → Inserted ids id x new
    → 1 ≤ i
    → i ≤ count new
    → mid_at new i ≡ some v
    → (v ≡ id.mid) ⊎ ((k : ℕ) × (1 ≤ k) × (k ≤ count ids) × (mid_at ids k ≡ some v))
Inserted-from ids new id x i v a b n h l e = elim (dec_lt i x) [
  | yes q ↦
      inr (i, h, omega arith, ap (λ c. c >>= λ (d : Id2). some d.mid) (sym (n.before i h q)) ∙ e)
  | no q ↦ elim (dec_lt x i) [
    | yes r ↦
        let back : i - 1 + 1 ≡ i = omega arith in
        inr (
          i - 1,
          omega arith,
          omega (arith, n.count_eq),
          ap (λ c. c >>= λ (d : Id2). some d.mid)
                (sym (n.after (i - 1) (omega arith) (omega (arith, n.count_eq)))
                  ∙ ap (get_elem? new) back)
              ∙ e,
        )
    | no r ↦
        let here : x ≡ i = omega arith in
        inl (
          some-injective v id.mid (
            sym e
            ∙ ap (λ c. c >>= λ (d : Id2). some d.mid) (ap (get_elem? new) (sym here) ∙ n.put)))
  ]
]

module _ {C : Type 0} (e : Setting C) (key_of : C → ℕ) (s1 s2 : Space) (np : Id2)
    (d : IsDirtySound e key_of s1) (free : 0 < s1.mt_dirty_room) (sound : IsSound e key_of s2)
    (taken : (v : ℕ) → Taken e key_of s1 v → Taken e key_of s2 v) (new : ¬ Taken e key_of s1 np.mid)
    (used : Taken e key_of s2 np.mid) (same_list : s2.dirty_list ≡ s1.dirty_list)
    (same_room : s2.mt_dirty_room ≡ s1.mt_dirty_room) where
  abbrev dirtied : List Id2 → Space
  dirtied dl = record s2 { dirty_list = dl; mt_dirty_room = u32 (s2.mt_dirty_room + 2 ^ 32 - 1) }

  pub dirtied-Taken : (dl : List Id2) (v : ℕ) → Taken e key_of s2 v → Taken e key_of (dirtied dl) v
  dirtied-Taken dl v k = record { old = k.old; not_held = k.not_held; passed = k.passed }

  dirtied-IsSound : (dl : List Id2) → IsSound e key_of (dirtied dl)
  dirtied-IsSound dl = record {
    head = sound.head;
    freed = sound.freed;
    readers = sound.readers;
    current = sound.current;
    merged = sound.merged;
    known = sound.known;
    bounded = sound.bounded;
  }

  abbrev pub Delivered : Option Result → Type 0
  Delivered r =
      (s3 : Space) × (r ≡ some (rc success, some np, s3))
      × IsSound e key_of s3
      × IsDirtySound e key_of s3
      × ((v : ℕ) → Taken e key_of s2 v → Taken e key_of s3 v)
      × ((x : ℕ) × (1 ≤ x)
          × (x ≤ count s1.dirty_list + 1)
          × Inserted s1.dirty_list np x s3.dirty_list)

  abbrev dirty_then : Option (ℤ × List Id2) → Option Result
  dirty_then o = o >>= asserted s2 >>= λ s'. some (rc success, some np, s')

  dirtied_lem :
      (dl : List Id2) (x : ℕ)
      → 1 ≤ x
      → x ≤ count s1.dirty_list + 1
      → IsId2l dl
      → IsRising dl
      → Inserted s1.dirty_list np x dl
      → Delivered (dirty_then (some (pos 0, dl)))
  dirtied_lem dl x a b v r n = (
    dirtied dl,
    refl,
    dirtied-IsSound dl,
    record {
      valid = v;
      rising = r;
      room = omega (arith, n.count_eq, d.room, same_room);
      taken = λ i y h l g. elim (Inserted-from s1.dirty_list dl np x i y a b n h l g) [
        | inl q ↦ subst (Taken e key_of (dirtied dl)) (sym q) (dirtied-Taken dl np.mid used)
        | inr q ↦ dirtied-Taken dl y (taken y (d.taken q.0 y q.1 q.2 q.3))
      ];
    },
    dirtied-Taken dl,
    (x, a, b, n),
  )

  pub deliver-Delivered : Delivered (deliver false np s2)
  unfolding mdb_page_dirty
  deliver-Delivered =
      let (q, g, o) = mdb_mid2l_insert-Outcome s1.dirty_list np d.valid d.rising in
      let delivered : (r : ℤ × List Id2)
          → Outcome s1.dirty_list np r
          → Delivered (dirty_then (some r)) =
        λ r o. elim o [
          | inl (f, (x, a, b, m)) ↦ absurd (new (d.taken x np.mid a b m))
          | inr (inl (f, full, absent)) ↦ absurd (omega (arith, d.room))
          | inr (inr (dl, f, v, r', (x, a, b, n))) ↦
              subst (λ t. Delivered (dirty_then (some t))) (sym f) (dirtied_lem dl x a b v r' n)
        ] in
      subst (λ t. Delivered (dirty_then t)) (sym (ap (λ dl. mdb_mid2l_insert dl np) same_list ∙ g))
        (delivered q o)
