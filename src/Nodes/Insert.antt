-- ===== src/Nodes/Insert.antt =====
-- mdb.c: a node that mdb_node_add puts in a page leaves the other ones as they are.
use kotlin_lmdb.Common.{
  ℕ, suc, ◌+◌, ◌-◌, ◌^◌, ◌≤◌, ◌<◌, ◌≡◌, ◌≢◌, ◌⊎◌, inl, inr, refl, sym, ap, ◌∙◌, arith, dec_lt,
}
use kotlin_lmdb.Nodes.{RawPage, num_keys, put, node_size}
use kotlin_lmdb.Nodes.Add.{shift_ptrs}
use kotlin_lmdb.Nodes.Layout.{IsPage, SameNode, size_of, size_same}
use kotlin_lmdb.Nodes.Slots.{put_here, put_other, shift_ptrs_low, shift_ptrs_lem}

-- `mp'` is `mp` with one more node, at `indx`, which takes `size` bytes.
pub record IsInserted (psize : ℕ) (mp mp' : RawPage) (indx size : ℕ) : Type 0 where
  pub valid : IsPage psize mp'
  pub keys : num_keys mp' ≡ num_keys mp + 1
  pub kind : mp'.is_leaf ≡ mp.is_leaf
  pub kind2 : mp'.is_leaf2 ≡ mp.is_leaf2
  pub before : (i : ℕ) → i < indx → SameNode mp i mp' i
  pub after : (i : ℕ) → indx ≤ i → i < num_keys mp → SameNode mp i mp' (suc i)
  pub at : mp'.mp_ptrs indx ≡ mp'.mp_upper
  pub sized : size_of mp' indx ≡ size
  pub upper : mp'.mp_upper + size ≡ mp.mp_upper
  pub lower : mp'.mp_lower ≡ mp.mp_lower + 2

module _ (psize : ℕ) (mp : RawPage) (indx size ofs : ℕ) (small : psize < 2 ^ 16)
    (w : IsPage psize mp) (in_range : indx ≤ num_keys mp)
    (room : mp.mp_lower + 2 + size ≤ mp.mp_upper) (ofs_eq : ofs + size ≡ mp.mp_upper)
    (body' : ℕ → ℕ) (high : (x : ℕ) → mp.mp_upper ≤ x → body' x ≡ mp.body x)
    (sized : node_size mp.is_leaf body' ofs ≡ size) where
  abbrev pub shifted : ℕ → ℕ
  shifted = shift_ptrs indx (num_keys mp - indx) mp.mp_ptrs

  abbrev pub slots : ℕ → ℕ
  slots = put shifted indx ofs

  abbrev pub inserted : RawPage
  inserted = record mp { mp_ptrs = slots; mp_upper = ofs; mp_lower = mp.mp_lower + 2; body = body' }

  keys-inserted : num_keys inserted ≡ num_keys mp + 1
  keys-inserted = omega (arith, w.lower_eq)

  slot_low : (i : ℕ) → i < indx → slots i ≡ mp.mp_ptrs i
  slot_low i h =
      put_other shifted indx ofs i (λ e. absurd (omega arith))
      ∙ shift_ptrs_low indx (num_keys mp - indx) mp.mp_ptrs i (omega arith)

  slot_high : (i : ℕ) → indx ≤ i → i < num_keys mp → slots (suc i) ≡ mp.mp_ptrs i
  slot_high i h l =
      put_other shifted indx ofs (suc i) (λ e. absurd (omega arith))
      ∙ shift_ptrs_lem indx (num_keys mp - indx) mp.mp_ptrs i h (omega arith)

  slot_here : slots indx ≡ ofs
  slot_here = put_here shifted indx ofs indx refl

  -- A node whose slot has moved is the same.
  same_at : (i j : ℕ) → i < num_keys mp → slots j ≡ mp.mp_ptrs i → SameNode mp i inserted j
  same_at i j h e x l =
      ap (λ p. body' (p + x)) e ∙ high (mp.mp_ptrs i + x) (omega (arith, w.starts i h))

  -- Which node a slot is for.
  Slot-cases :
      (i : ℕ)
      → i < num_keys inserted
      → (i ≡ indx)
        ⊎ ((k : ℕ) × (k < num_keys mp)
            × (slots i ≡ mp.mp_ptrs k)
            × (((i ≡ k) × (k < indx)) ⊎ ((i ≡ suc k) × (indx ≤ k))))
  Slot-cases i h = elim (dec_lt i indx) [
    | yes a ↦ inr (i, omega arith, slot_low i a, inl (refl, a))
    | no a ↦ elim (dec_lt indx i) [
      | yes b ↦
          let up : suc (i - 1) ≡ i = omega arith in
          inr (
            i - 1,
            omega (arith, keys-inserted),
            ap slots (sym up) ∙ slot_high (i - 1) (omega arith) (omega (arith, keys-inserted)),
            inr (omega arith, omega arith),
          )
      | no b ↦ inl (omega arith)
    ]
  ]

  size_at : (i k : ℕ) → k < num_keys mp → slots i ≡ mp.mp_ptrs k → size_of inserted i ≡ size_of mp k
  size_at i k h e = size_same mp inserted k i refl (same_at k i h e)

  size_here : (i : ℕ) → i ≡ indx → (slots i ≡ ofs) × (size_of inserted i ≡ size)
  size_here i e =
      let at = ap slots e ∙ slot_here in (at, ap (node_size mp.is_leaf body') at ∙ sized)

  inserted-IsPage : IsPage psize inserted
  inserted-IsPage = record {
    lower_eq = omega (arith, w.lower_eq);
    gap = omega arith;
    top = omega (arith, w.top);
    starts = λ i h. elim (Slot-cases i h) [
      | inl e ↦ omega (arith, (size_here i e).0)
      | inr (k, l, e, o) ↦ omega (arith, w.starts k l, e)
    ];
    ends = λ i h. elim (Slot-cases i h) [
      | inl e ↦ let s = size_here i e in omega (arith, s.0, s.1, w.top)
      | inr (k, l, e, o) ↦ omega (arith, w.ends k l, e, size_at i k l e)
    ];
    apart = λ i j h h' n. elim (Slot-cases i h) [
      | inl e ↦
          let s = size_here i e in
          elim (Slot-cases j h') [
            | inl e' ↦ absurd (n (e ∙ sym e'))
            | inr (k, l, f, o) ↦ inl (omega (arith, s.0, s.1, w.starts k l, f))
          ]
      | inr (k, l, e, o) ↦ elim (Slot-cases j h') [
        | inl e' ↦ let s = size_here j e' in inr (omega (arith, s.0, s.1, w.starts k l, e))
        | inr (k', l', e', o') ↦
            let other : k ≢ k' = λ f. n (omega (arith, o, o')) in
            omega (arith, w.apart k k' l l' other, e, e', size_at i k l e, size_at j k' l' e')
      ]
    ];
  }

  pub inserted-IsInserted : IsInserted psize mp inserted indx size
  inserted-IsInserted = record {
    valid = inserted-IsPage;
    keys = keys-inserted;
    kind = refl;
    kind2 = refl;
    before = λ i h. same_at i i (omega arith) (slot_low i h);
    after = λ i h l. same_at i (suc i) l (slot_high i h l);
    at = slot_here;
    sized = (size_here indx refl).1;
    upper = ofs_eq;
    lower = refl;
  }
