-- ===== src/Nodes/Remove.antt =====
-- mdb.c: mdb_node_del closes the gap of a node and leaves the other ones as they are.
use kotlin_lmdb.Common.{
  ℕ, suc, ◌+◌, ◌-◌, ◌^◌, ◌≤◌, ◌<◌, true, false, none, some, ltb, if◌then◌else◌, ◌≡◌, ◌≢◌, ◌⊎◌, inl,
  inr, refl, ap, ap₂, ◌∙◌, arith, dec_lt, lt→ltb,
}
use kotlin_lmdb.Idl.{u64}
use kotlin_lmdb.Nodes.{RawPage, u16, num_keys, move_bytes}
use kotlin_lmdb.Nodes.Del.{moved_ptr, close_ptrs, leaf2_del, close_slot, mdb_node_del}
use kotlin_lmdb.Nodes.Layout.{IsPage, SameNode, size_of, size_same, le-node_size}
use kotlin_lmdb.Nodes.Slots.{close_ptrs_lem}

-- `mp'` is `mp` without the node at `indx`.
pub record IsRemoved (psize : ℕ) (mp mp' : RawPage) (indx : ℕ) : Type 0 where
  pub valid : IsPage psize mp'
  pub keys : num_keys mp' + 1 ≡ num_keys mp
  pub before : (i : ℕ) → i < indx → SameNode mp i mp' i
  pub after : (i : ℕ) → indx ≤ i → suc i < num_keys mp → SameNode mp (suc i) mp' i
  pub upper : mp'.mp_upper ≡ mp.mp_upper + size_of mp indx
  pub lower : mp'.mp_lower + 2 ≡ mp.mp_lower

module _ (psize : ℕ) (mp : RawPage) (indx : ℕ) (small : psize < 2 ^ 16) (w : IsPage psize mp)
    (in_range : indx < num_keys mp) where
  abbrev ptr : ℕ
  ptr = mp.mp_ptrs indx

  abbrev sz : ℕ
  sz = size_of mp indx

  abbrev slots : ℕ → ℕ
  slots = close_ptrs indx ptr sz (num_keys mp) 0 0 mp.mp_ptrs

  abbrev body' : ℕ → ℕ
  body' = move_bytes mp.body (mp.mp_upper + sz) mp.mp_upper (ptr - mp.mp_upper)

  abbrev removed : RawPage
  removed = record mp {
    mp_ptrs = slots;
    body = body';
    mp_lower = mp.mp_lower - 2;
    mp_upper = mp.mp_upper + sz;
  }

  -- A node below the one that is deleted moves up by its size, and one above it stays.
  place :
      (k : ℕ)
      → k < num_keys mp
      → k ≢ indx
      → ((mp.mp_ptrs k + size_of mp k ≤ ptr)
          × (moved_ptr ptr sz (mp.mp_ptrs k) ≡ mp.mp_ptrs k + sz))
        ⊎ ((ptr + sz ≤ mp.mp_ptrs k) × (moved_ptr ptr sz (mp.mp_ptrs k) ≡ mp.mp_ptrs k))
  place k h n = elim (w.apart k indx h in_range n) [
    | inl below ↦
        let some_bytes = le-node_size mp.is_leaf mp.body (mp.mp_ptrs k) in
        let less : mp.mp_ptrs k < ptr = omega arith in
        let fits : mp.mp_ptrs k + sz < 2 ^ 16 = omega (arith, w.ends indx in_range) in
        inl (below, ground arith)
    | inr above ↦
        let some_bytes = le-node_size mp.is_leaf mp.body ptr in
        let more : ptr ≤ mp.mp_ptrs k = omega arith in inr (above, ground arith)
  ]

  same_at :
      (k to : ℕ)
      → k < num_keys mp
      → k ≢ indx
      → slots to ≡ moved_ptr ptr sz (mp.mp_ptrs k)
      → SameNode mp k removed to
  same_at k to h n e x l = elim (place k h n) [
    | inl (below, f) ↦
        let start = w.starts k h in
        let back : mp.mp_upper + (mp.mp_ptrs k + sz + x - (mp.mp_upper + sz)) ≡ mp.mp_ptrs k + x =
          omega arith in
        ap (λ p. body' (p + x)) (e ∙ f)
        ∙ moved (mp.mp_ptrs k + sz + x) (omega arith) (omega arith)
        ∙ ap mp.body back
    | inr (above, f) ↦
        ap (λ p. body' (p + x)) (e ∙ f)
        ∙ stays (mp.mp_ptrs k + x) (omega (arith, w.starts indx in_range))
  ]
    where
      moved :
          (y : ℕ)
          → mp.mp_upper + sz ≤ y
          → y < mp.mp_upper + sz + (ptr - mp.mp_upper)
          → body' y ≡ mp.body (mp.mp_upper + (y - (mp.mp_upper + sz)))
      moved y a b = ground arith

      stays : (y : ℕ) → mp.mp_upper + sz + (ptr - mp.mp_upper) ≤ y → body' y ≡ mp.body y
      stays y a = ground arith

  slot_low : (i : ℕ) → i < indx → slots i ≡ moved_ptr ptr sz (mp.mp_ptrs i)
  slot_low i h =
      close_ptrs_lem indx ptr sz (num_keys mp) 0 0 mp.mp_ptrs i i (omega arith) (omega arith)
        (λ e. absurd (omega arith)) (omega arith) (omega arith)

  slot_high :
      (i : ℕ) → indx ≤ i → suc i < num_keys mp → slots i ≡ moved_ptr ptr sz (mp.mp_ptrs (suc i))
  slot_high i h l =
      close_ptrs_lem indx ptr sz (num_keys mp) 0 0 mp.mp_ptrs (suc i) i (omega arith) (omega arith)
        (λ e. absurd (omega arith)) (omega arith) (omega arith)

  keys-removed : num_keys removed + 1 ≡ num_keys mp
  keys-removed = omega (arith, w.lower_eq)

  -- Which node a slot is for.
  source :
      (i : ℕ)
      → i < num_keys removed
      → (k : ℕ) × (k < num_keys mp)
        × (k ≢ indx)
        × (slots i ≡ moved_ptr ptr sz (mp.mp_ptrs k))
        × (((k ≡ i) × (i < indx)) ⊎ ((k ≡ suc i) × (indx ≤ i)))
  source i h = elim (dec_lt i indx) [
    | yes a ↦ (i, omega arith, λ e. absurd (omega arith), slot_low i a, inl (refl, a))
    | no a ↦ (
      suc i,
      omega (arith, keys-removed),
      λ e. absurd (omega arith),
      slot_high i (omega arith) (omega (arith, keys-removed)),
      inr (refl, omega arith),
    )
  ]

  removed-IsPage : IsPage psize removed
  removed-IsPage =
      let keys = keys-removed in
      let some_bytes = w.ends indx in_range in
      record {
        lower_eq = omega (arith, w.lower_eq);
        gap = omega (arith, w.gap);
        top = omega (arith, w.starts indx in_range);
        starts = λ i h.
            let (k, l, n, e, o) = source i h in
            omega (arith, place k l n, w.starts k l, w.starts indx in_range);
        ends = λ i h.
            let (k, l, n, e, o) = source i h in
            let size = size_same mp removed k i refl (same_at k i l n e) in
            omega (arith, place k l n, w.ends k l);
        apart = λ i j h h' n.
            let (k, l, m, e, o) = source i h in
            let (k', l', m', e', o') = source j h' in
            let size = size_same mp removed k i refl (same_at k i l m e) in
            let size' = size_same mp removed k' j refl (same_at k' j l' m' e') in
            let other : k ≢ k' = λ f. n (omega (arith, o, o')) in
            omega (arith, place k l m, place k' l' m', w.apart k k' l l' other);
      }

  removed-IsRemoved : IsRemoved psize mp removed indx
  removed-IsRemoved = record {
    valid = removed-IsPage;
    keys = keys-removed;
    before = λ i h. same_at i i (omega arith) (λ e. absurd (omega arith)) (slot_low i h);
    after = λ i h l. same_at (suc i) i l (λ e. absurd (omega arith)) (slot_high i h l);
    upper = refl;
    lower = omega (arith, w.lower_eq);
  }

  lower_wraps : u16 (mp.mp_lower + 2 ^ 16 - 2) ≡ mp.mp_lower - 2
  lower_wraps = omega (arith, w.lower_eq, w.gap, w.top)

  upper_wraps : u16 (mp.mp_upper + sz) ≡ mp.mp_upper + sz
  upper_wraps = omega (arith, w.starts indx in_range, w.ends indx in_range)

  count_wraps : u64 (ptr + 2 ^ 64 - mp.mp_upper) ≡ ptr - mp.mp_upper
  count_wraps = omega (arith, w.starts indx in_range, w.ends indx in_range)

  close_slot_lem : close_slot indx mp ≡ removed
  unfolding close_slot
  close_slot_lem =
      ap₂
        (λ l u. record mp {
          mp_ptrs = slots;
          body =
              move_bytes mp.body (mp.mp_upper + sz) mp.mp_upper (u64 (ptr + 2 ^ 64 - mp.mp_upper));
          mp_lower = l;
          mp_upper = u;
        })
        lower_wraps upper_wraps
      ∙ ap (λ n. record removed { body = move_bytes mp.body (mp.mp_upper + sz) mp.mp_upper n })
          count_wraps

  -- On a page of nodes that lie apart, mdb_node_del of a node that is there leaves a page of the
  -- other ones, in their order and with their bytes, whose free space has grown by the bytes of the
  -- node and a slot.
  pub mdb_node_del-IsRemoved :
      (ksize : ℕ)
      → mp.is_leaf2 ≡ false
      → (mp' : RawPage) × (mdb_node_del ksize indx mp ≡ some mp') × IsRemoved psize mp mp' indx
  unfolding mdb_node_del
  mdb_node_del-IsRemoved ksize plain =
      let there : ltb indx (num_keys mp) ≡ true = lt→ltb indx (num_keys mp) in_range in
      (
        removed,
        ap
              (λ b.
                if b
                then some (if mp.is_leaf2 then leaf2_del ksize indx mp else close_slot indx mp)
                else none)
              there
            ∙ ap (λ b. some (if b then leaf2_del ksize indx mp else close_slot indx mp)) plain
            ∙ ap some close_slot_lem,
        removed-IsRemoved,
      )
