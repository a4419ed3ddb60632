-- ===== src/Nodes/Rekey.antt =====
-- mdb.c: mdb_update_key replaces the key of a node of a branch page.
use kotlin_lmdb.Common.{
  ℕ, ◌+◌, ◌-◌, ◌*◌, ◌/◌, ◌^◌, ◌≤◌, ◌<◌, false, List, length, get_or, if◌then◌else◌, ◌==◌, ◌≡◌, ◌≢◌,
  ◌⊎◌, inl, inr, sym, ap, ap₂, ◌∙◌, arith, Bool-cases,
}
use kotlin_lmdb.Nodes.{
  RawPage, u16, num_keys, even, nodesize, put_short, put_bytes, short_at, mn_ksize, node_pgno,
  node_size,
}
use kotlin_lmdb.Nodes.Layout.{IsPage, SameNode, size_of, size_same}
use kotlin_lmdb.Nodes.Bytes.{
  put_short_other, put_bytes_other, put_bytes_here, short_at_put, short_of,
}
use kotlin_lmdb.Nodes.Update.{with_ksize, set_key}
use kotlin_lmdb.Nodes.Slide.{IsSlid}

-- `mp'` is `mp` with another key in the branch node at `indx`.
pub record IsRekeyed (psize : ℕ) (mp mp' : RawPage) (indx : ℕ) (key : List ℕ) : Type 0 where
  pub valid : IsPage psize mp'
  pub keys : num_keys mp' ≡ num_keys mp
  pub lower : mp'.mp_lower ≡ mp.mp_lower
  pub upper :
      mp'.mp_upper + even (length key) ≡ mp.mp_upper + even (mn_ksize mp.body (mp.mp_ptrs indx))
  pub others : (k : ℕ) → k < num_keys mp → k ≢ indx → SameNode mp k mp' k
  pub child : node_pgno mp'.body (mp'.mp_ptrs indx) ≡ node_pgno mp.body (mp.mp_ptrs indx)
  pub ksize : mn_ksize mp'.body (mp'.mp_ptrs indx) ≡ length key
  pub key_bytes : (k : ℕ) → k < length key → mp'.body (mp'.mp_ptrs indx + 8 + k) ≡ get_or key k 0

pub branch_size : (body : ℕ → ℕ) (at : ℕ) → node_size false body at ≡ 8 + even (mn_ksize body at)
unfolding node_size
branch_size body at = omega arith

-- What set_key writes.
module _ (body : ℕ → ℕ) (node : ℕ) (key : List ℕ) (bounded : length key < 2 ^ 16) where
  abbrev rekeyed : ℕ → ℕ
  rekeyed = put_bytes (with_ksize node (length key) body) (node + nodesize) (length key) key

  rekeyed_other : (x : ℕ) → ((x < node + 6) ⊎ (node + 8 + length key ≤ x)) → rekeyed x ≡ body x
  rekeyed_other x h =
      put_bytes_other (with_ksize node (length key) body) (node + 8) (length key) key x
        (omega arith)
      ∙ elim (Bool-cases (mn_ksize body node == length key)) [
        | inl b ↦ ap (λ b. (if b then body else put_short body (node + 6) (u16 (length key))) x) b
        | inr b ↦
            ap (λ b. (if b then body else put_short body (node + 6) (u16 (length key))) x) b
            ∙ put_short_other body (node + 6) (u16 (length key)) x (omega arith)
      ]

  with_ksize_reads : mn_ksize (with_ksize node (length key) body) node ≡ length key
  with_ksize_reads = elim (Bool-cases (mn_ksize body node == length key)) [
    | inl b ↦
        ap (λ b. mn_ksize (if b then body else put_short body (node + 6) (u16 (length key))) node) b
        ∙ ground arith
    | inr b ↦
        ap (λ b. mn_ksize (if b then body else put_short body (node + 6) (u16 (length key))) node) b
        ∙ short_at_put body (node + 6) (u16 (length key))
        ∙ omega arith
  ]

  rekeyed_ksize : mn_ksize rekeyed node ≡ length key
  rekeyed_ksize =
      let before = with_ksize node (length key) body in
      short_of before rekeyed (node + 6)
        (put_bytes_other before (node + 8) (length key) key (node + 6) (omega arith))
        (put_bytes_other before (node + 8) (length key) key (node + 6 + 1) (omega arith))
      ∙ with_ksize_reads

module _ (psize : ℕ) (mp mid : RawPage) (indx : ℕ) (key : List ℕ) (w : IsPage psize mp)
    (in_range : indx < num_keys mp) (branch : mp.is_leaf ≡ false) (bounded : length key < 2 ^ 16)
    (room : mp.mp_lower + even (length key)
      ≤ mp.mp_upper + even (mn_ksize mp.body (mp.mp_ptrs indx)))
    (slid : IsSlid mp mid indx
      (even (length key))
      (even (mn_ksize mp.body (mp.mp_ptrs indx)))) where
  abbrev ptr : ℕ
  ptr = mp.mp_ptrs indx

  abbrev node : ℕ
  node = mid.mp_ptrs indx

  abbrev ksize : ℕ
  ksize = even (length key)

  abbrev oksize : ℕ
  oksize = even (mn_ksize mp.body ptr)

  abbrev new : RawPage
  new = record mid { body = rekeyed mid.body node key bounded }

  moved : node + ksize ≡ ptr + oksize
  moved = slid.low indx in_range (omega arith)

  old_size : size_of mp indx ≡ 8 + oksize
  old_size = ap (λ l. node_size l mp.body ptr) branch ∙ branch_size mp.body ptr

  new_size : size_of new indx ≡ 8 + ksize
  new_size =
      ap (λ l. node_size l new.body node) (slid.kind ∙ branch)
      ∙ branch_size new.body node
      ∙ ap (λ k. 8 + even k) (rekeyed_ksize mid.body node key bounded)

  -- Another node has gone down with the one at `indx`, or is above it.
  place :
      (k : ℕ)
      → k < num_keys mp
      → k ≢ indx
      → ((mp.mp_ptrs k + size_of mp k ≤ ptr) × (mid.mp_ptrs k + ksize ≡ mp.mp_ptrs k + oksize))
        ⊎ ((ptr + 8 + oksize ≤ mp.mp_ptrs k) × (mid.mp_ptrs k ≡ mp.mp_ptrs k))
  place k h n = elim (w.apart k indx h in_range n) [
    | inl below ↦ inl (below, slid.low k h (omega arith))
    | inr above ↦
        let beyond : ptr + 8 + oksize ≤ mp.mp_ptrs k = omega (arith, old_size) in
        inr (beyond, slid.high k h (omega arith))
  ]

  same_at : (k : ℕ) → k < num_keys mp → k ≢ indx → SameNode mp k new k
  same_at k h n x l = elim (place k h n) [
    | inl (below, e) ↦
        rekeyed_other mid.body node key bounded (mid.mp_ptrs k + x) (omega (arith, moved))
        ∙ slid.low_bytes (mp.mp_ptrs k + x) (mid.mp_ptrs k + x) (omega (arith, w.starts k h))
            (omega arith) (omega arith)
    | inr (above, e) ↦
        ap (λ p. new.body (p + x)) e
        ∙ rekeyed_other mid.body node key bounded (mp.mp_ptrs k + x) (omega (arith, moved))
        ∙ slid.high_bytes (mp.mp_ptrs k + x) (omega arith)
  ]

  -- The bytes of the page number.
  pgno_short : (k : ℕ) → k < 5 → short_at new.body (node + k) ≡ short_at mp.body (ptr + k)
  pgno_short k h = ap₂ (λ a b. a + b * 256) (byte k (omega arith)) next
    where
      byte : (k : ℕ) → k < 6 → new.body (node + k) ≡ mp.body (ptr + k)
      byte k h =
          rekeyed_other mid.body node key bounded (node + k) (omega arith)
          ∙ slid.low_bytes (ptr + k) (node + k) (omega (arith, w.starts indx in_range))
              (omega arith) (omega (arith, moved))

      next : new.body (node + k + 1) ≡ mp.body (ptr + k + 1)
      next =
          let up : node + k + 1 ≡ node + (k + 1) = omega arith in
          let up' : ptr + (k + 1) ≡ ptr + k + 1 = omega arith in
          ap new.body up ∙ byte (k + 1) (omega arith) ∙ ap mp.body up'

  child_same : node_pgno new.body node ≡ node_pgno mp.body ptr
  child_same =
      let here : node ≡ node + 0 = omega arith in
      let here' : ptr + 0 ≡ ptr = omega arith in
      ap₂ (λ d f. d + f * 2 ^ 32)
        (ap₂ (λ a b. a + b * 2 ^ 16)
          (ap (short_at new.body) here ∙ pgno_short 0 (omega arith) ∙ ap (short_at mp.body) here')
          (pgno_short 2 (omega arith)))
        (pgno_short 4 (omega arith))

  new_keys : num_keys new ≡ num_keys mp
  new_keys = ap (λ l. (l - 16) / 2) slid.lower

  -- Where a node of the new page is.
  seat :
      (k : ℕ)
      → k < num_keys mp
      → ((k ≡ indx) × (mid.mp_ptrs k ≡ node) × (size_of new k ≡ 8 + ksize))
        ⊎ ((k ≢ indx) × (size_of new k ≡ size_of mp k))
  seat k h = elim (Bool-cases (k == indx)) [
    | inl b ↦
        let e : k ≡ indx = ground arith in inl (e, ap mid.mp_ptrs e, ap (size_of new) e ∙ new_size)
    | inr b ↦
        let n : k ≢ indx = ground arith in inr (n, size_same mp new k k slid.kind (same_at k h n))
  ]

  new-IsPage : IsPage psize new
  new-IsPage = record {
    lower_eq = omega (arith, w.lower_eq, slid.lower);
    gap = omega (arith, room, slid.lower, slid.upper);
    top = omega (arith, moved, slid.upper, w.starts indx in_range, w.ends indx in_range, old_size);
    starts = λ k h.
        let l : k < num_keys mp = omega (arith, new_keys) in
        elim (seat k l) [
          | inl (e, p, s) ↦ omega (arith, moved, slid.upper, w.starts indx in_range)
          | inr (n, s) ↦
              omega (arith, place k l n, moved, slid.upper, w.starts indx in_range, w.starts k l)
        ];
    ends = λ k h.
        let l : k < num_keys mp = omega (arith, new_keys) in
        elim (seat k l) [
          | inl (e, p, s) ↦ omega (arith, moved, old_size, w.ends indx in_range)
          | inr (n, s) ↦
              omega (arith, place k l n, moved, old_size, w.ends indx in_range, w.ends k l)
        ];
    apart = λ i j h h' d.
        let l : i < num_keys mp = omega (arith, new_keys) in
        let l' : j < num_keys mp = omega (arith, new_keys) in
        elim (seat i l) [
          | inl (e, p, s) ↦ elim (seat j l') [
            | inl (e', p', s') ↦ absurd (d (e ∙ sym e'))
            | inr (n', s') ↦ omega (arith, place j l' n', moved)
          ]
          | inr (n, s) ↦ elim (seat j l') [
            | inl (e', p', s') ↦ omega (arith, place i l n, moved)
            | inr (n', s') ↦ omega (arith, place i l n, place j l' n', w.apart i j l l' d)
          ]
        ];
  }

  pub set_key-IsRekeyed : IsRekeyed psize mp (set_key indx key mid) indx key
  unfolding set_key
  set_key-IsRekeyed = record {
    valid = new-IsPage;
    keys = new_keys;
    lower = slid.lower;
    upper = slid.upper;
    others = same_at;
    child = child_same;
    ksize = rekeyed_ksize mid.body node key bounded;
    key_bytes = λ k h.
        put_bytes_here (with_ksize node (length key) mid.body) (node + 8) (length key) key k h;
  }
