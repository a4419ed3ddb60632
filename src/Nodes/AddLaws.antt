-- ===== src/Nodes/AddLaws.antt =====
-- mdb.c: the slot and the bytes that mdb_node_add gives a new node of a leaf page.
use kotlin_lmdb.Common.{
  ℕ, ◌+◌, ◌-◌, ◌*◌, ◌%◌, ◌^◌, ◌≤◌, ◌<◌, Bool, true, false, Option, none, some, List, length, get_or,
  leb, if◌then◌else◌, ◌>>=◌, ◌==◌, ◌≡◌, ◌⊎◌, inl, inr, refl, sym, ap, ap₂, ◌∙◌, arith, Bool-cases,
}
use kotlin_lmdb.Btree.{success}
use kotlin_lmdb.Nodes.{
  RawPage, u16, num_keys, size_left, even, nodesize, is_bigdata, put, mn_flags, mn_ksize, node_dsz,
  node_size,
}
use kotlin_lmdb.Nodes.Add.{Added, shift_ptrs, make_slot, write_node, data_at, leaf_node}
use kotlin_lmdb.Nodes.Layout.{IsPage}
use kotlin_lmdb.Nodes.Slots.{put_here}
use kotlin_lmdb.Nodes.Bytes.{written-other, written-ksize, written-flags, written-dsz, written-key}
use kotlin_lmdb.Nodes.Insert.{IsInserted, inserted-IsInserted}

-- A page with a new node at `indx`, of a key, flags and a size of its data, and `n` bytes after the
-- key, which are `bytes` where those are written.
pub record IsAdded (psize : ℕ) (mp : RawPage) (a : Added) (indx : ℕ) (key : List ℕ) (flags v n : ℕ)
    (bytes : Option (List ℕ)) : Type 0 where
  pub inserted : IsInserted psize mp a.page indx (even (nodesize + length key + n))
  pub rc : a.rc ≡ success
  pub clean : a.txn_error ≡ false
  pub ksize : mn_ksize a.page.body a.page.mp_upper ≡ length key
  pub flag_bits : mn_flags a.page.body a.page.mp_upper ≡ u16 flags
  pub dsz : node_dsz a.page.body a.page.mp_upper ≡ v % 2 ^ 32
  pub key_bytes : (k : ℕ) → k < length key → a.page.body (a.page.mp_upper + 8 + k) ≡ get_or key k 0
  pub data_bytes :
      (l : List ℕ)
      → bytes ≡ some l
      → (k : ℕ) → k < n
      → a.page.body (a.page.mp_upper + 8 + length key + k) ≡ get_or l k 0

-- What `finish` does to the bytes of the page.
pub record IsChange (n : ℕ) (bytes : Option (List ℕ)) (change : ℕ → (ℕ → ℕ) → ℕ → ℕ) : Type 0 where
  pub other : (at : ℕ) (b : ℕ → ℕ) (x : ℕ) → ((x < at) ⊎ (at + n ≤ x)) → change at b x ≡ b x
  pub here :
      (at : ℕ) (b : ℕ → ℕ) (l : List ℕ)
      → bytes ≡ some l
      → (k : ℕ) → k < n
      → change at b (at + k) ≡ get_or l k 0

module _ (psize : ℕ) (mp : RawPage) (indx : ℕ) (key : List ℕ) (flags v n : ℕ)
    (small : psize < 2 ^ 16) (w : IsPage psize mp) (in_range : indx ≤ num_keys mp)
    (leaf : mp.is_leaf ≡ true) (room : even (nodesize + length key + n) + 2 ≤ size_left mp)
    (count : (if is_bigdata flags then 8 else v) ≡ n) where
  abbrev size : ℕ
  size = even (nodesize + length key + n)

  abbrev ofs : ℕ
  ofs = mp.mp_upper - size

  room_left : mp.mp_lower + 2 + size ≤ mp.mp_upper
  room_left = omega (arith, room, w.gap, w.top)

  abbrev slotted : RawPage
  slotted = record mp {
    mp_ptrs = put (shift_ptrs indx (num_keys mp - indx) mp.mp_ptrs) indx ofs;
    mp_upper = ofs;
    mp_lower = mp.mp_lower + 2;
  }

  make_slot_lem : make_slot indx size mp ≡ some slotted
  unfolding make_slot
  make_slot_lem =
      let ofs_wraps : u16 (mp.mp_upper + 2 ^ 64 - size) ≡ ofs = omega (arith, room_left, w.top) in
      let lower_wraps : u16 (mp.mp_lower + 2) ≡ mp.mp_lower + 2 = omega (arith, room_left, w.top) in
      let fits : leb (mp.mp_lower + 2) ofs ≡ true = ground (arith, room_left) in
      ap₂
        (λ o l.
          if leb (mp.mp_lower + 2) o
          then some (record mp {
            mp_ptrs = put (shift_ptrs indx (num_keys mp - indx) mp.mp_ptrs) indx o;
            mp_upper = o;
            mp_lower = l;
          })
          else none)
        ofs_wraps lower_wraps
      ∙ ap (λ b. if b then some slotted else none) fits

  module _ (finish : ℕ → RawPage → Added) (r : ℕ → Added) (change : ℕ → (ℕ → ℕ) → ℕ → ℕ)
      (bytes : Option (List ℕ)) (changes : IsChange n bytes change)
      (finishes : (at : ℕ) (p : RawPage)
        → finish at p ≡ record (r at) { page = record p { body = change at p.body } })
      (r_rc : (at : ℕ) → (r at).rc ≡ success) (r_clean : (at : ℕ) → (r at).txn_error ≡ false) where
    abbrev written : ℕ → ℕ
    written = write_node true ofs key flags v mp.body

    abbrev body' : ℕ → ℕ
    body' = change (ofs + 8 + length key) written

    abbrev result : Added
    result = record (r (ofs + 8 + length key)) { page = record slotted { body = body' } }

    leaf_node_lem : leaf_node indx size key flags v finish mp ≡ some result
    unfolding leaf_node
    leaf_node_lem =
        let at : data_at ofs key ≡ ofs + 8 + length key = omega (arith, room_left, w.top) in
        ap
          (λ m. m >>= λ mp'. some (
            finish (data_at (mp'.mp_ptrs indx) key)
              (record mp' { body = write_node true (mp'.mp_ptrs indx) key flags v mp'.body })))
          make_slot_lem
        ∙ ap
            (λ node. some (
              finish (data_at node key)
                (record slotted { body = write_node true node key flags v mp.body })))
            (put_here (shift_ptrs indx (num_keys mp - indx) mp.mp_ptrs) indx ofs indx refl)
        ∙ ap (λ x. some (finish x (record slotted { body = written }))) at
        ∙ ap some (finishes (ofs + 8 + length key) (record slotted { body = written }))

    -- The data is after the header and the key.
    kept : (x : ℕ) → x < ofs + 8 + length key → body' x ≡ written x
    kept x h = changes.other (ofs + 8 + length key) written x (inl h)

    high : (x : ℕ) → mp.mp_upper ≤ x → body' x ≡ mp.body x
    high x h =
        changes.other (ofs + 8 + length key) written x (omega (arith, room_left))
        ∙ written-other mp.body ofs flags v key x (omega (arith, room_left))

    short_kept :
        (k : ℕ)
        → k < 7
        → body' (ofs + k) + body' (ofs + k + 1) * 256
          ≡ written (ofs + k) + written (ofs + k + 1) * 256
    short_kept k h =
        ap₂ (λ a b. a + b * 256) (kept (ofs + k) (omega arith)) (kept (ofs + k + 1) (omega arith))

    new-ksize : mn_ksize body' ofs ≡ length key
    new-ksize =
        short_kept 6 (omega arith)
        ∙ written-ksize mp.body ofs flags v key
        ∙ omega (arith, room_left, w.top)

    new-flags : mn_flags body' ofs ≡ u16 flags
    new-flags = short_kept 4 (omega arith) ∙ written-flags mp.body ofs flags v key

    new-dsz : node_dsz body' ofs ≡ v % 2 ^ 32
    new-dsz =
        ap₂ (λ a b. a + b * 2 ^ 16)
          (ap₂ (λ a b. a + b * 256) (kept ofs (omega arith)) (kept (ofs + 1) (omega arith)))
          (short_kept 2 (omega arith))
        ∙ written-dsz mp.body ofs flags v key

    new-size : node_size mp.is_leaf body' ofs ≡ size
    unfolding node_size
    new-size =
        ap (λ l. node_size l body' ofs) leaf
        ∙ ap₂ (λ k m. even (nodesize + k + m)) new-ksize
            (elim (Bool-cases (is_bigdata flags)) [
              | inl b ↦
                  let c : is_bigdata (mn_flags body' ofs) ≡ true =
                    ap is_bigdata new-flags ∙ big b in
                  ap (λ b. if b then 8 else node_dsz body' ofs) c
                  ∙ sym (ap (λ b. if b then 8 else v) b)
                  ∙ count
              | inr b ↦
                  let c : is_bigdata (mn_flags body' ofs) ≡ false =
                    ap is_bigdata new-flags ∙ big b in
                  let m : v ≡ n = sym (ap (λ b. if b then 8 else v) b) ∙ count in
                  ap (λ b. if b then 8 else node_dsz body' ofs) c
                  ∙ new-dsz
                  ∙ omega (arith, room_left, w.top, m)
            ])
      where
        big : {b : Bool} → is_bigdata flags ≡ b → is_bigdata (u16 flags) ≡ b
        big e = let same : u16 flags % 2 ≡ flags % 2 = omega arith in ap (λ x. x == 1) same ∙ e

    pub leaf_node-IsAdded :
        (a : Added) × (leaf_node indx size key flags v finish mp ≡ some a)
        × IsAdded psize mp a indx key flags v n bytes
        × (a.ofp ≡ (r (a.page.mp_upper + 8 + length key)).ofp)
        × (a.reserved ≡ (r (a.page.mp_upper + 8 + length key)).reserved)
    leaf_node-IsAdded = (
      result,
      leaf_node_lem,
      record {
        inserted =
            inserted-IsInserted psize mp indx size ofs small w in_range room_left
              (omega (arith, room_left)) body' high new-size;
        rc = r_rc (ofs + 8 + length key);
        clean = r_clean (ofs + 8 + length key);
        ksize = new-ksize;
        flag_bits = new-flags;
        dsz = new-dsz;
        key_bytes =
            λ k h. kept (ofs + 8 + k) (omega arith) ∙ written-key mp.body ofs flags v key k h;
        data_bytes = λ l e k h. changes.here (ofs + 8 + length key) written l e k h;
      },
      refl,
      refl,
    )
