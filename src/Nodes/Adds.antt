-- ===== src/Nodes/Adds.antt =====
-- mdb.c: mdb_node_add on a leaf page, from its tests for room to its data.
use kotlin_lmdb.Common.{
  ℕ, ◌+◌, ◌^◌, ◌≤◌, ◌<◌, Bool, true, false, Option, none, some, List, length, ltb, leb,
  if◌then◌else◌, ◌≡◌, ◌⊎◌, inl, inr, refl, ap, ap₂, ◌∙◌, arith, Bool-cases,
}
use kotlin_lmdb.Btree.{Rc, success, is_success}
use kotlin_lmdb.Nodes.{RawPage, num_keys, size_left, even, nodesize, is_bigdata}
use kotlin_lmdb.Nodes.Add.{
  NodeEnv, MdbVal, Added, added, full, put_data, put_overflow, set_bigdata, leaf_node, if_room,
  ov_pages, with_overflow, leaf2_args, leaf_args, branch_add, key_or_none, leaf_add, mdb_node_add,
}
use kotlin_lmdb.Nodes.Layout.{IsPage}
use kotlin_lmdb.Nodes.Outcome.{Outcome, taken, given, inline, overflow}

is_success-cases : (r : Rc × ℕ) → ((pgno : ℕ) × (r ≡ (success, pgno))) ⊎ (is_success r.0 ≡ false)
is_success-cases (success, pgno) = inl (pgno, refl)
is_success-cases (rc, pgno) = inr refl

module _ (psize : ℕ) (e : NodeEnv) (mp : RawPage) (indx : ℕ) (key : List ℕ) (datum : MdbVal)
    (flags : ℕ) (small : psize < 2 ^ 16) (w : IsPage psize mp) (in_range : indx ≤ num_keys mp)
    (leaf : mp.is_leaf ≡ true) where
  abbrev size_for : ℕ → ℕ
  size_for n = even (nodesize + length key + n)

  -- The test for room.
  full_or :
      (n : ℕ) (k : Option Added)
      → ((size_left mp < size_for n + 2) × (if_room (size_for n) mp k ≡ some (full mp)))
        ⊎ ((size_for n + 2 ≤ size_left mp) × (if_room (size_for n) mp k ≡ k))
  full_or n k = elim (Bool-cases (leb (size_for n + 2) (size_left mp))) [
    | inl b ↦ inr (ground arith, ap (λ b. if b then k else some (full mp)) b)
    | inr b ↦ inl (ground arith, ap (λ b. if b then k else some (full mp)) b)
  ]

  abbrev in_place : ℕ → Option Added
  in_place n =
      if_room (size_for n) mp
        (leaf_node indx (size_for n) key flags datum.mv_size (λ at. put_data at flags datum) mp)

  abbrev at_page : ℕ → Option Added
  at_page pgno =
      leaf_node indx (size_for 8) key (set_bigdata flags) datum.mv_size
        (λ at. put_overflow at flags pgno datum) mp

  abbrev new_page : Option Added
  new_page = with_overflow (e.page_new (ov_pages e datum.mv_size)) mp at_page

  abbrev chosen : (bigdata large : Bool) → Option Added
  chosen bigdata large =
      if bigdata
      then in_place 8
      else (if large then if_room (size_for 8) mp new_page else in_place datum.mv_size)

  abbrev taken_by : (bigdata large : Bool) → ℕ
  taken_by bigdata large = if bigdata then 8 else (if large then 8 else datum.mv_size)

  abbrev large : Bool
  large = ltb e.me_nodemax (nodesize + length key + datum.mv_size)

  leaf_add_lem : leaf_add e indx key datum flags mp ≡ chosen (is_bigdata flags) large
  unfolding leaf_add
  leaf_add_lem = refl

  -- The three ways through mdb_node_add once there is room.
  by_room :
      (n : ℕ) (k : Option Added)
      → taken psize e mp indx key datum flags ≡ n
      → leaf_add e indx key datum flags mp ≡ if_room (size_for n) mp k
      → (size_for n + 2 ≤ size_left mp
          → (a : Added) × (k ≡ some a) × Outcome psize e mp indx key datum flags a)
      → (a : Added) × (leaf_add e indx key datum flags mp ≡ some a)
        × Outcome psize e mp indx key datum flags a
  by_room n k t q done = elim (full_or n k) [
    | inl (less, f) ↦ (full mp, q ∙ f, inl (omega (arith, t), refl))
    | inr (room, f) ↦ let (a, g, o) = done room in (a, q ∙ f ∙ g, o)
  ]

  new_page-Outcome :
      is_bigdata flags ≡ false
      → e.me_nodemax < nodesize + length key + datum.mv_size
      → size_for 8 + 2 ≤ size_left mp
      → (a : Added) × (new_page ≡ some a) × Outcome psize e mp indx key datum flags a
  new_page-Outcome b big room = elim (is_success-cases (e.page_new (ov_pages e datum.mv_size))) [
    | inl (pgno, new) ↦
        let (a, q, o) =
          overflow psize e mp indx key datum flags small w in_range leaf b big room pgno new in
        (a, ap (λ r. with_overflow r mp at_page) new ∙ q, inr (inr (inr (inr o))))
    | inr bad ↦
        let rc = (e.page_new (ov_pages e datum.mv_size)).0 in
        (
          added rc mp,
          ap
              (λ c.
                if c then at_page (e.page_new (ov_pages e datum.mv_size)).1 else some (added rc mp))
              bad,
          inr (inl (b, big, bad, refl)),
        )
  ]

  leaf_add-Outcome :
      (a : Added) × (leaf_add e indx key datum flags mp ≡ some a)
      × Outcome psize e mp indx key datum flags a
  leaf_add-Outcome = elim (Bool-cases (is_bigdata flags)) [
    | inl b ↦
        by_room 8 _ (ap (λ b. taken_by b large) b) (leaf_add_lem ∙ ap (λ b. chosen b large) b)
          (λ room.
            let (a, q, o) = given psize e mp indx key datum flags small w in_range leaf b room in
            (a, q, inr (inr (inl o))))
    | inr b ↦ elim (Bool-cases large) [
      | inl l ↦
          by_room 8 new_page (ap₂ taken_by b l) (leaf_add_lem ∙ ap₂ chosen b l)
            (new_page-Outcome b (ground arith))
      | inr l ↦ by_room datum.mv_size _ (ap₂ taken_by b l) (leaf_add_lem ∙ ap₂ chosen b l) (λ room.
          let (a, q, o) =
            inline psize e mp indx key datum flags small w in_range leaf b (ground arith) room in
          (a, q, inr (inr (inr (inl o)))))
    ]
  ]

  abbrev entered : (pgno : ℕ) (sound leaf2 leaf : Bool) → Option Added
  entered pgno sound leaf2 leaf =
      if sound
      then (if leaf2
          then leaf2_args e indx (some key) mp
          else (if leaf
              then leaf_args e indx (some key) (some datum) flags mp
              else branch_add e indx (key_or_none (some key)) pgno flags mp))
      else none

  -- On a leaf page of nodes that lie apart, mdb_node_add with a key and data returns. It finds the
  -- page full only where the node and its slot do not fit, and hands on the error of
  -- mdb_page_new, both with the page as it was. Else the page has one more node, at the index,
  -- all others keep their order and bytes, and the node reads back as the key, its flags and the
  -- size of the data, followed by the page number of the data, given or new, or by the data
  -- itself; MDB_RESERVE leaves the data to be written to a place that is returned.
  pub mdb_node_add-Outcome :
      mp.is_leaf2 ≡ false
      → (pgno : ℕ)
      → (a : Added) × (mdb_node_add e indx (some key) (some datum) pgno flags mp ≡ some a)
        × Outcome psize e mp indx key datum flags a
  unfolding mdb_node_add
  mdb_node_add-Outcome plain pgno =
      let (a, q, o) = leaf_add-Outcome in
      let sound : leb mp.mp_lower mp.mp_upper ≡ true = ground (arith, w.gap) in
      (
        a,
        ap (λ b. entered pgno b mp.is_leaf2 mp.is_leaf) sound
            ∙ ap₂ (entered pgno true) plain leaf
            ∙ q,
        o,
      )
