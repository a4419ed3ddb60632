-- ===== src/Nodes/Updates.antt =====
-- mdb.c: mdb_update_key, which gives a branch node its key or calls for a split.
use kotlin_lmdb.Common.{
  ℕ, ◌+◌, ◌≤◌, ◌<◌, ◌^◌, Bool, false, Option, some, List, length, if◌then◌else◌, ◌>>=◌, ◌==◌, ◌≡◌,
  ◌⊎◌, inl, inr, refl, ap, ap₂, ◌∙◌, arith, Bool-cases,
}
use kotlin_lmdb.Nodes.{RawPage, num_keys, size_left, even, mn_ksize, node_pgno, node_size}
use kotlin_lmdb.Nodes.Del.{mdb_node_del}
use kotlin_lmdb.Nodes.Layout.{IsPage, size_of}
use kotlin_lmdb.Nodes.Remove.{IsRemoved, mdb_node_del-IsRemoved}
use kotlin_lmdb.Nodes.Update.{Updated, updated, split, no_room, set_key, slide, mdb_update_key}
use kotlin_lmdb.Nodes.Slide.{unslid, slide-IsSlid}
use kotlin_lmdb.Nodes.Rekey.{IsRekeyed, branch_size, set_key-IsRekeyed}

module _ (psize : ℕ) (mp : RawPage) (indx : ℕ) (key : List ℕ) where
  abbrev ksize : ℕ
  ksize = even (length key)

  abbrev oksize : ℕ
  oksize = even (mn_ksize mp.body (mp.mp_ptrs indx))

  abbrev pub Outcome : Updated → Type 0
  Outcome u =
      ((mp' : RawPage) × (u ≡ updated mp') × IsRekeyed psize mp mp' indx key)
      ⊎ ((size_left mp + oksize < ksize)
          × (mp' : RawPage) × (u ≡ split mp' (node_pgno mp.body (mp.mp_ptrs indx)))
          × IsRemoved psize mp mp' indx)

  -- The three ways through mdb_update_key.
  abbrev chosen : (same full : Bool) → Option Updated
  chosen same full =
      if same
      then some (updated (set_key indx key mp))
      else (if full
          then (mdb_node_del 0 indx mp >>= λ mp'.
              some (split mp' (node_pgno mp.body (mp.mp_ptrs indx))))
          else some (updated (set_key indx key (slide indx ksize oksize mp))))

  update_key_lem : mdb_update_key indx key mp ≡ chosen (ksize == oksize) (no_room ksize oksize mp)
  unfolding mdb_update_key
  update_key_lem = refl

  -- On a branch page of nodes that lie apart, mdb_update_key of a node that is there returns. The
  -- node has the new key, as it is, and its page number, and the other nodes keep their order and
  -- bytes on a page whose nodes lie apart; or, only where the longer key does not fit in the free
  -- space, the split is called for the page number of the node and the page without it.
  pub mdb_update_key-Outcome :
      psize < 2 ^ 16
      → IsPage psize mp
      → indx < num_keys mp
      → mp.is_leaf ≡ false
      → mp.is_leaf2 ≡ false
      → length key < 2 ^ 16
      → (u : Updated) × (mdb_update_key indx key mp ≡ some u) × Outcome u
  mdb_update_key-Outcome small w in_range branch plain bounded =
      elim (Bool-cases (ksize == oksize)) [
        | inl b ↦
            let same : ksize ≡ oksize = ground arith in
            (
              _,
              update_key_lem ∙ ap (λ b. chosen b (no_room ksize oksize mp)) b,
              inl (
                _,
                refl,
                set_key-IsRekeyed psize mp mp indx key w in_range branch bounded
                    (omega (arith, same, w.gap)) (unslid mp indx ksize oksize same),
              ),
            )
        | inr b ↦ elim (Bool-cases (no_room ksize oksize mp)) [
          | inl f ↦
              let (mp', q, r) = mdb_node_del-IsRemoved psize mp indx small w in_range 0 plain in
              (
                _,
                update_key_lem
                    ∙ ap₂ chosen b f
                    ∙ ap (λ m. m >>= λ mp'. some (split mp' (node_pgno mp.body (mp.mp_ptrs indx))))
                        q,
                inr (ground arith, mp', refl, r),
              )
          | inr f ↦
              let room : mp.mp_lower + ksize ≤ mp.mp_upper + oksize =
                ground (arith, w.gap, w.top) in
              (
                _,
                update_key_lem ∙ ap₂ chosen b f,
                inl (
                  _,
                  refl,
                  set_key-IsRekeyed psize mp (slide indx ksize oksize mp) indx key w in_range branch
                      bounded room
                      (slide-IsSlid psize mp indx ksize oksize small w in_range (omega arith) room
                        old_ends),
                ),
              )
        ]
      ]
    where
      old_size : size_of mp indx ≡ 8 + oksize
      old_size =
          ap (λ l. node_size l mp.body (mp.mp_ptrs indx)) branch
          ∙ branch_size mp.body (mp.mp_ptrs indx)

      old_ends : mp.mp_ptrs indx + 8 + oksize ≤ psize
      old_ends = omega (arith, w.ends indx in_range, old_size)
