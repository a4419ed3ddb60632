-- ===== src/Nodes/Slide.antt =====
-- mdb.c: where the nodes of a page are after mdb_update_key has made room for a key.
use kotlin_lmdb.Common.{
  ℕ, zero, suc, ◌+◌, ◌-◌, ◌^◌, ◌≤◌, ◌<◌, ◌≡◌, refl, sym, ap, ◌∙◌, arith, dec_lt,
}
use kotlin_lmdb.Idl.{u64}
use kotlin_lmdb.Nodes.{RawPage, u16, num_keys, move_bytes, nodesize, put}
use kotlin_lmdb.Nodes.Layout.{IsPage}
use kotlin_lmdb.Nodes.Slots.{put_here, put_other}
use kotlin_lmdb.Nodes.Update.{slid_ptr, slide_ptrs, slide}

-- The nodes up to the one at `indx`, and its header, stand `ksize` - `oksize` bytes lower in `mid`.
pub record IsSlid (mp mid : RawPage) (indx ksize oksize : ℕ) : Type 0 where
  pub low :
      (k : ℕ)
      → k < num_keys mp
      → mp.mp_ptrs k ≤ mp.mp_ptrs indx
      → mid.mp_ptrs k + ksize ≡ mp.mp_ptrs k + oksize
  pub high :
      (k : ℕ) → k < num_keys mp → mp.mp_ptrs indx < mp.mp_ptrs k → mid.mp_ptrs k ≡ mp.mp_ptrs k
  pub low_bytes :
      (x y : ℕ)
      → mp.mp_upper ≤ x
      → x < mp.mp_ptrs indx + 8
      → y + ksize ≡ x + oksize
      → mid.body y ≡ mp.body x
  pub high_bytes : (x : ℕ) → mp.mp_ptrs indx + 8 + oksize ≤ x → mid.body x ≡ mp.body x
  pub upper : mid.mp_upper + ksize ≡ mp.mp_upper + oksize
  pub lower : mid.mp_lower ≡ mp.mp_lower
  pub kind : mid.is_leaf ≡ mp.is_leaf

pub unslid :
    (mp : RawPage) (indx ksize oksize : ℕ) → ksize ≡ oksize → IsSlid mp mp indx ksize oksize
unslid mp indx ksize oksize e = record {
  low = λ k h l. omega arith;
  high = λ k h l. refl;
  low_bytes = λ x y h l q. ap mp.body (omega arith);
  high_bytes = λ x h. refl;
  upper = omega arith;
  lower = refl;
  kind = refl;
}

slide_ptrs_done :
    (ptr ksize oksize r i : ℕ) (ptrs : ℕ → ℕ) (k : ℕ)
    → k < i
    → slide_ptrs ptr ksize oksize r i ptrs k ≡ ptrs k
unfolding slide_ptrs
slide_ptrs_done ptr ksize oksize zero i ptrs k h = refl
slide_ptrs_done ptr ksize oksize (suc r) i ptrs k h =
    slide_ptrs_done ptr ksize oksize r (suc i) _ k (omega arith)
    ∙ put_other ptrs i (slid_ptr ptr ksize oksize (ptrs i)) k (λ e. absurd (omega arith))

slide_ptrs_lem :
    (ptr ksize oksize r i : ℕ) (ptrs : ℕ → ℕ) (k : ℕ)
    → i ≤ k
    → k < i + r
    → slide_ptrs ptr ksize oksize r i ptrs k ≡ slid_ptr ptr ksize oksize (ptrs k)
unfolding slide_ptrs
slide_ptrs_lem ptr ksize oksize zero i ptrs k h l = absurd (omega arith)
slide_ptrs_lem ptr ksize oksize (suc r) i ptrs k h l =
    let moved = slid_ptr ptr ksize oksize (ptrs i) in
    elim (dec_lt i k) [
      | yes q ↦
          slide_ptrs_lem ptr ksize oksize r (suc i) (put ptrs i moved) k (omega arith) (omega arith)
          ∙ ap (slid_ptr ptr ksize oksize) (put_other ptrs i moved k (λ e. absurd (omega arith)))
      | no q ↦
          let here : i ≡ k = omega arith in
          slide_ptrs_done ptr ksize oksize r (suc i) (put ptrs i moved) k (omega arith)
          ∙ put_here ptrs i moved k (sym here)
          ∙ ap (λ x. slid_ptr ptr ksize oksize (ptrs x)) here
    ]

module _ (psize : ℕ) (mp : RawPage) (indx ksize oksize : ℕ) (small : psize < 2 ^ 16)
    (w : IsPage psize mp) (in_range : indx < num_keys mp) (fits : ksize < 2 ^ 32)
    (room : mp.mp_lower + ksize ≤ mp.mp_upper + oksize)
    (ends : mp.mp_ptrs indx + 8 + oksize ≤ psize) where
  abbrev ptr : ℕ
  ptr = mp.mp_ptrs indx

  upper_wraps : u16 (mp.mp_upper + oksize + 2 ^ 32 - ksize) ≡ mp.mp_upper + oksize - ksize
  upper_wraps = omega (arith, w.starts indx in_range)

  count_wraps : u64 (ptr + 2 ^ 64 - mp.mp_upper + nodesize) ≡ ptr + 8 - mp.mp_upper
  count_wraps = omega (arith, w.starts indx in_range)

  slot_at :
      (k : ℕ)
      → k < num_keys mp
      → slide_ptrs ptr ksize oksize (num_keys mp) 0 mp.mp_ptrs k
        ≡ slid_ptr ptr ksize oksize (mp.mp_ptrs k)
  slot_at k h =
      slide_ptrs_lem ptr ksize oksize (num_keys mp) 0 mp.mp_ptrs k (omega arith) (omega arith)

  slid_low :
      (at : ℕ) → mp.mp_upper ≤ at → at ≤ ptr → slid_ptr ptr ksize oksize at + ksize ≡ at + oksize
  slid_low at a b =
      let wraps : u16 (at + oksize + 2 ^ 32 - ksize) + ksize ≡ at + oksize = omega (arith, w.gap) in
      ground arith

  moved :
      (y : ℕ)
      → mp.mp_upper + oksize ≤ y + ksize
      → y + ksize < ptr + 8 + oksize
      → move_bytes mp.body (mp.mp_upper + oksize - ksize) mp.mp_upper (ptr + 8 - mp.mp_upper) y
        ≡ mp.body (mp.mp_upper + (y - (mp.mp_upper + oksize - ksize)))
  moved y a b = ground (arith, room)

  stays :
      (x : ℕ)
      → ptr + 8 + oksize ≤ x
      → move_bytes mp.body (mp.mp_upper + oksize - ksize) mp.mp_upper (ptr + 8 - mp.mp_upper) x
        ≡ mp.body x
  stays x a = ground (arith, room, w.starts indx in_range)

  pub slide-IsSlid : IsSlid mp (slide indx ksize oksize mp) indx ksize oksize
  unfolding slide
  slide-IsSlid = record {
    low = λ k h l. ap (λ p. p + ksize) (slot_at k h) ∙ slid_low (mp.mp_ptrs k) (w.starts k h) l;
    high = λ k h l. slot_at k h ∙ ground arith;
    low_bytes = λ x y h l q.
        ap (λ n. move_bytes mp.body (mp.mp_upper + oksize - ksize) mp.mp_upper n y) count_wraps
        ∙ moved y (omega arith) (omega arith)
        ∙ ap mp.body (omega (arith, room));
    high_bytes = λ x h.
        ap (λ n. move_bytes mp.body (mp.mp_upper + oksize - ksize) mp.mp_upper n x) count_wraps
        ∙ stays x h;
    upper = omega (arith, upper_wraps, room);
    lower = refl;
    kind = refl;
  }
