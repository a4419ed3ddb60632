-- ===== src/Nodes/Bytes.antt =====
-- mdb.c: what is read of a node after mdb_node_add has written it.
use kotlin_lmdb.Common.{
  ℕ, ◌+◌, ◌-◌, ◌*◌, ◌/◌, ◌%◌, ◌^◌, ◌≤◌, ◌<◌, true, List, length, get_or, ◌≡◌, ◌⊎◌, sym, ap, ap₂,
  ◌∙◌, arith,
}
use kotlin_lmdb.Nodes.{u16, put_short, put_bytes, short_at, mn_flags, mn_ksize, node_dsz}
use kotlin_lmdb.Nodes.Add.{write_node}

pub put_short_other :
    (body : ℕ → ℕ) (at v x : ℕ) → ((x < at) ⊎ (at + 1 < x)) → put_short body at v x ≡ body x
put_short_other body at v x h = ground arith

short_at_other :
    (body : ℕ → ℕ) (at v at' : ℕ)
    → ((at' + 1 < at) ⊎ (at + 1 < at'))
    → short_at (put_short body at v) at' ≡ short_at body at'
short_at_other body at v at' h =
    ap₂ (λ a b. a + b * 256) (put_short_other body at v at' (omega arith))
      (put_short_other body at v (at' + 1) (omega arith))

pub short_at_put : (body : ℕ → ℕ) (at v : ℕ) → short_at (put_short body at v) at ≡ u16 v
short_at_put body at v = ap₂ (λ a b. a + b * 256) low high ∙ omega arith
  where
    low : put_short body at v at ≡ v % 256
    low = ground arith

    high : put_short body at v (at + 1) ≡ v / 256 % 256
    high = ground arith

pub put_bytes_other :
    (body : ℕ → ℕ) (at n : ℕ) (bytes : List ℕ) (x : ℕ)
    → ((x < at) ⊎ (at + n ≤ x))
    → put_bytes body at n bytes x ≡ body x
put_bytes_other body at n bytes x h = ground arith

pub put_bytes_here :
    (body : ℕ → ℕ) (at n : ℕ) (bytes : List ℕ) (k : ℕ)
    → k < n
    → put_bytes body at n bytes (at + k) ≡ get_or bytes k 0
put_bytes_here body at n bytes k h =
    let back : at + k - at ≡ k = omega arith in here ∙ ap (λ i. get_or bytes i 0) back
  where
    here : put_bytes body at n bytes (at + k) ≡ get_or bytes (at + k - at) 0
    here = ground arith

pub short_of :
    (body body' : ℕ → ℕ) (at : ℕ)
    → body' at ≡ body at
    → body' (at + 1) ≡ body (at + 1)
    → short_at body' at ≡ short_at body at
short_of body body' at low high = ap₂ (λ a b. a + b * 256) low high

-- A leaf node at `ofs`, whose data goes to the bytes after the key.
module _ (body : ℕ → ℕ) (ofs flags v : ℕ) (key : List ℕ) where
  abbrev sized : ℕ → ℕ
  sized = put_short body (ofs + 6) (u16 (length key))

  abbrev flagged : ℕ → ℕ
  flagged = put_short sized (ofs + 4) (u16 flags)

  abbrev low : ℕ → ℕ
  low = put_short flagged ofs (u16 v)

  abbrev header : ℕ → ℕ
  header = put_short low (ofs + 2) (u16 (v / 2 ^ 16))

  pub written-other :
      (x : ℕ)
      → ((x < ofs) ⊎ (ofs + 8 + length key ≤ x))
      → write_node true ofs key flags v body x ≡ body x
  unfolding write_node
  written-other x h =
      put_bytes_other header (ofs + 8) (length key) key x (omega arith)
      ∙ put_short_other low (ofs + 2) (u16 (v / 2 ^ 16)) x (omega arith)
      ∙ put_short_other flagged ofs (u16 v) x (omega arith)
      ∙ put_short_other sized (ofs + 4) (u16 flags) x (omega arith)
      ∙ put_short_other body (ofs + 6) (u16 (length key)) x (omega arith)

  header_same :
      (at : ℕ)
      → at < 7
      → short_at (write_node true ofs key flags v body) (ofs + at) ≡ short_at header (ofs + at)
  unfolding write_node
  header_same at h =
      short_of header (write_node true ofs key flags v body) (ofs + at)
        (put_bytes_other header (ofs + 8) (length key) key (ofs + at) (omega arith))
        (put_bytes_other header (ofs + 8) (length key) key (ofs + at + 1) (omega arith))

  pub written-ksize : mn_ksize (write_node true ofs key flags v body) ofs ≡ u16 (length key)
  written-ksize =
      header_same 6 (omega arith)
      ∙ short_at_other low (ofs + 2) (u16 (v / 2 ^ 16)) (ofs + 6) (omega arith)
      ∙ short_at_other flagged ofs (u16 v) (ofs + 6) (omega arith)
      ∙ short_at_other sized (ofs + 4) (u16 flags) (ofs + 6) (omega arith)
      ∙ short_at_put body (ofs + 6) (u16 (length key))
      ∙ omega arith

  pub written-flags : mn_flags (write_node true ofs key flags v body) ofs ≡ u16 flags
  written-flags =
      header_same 4 (omega arith)
      ∙ short_at_other low (ofs + 2) (u16 (v / 2 ^ 16)) (ofs + 4) (omega arith)
      ∙ short_at_other flagged ofs (u16 v) (ofs + 4) (omega arith)
      ∙ short_at_put sized (ofs + 4) (u16 flags)
      ∙ omega arith

  pub written-dsz : node_dsz (write_node true ofs key flags v body) ofs ≡ v % 2 ^ 32
  written-dsz =
      let here : ofs ≡ ofs + 0 = omega arith in
      ap₂ (λ a b. a + b * 2 ^ 16)
        (ap (short_at (write_node true ofs key flags v body)) here
          ∙ header_same 0 (omega arith)
          ∙ ap (short_at header) (sym here)
          ∙ short_at_other low (ofs + 2) (u16 (v / 2 ^ 16)) ofs (omega arith)
          ∙ short_at_put flagged ofs (u16 v))
        (header_same 2 (omega arith) ∙ short_at_put low (ofs + 2) (u16 (v / 2 ^ 16)))
      ∙ omega arith

  pub written-key :
      (k : ℕ) → k < length key → write_node true ofs key flags v body (ofs + 8 + k) ≡ get_or key k 0
  unfolding write_node
  written-key k h = put_bytes_here header (ofs + 8) (length key) key k h
