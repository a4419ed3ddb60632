-- ===== src/Nodes/Layout.antt =====
-- mdb.c: the nodes of a page lie apart from one another, between mp_upper and the end of the page.
use kotlin_lmdb.Common.{ℕ, ◌+◌, ◌*◌, ◌^◌, ◌≤◌, ◌<◌, Bool, ◌≡◌, ◌≢◌, ◌⊎◌, ap, ap₂, ◌∙◌, arith}
use kotlin_lmdb.Nodes.{RawPage, num_keys, short_at, node_dsz, node_size}

-- The size of a node of the page.
abbrev pub size_of : RawPage → ℕ → ℕ
size_of mp i = node_size mp.is_leaf mp.body (mp.mp_ptrs i)

pub record IsPage (psize : ℕ) (mp : RawPage) : Type 0 where
  pub lower_eq : mp.mp_lower ≡ 16 + num_keys mp * 2
  pub gap : mp.mp_lower ≤ mp.mp_upper
  pub top : mp.mp_upper ≤ psize
  pub starts : (i : ℕ) → i < num_keys mp → mp.mp_upper ≤ mp.mp_ptrs i
  pub ends : (i : ℕ) → i < num_keys mp → mp.mp_ptrs i + size_of mp i ≤ psize
  pub apart :
      (i j : ℕ)
      → i < num_keys mp
      → j < num_keys mp
      → i ≢ j
      → (mp.mp_ptrs i + size_of mp i ≤ mp.mp_ptrs j) ⊎ (mp.mp_ptrs j + size_of mp j ≤ mp.mp_ptrs i)

-- Node `j` of the second page has the bytes of node `i` of the first.
abbrev pub SameNode : RawPage → ℕ → RawPage → ℕ → Type 0
SameNode mp i mp' j =
    (x : ℕ) → x < size_of mp i → mp'.body (mp'.mp_ptrs j + x) ≡ mp.body (mp.mp_ptrs i + x)

pub le-node_size : (leaf : Bool) (body : ℕ → ℕ) (at : ℕ) → 8 ≤ node_size leaf body at
unfolding node_size
le-node_size leaf body at = omega arith

module _ (body body' : ℕ → ℕ) (p p' : ℕ)
    (same : (x : ℕ) → x < 8 → body' (p' + x) ≡ body (p + x)) where
  short_same : (k : ℕ) → k < 7 → short_at body' (p' + k) ≡ short_at body (p + k)
  short_same k h =
      let high : p' + k + 1 ≡ p' + (k + 1) = omega arith in
      let high' : p + (k + 1) ≡ p + k + 1 = omega arith in
      ap₂ (λ a b. a + b * 256) (same k (omega arith))
        (ap body' high ∙ same (k + 1) (omega arith) ∙ ap body high')

  dsz_same : node_dsz body' p' ≡ node_dsz body p
  dsz_same =
      let low : p' ≡ p' + 0 = omega arith in
      let low' : p + 0 ≡ p = omega arith in
      ap₂ (λ a b. a + b * 2 ^ 16)
        (ap (short_at body') low ∙ short_same 0 (omega arith) ∙ ap (short_at body) low')
        (short_same 2 (omega arith))

  -- The size is read off the header.
  pub node_size_same : (leaf : Bool) → node_size leaf body' p' ≡ node_size leaf body p
  unfolding node_size
  node_size_same leaf = rw (short_same 4 (omega arith), short_same 6 (omega arith), dsz_same)

-- A node that has the same bytes has the same size.
pub size_same :
    (mp mp' : RawPage) (i j : ℕ)
    → mp'.is_leaf ≡ mp.is_leaf
    → SameNode mp i mp' j
    → size_of mp' j ≡ size_of mp i
size_same mp mp' i j l s =
    ap (λ b. node_size b mp'.body (mp'.mp_ptrs j)) l
    ∙ node_size_same mp.body mp'.body (mp.mp_ptrs i) (mp'.mp_ptrs j)
        (λ x h. s x (omega (arith, le-node_size mp.is_leaf mp.body (mp.mp_ptrs i)))) mp.is_leaf
