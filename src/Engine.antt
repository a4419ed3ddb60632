-- ===== src/Engine.antt =====
-- mdb.c: mdb_node_search, the search for a key in one page. A page is the list of the keys of its
-- nodes, which NODEPTR and NODEKEY, or LEAF2KEY, read; `none` is a read of a node that is not there.
pub mod Compare
pub mod NodeLoop
pub mod NodePlace
pub mod Reverse
use kotlin_lmdb.Common.{
  ℕ, zero, suc, ◌+◌, ◌-◌, ◌/◌, ◌<◌, Bool, true, false, ◌&&◌, ◌==◌, Option, none, some, List, [],
  ◌∷◌, length, get_elem?, ltb, leb, ℤ, pos, negsuc, is_zero, if◌then◌else◌, ◌>>=◌,
}

pub record Page : Type 0 where
  pub is_leaf : Bool
  pub is_branch : Bool
  pub keys : List (List ℕ)

-- What `md_cmp` points to: one of the library's integer comparisons, or another function.
pub data Cmp : Type 0 where
  cmp_cint cmp_long cmp_int cmp_other : Cmp

abbrev pub is_cint : Cmp → Bool
is_cint cmp_cint = true
is_cint _ = false

-- Branch pages have aligned keys; the first node of one has none, so the size is that of node 1.
unfoldable pub choose_cmp : Page → Cmp → Option Cmp
choose_cmp mp c =
    if is_cint c && mp.is_branch
    then (elim (get_elem? mp.keys 1) [
      | none ↦ none
      | some k ↦ some (if length k == 8 then cmp_long else cmp_int)
    ])
    else some c

-- What follows `rc = cmp(key, &nodekey)`; `next` goes on with low, high + 1, i and rc.
abbrev pub search_next :
    (next : ℕ → ℕ → ℕ → ℤ → Option (ℕ × ℤ)) → (low hi i : ℕ) → ℤ → Option (ℕ × ℤ)
search_next next low hi i (pos zero) = some (i, pos 0)
search_next next low hi i (pos (suc n)) = next (suc i) hi i (pos (suc n))
search_next next low hi i (negsuc n) = next low i i (negsuc n)

-- One round of `while (low <= high)`, where `hi` is high + 1, and `probe i` is the value of cmp at
-- node i.
unfoldable pub search_round :
    (probe : ℕ → Option ℤ) (next : ℕ → ℕ → ℕ → ℤ → Option (ℕ × ℤ)) (low hi i : ℕ) (rc : ℤ)
    → Option (ℕ × ℤ)
search_round probe next low hi i rc =
    let m = (low + (hi - 1)) / 2 in
    if ltb low hi
    then (elim (probe m) [ none ↦ none | some c ↦ search_next next low hi m c ])
    else some (i, rc)

-- The loop; `none` also where the fuel, which bounds the rounds, runs out.
unfoldable pub search_loop : (probe : ℕ → Option ℤ) (fuel low hi i : ℕ) (rc : ℤ) → Option (ℕ × ℤ)
unfolding search_round
search_loop probe zero = λ low hi i rc. none
search_loop probe (suc f) = search_round probe (search_loop probe f)

abbrev pub past : ℕ → ℤ → ℕ
past i (pos (suc n)) = suc i
past i _ = i

-- mc_ki of the cursor, `*exactp`, and the node that is returned, by its index.
pub record Found : Type 0 where
  pub index : ℕ
  pub exact : Bool
  pub node : Option ℕ

-- `node` is NULL until a round sets it, and there is a round if `first`, the first value of low, is
-- below nkeys: the one node of a branch page is not compared, and not returned.
abbrev pub found : (first nkeys i : ℕ) → ℤ → Found
found first nkeys i rc = record {
  index = past i rc;
  exact = is_zero rc && ltb 0 nkeys;
  node =
      if leb nkeys (past i rc) then none else (if ltb first nkeys then some (past i rc) else none);
}

-- `low = IS_LEAF(mp) ? 0 : 1`
abbrev pub first_key : Page → ℕ
first_key mp = if mp.is_leaf then 0 else 1

module _ (compare_with : Cmp → List ℕ → List ℕ → ℤ) where
  abbrev pub probe : Page → List ℕ → Cmp → ℕ → Option ℤ
  probe mp key c i = elim (get_elem? mp.keys i) [
    | none ↦ none
    | some k ↦ some (compare_with c key k)
  ]

  -- Every round leaves fewer nodes between low and high: nkeys + 1 rounds are enough.
  unfoldable pub mdb_node_search : Page → List ℕ → Cmp → Option Found
  unfolding choose_cmp search_loop
  mdb_node_search mp key md_cmp = do
    c ← choose_cmp mp md_cmp
    let nkeys = length mp.keys
    r ← search_loop (probe mp key c) (suc nkeys) (first_key mp) nkeys 0 (pos 0)
    some (found (first_key mp) nkeys r.0 r.1)
