-- ===== src/Nodes/Sizes.antt =====
-- mdb.c: mdb_leaf_size and mdb_branch_size, by which mdb_cursor_put and mdb_page_split tell whether a
-- node fits. Keys and data are at most MAXDATASIZE bytes.
use kotlin_lmdb.Common.{
  ℕ, ◌+◌, ◌-◌, ◌^◌, ◌<◌, Bool, true, false, Option, List, length, ltb, if◌then◌else◌, ◌≡◌, ap, ◌∙◌,
  arith,
}
use kotlin_lmdb.Idl.{u64}
use kotlin_lmdb.Nodes.{nodesize, even, is_bigdata, RawPage}
use kotlin_lmdb.Nodes.Add.{NodeEnv, MdbVal, key_or_none}
use kotlin_lmdb.Nodes.Outcome.{taken}

-- `sz -= data->mv_size - sizeof(pgno_t)`
unfoldable pub mdb_leaf_size : NodeEnv → List ℕ → MdbVal → ℕ
mdb_leaf_size e key datum =
    let sz = nodesize + length key + datum.mv_size in
    even ((if ltb e.me_nodemax sz then u64 (sz + 2 ^ 64 + 8 - datum.mv_size) else sz) + 2)

-- INDXSIZE
unfoldable pub mdb_branch_size : Option (List ℕ) → ℕ
mdb_branch_size key = nodesize + length (key_or_none key) + 2

-- mdb_node_add finds a leaf page full by the same size, with the slot.
pub mdb_leaf_size_lem :
    (psize : ℕ) (e : NodeEnv) (mp : RawPage) (indx : ℕ) (key : List ℕ) (datum : MdbVal) (flags : ℕ)
    → is_bigdata flags ≡ false
    → length key < 2 ^ 32
    → datum.mv_size < 2 ^ 32
    → even (nodesize + length key + taken psize e mp indx key datum flags) + 2
      ≡ mdb_leaf_size e key datum
unfolding mdb_leaf_size
mdb_leaf_size_lem psize e mp indx key datum flags plain small small' =
    let sz = nodesize + length key + datum.mv_size in
    ap
      (λ b.
        even (
          nodesize
          + length key
          + (if b then 8 else (if ltb e.me_nodemax sz then 8 else datum.mv_size)))
        + 2)
      plain
    ∙ sizes (ltb e.me_nodemax sz)
  where
    sizes :
        (large : Bool)
        → even (nodesize + length key + (if large then 8 else datum.mv_size)) + 2
          ≡ even (
              (if large
                then u64 (nodesize + length key + datum.mv_size + 2 ^ 64 + 8 - datum.mv_size)
                else nodesize + length key + datum.mv_size)
              + 2)
    sizes true = omega (arith, small, small')
    sizes false = omega arith
