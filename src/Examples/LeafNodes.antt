-- ===== src/Examples/LeafNodes.antt =====
-- A leaf page of 64 bytes with two nodes: one is added between them, and one is deleted.
use kotlin_lmdb.Common.{
  ℕ, zero, suc, ◌+◌, ◌≤◌, ◌<◌, true, false, some, List, [], ◌∷◌, ◌==◌, if◌then◌else◌, ◌≡◌, ◌≢◌, ◌⊎◌,
  inl, inr, refl, arith,
}
use kotlin_lmdb.Btree.{success}
use kotlin_lmdb.Nodes.{RawPage, put, put_bytes, node_size}
use kotlin_lmdb.Nodes.Add.{
  NodeEnv, MdbVal, Added, added, full, shift_ptrs, write_node, mdb_node_add,
}
use kotlin_lmdb.Nodes.Del.{mdb_node_del}
use kotlin_lmdb.Nodes.Layout.{IsPage, size_of}
use kotlin_lmdb.Nodes.Remove.{IsRemoved, mdb_node_del-IsRemoved}
use kotlin_lmdb.Nodes.Outcome.{Outcome}
use kotlin_lmdb.Nodes.Adds.{mdb_node_add-Outcome}
use kotlin_lmdb.Nodes.Undo.{IsSamePage, mdb_node_del-mdb_node_add}

-- A key of one byte and data of one byte at 38, a key of two and data of five at 48.
abbrev bytes : ℕ → ℕ
bytes = put (put (put (put (λ x. 0) 38 1) 44 1) 48 5) 54 2

abbrev two_nodes : RawPage
two_nodes = record {
  is_leaf = true;
  is_leaf2 = false;
  mp_lower = 20;
  mp_upper = 38;
  mp_ptrs = λ i. if i == 0 then 38 else 48;
  body = bytes;
}

first_size : size_of two_nodes 0 ≡ 10
unfolding node_size
first_size = refl

second_size : size_of two_nodes 1 ≡ 16
unfolding node_size
second_size = refl

two_nodes-IsPage : IsPage 64 two_nodes
two_nodes-IsPage = record {
  lower_eq = refl;
  gap = omega arith;
  top = omega arith;
  starts = starts;
  ends = ends;
  apart = apart;
}
  where
    starts : (i : ℕ) → i < 2 → 38 ≤ two_nodes.mp_ptrs i
    starts zero h = omega arith
    starts (suc zero) h = omega arith
    starts (suc (suc i)) h = absurd (omega arith)

    ends : (i : ℕ) → i < 2 → two_nodes.mp_ptrs i + size_of two_nodes i ≤ 64
    ends zero h = omega (arith, first_size)
    ends (suc zero) h = omega (arith, second_size)
    ends (suc (suc i)) h = absurd (omega arith)

    apart :
        (i j : ℕ)
        → i < 2
        → j < 2
        → i ≢ j
        → (two_nodes.mp_ptrs i + size_of two_nodes i ≤ two_nodes.mp_ptrs j)
          ⊎ (two_nodes.mp_ptrs j + size_of two_nodes j ≤ two_nodes.mp_ptrs i)
    apart zero zero h l n = absurd (n refl)
    apart zero (suc zero) h l n = inl (omega (arith, first_size))
    apart (suc zero) zero h l n = inr (omega (arith, first_size))
    apart (suc zero) (suc zero) h l n = absurd (n refl)
    apart (suc (suc i)) j h l n = absurd (omega arith)
    apart zero (suc (suc j)) h l n = absurd (omega arith)
    apart (suc zero) (suc (suc j)) h l n = absurd (omega arith)

abbrev env : NodeEnv
env = record { me_nodemax = 30; me_psize = 64; md_pad = 0; page_new = λ n. (success, 7) }

abbrev key : List ℕ
key = 5 ∷ []

abbrev datum : MdbVal
datum = record { mv_size = 2; mv_data = 8 ∷ 9 ∷ [] }

abbrev large_datum : MdbVal
large_datum = record { mv_size = 8; mv_data = 0 ∷ 1 ∷ 2 ∷ 3 ∷ 4 ∷ 5 ∷ 6 ∷ 7 ∷ [] }

-- The node is written at 26, and its data at 35.
abbrev one_more : Added
one_more = added success (record two_nodes {
  mp_ptrs = put (shift_ptrs 1 1 two_nodes.mp_ptrs) 1 26;
  mp_lower = 22;
  mp_upper = 26;
  body = put_bytes (write_node true 26 key 0 2 bytes) 35 2 datum.mv_data;
})

one_is_added : mdb_node_add env 1 (some key) (some datum) 0 0 two_nodes ≡ some one_more
unfolding mdb_node_add
one_is_added = refl

no_room : mdb_node_add env 1 (some key) (some large_datum) 0 0 two_nodes ≡ some (full two_nodes)
unfolding mdb_node_add
no_room = refl

mdb_node_add-Outcome_example :
    (a : Added) × (mdb_node_add env 1 (some key) (some datum) 0 0 two_nodes ≡ some a)
    × Outcome 64 env two_nodes 1 key datum 0 a
mdb_node_add-Outcome_example =
    mdb_node_add-Outcome 64 env two_nodes 1 key datum 0 (omega arith) two_nodes-IsPage (omega arith)
      refl refl 0

mdb_node_del-IsRemoved_example :
    (mp' : RawPage) × (mdb_node_del 0 1 two_nodes ≡ some mp') × IsRemoved 64 two_nodes mp' 1
mdb_node_del-IsRemoved_example =
    mdb_node_del-IsRemoved 64 two_nodes 1 (omega arith) two_nodes-IsPage (omega arith) 0 refl

mdb_node_del-mdb_node_add_example :
    (mp' : RawPage) × (mdb_node_del 0 1 one_more.page ≡ some mp') × IsSamePage 64 two_nodes mp'
mdb_node_del-mdb_node_add_example =
    mdb_node_del-mdb_node_add 64 env two_nodes 1 key datum 0 (omega arith) two_nodes-IsPage
      (omega arith) refl refl 0 0 one_more one_is_added refl
