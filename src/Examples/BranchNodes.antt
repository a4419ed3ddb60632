-- ===== src/Examples/BranchNodes.antt =====
-- A branch page of 64 bytes with two nodes, one of which gets a longer key.
use kotlin_lmdb.Common.{
  ℕ, zero, suc, ◌+◌, ◌≤◌, ◌<◌, false, some, List, [], ◌∷◌, ◌==◌, if◌then◌else◌, ◌≡◌, ◌≢◌, ◌⊎◌, inl,
  inr, refl, arith,
}
use kotlin_lmdb.Nodes.{RawPage, put, node_size}
use kotlin_lmdb.Nodes.Layout.{IsPage, size_of}
use kotlin_lmdb.Nodes.Update.{Updated, mdb_update_key}
use kotlin_lmdb.Nodes.Updates.{Outcome, mdb_update_key-Outcome}

-- A key of one byte for page 7 at 44, a key of two bytes for page 9 at 54.
abbrev branch : RawPage
branch = record {
  is_leaf = false;
  is_leaf2 = false;
  mp_lower = 20;
  mp_upper = 44;
  mp_ptrs = λ i. if i == 0 then 44 else 54;
  body = put (put (put (put (λ x. 0) 44 7) 50 1) 54 9) 60 2;
}

first_size : size_of branch 0 ≡ 10
unfolding node_size
first_size = refl

second_size : size_of branch 1 ≡ 10
unfolding node_size
second_size = refl

branch-IsPage : IsPage 64 branch
branch-IsPage = record {
  lower_eq = refl;
  gap = omega arith;
  top = omega arith;
  starts = starts;
  ends = ends;
  apart = apart;
}
  where
    starts : (i : ℕ) → i < 2 → 44 ≤ branch.mp_ptrs i
    starts zero h = omega arith
    starts (suc zero) h = omega arith
    starts (suc (suc i)) h = absurd (omega arith)

    ends : (i : ℕ) → i < 2 → branch.mp_ptrs i + size_of branch i ≤ 64
    ends zero h = omega (arith, first_size)
    ends (suc zero) h = omega (arith, second_size)
    ends (suc (suc i)) h = absurd (omega arith)

    apart :
        (i j : ℕ)
        → i < 2
        → j < 2
        → i ≢ j
        → (branch.mp_ptrs i + size_of branch i ≤ branch.mp_ptrs j)
          ⊎ (branch.mp_ptrs j + size_of branch j ≤ branch.mp_ptrs i)
    apart zero zero h l n = absurd (n refl)
    apart zero (suc zero) h l n = inl (omega (arith, first_size))
    apart (suc zero) zero h l n = inr (omega (arith, first_size))
    apart (suc zero) (suc zero) h l n = absurd (n refl)
    apart (suc (suc i)) j h l n = absurd (omega arith)
    apart zero (suc (suc j)) h l n = absurd (omega arith)
    apart (suc zero) (suc (suc j)) h l n = absurd (omega arith)

abbrev longer : List ℕ
longer = 1 ∷ 2 ∷ 3 ∷ []

mdb_update_key-Outcome_example :
    (u : Updated) × (mdb_update_key 1 longer branch ≡ some u) × Outcome 64 branch 1 longer u
mdb_update_key-Outcome_example =
    mdb_update_key-Outcome 64 branch 1 longer (omega arith) branch-IsPage (omega arith) refl refl
      (omega arith)
