-- ===== src/Examples/IdPairs.antt =====
-- Arrays of ID pairs: the theorems of mdb_mid2l_search and mdb_mid2l_insert at two pairs.
use kotlin_lmdb.Common.{ℕ, zero, suc, some, List, [], ◌∷◌, length, ◌≡◌, refl, arith, ℤ, ◌-◌}
use kotlin_lmdb.Idl.Memory.{um_max}
use kotlin_lmdb.Id2l.{Id2, mdb_mid2l_search, mdb_mid2l_insert}
use kotlin_lmdb.Id2l.Locate.{IsId2l, IsRising, IsPlace, mdb_mid2l_search-IsPlace}
use kotlin_lmdb.Id2l.Insert.{Outcome, mdb_mid2l_insert-Outcome}

abbrev pair : ℕ → ℕ → Id2
pair mid mptr = record { mid = mid; mptr = mptr }

blanks : ℕ → List Id2
blanks zero = []
blanks (suc n) = pair 0 0 ∷ blanks n

length-blanks : (n : ℕ) → length (blanks n) ≡ n
unfolding blanks
length-blanks zero = refl
length-blanks (suc n) = omega (arith, length-blanks n)

-- The rest of the array, which is not looked at.
pub spare : List Id2
spare = blanks (um_max - 2)

abbrev pub pairs : List Id2
pairs = pair 2 0 ∷ pair 4 100 ∷ pair 9 200 ∷ spare

pub pairs-IsId2l : IsId2l pairs
unfolding spare
pairs-IsId2l = record { fits = omega arith; sized = omega (arith, length-blanks (um_max - 2)) }

pub pairs-IsRising : IsRising pairs
pairs-IsRising zero j x y h k l ex ey = absurd (omega arith)
pairs-IsRising (suc zero) zero x y h k l ex ey = absurd (omega arith)
pairs-IsRising (suc zero) (suc zero) x y h k l ex ey = absurd (omega arith)
pairs-IsRising (suc zero) (suc (suc zero)) x y h k l ex ey = ground arith
pairs-IsRising (suc zero) (suc (suc (suc j))) x y h k l ex ey = absurd (omega arith)
pairs-IsRising (suc (suc i)) j x y h k l ex ey = absurd (omega arith)

mdb_mid2l_search-IsPlace_example : (x : ℕ) × (mdb_mid2l_search pairs 7 ≡ some x) × IsPlace pairs 7 x
mdb_mid2l_search-IsPlace_example = mdb_mid2l_search-IsPlace pairs 7 pairs-IsId2l pairs-IsRising

mdb_mid2l_insert-Outcome_example :
    (q : ℤ × List Id2) × (mdb_mid2l_insert pairs (pair 7 300) ≡ some q)
    × Outcome pairs (pair 7 300) q
mdb_mid2l_insert-Outcome_example =
    mdb_mid2l_insert-Outcome pairs (pair 7 300) pairs-IsId2l pairs-IsRising
