-- ===== src/Examples/IdLists.antt =====
-- ID lists: runs of midl.c, and its theorems at lists of two IDs.
use kotlin_lmdb.Common.{
  ℕ, zero, suc, ◌*◌, ◌/◌, ◌<◌, some, List, [], ◌∷◌, length, get_elem?, ◌≡◌, refl, arith,
}
use kotlin_lmdb.Idl.{count, Idl, IsIdl, IsFalling, mdb_midl_search}
use kotlin_lmdb.Idl.Locate.{IsPlace, mdb_midl_search-IsPlace}
use kotlin_lmdb.Idl.Memory.{Allocator, IsAllocator, mdb_midl_grow, words_at, copy_to}
use kotlin_lmdb.Idl.Append.{
  mdb_midl_append, mdb_midl_append_list, mdb_midl_append_range, append_write, append_list_write,
  append_range_write, range_loop,
}
use kotlin_lmdb.Idl.AppendLaws.{Extended}
use kotlin_lmdb.Idl.Copies.{Holds}
use kotlin_lmdb.Idl.CopyLaws.{mdb_midl_append_list-Extended}

abbrev pub two : Idl
two = record { cap = 4; cells = 2 ∷ 9 ∷ 4 ∷ 0 ∷ 0 ∷ [] }

pub two-IsIdl : IsIdl two
two-IsIdl = omega arith

pub two-IsFalling : IsFalling two
two-IsFalling zero j x y h k l ex ey = absurd (omega arith)
two-IsFalling (suc zero) zero x y h k l ex ey = absurd (omega arith)
two-IsFalling (suc zero) (suc zero) x y h k l ex ey = absurd (omega arith)
two-IsFalling (suc zero) (suc (suc zero)) x y h k l ex ey = ground arith
two-IsFalling (suc zero) (suc (suc (suc j))) x y h k l ex ey = absurd (omega arith)
two-IsFalling (suc (suc i)) j x y h k l ex ey = absurd (omega arith)

search_between : mdb_midl_search two 7 ≡ some 2
unfolding mdb_midl_search
search_between = refl

search_hit : mdb_midl_search two 4 ≡ some 2
unfolding mdb_midl_search
search_hit = refl

mdb_midl_search-IsPlace_example : (x : ℕ) × (mdb_midl_search two 7 ≡ some x) × IsPlace two 7 x
mdb_midl_search-IsPlace_example =
    mdb_midl_search-IsPlace two 7 two-IsIdl two-IsFalling (omega arith)

-- An allocator: a block is cut, or filled up with zeros.
unfoldable pub fill : ℕ → List ℕ → List ℕ
fill zero b = []
fill (suc n) [] = 0 ∷ fill n []
fill (suc n) (w ∷ b) = w ∷ fill n b

abbrev pub zeros : Allocator
zeros = record { malloc = λ n. some (fill (n / 8) []); realloc = λ b n. some (fill (n / 8) b) }

length-fill : (n : ℕ) (b : List ℕ) → length (fill n b) ≡ n
unfolding fill
length-fill zero b = refl
length-fill (suc n) [] = omega (arith, length-fill n [])
length-fill (suc n) (w ∷ b) = omega (arith, length-fill n b)

fill_keeps :
    (n : ℕ) (b : List ℕ) (i : ℕ) → i < length b → i < n → get_elem? (fill n b) i ≡ get_elem? b i
unfolding fill
fill_keeps zero b i h k = absurd (omega arith)
fill_keeps (suc n) [] i h k = absurd (omega arith)
fill_keeps (suc n) (w ∷ b) zero h k = refl
fill_keeps (suc n) (w ∷ b) (suc i) h k = fill_keeps n b i (omega arith) (omega arith)

words_of : (n : ℕ) → n * 8 / 8 ≡ n
words_of n = omega arith

-- What a successful allocation of `n` cells, kept or filled, gives.
block : (b b' : List ℕ) (n : ℕ) → some (fill (n * 8 / 8) b) ≡ some b' → fill n b ≡ b'
block b b' n e = let w = words_of n in cc

pub zeros-IsAllocator : IsAllocator zeros
zeros-IsAllocator = record {
  malloc_size = λ n b e. let h = block [] b n e in let l = length-fill n [] in cc;
  realloc_size = λ b b' n e. let h = block b b' n e in let l = length-fill n b in cc;
  realloc_keeps = λ b b' n i e h k. let q = block b b' n e in let l = fill_keeps n b i h k in cc;
}

mdb_midl_append_list-Extended_example :
    (ws : List ℕ) × (q : ℕ × Idl) × Holds two ws
    × (mdb_midl_append_list zeros two two ≡ some q)
    × Extended zeros two (count two) ws q
mdb_midl_append_list-Extended_example =
    mdb_midl_append_list-Extended zeros zeros-IsAllocator two two two-IsIdl two-IsIdl (omega arith)
      (omega arith)

-- Where the list has room, the runs.
append_runs :
    mdb_midl_append zeros two 3 ≡ some (0, record { cap = 4; cells = 3 ∷ 9 ∷ 4 ∷ 3 ∷ 0 ∷ [] })
unfolding mdb_midl_append append_write
append_runs = refl

append_range_runs :
    mdb_midl_append_range zeros two 1 2
    ≡ some (0, record { cap = 4; cells = 4 ∷ 9 ∷ 4 ∷ 2 ∷ 1 ∷ [] })
unfolding mdb_midl_append_range append_range_write range_loop
append_range_runs = refl

append_list_grows :
    mdb_midl_append_list zeros two two
    ≡ some (0, record { cap = 6; cells = 4 ∷ 9 ∷ 4 ∷ 9 ∷ 4 ∷ 0 ∷ 0 ∷ [] })
unfolding mdb_midl_append_list append_list_write words_at copy_to mdb_midl_grow fill
append_list_grows = refl
