-- ===== src/Idl/Memory.antt =====
-- midl.c: the memory of an ID list: allocation, growth and the copies of memcpy.
use mathlib.Core.Option
use kotlin_lmdb.Common.{
  ℕ, zero, suc, ◌+◌, ◌-◌, ◌*◌, ◌/◌, ◌%◌, ◌^◌, ◌<◌, Option, none, some, List, [], ◌∷◌, get_elem?,
  set, length, ltb, if◌then◌else◌, ◌≡◌,
}
use kotlin_lmdb.Idl.{Idl, u32, u64, count}

-- MDB_IDL_UM_MAX of midl.h; ENOMEM of errno.h.
abbrev pub um_max : ℕ
um_max = 2 ^ 17 - 1

abbrev pub enomem : ℕ
enomem = 12

-- malloc and realloc of the C library: the size is in bytes, a block is its words.
pub record Allocator : Type 0 where
  pub malloc : ℕ → Option (List ℕ)
  pub realloc : List ℕ → ℕ → Option (List ℕ)

-- What the C library documents of them.
pub record IsAllocator (a : Allocator) : Type 0 where
  pub malloc_size : (n : ℕ) (b : List ℕ) → a.malloc (n * 8) ≡ some b → length b ≡ n
  pub realloc_size : (b b' : List ℕ) (n : ℕ) → a.realloc b (n * 8) ≡ some b' → length b' ≡ n
  pub realloc_keeps :
      (b b' : List ℕ) (n i : ℕ)
      → a.realloc b (n * 8) ≡ some b'
      → i < length b
      → i < n
      → get_elem? b' i ≡ get_elem? b i

-- The int that a number becomes, as a summand of a size_t: from 2^31 on it is negative.
abbrev pub as_int : ℕ → ℕ
as_int n = let m = n % 2 ^ 32 in if ltb m (2 ^ 31) then m else m + 2 ^ 64 - 2 ^ 32

-- `ids[i] = v`
abbrev pub store {ℓ} : {A : Type ℓ} → List A → ℕ → A → Option (List A)
store cells i v = if ltb i (length cells) then some (set cells i v) else none

-- memcpy of `ys` to the words from `i` on.
unfoldable pub copy_to : List ℕ → ℕ → List ℕ → Option (List ℕ)
copy_to cells zero [] = some cells
copy_to [] zero (y ∷ ys) = none
copy_to (x ∷ cells) zero (y ∷ ys) = Option.map (λ c. y ∷ c) (copy_to cells zero ys)
copy_to [] (suc i) ys = none
copy_to (x ∷ cells) (suc i) ys = Option.map (λ c. x ∷ c) (copy_to cells i ys)

-- The `n` words from `i` on, that memcpy reads.
unfoldable pub words_at : List ℕ → ℕ → ℕ → Option (List ℕ)
words_at cells zero zero = some []
words_at [] zero (suc n) = none
words_at (x ∷ cells) zero (suc n) = Option.map (λ c. x ∷ c) (words_at cells zero n)
words_at [] (suc i) n = none
words_at (x ∷ cells) (suc i) n = words_at cells i n

-- The list that `*ids++ = num` makes of a block; `none` where malloc or realloc returned NULL.
abbrev pub from_block : Option (List ℕ) → ℕ → Option Idl
from_block none num = none
from_block (some []) num = none
from_block (some (w ∷ cells)) num = some (record { cap = num; cells = cells })

-- `if (!ids) return ENOMEM;`, and else the new list with code 0.
abbrev pub regrow : Idl → Option Idl → ℕ × Idl
regrow ids none = (enomem, ids)
regrow ids (some idn) = (0, idn)

module _ (a : Allocator) where
  -- `num` is an int; `none` is NULL.
  unfoldable pub mdb_midl_alloc : ℕ → Option Idl
  mdb_midl_alloc num =
      Option.map (λ (ids : Idl). record ids { cells = set ids.cells 0 0 })
        (from_block (a.malloc (u64 ((num + 2) * 8))) num)

  -- A failed realloc leaves the list as it is.
  unfoldable pub mdb_midl_shrink : Idl → Idl
  mdb_midl_shrink ids =
      if ltb um_max ids.cap
      then Option.get_or (from_block (a.realloc (ids.cap ∷ ids.cells) ((um_max + 2) * 8)) um_max)
          ids
      else ids

  -- `num` is an int, which the callers make of a size_t or an unsigned int.
  unfoldable pub mdb_midl_grow : Idl → ℕ → ℕ × Idl
  mdb_midl_grow ids num = regrow ids (
      from_block (a.realloc (ids.cap ∷ ids.cells) (u64 ((ids.cap + as_int num + 2) * 8)))
        (u64 (ids.cap + as_int num)))

  -- `& -256` clears the low byte.
  unfoldable pub mdb_midl_need : Idl → ℕ → ℕ × Idl
  mdb_midl_need ids num =
      let need = u32 (num + count ids) in
      let room = u32 (need + need / 4 + (256 + 2)) / 256 * 256 in
      if ltb ids.cap need
      then regrow ids
          (from_block (a.realloc (ids.cap ∷ ids.cells) (room * 8)) (u32 (room + 2 ^ 32 - 2)))
      else (0, ids)
