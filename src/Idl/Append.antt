-- ===== src/Idl/Append.antt =====
-- midl.c: mdb_midl_append, mdb_midl_append_list and mdb_midl_append_range.
use mathlib.Core.Option
use kotlin_lmdb.Common.{ℕ, zero, suc, ◌+◌, Option, some, List, ◌>>=◌, set, ltb, leb, if◌then◌else◌}
use kotlin_lmdb.Idl.{Idl, u64, count}
use kotlin_lmdb.Idl.Memory.{Allocator, um_max, enomem, store, copy_to, words_at, mdb_midl_grow}
use Prim.Native.Nat.{bit_or}

-- `if (grow fails) return ENOMEM;`, and else the writes.
abbrev pub after_room : ℕ × Idl → (Idl → Option Idl) → Option (ℕ × Idl)
after_room (zero, ids) write = Option.map {B = ℕ × Idl} (λ ids'. (0, ids')) (write ids)
after_room (suc e, ids) write = some (enomem, ids)

-- `ids[0]++; ids[ids[0]] = id;`
unfoldable pub append_write : ℕ → Idl → Option Idl
append_write id ids =
    let n = u64 (count ids + 1) in
    Option.map (λ c. record ids { cells = c }) (store (set ids.cells 0 n) n id)

-- `memcpy(&ids[ids[0]+1], &app[1], app[0] * sizeof(MDB_ID)); ids[0] += app[0];`
unfoldable pub append_list_write : Idl → Idl → Option Idl
append_list_write app ids = do
  ws ← words_at app.cells 1 (count app)
  cells ← copy_to ids.cells (count ids + 1) ws
  some (record ids { cells = set cells 0 (u64 (count ids + count app)) })

-- `while (n) ids[n--] = id++;`, with `ids` at the cell `len`.
unfoldable pub range_loop : List ℕ → ℕ → ℕ → ℕ → Option (List ℕ)
range_loop cells len zero id = some cells
range_loop cells len (suc n) id = do
  c ← store cells (len + suc n) id
  range_loop c len n (u64 (id + 1))

-- `ids[0] = len + n; ids += len;` and the loop.
unfoldable pub append_range_write : ℕ → ℕ → Idl → Option Idl
append_range_write id n ids =
    let len = count ids in
    do
      cells ← range_loop (set ids.cells 0 (u64 (len + n))) len n id
      some (record ids { cells = cells })

module _ (a : Allocator) where
  unfoldable pub mdb_midl_append : Idl → ℕ → Option (ℕ × Idl)
  mdb_midl_append ids id =
      after_room (if leb ids.cap (count ids) then mdb_midl_grow a ids um_max else (0, ids))
        (append_write id)

  unfoldable pub mdb_midl_append_list : Idl → Idl → Option (ℕ × Idl)
  mdb_midl_append_list ids app =
      after_room
        (if leb ids.cap (u64 (count ids + count app))
          then mdb_midl_grow a ids (count app)
          else (0, ids))
        (append_list_write app)

  -- `n` is an unsigned int.
  unfoldable pub mdb_midl_append_range : Idl → ℕ → ℕ → Option (ℕ × Idl)
  mdb_midl_append_range ids id n =
      after_room
        (if ltb ids.cap (u64 (count ids + n))
          then mdb_midl_grow a ids (bit_or n um_max)
          else (0, ids))
        (append_range_write id n)
