-- ===== src/Idl/CopyLaws.antt =====
-- mdb_midl_append_list and mdb_midl_append_range: what the copies and the counting loop write.
use kotlin_lmdb.Common.{
  ℕ, zero, suc, ◌+◌, ◌^◌, ◌≤◌, ◌<◌, some, List, [], ◌∷◌, length, leb, if◌then◌else◌, ◌≡◌, arith,
  refl, Bool, true, false,
}
use kotlin_lmdb.Idl.{Idl, IsIdl, u64, count}
use kotlin_lmdb.Idl.Memory.{Allocator, IsAllocator, mdb_midl_grow}
use kotlin_lmdb.Idl.Append.{append_list_write, mdb_midl_append_list}
use kotlin_lmdb.Idl.AppendLaws.{Extended, after_room_lem, grow-Roomy, stay-Roomy, Roomy}
use native.Mathlib.Nat.{mod-eq_of_lt}
use kotlin_lmdb.Idl.Copies.{words_at_lem, Holds, append_list_write_lem}

-- The IDs that mdb_midl_append_range adds: `id + n - 1` down to `id`.
abbrev pub falling_from : ℕ → ℕ → List ℕ
falling_from zero id = []
falling_from (suc n) id = (id + n) ∷ falling_from n id

module _ (a : Allocator) (ok : IsAllocator a) where
  -- Where the test asks for room, growing by `num` makes it.
  test-Roomy :
      (ids : Idl) (num len : ℕ) (test : Bool)
      → IsIdl ids
      → ids.cap + num < 2 ^ 59
      → num < 2 ^ 31
      → len ≤ num
      → (test ≡ true → ids.cap ≤ count ids + len)
      → (test ≡ false → count ids + len ≤ ids.cap)
      → Roomy a ids num len (if test then mdb_midl_grow a ids num else (0, ids))
  test-Roomy ids num len true w h int k full free =
      grow-Roomy a ok ids num len w h int (full refl) (omega (arith, w.fits))
  test-Roomy ids num len false w h int k full free =
      stay-Roomy a ok ids num len w (omega arith) (free refl)

  -- mdb_midl_append_list puts the IDs of the other list at the end, in their order, and keeps the
  -- others in their cells; where the list is too full and realloc gives nothing for as many more IDs
  -- it returns ENOMEM and leaves the list as it was. It never reads or writes outside the two
  -- allocations, for well-formed lists, of capacity below 2^58 and of fewer than 2^31 IDs.
  pub mdb_midl_append_list-Extended :
      (ids app : Idl)
      → IsIdl ids
      → IsIdl app
      → ids.cap < 2 ^ 58
      → count app < 2 ^ 31
      → (ws : List ℕ) × (q : ℕ × Idl) × Holds app ws
        × (mdb_midl_append_list a ids app ≡ some q)
        × Extended a ids (count app) ws q
  unfolding mdb_midl_append_list
  mdb_midl_append_list-Extended ids app w v h int =
      let (ws, e, l, c) = words_at_lem app.cells 1 (count app) (omega (arith, v.fits, v.sized)) in
      let total : u64 (count ids + count app) ≡ count ids + count app =
        mod-eq_of_lt (omega (arith, w.fits)) in
      let (q, f, x) =
        after_room_lem a ids (count app) ws (append_list_write app) _ w
          (λ m v k o. append_list_write_lem app m ws e l v k o)
          (test-Roomy ids (count app) (length ws) (leb ids.cap (u64 (count ids + count app))) w
            (omega arith) int (omega (arith, l)) (λ t. ground (arith, total, l))
            (λ t. ground (arith, total, l))) in
      (ws, q, (l, c), f, x)
