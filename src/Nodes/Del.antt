-- ===== src/Nodes/Del.antt =====
-- mdb.c: mdb_node_del.
use kotlin_lmdb.Common.{
  ℕ, zero, suc, ◌+◌, ◌-◌, ◌*◌, ◌^◌, Option, none, some, ltb, ◌==◌, if◌then◌else◌,
}
use kotlin_lmdb.Idl.{u64}
use kotlin_lmdb.Nodes.{RawPage, u16, num_keys, put, move_bytes, node_size}

-- One round of the loop over the slots: `i` is not `indx`.
abbrev pub moved_ptr : (ptr sz at : ℕ) → ℕ
moved_ptr ptr sz at = if ltb at ptr then u16 (at + sz) else at

-- `for (i = j = 0; i < numkeys; i++)`, by the rounds left.
unfoldable pub close_ptrs : (indx ptr sz : ℕ) (rounds i j : ℕ) → (ℕ → ℕ) → ℕ → ℕ
close_ptrs indx ptr sz zero i j ptrs = ptrs
close_ptrs indx ptr sz (suc r) i j ptrs =
    close_ptrs indx ptr sz r (suc i) (if i == indx then j else suc j)
      (if i == indx then ptrs else put ptrs j (moved_ptr ptr sz (ptrs i)))

-- A P_LEAF2 page.
unfoldable pub leaf2_del : (ksize indx : ℕ) → RawPage → RawPage
leaf2_del ksize indx mp =
    let x = num_keys mp - 1 - indx in
    let base = 16 + indx * ksize in
    record mp {
      body = (if x == 0 then mp.body else move_bytes mp.body base (base + ksize) (x * ksize));
      mp_lower = u16 (mp.mp_lower + 2 ^ 16 - 2);
      mp_upper = u16 (mp.mp_upper + ksize + 2 ^ 16 - 2);
    }

unfoldable pub close_slot : (indx : ℕ) → RawPage → RawPage
close_slot indx mp =
    let ptr = mp.mp_ptrs indx in
    let sz = node_size mp.is_leaf mp.body ptr in
    record mp {
      mp_ptrs = close_ptrs indx ptr sz (num_keys mp) 0 0 mp.mp_ptrs;
      body = move_bytes mp.body (mp.mp_upper + sz) mp.mp_upper (u64 (ptr + 2 ^ 64 - mp.mp_upper));
      mp_lower = u16 (mp.mp_lower + 2 ^ 16 - 2);
      mp_upper = u16 (mp.mp_upper + sz);
    }

-- `none` is the assertion.
unfoldable pub mdb_node_del : (ksize indx : ℕ) → RawPage → Option RawPage
mdb_node_del ksize indx mp =
    if ltb indx (num_keys mp)
    then some (if mp.is_leaf2 then leaf2_del ksize indx mp else close_slot indx mp)
    else none
