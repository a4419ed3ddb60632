-- ===== src/Idl/Merge.antt =====
-- midl.c: mdb_midl_xmerge, which merges a falling list into another one in place, from its end.
use kotlin_lmdb.Common.{
  ℕ, zero, suc, ◌+◌, ◌-◌, ◌^◌, Option, none, some, List, get_elem?, set, ltb, if◌then◌else◌, ◌>>=◌,
}
use kotlin_lmdb.Idl.{Idl, u64, count}
use kotlin_lmdb.Idl.Memory.{store}

-- What the loops change, but for `i`: `idl` and the locals.
pub record Merging : Type 0 where
  pub j : ℕ
  pub old_id : ℕ
  pub k : ℕ
  pub cells : List ℕ

-- `for (; old_id < merge_id; old_id = idl[--j]) idl[k--] = old_id;`
unfoldable pub xmerge_scan : (merge_id j old_id k : ℕ) → List ℕ → Option Merging
xmerge_scan merge_id zero old_id k cells =
    if ltb old_id merge_id
    then none
    else some (record { j = 0; old_id = old_id; k = k; cells = cells })
xmerge_scan merge_id (suc j) old_id k cells =
    let rest =
      store cells k old_id >>= λ c. get_elem? c j >>= λ old. xmerge_scan merge_id j old (k - 1) c in
    if ltb old_id merge_id
    then rest
    else some (record { j = suc j; old_id = old_id; k = k; cells = cells })

-- `while (i) { merge_id = merge[i--]; ... idl[k--] = merge_id; }`
unfoldable pub xmerge_loop : (merge : Idl) (i : ℕ) → Merging → Option (List ℕ)
unfolding xmerge_scan
xmerge_loop merge zero s = some s.cells
xmerge_loop merge (suc i) s = do
  merge_id ← get_elem? merge.cells (suc i)
  t ← xmerge_scan merge_id s.j s.old_id s.k s.cells
  c ← store t.cells t.k merge_id
  xmerge_loop merge i (record { j = t.j; old_id = t.old_id; k = t.k - 1; cells = c })

unfoldable pub mdb_midl_xmerge : Idl → Idl → Option Idl
unfolding xmerge_loop
mdb_midl_xmerge idl merge =
    let i = count merge in
    let j = count idl in
    let total = u64 (i + j) in
    let delimited = set idl.cells 0 (2 ^ 64 - 1) in
    do
      old_id ← get_elem? delimited j
      c ← xmerge_loop merge i (record { j = j; old_id = old_id; k = total; cells = delimited })
      some (record idl { cells = set c 0 total })
