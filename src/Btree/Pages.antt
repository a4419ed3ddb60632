-- ===== src/Btree/Pages.antt =====
-- mdb.c: mdb_page_get, the page with a number as a transaction sees it.
use kotlin_lmdb.Common.{
  ℕ, suc, ◌*◌, Bool, true, false, Option, none, some, List, [], ◌∷◌, get_elem?, ltb, leb, ◌==◌,
  if◌then◌else◌, ◌>>=◌,
}
use kotlin_lmdb.Idl
use kotlin_lmdb.Id2l
use kotlin_lmdb.Idl.{Idl, u64, mdb_midl_search}
use kotlin_lmdb.Id2l.{Id2, mid_at, mdb_mid2l_search}
use kotlin_lmdb.Btree.{TreePage}

-- mt_spill_pgs (`none` is NULL) and mt_u.dirty_list of one transaction.
pub record Level : Type 0 where
  pub spilled : Option Idl
  pub dirty : List Id2

-- A transaction and its parents, the innermost first. `direct` is whether it has MDB_TXN_RDONLY or
-- MDB_TXN_WRITEMAP; `map_page` is the page at a number in the map, and `ptr_page` the one behind a
-- pointer of a dirty list.
pub record PageTxn {ℓ} (S : Type ℓ) : Type ℓ where
  pub direct : Bool
  pub levels : List Level
  pub next_pgno : ℕ
  pub map_page : ℕ → Option (TreePage S)
  pub ptr_page : ℕ → Option (TreePage S)

-- `*ret`, a page of the map or behind a pointer, and `*lvl`; or MDB_PAGE_NOTFOUND.
pub data Lookup : Type 0 where
  in_map : (level : ℕ) → Lookup
  at_ptr : (mptr level : ℕ) → Lookup
  missing : Lookup

-- `x <= ids[0] && ids[x] == id`, where `cell` is what a read of ids[x] gives.
abbrev pub holds : (n x : ℕ) → (cell : Option ℕ) → (id : ℕ) → Option Bool
holds n x cell id = if leb x n then (cell >>= λ v. some (v == id)) else some false

-- `pgno << 1`
abbrev pub spill_id : ℕ → ℕ
spill_id pgno = u64 (pgno * 2)

abbrev pub in_list : Idl → ℕ → Option Bool
in_list ids pn = mdb_midl_search ids pn >>= λ x. holds (Idl.count ids) x (get_elem? ids.cells x) pn

abbrev pub in_spill : Level → ℕ → Option Bool
in_spill l pgno = elim l.spilled [ none ↦ some false | some ids ↦ in_list ids (spill_id pgno) ]

abbrev pub ptr_at : List Id2 → ℕ → Bool → Option (Option ℕ)
ptr_at dl x true = get_elem? dl x >>= λ c. some (some c.mptr)
ptr_at dl x false = some none

abbrev pub dirty_in : List Id2 → ℕ → Option (Option ℕ)
dirty_in dl pgno =
    mdb_mid2l_search dl pgno >>= λ x. holds (Id2l.count dl) x (mid_at dl x) pgno >>= ptr_at dl x

-- The pointer of the dirty page, if there is one.
abbrev pub in_dirty : Level → ℕ → Option (Option ℕ)
in_dirty l pgno = if Id2l.count l.dirty == 0 then some none else dirty_in l.dirty pgno

-- One round of the loop, where `rest` is what the parents give.
abbrev pub or_dirty : (level : ℕ) → (rest : Option Lookup) → Option ℕ → Option Lookup
or_dirty level rest (some mptr) = some (at_ptr mptr level)
or_dirty level rest none = rest

abbrev pub or_spilled : (level : ℕ) → (rest : Option Lookup) → Bool → Option Lookup
or_spilled level rest true = some (in_map level)
or_spilled level rest false = rest

unfoldable pub search_levels : List Level → (level next_pgno pgno : ℕ) → Option Lookup
search_levels [] level next_pgno pgno = some (if ltb pgno next_pgno then in_map 0 else missing)
search_levels (l ∷ ls) level next_pgno pgno =
    in_spill l pgno
    >>= or_spilled level
        (in_dirty l pgno >>= or_dirty level (search_levels ls (suc level) next_pgno pgno))

module _ {ℓ} {S : Type ℓ} where
  unfoldable pub mdb_page_get : PageTxn S → ℕ → Option Lookup
  unfolding search_levels
  mdb_page_get t pgno = search_levels (if t.direct then [] else t.levels) 1 t.next_pgno pgno

  -- The page that a lookup is for.
  abbrev pub page_of : PageTxn S → ℕ → Lookup → Option (TreePage S)
  page_of t pgno (in_map level) = t.map_page pgno
  page_of t pgno (at_ptr mptr level) = t.ptr_page mptr
  page_of t pgno missing = none

  unfoldable pub read_page : PageTxn S → ℕ → Option (TreePage S)
  unfolding mdb_page_get
  read_page t pgno = mdb_page_get t pgno >>= page_of t pgno
