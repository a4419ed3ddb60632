-- ===== src/Btree.antt =====
-- mdb.c: the pages of a B+tree as a cursor reads them, MDB_cursor, and how its functions fail. The
-- functions themselves are in the children.
pub mod Codes
pub mod Pages
pub mod Overlay
pub mod Stack
pub mod Search
pub mod Steps
pub mod Tree
pub mod Right
pub mod Next
pub mod First
pub mod Scan
pub mod Move
pub mod Set
pub mod Get
pub mod Xcursor
pub mod Lookup
pub mod Order
pub mod Find
pub mod Found
pub mod Gets
use kotlin_lmdb.Common.{
  if◌then◌else◌, ℕ, zero, suc, ◌+◌, ◌-◌, ◌%◌, ◌^◌, Bool, true, false, Option, none, some, List, [],
  ◌∷◌, length, map, get_elem?, ℤ, ◌>>=◌,
}
use kotlin_lmdb.Engine.{Page, Cmp}

-- The codes that the functions return; `einval` is EINVAL of the C library.
pub data Rc : Type 0 where
  success keyexist notfound page_notfound corrupted panic version_mismatch invalid : Rc
  map_full dbs_full readers_full tls_full txn_full cursor_full page_full map_resized : Rc
  incompatible bad_rslot bad_txn bad_valsize bad_dbi : Rc
  einval : Rc

abbrev pub is_success : Rc → Bool
is_success success = true
is_success _ = false

abbrev pub is_notfound : Rc → Bool
is_notfound notfound = true
is_notfound _ = false

-- What NODEDATA holds: the data, or with F_BIGDATA its size and its first overflow page.
pub data Payload : Type 0 where
  inline : List ℕ → Payload
  overflow : (size pgno : ℕ) → Payload

-- `dup` is what a node with F_DUPDATA holds. `child` is NODEPGNO, for a node of a branch page.
pub record Node {ℓ} (S : Type ℓ) : Type ℓ where
  pub key : List ℕ
  pub child : ℕ
  pub payload : Payload
  pub dup : Option S

-- The keys of the nodes of a P_LEAF2 page are those that LEAF2KEY reads; `metadata` is the bytes
-- from METADATA on.
pub record TreePage {ℓ} (S : Type ℓ) : Type ℓ where
  pub pgno : ℕ
  pub is_branch : Bool
  pub is_leaf : Bool
  pub is_leaf2 : Bool
  pub nodes : List (Node S)
  pub metadata : List ℕ

-- mc_pg[i] and mc_ki[i].
pub record Frame {ℓ} (S : Type ℓ) : Type ℓ where
  pub page : Option (TreePage S)
  pub ki : ℕ

-- The rest of MDB_cursor: C_INITIALIZED, C_EOF and C_DEL of mc_flags; MDB_TXN_ERROR of the
-- transaction; DB_STALE of mc_dbflag; md_root (`none` is P_INVALID), md_pad, MDB_DUPSORT and
-- MDB_DUPFIXED of mc_db; md_cmp of mc_dbx; and the MDB_vals that a caller passes.
pub record Info {ℓ} (X : Type ℓ) : Type ℓ where
  pub initialized : Bool
  pub eof : Bool
  pub del : Bool
  pub txn_error : Bool
  pub stale : Bool
  pub root : Option ℕ
  pub pad : ℕ
  pub dupsort : Bool
  pub dupfixed : Bool
  pub md_cmp : Cmp
  pub key : List ℕ
  pub datum : List ℕ
  pub xcursor : X

-- `below` is mc_pg and mc_ki from mc_top down to 0, and `above` the entries from mc_snum up, which
-- keep what was there before.
pub record Cursor {ℓ κ} (S : Type ℓ) (X : Type κ) : Type (ℓ ⊔ κ) where
  pub below : List (Frame S)
  pub above : List (Frame S)
  pub info : Info X

-- A function of a cursor returns a code, or nothing: an assertion fails, or it reads a page or a
-- node that is not there.
abbrev pub Step {ℓ κ} : (S : Type ℓ) (X : Type κ) → Type (ℓ ⊔ κ)
Step S X = Cursor S X → Option (Rc × Cursor S X)

-- The last key of a page of `n` keys: NUMKEYS(mp) - 1, which is unsigned, and as it is stored in
-- mc_ki, an indx_t.
abbrev pub last_of : ℕ → ℕ
last_of n = (n + (2 ^ 64 - 1)) % 2 ^ 64

abbrev pub indx : ℕ → ℕ
indx i = i % 2 ^ 16

-- The first `n` bytes at METADATA.
abbrev pub bytes : ℕ → List ℕ → List ℕ
bytes zero bs = []
bytes (suc n) [] = []
bytes (suc n) (b ∷ bs) = b ∷ bytes n bs

module _ {ℓ} {S : Type ℓ} where
  abbrev pub numkeys : TreePage S → ℕ
  numkeys mp = length mp.nodes

  abbrev pub page_view : TreePage S → Page
  page_view mp = record {
    is_leaf = mp.is_leaf;
    is_branch = mp.is_branch;
    keys = map (λ n. n.key) mp.nodes;
  }

module _ {ℓ κ} {S : Type ℓ} {X : Type κ} where
  -- `if ((rc = ...) != MDB_SUCCESS) return rc;`
  abbrev pub proceed :
      (Cursor S X → Option (Rc × Cursor S X)) → Rc × Cursor S X → Option (Rc × Cursor S X)
  proceed next (rc, c) = if is_success rc then next c else some (rc, c)

  infixl 5 ◌>>◌
  abbrev pub ◌>>◌ : Step S X → Step S X → Step S X
  (m >> k) c = m c >>= proceed k

  abbrev pub return : Rc → Step S X
  return rc c = some (rc, c)

  -- mdb_cassert
  abbrev pub assert : Bool → Step S X → Step S X
  assert true k c = k c
  assert false k c = none

  abbrev pub update : (Info X → Info X) → Cursor S X → Cursor S X
  update f c = record c { info = f c.info }

  abbrev pub on_some {μ} : {A : Type μ} → Option A → (A → Step S X) → Step S X
  on_some none k c = none
  on_some (some a) k c = k a c

  abbrev pub on_top : List (Frame S) → (TreePage S → ℕ → Step S X) → Step S X
  on_top [] k c = none
  on_top (f ∷ fs) k c = on_some f.page (λ mp. k mp f.ki) c

  -- The top entry: mc_pg[mc_top] and mc_ki[mc_top].
  abbrev pub with_top : (TreePage S → ℕ → Step S X) → Step S X
  with_top k c = on_top c.below k c

  -- mc_ki[mc_top] = i
  abbrev pub set_ki : ℕ → Cursor S X → Cursor S X
  set_ki i c = elim c.below [ [] ↦ c | f ∷ fs ↦ record c { below = record f { ki = indx i } ∷ fs } ]

  -- NODEPTR
  abbrev pub with_node : TreePage S → ℕ → (Node S → Step S X) → Step S X
  with_node mp i k = on_some (get_elem? mp.nodes i) k
