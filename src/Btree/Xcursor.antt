-- ===== src/Btree/Xcursor.antt =====
-- mdb.c: the cursor of a node's duplicates, mdb_xcursor_init0 and mdb_xcursor_init1, and the functions of
-- Move, Set and Get on it. It has no such cursor itself.
use kotlin_lmdb.Common.{
  ℕ, ◌*◌, Bool, true, false, ◌&&◌, Option, none, some, List, [], ◌∷◌, map, ◌==◌, if◌then◌else◌,
  ◌>>=◌,
}
use kotlin_lmdb.Engine.{Cmp}
use kotlin_lmdb.Btree.{
  success, Node, TreePage, Frame, Info, Cursor, Step, last_of, numkeys, bytes, update, with_top,
  set_ki,
}
use kotlin_lmdb.Btree.Stack.{mdb_cursor_sibling}
use kotlin_lmdb.Btree.Search.{Store, bottom}
use kotlin_lmdb.Btree.Move.{
  XStep, Dups, move_any, mdb_cursor_first, mdb_cursor_last, mdb_cursor_next, mdb_cursor_prev,
}
use kotlin_lmdb.Btree.Set.{is_cmp_int, set_range, mdb_cursor_set}
use kotlin_lmdb.Btree.Get.{get_current, mdb_cursor_get}

-- What a node with F_DUPDATA holds: the MDB_db of a sub-database (F_SUBDATA), or a sub-page, with its
-- mp_pad.
pub data Sub : Type 0 where
  sub_db : (root : Option ℕ) (pad : ℕ) (dupfixed : Bool) → Sub
  sub_page : (pad : ℕ) → TreePage (Unit {0}) → Sub

abbrev pub SubCursor : Type 0
SubCursor = Cursor (Unit {0}) (Unit {0})

abbrev pub SubFrame : Type 0
SubFrame = Frame (Unit {0})

-- The arrays of the cursor, whatever was pushed.
abbrev pub arrays : SubCursor → SubFrame × List SubFrame
arrays x = bottom x.below x.above

-- mc_flags = C_SUB
abbrev pub clear_flags : Info (Unit {0}) → Info (Unit {0})
clear_flags i = record i { initialized = false; eof = false; del = false }

unfoldable pub mdb_xcursor_init0 : (md_dcmp : Cmp) → SubCursor → SubCursor
mdb_xcursor_init0 md_dcmp x = record {
  below = [];
  above = (arrays x).0 ∷ (arrays x).1;
  info = record (clear_flags x.info) { md_cmp = md_dcmp };
}

-- `mx->mx_dbx.md_cmp == mdb_cmp_int && mx->mx_db.md_pad == sizeof(size_t)`
abbrev pub wide_cmp : (clong : Cmp) → (md_cmp : Cmp) → (pad : ℕ) → Cmp
wide_cmp clong md_cmp pad = if is_cmp_int md_cmp && pad == 8 then clong else md_cmp

-- The database record of the duplicates, and mx_dbflag and md_cmp.
abbrev pub set_db : (clong : Cmp) → Option ℕ → ℕ → Bool → Info (Unit {0}) → Info (Unit {0})
set_db clong root pad dupfixed i = record i {
  root = root;
  pad = pad;
  dupsort = false;
  dupfixed = dupfixed;
  stale = false;
  md_cmp = wide_cmp clong i.md_cmp pad;
}

unfoldable pub mdb_xcursor_init1 : (clong : Cmp) → (dupfixed : Bool) → Sub → SubCursor → SubCursor
mdb_xcursor_init1 clong dupfixed (sub_db root pad sub_fixed) x = record {
  below = [];
  above = record ((arrays x).0) { page = none } ∷ (arrays x).1;
  info = set_db clong root pad sub_fixed (clear_flags x.info);
}
mdb_xcursor_init1 clong dupfixed (sub_page pad fp) x = record {
  below = record { page = some fp; ki = 0 } ∷ [];
  above = (arrays x).1;
  info =
      record (set_db clong (some fp.pgno) (if dupfixed then pad else 0) dupfixed
        (clear_flags x.info)) { initialized = true };
}

-- A page of a sub-database: its nodes have no duplicates of their own.
abbrev pub plain_node : Node Sub → Node (Unit {0})
plain_node n = record { key = n.key; child = n.child; payload = n.payload; dup = none }

abbrev pub plain_page : TreePage Sub → TreePage (Unit {0})
plain_page p = record {
  pgno = p.pgno;
  is_branch = p.is_branch;
  is_leaf = p.is_leaf;
  is_leaf2 = p.is_leaf2;
  nodes = map plain_node p.nodes;
  metadata = p.metadata;
}

-- mc_xcursor is NULL.
abbrev pub no_xcursor : Dups (Unit {0}) (Unit {0})
no_xcursor = record {
  exists = false;
  reset = λ x. x;
  init0 = λ c x. x;
  init1 = λ b s x. x;
  first = λ w v t x. none;
  last = λ w v t x. none;
  next = λ w v t x. none;
  prev = λ w v t x. none;
  set_range = λ b w v t x. none;
  get_current = λ w v t x. none;
  prev_page = λ w v t x. none;
  fetch = λ w v t x. none;
  is_initialized = λ x. false;
  is_eof = λ x. false;
}

-- A function of the cursor of the duplicates, with `data` of the caller as its key.
abbrev pub run_sub : (Bool → Step (Unit {0}) (Unit {0})) → XStep SubCursor
run_sub f want v t x = f want (update (λ i. record i { key = v; txn_error = t }) x) >>= λ r.
    some (r.0, r.1, r.1.info.key, r.1.info.txn_error)

-- From `fetchm:` on.
unfoldable pub fetch_page : Step (Unit {0}) (Unit {0})
fetch_page = with_top λ mp ki c. some (
  success,
  set_ki (last_of (numkeys mp))
      (update (λ i. record i { key = bytes (numkeys mp * i.pad) mp.metadata }) c),
)

module _ (s : Store (Unit {0}) (Unit {0})) where
  -- The functions that a cursor calls with its mc_xcursor.
  abbrev pub sub_dups : Dups Sub SubCursor
  sub_dups = record {
    exists = true;
    reset = update (λ i. record i { initialized = false; eof = false });
    init0 = mdb_xcursor_init0;
    init1 = mdb_xcursor_init1 s.clong;
    first = run_sub (λ want. mdb_cursor_first s no_xcursor want false);
    last = run_sub (λ want. mdb_cursor_last s no_xcursor want false);
    next = run_sub (λ want. mdb_cursor_next s no_xcursor move_any want false);
    prev = run_sub (λ want. mdb_cursor_prev s no_xcursor move_any want false);
    set_range = λ exact. run_sub (λ want. mdb_cursor_set s no_xcursor set_range exact false);
    get_current = run_sub (λ want. mdb_cursor_get s no_xcursor get_current want false);
    prev_page = run_sub (λ want. mdb_cursor_sibling s.read false);
    fetch = run_sub (λ want. fetch_page);
    is_initialized = λ x. x.info.initialized;
    is_eof = λ x. x.info.eof;
  }
