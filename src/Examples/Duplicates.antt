-- ===== src/Examples/Duplicates.antt =====
-- A database with MDB_DUPSORT of one key that has two data items in a sub-page; and descriptions of
-- codes.
use Prim.Native.String.{String}
use kotlin_lmdb.Common.{
  ℕ, Bool, true, false, Option, none, some, List, [], ◌∷◌, ◌>>=◌, ◌≡◌, refl, pos,
}
use kotlin_lmdb.Engine.{cmp_other}
use kotlin_lmdb.Btree.{Rc, success, keyexist, inline, Node, TreePage, Info, Cursor, return}
use kotlin_lmdb.Btree.Codes.{code, mdb_strerror, mdb_strerror_reads}
use kotlin_lmdb.Btree.Search.{Store}
use kotlin_lmdb.Btree.Get.{CursorOp, first, next_dup, mdb_cursor_get}
use kotlin_lmdb.Btree.Move.{next_from, advance}
use kotlin_lmdb.Btree.Xcursor.{mdb_xcursor_init1, Sub, sub_page, SubCursor, sub_dups}

abbrev Plain : Type 0
Plain = Unit {0}

abbrev dup_page : TreePage Plain
dup_page =
    let item = λ (k : List ℕ).
      (let n : Node Plain = record { key = k; child = 0; payload = inline []; dup = none } in n) in
    record {
      pgno = 7;
      is_branch = false;
      is_leaf = true;
      is_leaf2 = false;
      nodes = item (10 ∷ []) ∷ item (20 ∷ []) ∷ [];
      metadata = [];
    }

abbrev main_page : TreePage Sub
main_page = record {
  pgno = 2;
  is_branch = false;
  is_leaf = true;
  is_leaf2 = false;
  nodes =
      record { key = 1 ∷ []; child = 0; payload = inline []; dup = some (sub_page 0 dup_page) }
      ∷ [];
  metadata = [];
}

abbrev engine_of {ℓ κ} : {S : Type ℓ} {X : Type κ} → Option (TreePage S) → Store S X
engine_of p = record {
  read = λ n. p;
  compare_with = λ c x y. pos 0;
  md_dcmp = cmp_other;
  clong = cmp_other;
  is_free_dbi = false;
  blocked = false;
  page_touch = return success;
  reload = return success;
}

abbrev blank_info {κ} : {X : Type κ} → Bool → X → Info X
blank_info dupsort x = record {
  initialized = false;
  eof = false;
  del = false;
  txn_error = false;
  stale = false;
  root = some 2;
  pad = 0;
  dupsort = dupsort;
  dupfixed = false;
  md_cmp = cmp_other;
  key = [];
  datum = [];
  xcursor = x;
}

abbrev dup_cursor : Cursor Sub SubCursor
dup_cursor = record {
  below = [];
  above = [];
  info = blank_info true (record { below = []; above = []; info = blank_info false tt });
}

abbrev call : CursorOp → Rc × Cursor Sub SubCursor → Option (Rc × Cursor Sub SubCursor)
call op r = mdb_cursor_get (engine_of (some main_page)) (sub_dups (engine_of none)) op true true r.1

abbrev outcome : Option (Rc × Cursor Sub SubCursor) → Option (Rc × List ℕ × List ℕ)
outcome o = o >>= λ r. some (r.0, r.1.info.key, r.1.info.datum)

-- MDB_FIRST gives the first data item, MDB_NEXT_DUP the second, and MDB_NEXT then ends.
first_dup_item : outcome (call first (success, dup_cursor)) ≡ some (success, 1 ∷ [], 10 ∷ [])
unfolding mdb_cursor_get mdb_xcursor_init1
first_dup_item = refl

second_dup_item :
    outcome (call first (success, dup_cursor) >>= call next_dup) ≡ some (success, 1 ∷ [], 20 ∷ [])
unfolding mdb_cursor_get mdb_xcursor_init1 next_from advance
second_dup_item = refl

mdb_strerror_reads_example : (s : String) × (mdb_strerror (λ n. "") (code keyexist) ≡ some s)
mdb_strerror_reads_example = mdb_strerror_reads (λ n. "") (code keyexist)
