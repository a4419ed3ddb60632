-- ===== src/Btree/Lookup.antt =====
-- mdb.c: mdb_cursor_init, and mdb_get, the lookup of a key with a cursor of its own.
use kotlin_lmdb.Common.{
  Bool, true, false, not, ◌||◌, Option, none, some, [], ◌∷◌, if◌then◌else◌, ◌>>=◌,
}
use kotlin_lmdb.Btree.{Rc, bad_txn, einval, Info, Cursor}
use kotlin_lmdb.Btree.Search.{Store, ps_key, mdb_page_search}
use kotlin_lmdb.Btree.Move.{Dups}
use kotlin_lmdb.Btree.Set.{set_at, mdb_cursor_set}

module _ {ℓ κ} {S : Type ℓ} {X : Type κ} (e : Store S X) (dups : Dups S X) where
  -- The cursor before a stale record is read: no entry is live, mc_pg[0] is NULL and mc_flags 0. `db`
  -- has what the transaction knows of the database.
  abbrev pub blank_cursor : (db : Info X) → Cursor S X
  blank_cursor db = record {
    below = [];
    above = record { page = none; ki = 0 } ∷ [];
    info = record db {
      initialized = false;
      eof = false;
      del = false;
      xcursor = if db.dupsort then dups.init0 e.md_dcmp db.xcursor else db.xcursor;
    };
  }

  -- The code that mdb_page_search returns is not looked at.
  unfoldable pub mdb_cursor_init : (db : Info X) → Option (Cursor S X)
  unfolding mdb_page_search
  mdb_cursor_init db =
      if db.stale
      then (mdb_page_search e ps_key [] false true (blank_cursor db) >>= λ r. some r.1)
      else some (blank_cursor db)

  -- `exists` is TXN_DBI_EXIST; the key is that of `db`, and the data is left in the cursor's state.
  unfoldable pub mdb_get :
      (exists want_key want_data : Bool) → (db : Info X) → Option (Rc × Cursor S X)
  unfolding mdb_cursor_init mdb_cursor_set
  mdb_get exists want_key want_data db =
      if not want_key || not want_data || not exists
      then some (einval, blank_cursor db)
      else if e.blocked
      then some (bad_txn, blank_cursor db)
      else (mdb_cursor_init db >>= mdb_cursor_set e dups set_at true true)
