-- ===== src/Btree/Codes.antt =====
-- lmdb.h: the numbers of the return codes; mdb.c: mdb_strerror, their descriptions.
use Prim.Native.String.{String}
use kotlin_lmdb.Common.{
  ℕ, zero, suc, ◌-◌, ◌<◌, Bool, true, ◌&&◌, Option, some, List, [], ◌∷◌, get_elem?,
  get_elem?-lt_length, Bool-cases, inl, inr, leb, ℤ, pos, negsuc, if◌then◌else◌, ◌≡◌, refl, arith,
  ◌∙◌,
}
use kotlin_lmdb.Btree.Steps.{if-true, if-false}
use kotlin_lmdb.Btree.{
  Rc, success, keyexist, notfound, page_notfound, corrupted, panic, version_mismatch, invalid,
  map_full, dbs_full, readers_full, tls_full, txn_full, cursor_full, page_full, map_resized,
  incompatible, bad_rslot, bad_txn, bad_valsize, bad_dbi, einval,
}

-- `negsuc n` is -(n + 1).
abbrev pub code : Rc → ℤ
code success = pos 0
code keyexist = negsuc 30798
code notfound = negsuc 30797
code page_notfound = negsuc 30796
code corrupted = negsuc 30795
code panic = negsuc 30794
code version_mismatch = negsuc 30793
code invalid = negsuc 30792
code map_full = negsuc 30791
code dbs_full = negsuc 30790
code readers_full = negsuc 30789
code tls_full = negsuc 30788
code txn_full = negsuc 30787
code cursor_full = negsuc 30786
code page_full = negsuc 30785
code map_resized = negsuc 30784
code incompatible = negsuc 30783
code bad_rslot = negsuc 30782
code bad_txn = negsuc 30781
code bad_valsize = negsuc 30780
code bad_dbi = negsuc 30779
code einval = pos 22

abbrev pub mdb_errstr : List String
mdb_errstr =
    "MDB_KEYEXIST: Key/data pair already exists" ∷ "MDB_NOTFOUND: No matching key/data pair found"
    ∷ "MDB_PAGE_NOTFOUND: Requested page not found" ∷ "MDB_CORRUPTED: Located page was wrong type"
    ∷ "MDB_PANIC: Update of meta page failed or environment had fatal error"
    ∷ "MDB_VERSION_MISMATCH: Database environment version mismatch"
    ∷ "MDB_INVALID: File is not an LMDB file" ∷ "MDB_MAP_FULL: Environment mapsize limit reached"
    ∷ "MDB_DBS_FULL: Environment maxdbs limit reached"
    ∷ "MDB_READERS_FULL: Environment maxreaders limit reached"
    ∷ "MDB_TLS_FULL: Thread-local storage keys full - too many environments open"
    ∷ "MDB_TXN_FULL: Transaction has too many dirty pages - transaction too big"
    ∷ "MDB_CURSOR_FULL: Internal error - cursor stack limit reached"
    ∷ "MDB_PAGE_FULL: Internal error - page has no more space"
    ∷ "MDB_MAP_RESIZED: Database contents grew beyond environment mapsize"
    ∷ "MDB_INCOMPATIBLE: Operation and DB incompatible, or DB flags changed"
    ∷ "MDB_BAD_RSLOT: Invalid reuse of reader locktable slot"
    ∷ "MDB_BAD_TXN: Transaction must abort, has a child, or is invalid"
    ∷ "MDB_BAD_VALSIZE: Unsupported size of key/DB name/data, or wrong DUPFIXED size"
    ∷ "MDB_BAD_DBI: The specified DBI handle was closed/changed unexpectedly" ∷ []

-- `err >= MDB_KEYEXIST && err <= MDB_LAST_ERRCODE`, for err = -(n + 1).
abbrev pub in_table : ℕ → Bool
in_table n = leb n 30798 && leb 30779 n

-- Not on Windows; `strerror` is the function of the C library.
unfoldable pub mdb_strerror : (strerror : ℕ → String) → ℤ → Option String
mdb_strerror strerror (pos zero) = some "Successful return: 0"
mdb_strerror strerror (pos (suc n)) = some (strerror (suc n))
mdb_strerror strerror (negsuc n) =
    if in_table n then get_elem? mdb_errstr (30798 - n) else some "Invalid error code"

module _ (strerror : ℕ → String) where
  in_table-length : (n : ℕ) → in_table n ≡ true → 30798 - n < 20
  in_table-length n h = ground arith

  -- mdb_strerror reads the table of descriptions only where it has one, whatever the number.
  pub mdb_strerror_reads : (err : ℤ) → (s : String) × (mdb_strerror strerror err ≡ some s)
  unfolding mdb_strerror
  mdb_strerror_reads (pos zero) = ("Successful return: 0", refl)
  mdb_strerror_reads (pos (suc n)) = (strerror (suc n), refl)
  mdb_strerror_reads (negsuc n) = elim (Bool-cases (in_table n)) [
    | inl h ↦
        let (s, e) = get_elem?-lt_length mdb_errstr (30798 - n) (in_table-length n h) in
        (s, if-true _ _ h ∙ e)
    | inr h ↦ ("Invalid error code", if-false _ _ h)
  ]
