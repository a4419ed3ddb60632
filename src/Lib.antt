-- ===== src/Lib.antt =====
-- kotlin-lmdb: the Kotlin library over LMDB, and of the C code that it compiles in the ID lists, the
-- key search and the key order, the B+tree as cursors read it, and the allocation of pages.
--
-- The library wraps LMDB for the JVM (jnr-ffi) and for Kotlin/Native (cinterop). The classes Env,
-- Txn, Dbi and Cursor each hold a native handle and turn the status codes of the C functions into
-- exceptions; what differs between the platforms is written twice. The C code keeps lists of page
-- numbers in midl.c: sorted ID lists for free pages, and arrays of ID pairs for dirty pages.
--
-- - Common: names of the standard library, lists, options, integers, bits.
-- - Idl: src/nativeInterop/cinterop/c/midl.c, `MDB_IDL`. An `Idl` is the block that the pointer
--   points into: the capacity, which stands before it, and the words from the count on. Idl is the
--   search, Idl/Memory allocation and growth, Idl/Append the appends, Idl/Merge mdb_midl_xmerge; each
--   C function has its name.
--   The other files of Idl are the theorems. A read or a write outside of the block is `none`.
--   malloc and realloc are parameters (`Allocator`) with what the C library documents of them
--   (`IsAllocator`).
-- - Id2l: the same file, `MDB_ID2L`, an array of fixed size with the count in its first element.
-- - Checks: src/commonMain/kotlin/Checks.kt. An exception of the native library carries the status
--   code, not the text of mdb_strerror.
-- - Txn: src/commonMain/kotlin/Txn.kt; Txn/Jvm and Txn/Native: src/jvmMain/kotlin/Txn.kt and
--   src/nativeMain/kotlin/Txn.kt. The object is its state and the native calls made with its handle,
--   and every method is a step; the status code that the native library answers is an argument.
--   `handle` reads off the calls whether the handle is live, freed or used after it was freed.
-- - Env: src/commonMain/kotlin/Env.kt; Env/Jvm and Env/Native: Env.kt of the platforms. The object is
--   its fields and the native calls made with its handle, and every method is a step. Env/Flags is
--   the property `flags`, over a native environment (`NativeEnv`) that is a parameter.
-- - Comparers: the functions of src/commonMain/kotlin/ValComparers.kt on byte arrays, `none` for a
--   null one; Comparers/Registry: ValComparerRegistryImpl.kt and ValComparers.kt of both platforms.
--   contentHashCode is a parameter.
-- - Options: EnvOption.kt, DbiOption.kt, PutOption.kt, TxnOption.kt and CursorOptions.kt of
--   src/commonMain/kotlin, and the tests of Env.flags and Dbi.flags.
-- - Cursor: Cursor.kt of src/commonMain/kotlin and of both platforms, over a native cursor
--   (`NativeCursor`) that is a parameter.
-- - Engine: mdb_node_search, mdb_cmp_memn and, in Engine/Reverse, mdb_cmp_memnr of
--   src/nativeInterop/cinterop/c/mdb.c. A page is the list of the keys of its nodes, as NODEPTR and
--   NODEKEY or LEAF2KEY read them, and the function that md_cmp points to is a parameter, as memcmp
--   is; the node that is returned is its index, `none` for NULL.
-- - Btree: the same file, the B+tree as cursors read it. A page is its number, its flags and its
--   nodes, as NODEPTR, NODEKEY and NODEDATA or LEAF2KEY read them. MDB_cursor is the entries of
--   mc_pg and mc_ki from mc_top down (`below`), those from mc_snum up, which keep what was there
--   (`above`), and the flags, the database record and the MDB_vals of the caller (`Info`); key and
--   data are their bytes, and whether the pointers are NULL is an argument. A function is a step from
--   a cursor to a code and a cursor; `none` is an assertion that fails or a read of what is not there.
--   Btree/Pages is mdb_page_get, on the lists of Idl and Id2l; Btree/Stack mdb_cursor_push, pop and
--   sibling; Btree/Search mdb_page_search and its helpers, and mdb_node_read; Btree/Move
--   mdb_cursor_first, last, next and prev; Btree/Set mdb_cursor_set; Btree/Get mdb_cursor_get;
--   Btree/Lookup mdb_cursor_init and mdb_get; Btree/Xcursor the cursor of a key's duplicates, which is
--   a record of operations (`Dups`) to the functions before and is filled with the same functions;
--   Btree/Codes the codes of lmdb.h and mdb_strerror. The other files of Btree are the theorems;
--   Btree/Tree says which leaf nodes a root page stands for, in order. `Store` is what the functions
--   use of the rest: the pages, the comparison functions, mdb_page_touch and the reading of a stale
--   database record are parameters.
-- - Alloc: the same file, mdb_find_oldest and mdb_page_alloc, which takes pages that transactions
--   freed: the loop is in Alloc, the end, with mdb_page_dirty, in Alloc/Finish. `Space` is the fields
--   of MDB_txn and MDB_env that they change, and `Setting` those that they read. The cursor on the
--   database of free pages (`FreeDb`) is a parameter with what the loop relies on (`IsFreeDb`), as
--   mdb_page_malloc and the map are; the lists are those of Idl and Id2l. Alloc/Sound says which state
--   is sound and which pages count as handed out; the other files of Alloc are the theorems.
-- - Nodes: the same file, the bytes of a page. A `RawPage` is its bounds, its slots and its bytes by
--   their offset. mdb_node_add is in Nodes/Add, on leaf, branch and P_LEAF2 pages, with
--   mdb_page_new as a parameter; mdb_node_del is in Nodes/Del, mdb_update_key in Nodes/Update, and the
--   sizes by which their callers test for room in Nodes/Sizes. Nodes/Layout says that the nodes of a
--   page lie apart; Slots, Bytes and Slide are on what is read after a write, and the other files
--   are the theorems.
-- - Examples: runs at concrete inputs.
--
-- Widths and fuel: `unsigned` is 32 bits wide and size_t 64; both wrap as in C. The loop of the two
-- searches halves a number of 32 bits, so 33 rounds are enough, which the search theorems
-- prove: they say that a position is returned. mdb_node_search leaves fewer nodes in every round:
-- the number of keys plus one is enough. Its `int`s hold counts of one page, which do not wrap.
-- In mdb_page_alloc the number of the record grows in every round and stays below that of the
-- transaction, which is the fuel; the theorem says that the function returns.
-- mdb_page_search_root pushes a page in every round and the stack has 32 entries: 33 rounds are
-- enough, which the theorems on trees of at most 32 levels prove. mdb_cursor_sibling recurs on the
-- depth of the stack.
-- asSequence is looked at for a number of rounds that is an argument; the theorems hold for every
-- number, or for one larger than the number of entries.
--
-- Not modelled: the rest of src/nativeInterop/cinterop/c/mdb.c, whose functions the Kotlin classes
-- take as parameters, with all that writes pages (mdb_page_touch, mdb_cursor_put, mdb_cursor_del),
-- locks and files; mdb_midl_sort and mdb_midl_free of midl.c; Dbi;
-- the numbers of Env.stat and Env.info; the foreign-function layer (Library.kt, MDBVal.kt,
-- ValN.kt), memory of the values and threads.
pub mod Common
pub mod Idl
pub mod Id2l
pub mod Checks
pub mod Txn
pub mod Comparers
pub mod Options
pub mod Cursor
pub mod Env
pub mod Engine
pub mod Btree
pub mod Alloc
pub mod Nodes
mod Examples
