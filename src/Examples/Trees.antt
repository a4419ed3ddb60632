-- ===== src/Examples/Trees.antt =====
-- A tree of a branch page and two leaf pages, the last data on an overflow page, and cursors on it.
use kotlin_lmdb.Common.{
  ℕ, zero, suc, Bool, true, false, Option, none, some, List, [], ◌∷◌, get_elem?, ◌>>=◌, ◌≡◌, refl,
  subst, arith,
}
use mathlib.Core.Option.{some-injective, none-ne-some}
use kotlin_lmdb.Examples.Pages.{by_bytes}
use kotlin_lmdb.Engine.{cmp_other}
use kotlin_lmdb.Btree.{Rc, success, Payload, inline, overflow, Node, TreePage, Info, return}
use kotlin_lmdb.Btree.Search.{Store}
use kotlin_lmdb.Btree.Move.{Dups, move_any, mdb_cursor_next}
use kotlin_lmdb.Btree.Get.{first, mdb_cursor_get}
use kotlin_lmdb.Btree.Tree.{at, cursor_at, IsTree, IsPlain}
use kotlin_lmdb.Btree.Stack.{mdb_cursor_sibling}
use kotlin_lmdb.Btree.Right.{MovedRight, mdb_cursor_sibling-MovedRight}
use kotlin_lmdb.Btree.Next.{GivesNext, live, mdb_cursor_next-GivesNext}
use kotlin_lmdb.Btree.First.{in_tree}
use kotlin_lmdb.Btree.Scan.{drain, without_dups, mdb_cursor_get-leaves}

abbrev pub Item : Type 0
Item = Node (Unit {0})

abbrev pub APage : Type 0
APage = TreePage (Unit {0})

abbrev pub leaf_node : List ℕ → Payload → Item
leaf_node k d = record { key = k; child = 0; payload = d; dup = none }

abbrev pub branch_node : List ℕ → ℕ → Item
branch_node k pgno = record { key = k; child = pgno; payload = inline []; dup = none }

abbrev pub leaf_page : ℕ → List Item → APage
leaf_page pgno nodes = record {
  pgno = pgno;
  is_branch = false;
  is_leaf = true;
  is_leaf2 = false;
  nodes = nodes;
  metadata = [];
}

abbrev pub left_page : APage
left_page =
    leaf_page 3 (leaf_node (1 ∷ []) (inline (10 ∷ [])) ∷ leaf_node (5 ∷ []) (inline (50 ∷ [])) ∷ [])

abbrev pub right_page : APage
right_page = leaf_page 4 (leaf_node (9 ∷ []) (overflow 2 5) ∷ [])

abbrev pub root_page : APage
root_page = record {
  pgno = 2;
  is_branch = true;
  is_leaf = false;
  is_leaf2 = false;
  nodes = branch_node [] 3 ∷ branch_node (9 ∷ []) 4 ∷ [];
  metadata = [];
}

abbrev pub overflow_page : APage
overflow_page = record {
  pgno = 5;
  is_branch = false;
  is_leaf = false;
  is_leaf2 = false;
  nodes = [];
  metadata = 90 ∷ 91 ∷ 92 ∷ [];
}

abbrev pub pages : ℕ → Option APage
pages n =
    get_elem?
      (none ∷ none ∷ some root_page ∷ some left_page ∷ some right_page ∷ some overflow_page ∷ []) n
    >>= λ p. p

abbrev pub engine : Store (Unit {0}) (Unit {0})
engine = record {
  read = pages;
  compare_with = by_bytes;
  md_dcmp = cmp_other;
  clong = cmp_other;
  is_free_dbi = false;
  blocked = false;
  page_touch = return success;
  reload = return success;
}

-- A database without MDB_DUPSORT: there is no cursor of duplicates.
abbrev pub no_dups : Dups (Unit {0}) (Unit {0})
no_dups =
    let fails = λ (want : Bool) (v : List ℕ) (err : Bool) (x : Unit {0}).
      (let r : Option (Rc × Unit {0} × List ℕ × Bool) = none in r) in
    record {
      exists = false;
      reset = λ x. x;
      init0 = λ c x. x;
      init1 = λ b s x. x;
      first = fails;
      last = fails;
      next = fails;
      prev = fails;
      set_range = λ b. fails;
      get_current = fails;
      prev_page = fails;
      fetch = fails;
      is_initialized = λ x. false;
      is_eof = λ x. false;
    }

-- What mdb_cursor_init makes.
abbrev pub fresh_info : Info (Unit {0})
fresh_info = record {
  initialized = false;
  eof = false;
  del = false;
  txn_error = false;
  stale = false;
  root = some 2;
  pad = 0;
  dupsort = false;
  dupfixed = false;
  md_cmp = cmp_other;
  key = [];
  datum = [];
  xcursor = tt;
}

inline-IsPlain : (k d : List ℕ) → IsPlain pages (leaf_node k (inline d))
inline-IsPlain k d = record { no_dup = refl; value_of = d; reads = refl }

left-IsPlain : (i : ℕ) (n : Item) → get_elem? left_page.nodes i ≡ some n → IsPlain pages n
left-IsPlain zero n e =
    subst (IsPlain pages) (some-injective _ n e) (inline-IsPlain (1 ∷ []) (10 ∷ []))
left-IsPlain (suc zero) n e =
    subst (IsPlain pages) (some-injective _ n e) (inline-IsPlain (5 ∷ []) (50 ∷ []))
left-IsPlain (suc (suc i)) n e = absurd (none-ne-some n e)

right-IsPlain : (i : ℕ) (n : Item) → get_elem? right_page.nodes i ≡ some n → IsPlain pages n
right-IsPlain zero n e =
    subst (IsPlain pages) (some-injective _ n e)
      (record { no_dup = refl; value_of = 90 ∷ 91 ∷ []; reads = refl })
right-IsPlain (suc i) n e = absurd (none-ne-some n e)

pub left-IsTree : IsTree pages 0 left_page
left-IsTree = record {
  leaf = refl;
  not_branch = refl;
  not_leaf2 = refl;
  has_key = omega arith;
  fits = omega arith;
  plain = left-IsPlain;
}

pub right-IsTree : IsTree pages 0 right_page
right-IsTree = record {
  leaf = refl;
  not_branch = refl;
  not_leaf2 = refl;
  has_key = omega arith;
  fits = omega arith;
  plain = right-IsPlain;
}

abbrev Child : Item → Type 0
Child n = (q : APage) × (pages n.child ≡ some q) × IsTree pages 0 q

children : (i : ℕ) (n : Item) → get_elem? root_page.nodes i ≡ some n → Child n
children zero n e = subst Child (some-injective _ n e) (left_page, refl, left-IsTree)
children (suc zero) n e = subst Child (some-injective _ n e) (right_page, refl, right-IsTree)
children (suc (suc i)) n e = absurd (none-ne-some n e)

pub root-IsTree : IsTree pages 1 root_page
root-IsTree = (
  record { branch = refl; not_leaf = refl; has_keys = omega arith; fits = omega arith },
  children,
)

mdb_cursor_get-leaves_example :
    (mdb_cursor_get engine no_dups first true true
        (record { below = []; above = []; info = in_tree 2 (without_dups fresh_info) })
      >>= drain engine no_dups 4)
    ≡ some (((1 ∷ []), (10 ∷ [])) ∷ ((5 ∷ []), (50 ∷ [])) ∷ ((9 ∷ []), (90 ∷ 91 ∷ [])) ∷ [])
mdb_cursor_get-leaves_example =
    mdb_cursor_get-leaves engine no_dups refl 1 root_page 2 [] [] fresh_info (omega arith)
      (omega arith) refl (λ e. absurd (no_root e)) root-IsTree refl
  where
    no_root : false ≡ true → ⊥
    no_root e = cc

-- From the last key of the left page.
mdb_cursor_next-GivesNext_example :
    GivesNext engine (at left_page 1) (at root_page 0 ∷ []) [] fresh_info (
      mdb_cursor_next engine no_dups move_any true true
        (cursor_at (at left_page 1 ∷ at root_page 0 ∷ []) [] (live fresh_info)))
mdb_cursor_next-GivesNext_example =
    mdb_cursor_next-GivesNext engine no_dups (at left_page 1) (at root_page 0 ∷ []) [] fresh_info
      (left-IsTree, omega arith, (root-IsTree, omega arith, tt)) (omega arith) move_any

mdb_cursor_sibling-MovedRight_example :
    MovedRight pages 0 (at left_page 1) (at root_page 0 ∷ []) [] fresh_info (
      mdb_cursor_sibling pages true
        (cursor_at (at left_page 1 ∷ at root_page 0 ∷ []) [] fresh_info))
mdb_cursor_sibling-MovedRight_example =
    mdb_cursor_sibling-MovedRight pages 0 (at left_page 1) (at root_page 0 ∷ []) [] fresh_info
      (root-IsTree, omega arith, tt) (omega arith)
