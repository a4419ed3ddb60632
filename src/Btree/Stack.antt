-- ===== src/Btree/Stack.antt =====
-- mdb.c: mdb_cursor_push, mdb_cursor_pop and mdb_cursor_sibling, the moves of a cursor's stack.
use kotlin_lmdb.Common.{
  ℕ, zero, suc, ◌+◌, ◌-◌, Bool, true, false, Option, none, some, List, [], ◌∷◌, length, leb, ◌==◌,
  if◌then◌else◌, ◌>>=◌,
}
use kotlin_lmdb.Btree.{
  is_success, Rc, success, notfound, page_notfound, cursor_full, TreePage, Frame, Info, Cursor,
  Step, last_of, numkeys, proceed, assert, update, with_top, set_ki, with_node,
}

-- CURSOR_STACK
abbrev pub cursor_stack : ℕ
cursor_stack = 32

module _ {ℓ} {S : Type ℓ} where
  abbrev pub drop_first : List (Frame S) → List (Frame S)
  drop_first [] = []
  drop_first (f ∷ fs) = fs

  -- No sibling on this side under the parent: `move_right ? ki + 1u >= NUMKEYS : ki == 0`.
  abbrev pub at_edge : Bool → TreePage S → ℕ → Bool
  at_edge true mp ki = leb (numkeys mp) (ki + 1)
  at_edge false mp ki = ki == 0

abbrev pub shift : Bool → ℕ → ℕ
shift true ki = ki + 1
shift false ki = ki - 1

module _ {ℓ κ} {S : Type ℓ} {X : Type κ} where
  -- What follows `mc_snum--`, where `fs` is what is left of the stack.
  abbrev pub after_pop : List (Frame S) → Info X → Info X
  after_pop [] i = record i { initialized = false }
  after_pop (f ∷ fs) i = i

  abbrev pub mdb_cursor_pop : Cursor S X → Cursor S X
  mdb_cursor_pop c = elim c.below [
    | [] ↦ c
    | f ∷ fs ↦ record { below = fs; above = f ∷ c.above; info = after_pop fs c.info }
  ]

  -- `mc->mc_top++; mc->mc_snum++`: the entry above is live again; `none` where that is one that was
  -- never set, or one past the 32 of the arrays.
  abbrev pub unpop : Step S X
  unpop c = elim c.above [
    | [] ↦ none
    | f ∷ fs ↦ some (success, record c { below = f ∷ c.below; above = fs })
  ]

  unfoldable pub mdb_cursor_push : TreePage S → Step S X
  mdb_cursor_push mp c =
      if leb cursor_stack (length c.below)
      then some (cursor_full, update (λ i. record i { txn_error = true }) c)
      else some (
        success,
        record c {
          below = record { page = some mp; ki = 0 } ∷ c.below;
          above = drop_first c.above;
        },
      )

  abbrev pub on_page :
      Option (TreePage S) → (failed : Step S X) → (TreePage S → Step S X) → Step S X
  on_page none failed k c = failed (update (λ i. record i { txn_error = true }) c)
  on_page (some mp) failed k c = k mp c

  -- `read` is what mdb_page_get finds; it fails with MDB_PAGE_NOTFOUND.
  abbrev pub with_page :
      (read : ℕ → Option (TreePage S)) → ℕ → Step S X → (TreePage S → Step S X) → Step S X
  with_page read pgno failed k = on_page (read pgno) failed k

  -- mdb_cursor_push, whose code is not looked at, and the last key for a move to the left.
  abbrev pub land : Bool → TreePage S → Step S X
  land move_right mp c = elim (mdb_cursor_push mp c) [
    | none ↦ none
    | some r ↦ some (success, if move_right then r.1 else set_ki (last_of (numkeys mp)) r.1)
  ]

  -- The recursive call; what it returns other than success undoes the pop.
  abbrev pub undo : Rc × Cursor S X → Option (Rc × Cursor S X)
  undo (rc, c) = if is_success rc then some (rc, c) else (unpop c >>= λ r. some (rc, r.1))

  -- The parent moves, or its own sibling takes its place; `parent` is the recursive call.
  abbrev pub move_parent : Bool → (parent : Step S X) → TreePage S → ℕ → Step S X
  move_parent move_right parent mp ki c =
      if at_edge move_right mp ki
      then (parent c >>= undo)
      else some (success, set_ki (shift move_right ki) c)

  module _ (read : ℕ → Option (TreePage S)) where
    -- From `mdb_cassert(mc, IS_BRANCH(...))` on.
    abbrev pub enter_child : Bool → Step S X
    enter_child move_right = with_top λ mp ki. assert mp.is_branch (
        with_node mp ki λ n.
          with_page read n.child
            (λ c.
              some (page_notfound, update (λ i. record i { initialized = false; eof = false }) c))
            (land move_right))

    -- The first argument is mc_snum.
    unfoldable pub sibling_at : ℕ → Bool → Step S X
    sibling_at zero move_right c = some (notfound, c)
    sibling_at (suc zero) move_right c = some (notfound, c)
    sibling_at (suc (suc n)) move_right c =
        let parent = sibling_at (suc n) move_right in
        with_top (move_parent move_right parent) (mdb_cursor_pop c)
        >>= proceed (enter_child move_right)

    unfoldable pub mdb_cursor_sibling : Bool → Step S X
    unfolding sibling_at
    mdb_cursor_sibling move_right c = sibling_at (length c.below) move_right c
