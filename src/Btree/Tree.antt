-- ===== src/Btree/Tree.antt =====
-- The B+tree that a root page stands for: its leaf nodes in order, and where a cursor is in it.
use kotlin_lmdb.Common.{
  ℕ, zero, suc, ◌<◌, ◌^◌, true, false, Option, none, some, List, [], ◌∷◌, ◌++◌, map, get_elem?,
  ◌>>=◌, ◌≡◌,
}
use kotlin_lmdb.Btree.{
  Payload, inline, overflow, Node, TreePage, Frame, Info, Cursor, numkeys, bytes,
}

module _ {ℓ κ} {A : Type ℓ} {B : Type κ} where
  abbrev pub flat : (A → List B) → List A → List B
  flat f [] = []
  flat f (x ∷ xs) = f x ++ flat f xs

abbrev pub drop {ℓ} : {A : Type ℓ} → ℕ → List A → List A
drop zero xs = xs
drop (suc n) [] = []
drop (suc n) (x ∷ xs) = drop n xs

-- The cursor's entry for the key `index` of a page.
pub record Place {ℓ} (S : Type ℓ) : Type ℓ where
  pub page : TreePage S
  pub index : ℕ

module _ {ℓ} {S : Type ℓ} where
  abbrev pub frame : Place S → Frame S
  frame a = record { page = some a.page; ki = a.index }

  abbrev pub at : TreePage S → ℕ → Place S
  at p k = record { page = p; index = k }

abbrev pub cursor_at {ℓ κ} :
    {S : Type ℓ} {X : Type κ} → List (Place S) → List (Frame S) → Info X → Cursor S X
cursor_at path above i = record { below = map frame path; above = above; info = i }

module _ {ℓ} {S : Type ℓ} (read : ℕ → Option (TreePage S)) where
  abbrev pub payload_value : Payload → Option (List ℕ)
  payload_value (inline d) = some d
  payload_value (overflow size pgno) = read pgno >>= λ omp. some (bytes size omp.metadata)

  -- The data of a node without duplicates.
  abbrev pub value : Node S → Option (List ℕ)
  value n = payload_value n.payload

  pub record IsPlain (n : Node S) : Type ℓ where
    pub no_dup : n.dup ≡ none
    pub value_of : List ℕ
    pub reads : value n ≡ some value_of

  pub record IsLeafPage (p : TreePage S) : Type ℓ where
    pub leaf : p.is_leaf ≡ true
    pub not_branch : p.is_branch ≡ false
    pub not_leaf2 : p.is_leaf2 ≡ false
    pub has_key : 0 < numkeys p
    pub fits : numkeys p < 2 ^ 16
    pub plain : (i : ℕ) (n : Node S) → get_elem? p.nodes i ≡ some n → IsPlain n

  pub record IsBranchPage (p : TreePage S) : Type ℓ where
    pub branch : p.is_branch ≡ true
    pub not_leaf : p.is_leaf ≡ false
    pub has_keys : 1 < numkeys p
    pub fits : numkeys p < 2 ^ 16

  -- A page is the root of a tree of pages that can be read, whose leaf pages are `h` levels below.
  abbrev pub IsTree : ℕ → TreePage S → Type ℓ
  IsTree zero p = IsLeafPage p
  IsTree (suc h) p =
      IsBranchPage p
      × ((i : ℕ) (n : Node S)
          → get_elem? p.nodes i ≡ some n
          → (q : TreePage S) × (read n.child ≡ some q) × IsTree h q)

  -- The leaf nodes under a node of a page `h` levels above the leaf pages, in order.
  abbrev pub under : ℕ → Node S → List (Node S)
  under zero n = n ∷ []
  under (suc h) n = elim (read n.child) [ none ↦ [] | some q ↦ flat (under h) q.nodes ]

  abbrev pub leaves : ℕ → TreePage S → List (Node S)
  leaves h p = flat (under h) p.nodes

  -- The path from a key of a page `h` levels above the leaf pages up to the root.
  abbrev pub IsPath : ℕ → List (Place S) → Type ℓ
  IsPath h [] = Unit
  IsPath h (a ∷ path) = IsTree h a.page × (a.index < numkeys a.page) × IsPath (suc h) path

  -- The leaf nodes to the right of a path.
  abbrev pub after : ℕ → List (Place S) → List (Node S)
  after h [] = []
  after h (a ∷ path) = flat (under h) (drop (suc a.index) a.page.nodes) ++ after (suc h) path
