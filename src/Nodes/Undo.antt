-- ===== src/Nodes/Undo.antt =====
-- mdb.c: mdb_node_del after mdb_node_add.
use kotlin_lmdb.Common.{
  ℕ, suc, ◌^◌, ◌≤◌, ◌<◌, true, false, some, List, ◌≡◌, inl, inr, sym, ap, ◌∙◌, arith, dec_lt, subst,
}
use kotlin_lmdb.Btree.{success, is_success}
use kotlin_lmdb.Nodes.{RawPage, num_keys}
use kotlin_lmdb.Nodes.Add.{NodeEnv, MdbVal, Added, mdb_node_add}
use kotlin_lmdb.Nodes.Del.{mdb_node_del}
use kotlin_lmdb.Nodes.Layout.{IsPage, SameNode, size_same}
use kotlin_lmdb.Nodes.Insert.{IsInserted}
use kotlin_lmdb.Nodes.Remove.{mdb_node_del-IsRemoved}
use kotlin_lmdb.Nodes.Outcome.{Outcome}
use kotlin_lmdb.Nodes.Adds.{mdb_node_add-Outcome}
use mathlib.Core.Option.{some-injective}

-- The second page has the nodes of the first one, in their order, and as much room.
pub record IsSamePage (psize : ℕ) (mp mp' : RawPage) : Type 0 where
  pub valid : IsPage psize mp'
  pub keys : num_keys mp' ≡ num_keys mp
  pub nodes : (i : ℕ) → i < num_keys mp → SameNode mp i mp' i
  pub upper : mp'.mp_upper ≡ mp.mp_upper
  pub lower : mp'.mp_lower ≡ mp.mp_lower

SameNode-trans :
    (mp mp' mp'' : RawPage) (i j k : ℕ)
    → mp'.is_leaf ≡ mp.is_leaf
    → SameNode mp i mp' j
    → SameNode mp' j mp'' k
    → SameNode mp i mp'' k
SameNode-trans mp mp' mp'' i j k l s t x h = t x (omega (arith, size_same mp mp' i j l s)) ∙ s x h

undo :
    (psize : ℕ) (mp mp' : RawPage) (indx size ksize : ℕ)
    → psize < 2 ^ 16
    → indx ≤ num_keys mp
    → mp.is_leaf2 ≡ false
    → IsInserted psize mp mp' indx size
    → (mp'' : RawPage) × (mdb_node_del ksize indx mp' ≡ some mp'') × IsSamePage psize mp mp''
undo psize mp mp' indx size ksize small in_range plain ins =
    let (mp'', q, r) =
      mdb_node_del-IsRemoved psize mp' indx small ins.valid (omega (arith, ins.keys)) ksize
        (ins.kind2 ∙ plain) in
    (
      mp'',
      q,
      record {
        valid = r.valid;
        keys = omega (arith, r.keys, ins.keys);
        nodes = λ i h. elim (dec_lt i indx) [
          | yes a ↦ SameNode-trans mp mp' mp'' i i i ins.kind (ins.before i a) (r.before i a)
          | no a ↦
              SameNode-trans mp mp' mp'' i (suc i) i ins.kind (ins.after i (omega arith) h)
                (r.after i (omega arith) (omega (arith, ins.keys)))
        ];
        upper = omega (arith, r.upper, ins.upper, ins.sized);
        lower = omega (arith, r.lower, ins.lower);
      },
    )

module _ (psize : ℕ) (e : NodeEnv) (mp : RawPage) (indx : ℕ) (key : List ℕ) (datum : MdbVal)
    (flags : ℕ) where
  -- What mdb_node_add has put in is a node.
  Outcome-IsInserted :
      (a : Added)
      → Outcome psize e mp indx key datum flags a
      → a.rc ≡ success
      → (size : ℕ) × IsInserted psize mp a.page indx size
  Outcome-IsInserted a (inl (less, f)) s =
      let failed = sym (ap is_success s) ∙ ap (λ a. is_success a.rc) f in absurd (cc)
  Outcome-IsInserted a (inr (inl (b, big, bad, f))) s =
      let failed = sym (ap is_success s) ∙ ap (λ a. is_success a.rc) f ∙ bad in absurd (cc)
  Outcome-IsInserted a (inr (inr (inl (b, is, o, r)))) s = (_, is.inserted)
  Outcome-IsInserted a (inr (inr (inr (inl (b, fits, is, o, r))))) s = (_, is.inserted)
  Outcome-IsInserted a (inr (inr (inr (inr (b, big, pgno, new, is, o, r))))) s = (_, is.inserted)

  -- On a leaf page of nodes that lie apart, mdb_node_del of a node that mdb_node_add has just added
  -- gives back the page: its nodes in their order and with their bytes, and its free space.
  pub mdb_node_del-mdb_node_add :
      psize < 2 ^ 16
      → IsPage psize mp
      → indx ≤ num_keys mp
      → mp.is_leaf ≡ true
      → mp.is_leaf2 ≡ false
      → (pgno ksize : ℕ) (a : Added)
      → mdb_node_add e indx (some key) (some datum) pgno flags mp ≡ some a
      → a.rc ≡ success
      → (mp' : RawPage) × (mdb_node_del ksize indx a.page ≡ some mp') × IsSamePage psize mp mp'
  mdb_node_del-mdb_node_add small w in_range leaf plain pgno ksize a q s =
      let (a', q', o) =
        mdb_node_add-Outcome psize e mp indx key datum flags small w in_range leaf plain pgno in
      let same : a' ≡ a = some-injective a' a (sym q' ∙ q) in
      let (size, ins) =
        Outcome-IsInserted a (subst (Outcome psize e mp indx key datum flags) same o) s in
      undo psize mp a.page indx size ksize small in_range plain ins
