-- ===== src/Id2l/Shift.antt =====
-- mdb_mid2l_insert: the shift of the elements, and the array with the new pair in it.
use kotlin_lmdb.Common.{
  ℕ, zero, suc, ◌+◌, ◌-◌, ◌≤◌, ◌<◌, some, get_elem?, get_elem?-lt_length, length, ◌≡◌, ◌≢◌, ◌⊎◌,
  inl, inr, arith, refl, sym, ap, ◌∙◌, List, [], ◌∷◌, >>=-some, set, length-set, get_elem?-set_self,
  get_elem?-set_ne, dec_lt, pos,
}
use kotlin_lmdb.Idl.{u32}
use kotlin_lmdb.Idl.Memory.{um_max, store}
use kotlin_lmdb.Id2l.{Id2, count, bump, shift_up, insert_at}
use kotlin_lmdb.Id2l.Locate.{IsId2l}
use native.Mathlib.Nat.{mod-eq_of_lt}

-- The cells from `x` on have moved up by one, over `r` of them.
pub record Shifted (old : List Id2) (x r : ℕ) (new : List Id2) : Type 0 where
  pub size : length new ≡ length old
  pub outside : (i : ℕ) → (i ≤ x) ⊎ (x + r < i) → get_elem? new i ≡ get_elem? old i
  pub moved : (i : ℕ) → x ≤ i → i < x + r → get_elem? new (i + 1) ≡ get_elem? old i

store_lem : (ids : List Id2) (i : ℕ) (v : Id2) → i < length ids → store ids i v ≡ some (set ids i v)
store_lem ids i v h = ground arith

shift_up-Shifted :
    (ids : List Id2) (x r : ℕ)
    → x + r < length ids
    → (new : List Id2) × (shift_up ids x r ≡ some new) × Shifted ids x r new
unfolding shift_up
shift_up-Shifted ids x zero h = (
  ids,
  refl,
  record { size = refl; outside = λ i o. refl; moved = λ i p q. absurd (omega arith) },
)
shift_up-Shifted ids x (suc r) h =
    let (c, ec) = get_elem?-lt_length ids (x + r) (omega arith) in
    let size : length (set ids (x + suc r) c) ≡ length ids = length-set ids (x + suc r) c in
    let (new, e, s) = shift_up-Shifted (set ids (x + suc r) c) x r (omega (arith, size)) in
    let keep : (i : ℕ) → i ≢ x + suc r → get_elem? (set ids (x + suc r) c) i ≡ get_elem? ids i =
      λ i ne. get_elem?-set_ne ids (x + suc r) i c (λ q. ne (sym q)) in
    (
      new,
      >>=-some _ ec (>>=-some _ (store_lem ids (x + suc r) c h) e),
      record {
        size = s.size ∙ size;
        outside = λ i o. s.outside i (omega arith) ∙ keep i (omega arith);
        moved = λ i p q. elim (dec_lt i (x + r)) [
          | yes l ↦ s.moved i p l ∙ keep i (omega arith)
          | no l ↦
              s.outside (i + 1) (inr (omega arith))
              ∙ ap (get_elem? (set ids (x + suc r) c))
                  (let f : i + 1 ≡ x + suc r = omega arith in f)
              ∙ get_elem?-set_self ids (x + suc r) c h
              ∙ sym ec
              ∙ ap (get_elem? ids) (let f : x + r ≡ i = omega arith in f)
        ];
      },
    )

-- `new` is `ids` with `id` put in at `x`.
pub record Inserted (ids : List Id2) (id : Id2) (x : ℕ) (new : List Id2) : Type 0 where
  pub size : length new ≡ length ids
  pub count_eq : count new ≡ count ids + 1
  pub put : get_elem? new x ≡ some id
  pub before : (i : ℕ) → 1 ≤ i → i < x → get_elem? new i ≡ get_elem? ids i
  pub after : (i : ℕ) → x ≤ i → i ≤ count ids → get_elem? new (i + 1) ≡ get_elem? ids i

length-bump : (ids : List Id2) → length (bump ids) ≡ length ids
length-bump [] = refl
length-bump (c ∷ cells) = refl

count-bump :
    (ids : List Id2) → 0 < length ids → count ids < um_max → count (bump ids) ≡ count ids + 1
count-bump [] h k = elim h [ ]
count-bump (c ∷ cells) h k = mod-eq_of_lt (omega arith)

bump_at : (ids : List Id2) (i : ℕ) → 1 ≤ i → get_elem? (bump ids) i ≡ get_elem? ids i
bump_at [] i h = refl
bump_at (c ∷ cells) zero h = absurd (omega arith)
bump_at (c ∷ cells) (suc i) h = refl

pub count-eq : (xs ys : List Id2) → get_elem? xs 0 ≡ get_elem? ys 0 → count xs ≡ count ys
count-eq [] [] e = refl
count-eq [] (y ∷ ys) e = cc
count-eq (x ∷ xs) [] e = cc
count-eq (x ∷ xs) (y ∷ ys) e = ground arith

pub insert_at_lem :
    (ids : List Id2) (x : ℕ) (id : Id2)
    → IsId2l ids
    → count ids < um_max
    → 1 ≤ x
    → x ≤ count ids + 1
    → (new : List Id2) × (insert_at ids x id ≡ some (pos 0, new)) × Inserted ids id x new
unfolding insert_at
insert_at_lem ids x id w full lo hi =
    let b = bump ids in
    let size : length b ≡ um_max + 1 = length-bump ids ∙ w.sized in
    let counted : count b ≡ count ids + 1 = count-bump ids (omega (arith, w.sized)) full in
    let rounds : u32 (count b) - x ≡ count ids + 1 - x = omega (arith, counted) in
    let (mid, e, s) = shift_up-Shifted b x (count ids + 1 - x) (omega (arith, size)) in
    let room : x < length mid = omega (arith, s.size, size) in
    (
      set mid x id,
      >>=-some _ (ap (shift_up b x) rounds ∙ e) (>>=-some _ (store_lem mid x id room) refl),
      record {
        size = length-set mid x id ∙ s.size ∙ length-bump ids;
        count_eq =
            count-eq (set mid x id) b
              (get_elem?-set_ne mid x 0 id (omega arith) ∙ s.outside 0 (inl (omega arith)))
            ∙ counted;
        put = get_elem?-set_self mid x id room;
        before = λ i p q.
            get_elem?-set_ne mid x i id (omega arith)
            ∙ s.outside i (inl (omega arith))
            ∙ bump_at ids i p;
        after = λ i p q.
            get_elem?-set_ne mid x (i + 1) id (omega arith)
            ∙ s.moved i p (omega arith)
            ∙ bump_at ids i (omega arith);
      },
    )
