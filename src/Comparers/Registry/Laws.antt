-- ===== src/Comparers/Registry/Laws.antt =====
-- What registering a custom function does on the JVM and on the native platform.
use mathlib.Core.Logic.{if_pos, if_neg}
use kotlin_lmdb.Common.{
  Bool, true, false, ◌||◌, none, some, ℤ, List, ℕ, ◌≡◌, ◌≢◌, refl, arith, ap, ap₂, sym, ◌∙◌, Option,
  subst, inl, inr, ◌⊎◌, if◌then◌else◌,
}
use kotlin_lmdb.Checks.{ok, thrown, only_custom_slots, not_registered}
use kotlin_lmdb.Comparers.Registry.{
  ValComparer, ValComparer-discrete, custom_1, custom_2, custom_3, custom_4, ValCompare, Slots,
  assign, is_custom_slot, is_custom_comparer, standard_comparers, bitwise,
}
use kotlin_lmdb.Comparers.Registry.Jvm
use kotlin_lmdb.Comparers.Registry.Jvm.{callback, registered, contains_key}
use kotlin_lmdb.Comparers.Registry.Native
use kotlin_lmdb.Comparers.Registry.Native.{Registry}

module _ {F : Type 0} (m : Slots F) (slot : ValComparer) (f : F) where
  assign_self : assign m slot f slot ≡ some f
  unfolding assign
  assign_self = if_pos (ValComparer-discrete slot slot) refl (some f) (m slot)

  assign_ne : (c : ValComparer) → slot ≢ c → assign m slot f c ≡ m c
  unfolding assign
  assign_ne c n = if_neg (ValComparer-discrete slot c) n (some f) (m c)

-- No custom slot has a standard function.
standard_custom :
    (hash : List ℕ → ℤ) (c : ValComparer)
    → is_custom_comparer c ≡ true
    → standard_comparers hash c ≡ none
standard_custom hash custom_1 e = refl
standard_custom hash custom_2 e = refl
standard_custom hash custom_3 e = refl
standard_custom hash custom_4 e = refl
standard_custom hash bitwise e = cc
standard_custom hash c e = cc

-- The slots that are accepted are looked up.
slot_custom : (c : ValComparer) → is_custom_slot c ≡ true → is_custom_comparer c ≡ true
slot_custom custom_1 e = refl
slot_custom custom_2 e = refl
slot_custom custom_3 e = refl
slot_custom custom_4 e = refl
slot_custom c e = cc

abbrev contains : Option ValCompare → Bool
contains o = elim o [ none ↦ false | some g ↦ true ]

callback_custom :
    {F : Type 0} (o : Option F) (s : Option F) (custom : Bool)
    → s ≡ none
    → custom ≡ true
    → callback s custom o ≡ registered o
callback_custom o s custom e h = ground arith

-- A slot has a standard function, or it is accepted and its function is looked up.
Slot-cases :
    (hash : List ℕ → ℤ) (c : ValComparer)
    → ((g : ValCompare) × (standard_comparers hash c ≡ some g) × (is_custom_slot c ≡ false))
      ⊎ ((standard_comparers hash c ≡ none)
          × (is_custom_slot c ≡ true)
          × (is_custom_comparer c ≡ true))
Slot-cases hash custom_1 = inr (refl, refl, refl)
Slot-cases hash custom_2 = inr (refl, refl, refl)
Slot-cases hash custom_3 = inr (refl, refl, refl)
Slot-cases hash custom_4 = inr (refl, refl, refl)
Slot-cases hash bitwise = inl (_, refl, refl)
Slot-cases hash c = inl (_, refl, refl)

-- On the JVM a registration is refused if the name has a standard function, and else accepted. After
-- one that is accepted, the slot counts as registered, and its comparisons are those of the function,
-- as the callback of getComparerCallback makes them; any other name `c` has the callback that it
-- had, and counts as registered as it did.
pub Jvm-register_custom_comparer :
    (hash : List ℕ → ℤ) (m : Slots ValCompare) (slot c : ValComparer) (f : ValCompare)
    → slot ≢ c
    → ((g : ValCompare) × (standard_comparers hash slot ≡ some g)
        × (Jvm.register_custom_comparer m slot f ≡ thrown only_custom_slots))
      ⊎ ((m' : Slots ValCompare) × (standard_comparers hash slot ≡ none)
          × (Jvm.register_custom_comparer m slot f ≡ ok m')
          × (Jvm.is_custom_comparer_registered m' slot ≡ true)
          × (Jvm.get_comparer_callback hash m' slot ≡ ok f)
          × (Jvm.get_comparer_callback hash m' c ≡ Jvm.get_comparer_callback hash m c)
          × (Jvm.is_custom_comparer_registered m' c ≡ Jvm.is_custom_comparer_registered m c))
unfolding Jvm.register_custom_comparer Jvm.get_custom_comparer Jvm.is_custom_comparer_registered
    Jvm.get_comparer_callback
Jvm-register_custom_comparer hash m slot c f n = elim (Slot-cases hash slot) [
  | inl (g, s, e) ↦
      inl (g, s, ap (λ b. if b then ok (assign m slot f) else thrown only_custom_slots) e)
  | inr (s, e, k) ↦ inr (
    assign m slot f,
    s,
    ap (λ b. if b then ok (assign m slot f) else thrown only_custom_slots) e,
    ap contains (assign_self m slot f),
    callback_custom (assign m slot f slot) (standard_comparers hash slot) (is_custom_comparer slot)
          s k
        ∙ ap registered (assign_self m slot f),
    ap (callback (standard_comparers hash c) (is_custom_comparer c)) (assign_ne m slot f c n),
    ap contains (assign_ne m slot f c n),
  )
]

-- On the native platform a custom slot that has a Kotlin function, and no C function, counts as
-- registered, and using it throws IllegalStateException all the same.
pub Native-register_custom_comparer :
    (hash : List ℕ → ℤ) (r r' : Registry) (slot : ValComparer) (f : ValCompare)
    → Native.register_custom_comparer r slot f ≡ ok r'
    → Native.get_native_custom_comparer r slot ≡ none
    → (Native.get_custom_comparer r' slot ≡ some f)
      × (Native.is_custom_comparer_registered r' slot ≡ true)
      × (Native.get_comparer_callback hash r' slot ≡ thrown not_registered)
unfolding Native.register_custom_comparer Native.get_custom_comparer
    Native.is_custom_comparer_registered Native.get_comparer_callback
Native-register_custom_comparer hash r r' slot f e n =
    let accepted : is_custom_slot slot ≡ true = ground arith in
    let custom : is_custom_comparer slot ≡ true = slot_custom slot accepted in
    let new : r' ≡ record r { custom_comparers = assign r.custom_comparers slot f } =
      ground arith in
    subst
      (λ q.
        (Native.get_custom_comparer q slot ≡ some f)
        × (Native.is_custom_comparer_registered q slot ≡ true)
        × (Native.get_comparer_callback hash q slot ≡ thrown not_registered))
      (sym new)
      (
        assign_self r.custom_comparers slot f,
        ap₂ (λ x y. contains x || contains y) n (assign_self r.custom_comparers slot f),
        callback_custom (r.native_comparers slot) (standard_comparers hash slot)
              (is_custom_comparer slot) (standard_custom hash slot custom) custom
            ∙ ap registered n,
      )
