-- ===== src/Btree/Steps.antt =====
-- How the steps of a cursor's functions compute, where the page, the node and the code are known.
use kotlin_lmdb.Common.{Bool, true, false, Option, some, if◌then◌else◌, ◌≡◌, ap}
use kotlin_lmdb.Btree.{TreePage, Cursor, Step, assert, on_some}
use kotlin_lmdb.Btree.Stack.{on_page}

pub if-true {ℓ} : {A : Type ℓ} (x y : A) {b : Bool} → b ≡ true → (if b then x else y) ≡ x
if-true x y e = ap (λ b. if b then x else y) e

pub if-false {ℓ} : {A : Type ℓ} (x y : A) {b : Bool} → b ≡ false → (if b then x else y) ≡ y
if-false x y e = ap (λ b. if b then x else y) e

module _ {ℓ κ} {S : Type ℓ} {X : Type κ} where
  pub assert-true : (k : Step S X) (c : Cursor S X) {b : Bool} → b ≡ true → assert b k c ≡ k c
  assert-true k c e = ap (λ b. assert b k c) e

  pub on_some-some {μ} :
      {A : Type μ} (k : A → Step S X) (c : Cursor S X) {o : Option A} {a : A}
      → o ≡ some a
      → on_some o k c ≡ k a c
  on_some-some k c e = ap (λ o. on_some o k c) e

  pub on_page-some :
      (failed : Step S X) (k : TreePage S → Step S X) (c : Cursor S X) {o : Option (TreePage S)}
      {q : TreePage S}
      → o ≡ some q
      → on_page o failed k c ≡ k q c
  on_page-some failed k c e = ap (λ o. on_page o failed k c) e

  pub then_step :
      (f g : Step S X) (c : Cursor S X) {b : Bool} → b ≡ true → (if b then f else g) c ≡ f c
  then_step f g c e = ap (λ b. (if b then f else g) c) e

  pub else_step :
      (f g : Step S X) (c : Cursor S X) {b : Bool} → b ≡ false → (if b then f else g) c ≡ g c
  else_step f g c e = ap (λ b. (if b then f else g) c) e
