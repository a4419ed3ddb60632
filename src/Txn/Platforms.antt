-- ===== src/Txn/Platforms.antt =====
-- The JVM and the native class behave alike where every operation is allowed.
use kotlin_lmdb.Common.{
  ℕ, Bool, true, false, [], ℤ, List, ◌∷◌, ◌≡◌, ◌≢◌, arith, refl, sym, ap, ap₂, subst,
}
use kotlin_lmdb.Checks.{ok, check, check_read}
use kotlin_lmdb.Txn.{
  TxnState, ready, done, reset, released, Call, Txn, Op, get_id, reset_op, handle, Allowed,
}
use kotlin_lmdb.Txn.Jvm
use kotlin_lmdb.Txn.Native
use kotlin_lmdb.Txn.Lifecycle.{
  at, Matches, step-Matches, new_txn-Matches, new_txn_lem, Matches-reset,
}

-- The native object says what the JVM object says, and its flag says that it is released.
pub record Agrees (j n : Txn) : Type 0 where
  pub state_eq : n.state ≡ j.state
  pub calls_eq : n.calls ≡ j.calls
  pub flag : n.is_closed ≡ true → j.state ≡ released

step-Agrees-at :
    (c d : Bool) (cs : List Call) (s : TxnState) (o : Op)
    → s ≢ reset
    → (d ≡ true → s ≡ released)
    → Allowed s o
    → ((Native.step (at s d cs) o).0 ≡ (Jvm.step (at s c cs) o).0)
      × Agrees (Jvm.step (at s c cs) o).1 (Native.step (at s d cs) o).1
unfolding Jvm.step Native.step check check_read
step-Agrees-at c d cs reset o n f a = absurd (n refl)
step-Agrees-at c d cs ready get_id n f a = ground arith
step-Agrees-at c d cs ready _ n f a = ground arith
step-Agrees-at c d cs done get_id n f a = ground arith
step-Agrees-at c d cs done _ n f a = ground arith
step-Agrees-at c d cs released reset_op n f a = absurd (a refl)
step-Agrees-at c d cs released _ n f a = ground arith

step-Agrees :
    (j n : Txn) (o : Op)
    → Agrees j n
    → Matches j.state (handle j)
    → Allowed j.state o
    → ((Native.step n o).0 ≡ (Jvm.step j o).0) × Agrees (Jvm.step j o).1 (Native.step n o).1
step-Agrees j n o g m a =
    let same : n ≡ at j.state n.is_closed j.calls =
      λ i. record { state = g.state_eq i; is_closed = n.is_closed; calls = g.calls_eq i } in
    subst
      (λ n'.
        ((Native.step n' o).0 ≡ (Jvm.step j o).0) × Agrees (Jvm.step j o).1 (Native.step n' o).1)
      (sym same)
      (step-Agrees-at j.is_closed n.is_closed j.calls j.state o (Matches-reset j.state (handle j) m)
        g.flag a)

run-Agrees :
    (j n : Txn) (os : List Op)
    → Agrees j n
    → Matches j.state (handle j)
    → Jvm.Disciplined j os
    → (Native.trace n os ≡ Jvm.trace j os) × Agrees (Jvm.run j os) (Native.run n os)
unfolding Jvm.run Native.run Jvm.trace Native.trace
run-Agrees j n [] g m d = (refl, g)
run-Agrees j n (o ∷ os) g m d =
    let (e, g') = step-Agrees j n o g m d.0 in
    let (f, h) =
      run-Agrees (Jvm.step j o).1 (Native.step n o).1 os g' (step-Matches j o m d.0) d.1 in
    (ap₂ (λ r rs. r ∷ rs) e f, h)

-- From mdb_txn_begin on, as long as the operations are allowed in the states that they meet, the
-- JVM and the native class return or throw alike at every operation, make the same calls of the
-- native library in the same order, and end in the same state.
pub Jvm-Native :
    (flags : ℕ) (rc : ℤ) (t : Txn)
    → Jvm.new_txn true flags rc ≡ ok t
    → (os : List Op) → Jvm.Disciplined t os
    → (Native.trace t os ≡ Jvm.trace t os)
      × ((Native.run t os).state ≡ (Jvm.run t os).state)
      × ((Native.run t os).calls ≡ (Jvm.run t os).calls)
Jvm-Native flags rc t begun os d =
    let e = new_txn_lem flags rc t begun in
    let open' : t.is_closed ≡ false = ap (λ (t : Txn). t.is_closed) e in
    let (f, g) =
      run-Agrees t t os (record { state_eq = refl; calls_eq = refl; flag = λ p. cc })
        (new_txn-Matches flags rc t begun) d in
    (f, g.state_eq, g.calls_eq)
