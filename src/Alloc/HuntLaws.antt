-- ===== src/Alloc/HuntLaws.antt =====
-- mdb.c: the loop of mdb_page_alloc ends, and keeps what is sound.
use kotlin_lmdb.Common.{
  ℕ, zero, suc, ◌+◌, ◌-◌, ◌^◌, ◌≤◌, ◌<◌, Bool, true, false, Option, none, some, ltb, ◌==◌,
  if◌then◌else◌, ◌>>=◌, ◌≡◌, inl, inr, refl, sym, subst, arith, Bool-cases,
}
use kotlin_lmdb.Idl.{Idl, count}
use kotlin_lmdb.Idl.MergeCells.{Has}
use kotlin_lmdb.Btree.{success}
use kotlin_lmdb.Alloc.{
  Op, Setting, tail, fresh, Hunt, Ends, mop_len, fetch, after_seek, seek_in, hunt,
}
use kotlin_lmdb.Alloc.Sound.{Held, IsHead, IsSound, IsSetting}
use kotlin_lmdb.Alloc.Kept.{IsChoice, Good, stays, IsOnRecord}
use kotlin_lmdb.Alloc.HuntRecord.{fetch_prepared}
use kotlin_lmdb.Alloc.SeekLaws.{seek_lem}

module _ {C : Type 0} (e : Setting C) (key_of : C → ℕ) (w : IsSetting e key_of) where
  -- A range that is found is one of me_pghead.
  after_seek_lem :
      (n2 : ℕ) (again : Hunt C → Ends) (op : Op) (h : Hunt C)
      → IsSound e key_of h.space
      → ((retry : ℕ) → Good e key_of n2 h.space (fetch e again op (record h { retry = retry })))
      → Good e key_of n2 h.space (fetch e again op h)
      → (o : Option Idl) → h.space.me_pghead ≡ o
      → Good e key_of n2 h.space
          (seek_in n2 o >>= λ r. after_seek e again op h (ltb n2 (mop_len o)) r)
  after_seek_lem n2 again op h q retries goes none p =
      let empty : ltb n2 0 ≡ false = ground arith in rw empty goes
  after_seek_lem n2 again op h q retries goes (some mop) p =
      elim (Bool-cases (ltb n2 (count mop))) [
        | inl more ↦
            let (v, f, c) = subst IsHead p q.head in
            let bound : (x : ℕ) → Has mop x → x < 2 ^ 30 = λ x y.
              let (t, g, l, l') = q.freed x (subst (λ o. Held o x) (sym p) y) in
              omega (arith, q.known t x g, q.bounded) in
            rw more (elim (seek_lem n2 mop (count mop) v bound c (ground arith) (omega arith)) [
              | inl no_range ↦
                  subst (λ r. Good e key_of n2 h.space (r >>= λ x. after_seek e again op h true x))
                    (sym no_range)
                    (elim (Bool-cases (h.retry == 0)) [
                      | inl over ↦ rw over (fresh, h.space, refl, stays e key_of h q, tt)
                      | inr left ↦ rw left (retries (h.retry - 1))
                    ])
              | inr (j, pgno, eq, a, b, x, y) ↦
                  subst (λ r. Good e key_of n2 h.space (r >>= λ z. after_seek e again op h true z))
                    (sym eq)
                    (
                      tail j pgno,
                      h.space,
                      refl,
                      stays e key_of h q,
                      subst (IsChoice n2 (tail j pgno)) (sym p) (a, b, x, y),
                    )
            ])
        | inr less ↦ rw less goes
      ]

  -- The loop from a record on ends, since the records go up and stay below the transaction.
  hunt_next :
      (n2 fuel : ℕ) (h : Hunt C)
      → IsOnRecord e key_of h
      → e.mt_txnid ≤ h.last + fuel
      → Good e key_of n2 h.space (hunt e fuel n2 Op.next h)
  unfolding hunt
  hunt_next n2 zero h r l = absurd (omega (arith, r.recent, r.agrees, r.sound.current))
  hunt_next n2 (suc fuel) h r l =
      let again = hunt e fuel n2 Op.next in
      let goes : (g : Hunt C)
          → IsOnRecord e key_of g
          → h.last < g.last
          → Good e key_of n2 g.space (again g) =
        λ g q m. hunt_next n2 fuel g q (omega arith) in
      let fetched = λ (retry : ℕ).
        fetch_prepared e key_of w n2 again h.last goes (record h { retry = retry }) Op.next
          (record { sound = r.sound; agrees = r.agrees }) refl (sym r.last_is)
          (λ k c q. omega (arith, w.free_db.after (h.last + 1) h.m2 k c q, r.on)) in
      after_seek_lem n2 again Op.next h r.sound fetched (fetched h.retry) h.space.me_pghead refl

  first_onward :
      (last : ℕ) (c : C) (b : Bool)
      → (last == 0) ≡ b
      → (k : ℕ) (c' : C)
      → e.free_db.get (if b then Op.first else Op.set_range) (last + 1) c ≡ (success, k, c')
      → last < k
  first_onward last c true z k c' q =
      let one = w.free_db.from_first (last + 1) c k c' q in ground arith
  first_onward last c false z k c' q = omega (arith, w.free_db.from_key (last + 1) c k c' q)

  -- The whole loop ends, at a range of me_pghead, with no more records, or with a code that is not
  -- MDB_SUCCESS; what is sound stays e key_of so, and what is taken stays e key_of taken.
  pub hunt-Good :
      (n2 : ℕ) (h : Hunt C)
      → IsSound e key_of h.space
      → Good e key_of n2 h.space (hunt e (suc e.mt_txnid) n2 Op.first h)
  unfolding hunt
  hunt-Good n2 h q =
      let again = hunt e e.mt_txnid n2 Op.next in
      let last = h.space.me_pglast in
      let goes : (g : Hunt C)
          → IsOnRecord e key_of g
          → last < g.last
          → Good e key_of n2 g.space (again g) =
        λ g r m. hunt_next n2 e.mt_txnid g r (omega arith) in
      let fetched = λ (retry : ℕ).
        fetch_prepared e key_of w n2 again last goes
          (record h {
            retry = retry;
            last = last;
            oldest = h.space.me_pgoldest;
            m2 = e.free_db.start;
          })
          (if last == 0 then Op.first else Op.set_range) (record { sound = q; agrees = refl }) refl
          refl (first_onward last e.free_db.start (last == 0) refl) in
      after_seek_lem n2 again Op.first h q fetched (fetched h.retry) h.space.me_pghead refl
