-- ===== src/Alloc/HuntRecord.antt =====
-- mdb.c: one record in the loop of mdb_page_alloc: it is merged if its transaction is over.
use kotlin_lmdb.Common.{
  ℕ, ◌+◌, ◌^◌, ◌≤◌, ◌<◌, Bool, true, false, Option, none, some, leb, if◌then◌else◌, >>=-some, ◌≡◌,
  ◌≢◌, ◌⊎◌, inl, inr, refl, sym, ap, ◌∙◌, subst, arith, Bool-cases,
}
use kotlin_lmdb.Idl.{Idl, IsIdl, IsFalling, u32, u64, count}
use kotlin_lmdb.Idl.MergeCells.{Has}
use kotlin_lmdb.Idl.MergeLaws.{mdb_midl_xmerge-Merged}
use kotlin_lmdb.Idl.Room.{
  Roomier-IsFalling, Roomier-Has, Has-Roomier, count-le, mdb_midl_need-Needed, mdb_midl_alloc-Made,
}
use kotlin_lmdb.Btree.{Rc, success, notfound}
use kotlin_lmdb.Alloc.{
  Code, rc, enomem, Op, Setting, fresh, failed, Hunt, Ends, mdb_find_oldest, unless_recent,
  merge_record, grown, make_room, use_record, at_record,
}
use kotlin_lmdb.Alloc.Oldest.{mdb_find_oldest_lem}
use kotlin_lmdb.Alloc.Sound.{Frees, Held, IsHead, IsSound, IsSetting}
use kotlin_lmdb.Alloc.Kept.{Kept, Kept-trans, Good, Good-after, stays, IsOnRecord}

module _ {C : Type 0} (e : Setting C) (key_of : C → ℕ) (w : IsSetting e key_of) where
  module _ (n2 : ℕ) (again : Hunt C → Ends) (last : ℕ)
      (goes : (h : Hunt C)
        → IsOnRecord e key_of h
        → last < h.last
        → Good e key_of n2 h.space (again h)) where
    -- A hunt whose next record is `h.last`, with the cursor on it.
    record IsAt (h : Hunt C) : Type 0 where
      pub sound : IsSound e key_of h.space
      pub agrees : h.oldest ≡ h.space.me_pgoldest
      further : h.space.me_pglast < h.last
      progress : last < h.last
      on : key_of h.m2 ≡ h.last
      recent : h.last < h.oldest

    merge_record_lem :
        (h : Hunt C) (idl mop : Idl)
        → IsAt h
        → e.free_db.read h.m2 ≡ (success, idl)
        → IsIdl mop
        → IsFalling mop
        → mop.cap < 2 ^ 32
        → count idl + count mop ≤ mop.cap
        → ((v : ℕ) → Has mop v → Held h.space.me_pghead v)
        → ((v : ℕ) → Held h.space.me_pghead v → Has mop v)
        → Good e key_of n2 h.space (merge_record e again idl h mop)
    merge_record_lem h idl mop a r v f c room to from =
        let s = h.space in
        let frees : (x : ℕ) → Has idl x → Frees e.free_db key_of h.last x =
          λ x q. (h.m2, idl, r, a.on, q) in
        let (v', f') = w.free_db.valid h.m2 idl r in
        let (new, eq, m) =
          mdb_midl_xmerge-Merged mop idl v v' f f'
            (λ x q q'.
              let (t, g, l, l') = a.sound.freed x (to x q) in
              let same : t ≡ h.last = w.free_db.apart t h.last x g (frees x q') in
              omega (arith, a.further))
            room (λ x q. omega (arith, a.sound.known h.last x (frees x q), a.sound.bounded))
            (omega arith) in
        let h' = record h { space = record s { me_pglast = h.last; me_pghead = some new } } in
        let held : (x : ℕ) → Has new x → Held s.me_pghead x ⊎ Has idl x =
          λ x q. elim ((m.same_ids x).0 q) [ inl y ↦ inl (to x y) | inr y ↦ inr y ] in
        let sound : IsSound e key_of h'.space = record {
          head = (m.valid, m.falling, omega (arith, m.same_cap));
          freed = λ x q. elim (held x q) [
            | inl y ↦ let (t, g, l, l') = a.sound.freed x y in (t, g, omega (arith, a.further), l')
            | inr y ↦ (h.last, frees x y, omega arith, omega (arith, a.agrees, a.recent))
          ];
          readers = a.sound.readers;
          current = a.sound.current;
          merged = omega (arith, a.recent, a.agrees, a.sound.current);
          known = a.sound.known;
          bounded = a.sound.bounded;
        } in
        let kept : Kept e key_of s h'.space = record {
          sound = sound;
          taken = λ x k. record {
            old = k.old;
            not_held = λ q. elim (held x q) [
              | inl y ↦ k.not_held y
              | inr y ↦ absurd (omega (arith, k.passed h.last (frees x y), a.further))
            ];
            passed = λ t q. omega (arith, k.passed t q, a.further);
          };
          same = record {
            loose = refl;
            loose_count = refl;
            dirty_room = refl;
            dirty_list = refl;
            next = refl;
            error = refl;
          };
        } in
        let on : IsOnRecord e key_of h' = record {
          sound = sound;
          agrees = a.agrees;
          last_is = refl;
          on = a.on;
          recent = a.recent;
        } in
        let (ch, s', eq', k, c') = goes h' on a.progress in
        (ch, s', >>=-some _ eq eq', Kept-trans e key_of s h'.space s' kept k, c')

    refused :
        (h : Hunt C) (code : Code)
        → IsSound e key_of h.space
        → code ≢ rc success
        → Good e key_of n2 h.space (some (failed code, h.space))
    refused h code q n = (failed code, h.space, refl, stays e key_of h q, n)

    ended :
        (h : Hunt C) → IsSound e key_of h.space → Good e key_of n2 h.space (some (fresh, h.space))
    ended h q = (fresh, h.space, refl, stays e key_of h q, tt)

    not_success : (code : Rc) → code ≢ success → rc code ≢ rc success
    not_success code n f = n (cc)

    -- The number of IDs of a record or of me_pghead.
    few :
        (ids : Idl)
        → IsIdl ids
        → IsFalling ids
        → ((v : ℕ) → Has ids v → v < 2 ^ 30)
        → count ids ≤ 2 ^ 30
    few ids v f b = count-le ids (2 ^ 30) v f b

    record_few :
        (h : Hunt C) (idl : Idl)
        → IsAt h
        → e.free_db.read h.m2 ≡ (success, idl)
        → count idl ≤ 2 ^ 30
    record_few h idl a r =
        let (v, f) = w.free_db.valid h.m2 idl r in
        few idl v f
          (λ x q. omega (arith, a.sound.known h.last x (h.m2, idl, r, a.on, q), a.sound.bounded))

    make_room_lem :
        (h : Hunt C) (idl : Idl) (o : Option Idl)
        → IsAt h
        → e.free_db.read h.m2 ≡ (success, idl)
        → h.space.me_pghead ≡ o
        → Good e key_of n2 h.space (make_room e again idl h o)
    make_room_lem h idl none a r q =
        let few = record_few h idl a r in
        let all : u32 (count idl) ≡ count idl = omega arith in
        let made = mdb_midl_alloc-Made e.allocator w.allocator (u32 (count idl)) (omega arith) in
        elim made [
          | inl no_memory ↦
              subst (λ o. Good e key_of n2 h.space (room_made o)) (sym no_memory)
                (refused h enomem a.sound (cc))
          | inr (mop, eq, v, empty, room) ↦
              subst (λ o. Good e key_of n2 h.space (room_made o)) (sym eq)
                (merge_record_lem h idl mop a r v (λ i j x y b l k ex ey. absurd (omega arith))
                  (omega arith) (omega arith) (λ x p. absurd (omega (arith, p.1, p.2)))
                  (λ x p. absurd (subst (λ o. Held o x) q p)))
        ]
      where
        room_made : Option Idl → Ends
        room_made o = elim o [
          | none ↦ some (failed enomem, h.space)
          | some mop ↦ merge_record e again idl h mop
        ]
    make_room_lem h idl (some mop) a r q =
        let few_new = record_few h idl a r in
        let (v, f, c) = subst IsHead q a.sound.head in
        let held : (x : ℕ) → Has mop x → Held h.space.me_pghead x =
          λ x p. subst (λ o. Held o x) (sym q) p in
        let few_old = few mop v f (λ x p.
          let (t, g, l, l') = a.sound.freed x (held x p) in
          omega (arith, a.sound.known t x g, a.sound.bounded)) in
        let all : u32 (count idl) ≡ count idl = omega arith in
        elim (mdb_midl_need-Needed e.allocator w.allocator mop (u32 (count idl)) v c
          (omega arith)) [
            | inl no_memory ↦
                subst (λ x. Good e key_of n2 h.space (grown e again idl h x)) (sym no_memory)
                  (refused h enomem a.sound (cc))
            | inr (new, eq, m) ↦
                subst (λ x. Good e key_of n2 h.space (grown e again idl h x)) (sym eq)
                  (merge_record_lem h idl new a r m.valid (Roomier-IsFalling mop new _ m f)
                    m.cap_small (omega (arith, m.room, m.count_eq))
                    (λ x p. held x (Roomier-Has mop new _ m x p))
                    (λ x p. Has-Roomier mop new _ m x (subst (λ o. Held o x) q p)))
          ]

    use_record_lem :
        (h : Hunt C) (r : Rc × Idl)
        → IsAt h
        → e.free_db.read h.m2 ≡ r
        → Good e key_of n2 h.space (use_record e again h r)
    use_record_lem h (success, idl) a r = make_room_lem h idl h.space.me_pghead a r refl
    use_record_lem h (code, idl) a r = refused h (rc code) a.sound (λ f. cc)

    -- The state with a candidate: `last` may be too recent still.
    pub record IsNear (h : Hunt C) : Type 0 where
      pub sound : IsSound e key_of h.space
      pub agrees : h.oldest ≡ h.space.me_pgoldest

    -- `h'` is `h`, but that it may have looked for the oldest reader.
    record IsLater (h h' : Hunt C) : Type 0 where
      near : IsNear h'
      last_eq : h'.last ≡ h.last
      m2_eq : h'.m2 ≡ h.m2
      pglast_eq : h'.space.me_pglast ≡ h.space.me_pglast
      kept : Kept e key_of h.space h'.space

    updated : Hunt C → Hunt C
    updated h = record h {
      oldest = mdb_find_oldest e.mt_txnid e.me_txns;
      found_old = true;
      space = record h.space { me_pgoldest = mdb_find_oldest e.mt_txnid e.me_txns };
    }

    IsLater-same : (h : Hunt C) → IsNear h → IsLater h h
    IsLater-same h n = record {
      near = n;
      last_eq = refl;
      m2_eq = refl;
      pglast_eq = refl;
      kept = stays e key_of h n.sound;
    }

    IsLater-updated : (h : Hunt C) → IsNear h → IsLater h (updated h)
    unfolding updated
    IsLater-updated h n =
        let (below, readers, attained) =
          mdb_find_oldest_lem e.mt_txnid e.me_txns (omega (arith, n.sound.current)) in
        let oldest = mdb_find_oldest e.mt_txnid e.me_txns in
        let grows : h.space.me_pgoldest ≤ oldest = elim attained [
          | inl q ↦ omega (arith, n.sound.current)
          | inr q ↦ n.sound.readers oldest q
        ] in
        let sound : IsSound e key_of (updated h).space = record {
          head = n.sound.head;
          freed = λ v q. let (t, g, l, l') = n.sound.freed v q in (t, g, l, omega arith);
          readers = readers;
          current = below;
          merged = n.sound.merged;
          known = n.sound.known;
          bounded = n.sound.bounded;
        } in
        record {
          near = record { sound = sound; agrees = refl };
          last_eq = refl;
          m2_eq = refl;
          pglast_eq = refl;
          kept = record {
            sound = sound;
            taken = λ v k. record { old = k.old; not_held = k.not_held; passed = k.passed };
            same = record {
              loose = refl;
              loose_count = refl;
              dirty_room = refl;
              dirty_list = refl;
              next = refl;
              error = refl;
            };
          };
        }

    module _ (h : Hunt C) (n : IsNear h) (k : Hunt C → Ends)
        (ok : (h' : Hunt C)
          → IsLater h h'
          → h'.last < h'.oldest
          → Good e key_of n2 h'.space (k h')) where
      tested :
          (h' : Hunt C)
          → IsLater h h'
          → Good e key_of n2 h.space
              (if leb h'.oldest h'.last then some (fresh, h'.space) else k h')
      tested h' l =
          Good-after e key_of n2 h.space h'.space _ l.kept
            (elim (Bool-cases (leb h'.oldest h'.last)) [
              | inl recent ↦ rw recent (ended h' l.near.sound)
              | inr old ↦ rw old (ok h' l (ground arith))
            ])

      look :
          (b : Bool)
          → Good e key_of n2 h.space (
              let h' = (if b then h else updated h) in
              if leb h'.oldest h'.last then some (fresh, h'.space) else k h')
      look true = tested h (IsLater-same h n)
      look false = tested (updated h) (IsLater-updated h n)

      unless_recent_lem : Good e key_of n2 h.space (unless_recent e h k)
      unfolding updated
      unless_recent_lem = elim (Bool-cases (leb h.oldest h.last)) [
        | inl recent ↦ rw recent (look h.found_old)
        | inr old ↦ rw old (ok h (IsLater-same h n) (ground arith))
      ]

    -- The record that the cursor gives is after the last one that was merged.
    at_record_lem :
        (h : Hunt C) (op : Op) (l : ℕ) (r : Rc × ℕ × C)
        → IsNear h
        → h.space.me_pglast ≡ last
        → e.free_db.get op l h.m2 ≡ r
        → ((k : ℕ) (c : C) → e.free_db.get op l h.m2 ≡ (success, k, c) → last < k)
        → Good e key_of n2 h.space (at_record e again h r)
    at_record_lem h op l (success, key, m2) n p q onward =
        unless_recent_lem (record h { last = key; m2 = m2 })
          (record { sound = n.sound; agrees = n.agrees })
          (λ h'. use_record e again h' (e.free_db.read h'.m2))
          (λ h' f recent.
            use_record_lem h' (e.free_db.read h'.m2)
              (record {
                sound = f.near.sound;
                agrees = f.near.agrees;
                further = omega (arith, onward key m2 q, f.pglast_eq, f.last_eq);
                progress = omega (arith, onward key m2 q, f.last_eq);
                on = ap key_of f.m2_eq ∙ w.free_db.key_at op l h.m2 key m2 q ∙ sym f.last_eq;
                recent = recent;
              })
              refl)
    at_record_lem h op l (notfound, key, m2) n p q onward = ended h n.sound
    at_record_lem h op l (code, key, m2) n p q onward = refused h (rc code) n.sound (λ f. cc)

    -- One iteration after the do loop, where `h` is as `prepare` leaves it.
    pub fetch_prepared :
        (h : Hunt C) (op : Op)
        → IsNear h
        → h.last ≡ last
        → h.space.me_pglast ≡ last
        → ((k : ℕ) (c : C) → e.free_db.get op (last + 1) h.m2 ≡ (success, k, c) → last < k)
        → Good e key_of n2 h.space (
            unless_recent e
              (record h { last = u64 (h.last + 1) })
              λ h'. at_record e again h' (e.free_db.get op h'.last h'.m2))
    fetch_prepared h op n p q onward =
        let next : u64 (h.last + 1) ≡ last + 1 = omega (arith, n.sound.merged, w.number) in
        unless_recent_lem (record h { last = u64 (h.last + 1) })
          (record { sound = n.sound; agrees = n.agrees })
          (λ h'. at_record e again h' (e.free_db.get op h'.last h'.m2))
          (λ h' l recent.
            at_record_lem h' op h'.last (e.free_db.get op h'.last h'.m2) l.near (l.pglast_eq ∙ q)
              refl
              (λ k c f. onward k c (
                ap (λ x. e.free_db.get op x h.m2) (sym next ∙ sym l.last_eq)
                ∙ ap (e.free_db.get op h'.last) (sym l.m2_eq)
                ∙ f)))
