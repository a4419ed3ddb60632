-- ===== src/Nodes/Outcome.antt =====
-- mdb.c: what mdb_node_add does to a leaf page.
use kotlin_lmdb.Common.{
  ℕ, ◌+◌, ◌^◌, ◌≤◌, ◌<◌, Bool, true, false, Option, none, some, List, [], length, get_or, ltb,
  if◌then◌else◌, ◌≡◌, ◌⊎◌, refl, ap, ◌∙◌, arith,
}
use kotlin_lmdb.Btree.{success, is_success}
use kotlin_lmdb.Nodes.{
  RawPage, num_keys, size_left, even, nodesize, is_bigdata, is_reserve, put_bytes,
}
use kotlin_lmdb.Nodes.Add.{
  NodeEnv, MdbVal, Place, Added, added, full, pgno_bytes, put_data, put_overflow, set_bigdata,
  leaf_node, ov_pages,
}
use kotlin_lmdb.Nodes.Layout.{IsPage}
use kotlin_lmdb.Nodes.Bytes.{put_bytes_other, put_bytes_here}
use kotlin_lmdb.Nodes.AddLaws.{IsAdded, IsChange, leaf_node-IsAdded}

abbrev value_of : Option (List ℕ) → List ℕ
value_of none = []
value_of (some l) = l

put_bytes-IsChange : (n : ℕ) (l : List ℕ) → IsChange n (some l) (λ at b. put_bytes b at n l)
put_bytes-IsChange n l = record {
  other = λ at b x h. put_bytes_other b at n l x h;
  here = λ at b l' q k h. put_bytes_here b at n l k h ∙ ap (λ o. get_or (value_of o) k 0) q;
}

-- The bytes of inline data, which MDB_RESERVE leaves to the caller.
abbrev inline_change : (n : ℕ) (l : List ℕ) (reserve : Bool) → ℕ → (ℕ → ℕ) → ℕ → ℕ
inline_change n l reserve at b = if reserve then b else put_bytes b at n l

inline_change-IsChange :
    (n : ℕ) (l : List ℕ) (reserve : Bool)
    → IsChange n (if reserve then none else some l) (inline_change n l reserve)
inline_change-IsChange n l true = record {
  other = λ at b x h. refl;
  here = λ at b l' q k h. absurd (cc);
}
inline_change-IsChange n l false = put_bytes-IsChange n l

module _ (psize : ℕ) (e : NodeEnv) (mp : RawPage) (indx : ℕ) (key : List ℕ) (datum : MdbVal)
    (flags : ℕ) where
  -- What is in the page of the data.
  abbrev pub GivesGiven : Added → Type 0
  GivesGiven a =
      (is_bigdata flags ≡ true)
      × IsAdded psize mp a indx key flags datum.mv_size 8 (some datum.mv_data)
      × (a.ofp ≡ none)
      × (a.reserved ≡ none)

  abbrev pub GivesInline : Added → Type 0
  GivesInline a =
      (is_bigdata flags ≡ false)
      × (nodesize + length key + datum.mv_size ≤ e.me_nodemax)
      × IsAdded psize mp a indx key flags datum.mv_size datum.mv_size
          (if is_reserve flags then none else some datum.mv_data)
      × (a.ofp ≡ none)
      × (a.reserved ≡ (
          if is_reserve flags
          then some (Place.in_page (a.page.mp_upper + 8 + length key))
          else none))

  abbrev pub GivesOverflow : Added → Type 0
  GivesOverflow a =
      (is_bigdata flags ≡ false)
      × (e.me_nodemax < nodesize + length key + datum.mv_size)
      × (pgno : ℕ) × (e.page_new (ov_pages e datum.mv_size) ≡ (success, pgno))
      × IsAdded psize mp a indx key (set_bigdata flags) datum.mv_size 8 (some (pgno_bytes pgno 8))
      × (a.ofp ≡ some (pgno, if is_reserve flags then [] else datum.mv_data))
      × (a.reserved ≡ (if is_reserve flags then some Place.in_overflow else none))

  abbrev pub NoPage : Added → Type 0
  NoPage a =
      (is_bigdata flags ≡ false)
      × (e.me_nodemax < nodesize + length key + datum.mv_size)
      × (is_success (e.page_new (ov_pages e datum.mv_size)).0 ≡ false)
      × (a ≡ added (e.page_new (ov_pages e datum.mv_size)).0 mp)

  -- How many bytes of the data the page is to take.
  abbrev pub taken : ℕ
  taken =
      if is_bigdata flags
      then 8
      else (if ltb e.me_nodemax (nodesize + length key + datum.mv_size) then 8 else datum.mv_size)

  abbrev pub Outcome : Added → Type 0
  Outcome a =
      ((size_left mp < even (nodesize + length key + taken) + 2) × (a ≡ full mp))
      ⊎ (NoPage a ⊎ (GivesGiven a ⊎ (GivesInline a ⊎ GivesOverflow a)))

  module _ (small : psize < 2 ^ 16) (w : IsPage psize mp) (in_range : indx ≤ num_keys mp)
      (leaf : mp.is_leaf ≡ true) where
    abbrev size_for : ℕ → ℕ
    size_for n = even (nodesize + length key + n)

    pub given :
        is_bigdata flags ≡ true
        → size_for 8 + 2 ≤ size_left mp
        → (a : Added) × (leaf_node indx
              (size_for 8)
              key
              flags
              datum.mv_size
              (λ at. put_data at flags datum)
              mp
            ≡ some a)
          × GivesGiven a
    given b room =
        let (a, q, is, o, r) =
          leaf_node-IsAdded psize mp indx key flags datum.mv_size 8 small w in_range leaf room
            (ap (λ b. if b then 8 else datum.mv_size) b) (λ at. put_data at flags datum)
            (λ at. added success mp) _ (some datum.mv_data) (put_bytes-IsChange 8 datum.mv_data)
            (λ at p.
              ap
                (λ b.
                  if b
                  then added success (record p { body = put_bytes p.body at 8 datum.mv_data })
                  else (if is_reserve flags
                      then record (added success p) { reserved = some (Place.in_page at) }
                      else added success
                          (record p { body = put_bytes p.body at datum.mv_size datum.mv_data })))
                b)
            (λ at. refl) (λ at. refl) in
        (a, q, (b, is, o, r))

    pub inline :
        is_bigdata flags ≡ false
        → nodesize + length key + datum.mv_size ≤ e.me_nodemax
        → size_for datum.mv_size + 2 ≤ size_left mp
        → (a : Added) × (leaf_node indx
              (size_for datum.mv_size)
              key
              flags
              datum.mv_size
              (λ at. put_data at flags datum)
              mp
            ≡ some a)
          × GivesInline a
    inline b fits room =
        let (a, q, is, o, r) =
          leaf_node-IsAdded psize mp indx key flags datum.mv_size datum.mv_size small w in_range
            leaf room (ap (λ b. if b then 8 else datum.mv_size) b) (λ at. put_data at flags datum)
            (λ at. record (added success mp) {
              reserved = (if is_reserve flags then some (Place.in_page at) else none);
            })
            (inline_change datum.mv_size datum.mv_data (is_reserve flags)) _
            (inline_change-IsChange datum.mv_size datum.mv_data (is_reserve flags))
            (λ at p.
              ap
                (λ b.
                  if b
                  then added success (record p { body = put_bytes p.body at 8 datum.mv_data })
                  else (if is_reserve flags
                      then record (added success p) { reserved = some (Place.in_page at) }
                      else added success
                          (record p { body = put_bytes p.body at datum.mv_size datum.mv_data })))
                b
              ∙ inline_finish (is_reserve flags) at p)
            (λ at. refl) (λ at. refl) in
        (a, q, (b, fits, is, o, r))
      where
        inline_finish :
            (c : Bool) (at : ℕ) (p : RawPage)
            → (if c
                then record (added success p) { reserved = some (Place.in_page at) }
                else added success
                    (record p { body = put_bytes p.body at datum.mv_size datum.mv_data }))
              ≡ record (added success mp) {
                page = record p { body = inline_change datum.mv_size datum.mv_data c at p.body };
                reserved = (if c then some (Place.in_page at) else none);
              }
        inline_finish true at p = refl
        inline_finish false at p = refl

    pub overflow :
        is_bigdata flags ≡ false
        → e.me_nodemax < nodesize + length key + datum.mv_size
        → size_for 8 + 2 ≤ size_left mp
        → (pgno : ℕ) → e.page_new (ov_pages e datum.mv_size) ≡ (success, pgno)
        → (a : Added) × (leaf_node indx
              (size_for 8)
              key
              (set_bigdata flags)
              datum.mv_size
              (λ at. put_overflow at flags pgno datum)
              mp
            ≡ some a)
          × GivesOverflow a
    overflow b big room pgno new =
        let marked : is_bigdata (set_bigdata flags) ≡ true = ground arith in
        let (a, q, is, o, r) =
          leaf_node-IsAdded psize mp indx key (set_bigdata flags) datum.mv_size 8 small w in_range
            leaf room (ap (λ b. if b then 8 else datum.mv_size) marked)
            (λ at. put_overflow at flags pgno datum)
            (λ at. record (added success mp) {
              ofp = some (pgno, if is_reserve flags then [] else datum.mv_data);
              reserved = (if is_reserve flags then some Place.in_overflow else none);
            })
            _ _ (put_bytes-IsChange 8 (pgno_bytes pgno 8))
            (λ at p. overflow_finish (is_reserve flags) at p) (λ at. refl) (λ at. refl) in
        (a, q, (b, big, pgno, new, is, o, r))
      where
        overflow_finish :
            (c : Bool) (at : ℕ) (p : RawPage)
            → (if c
                then record (added success
                    (record p { body = put_bytes p.body at 8 (pgno_bytes pgno 8) })) {
                      ofp = some (pgno, []);
                      reserved = some Place.in_overflow;
                    }
                else record (added success
                    (record p { body = put_bytes p.body at 8 (pgno_bytes pgno 8) })) {
                      ofp = some (pgno, datum.mv_data);
                    })
              ≡ record (added success mp) {
                page = record p { body = put_bytes p.body at 8 (pgno_bytes pgno 8) };
                ofp = some (pgno, if c then [] else datum.mv_data);
                reserved = (if c then some Place.in_overflow else none);
              }
        overflow_finish true at p = refl
        overflow_finish false at p = refl
