-- ===== src/Cuckoo/FindOrInsert.antt =====
-- The contract of FindOrInsert in memstore/cuckoo_index.go: it finds an unexpired key, or inserts
-- it, through the cuckoo process and as many resizes as it takes, with no other key disturbed.
use aresdb.Cuckoo.Evict.{IsFull}
use mathlib.Core.Bool.{false≢true}
use mathlib.Core.Option.{none-ne-some, some_inj, some-ne-none}
use mathlib.Core.Path.{subst}
use native.Mathlib.Nat.{add-zero}
use aresdb.Prelude.{
  ℕ, zero, suc, ◌+◌, ◌<◌, ◌≡◌, refl, sym, ap, ◌↔◌, ◌⊎◌, inl, inr, ◌≢◌, ◌∙◌, true, false, Option,
  none, some, arith, if◌then◌else◌, Bool-cases, Option-cases,
}
use aresdb.Record.{Key, RecordId}
use aresdb.Cuckoo.{CuckooIndex, StagingEntry, cell_at, hashes, event_time_expired, zero_id}
use aresdb.Cuckoo.Lookup.{find, locate}
use aresdb.Cuckoo.Insert.{GoRuntime, Item, Found, find_or_add_new, cuckoo_add}
use aresdb.Cuckoo.Resize.{resize, resize_loop, find_or_insert, Outcome, stale, entry}
use aresdb.Cuckoo.Find.{locate-some, locate-none, find-record_iff, find-missing}
use aresdb.Cuckoo.Place.{IsReady, IsNew, Stored, InHand}
use aresdb.Cuckoo.Stash.{item_of, cuckoo_add-cases}
use aresdb.Cuckoo.FindOrAdd.{find_or_add_new-cases}
use aresdb.Cuckoo.Rehash.{Settles, resize-cases}
use aresdb.Cuckoo.Reload.{SameTime-refl}

module _ {R : Type 0} where
  -- Between two calls the index is ready and nothing is staged.
  pub record IsIdle (c : CuckooIndex R) : Type 0 where
    pub ready : IsReady c
    pub idle : c.staging ≡ none

  -- The key was absent and now reads as `value`; every other key reads as before.
  pub record Inserts (c : CuckooIndex R) (key : Key) (value : RecordId) (c' : CuckooIndex R)
      : Type 0 where
    pub absent : find c key ≡ (zero_id, false)
    pub after : IsIdle c'
    pub reads : find c' key ≡ (value, true)
    pub keeps : (k : Key) → k ≢ key → find c' k ≡ find c k

  -- What each outcome of FindOrInsert says of the index before and after.
  abbrev pub Answers : CuckooIndex R → Key → RecordId → ℕ → CuckooIndex R → Outcome → Type 0
  Answers c key value event_time c' stale = (event_time_expired c event_time ≡ true) × (c' ≡ c)
  Answers c key value event_time c' (entry true r) =
      (find c key ≡ (r, true)) × (c' ≡ c) × (event_time_expired c event_time ≡ false)
  Answers c key value event_time c' (entry false r) =
      (r ≡ value) × Inserts c key value c' × (event_time_expired c event_time ≡ false)

module _ {R : Type 0} (c c' : CuckooIndex R) (item : Item) (ready : IsReady c) (new : IsNew c item)
    (after : IsIdle c')
    (stores : (k : Key) (r : RecordId) (e : ℕ) → InHand c item k r e ↔ Stored c' k r e) where
  reads-Stored : (k : Key) (r : RecordId) (e : ℕ) → Stored c' k r e → find c' k ≡ (r, true)
  reads-Stored k r e (q, l, er, _) =
      (find-record_iff c' k r after.ready.valid (after.ready.unique k)).1 (q, l, er)

  keeps-Stored : (k : Key) → k ≢ item.key → find c' k ≡ find c k
  unfolding find
  keeps-Stored k ne = elim (Option-cases (locate c k)) [
    | inr (p, hit) ↦
        let l = locate-some c k p hit in
        let time = (cell_at c p).event_time in
        reads-Stored k _ time
          ((stores k _ time).0 (inr (p, l, refl, SameTime-refl c.has_event_time time)))
        ∙ sym (rw (hit, find))
    | inl miss ↦
        find-missing c' k (λ q l.
          let time = (cell_at c' q).event_time in
          elim ((stores k _ time).1 (q, l, refl, SameTime-refl c'.has_event_time time)) [
            | inl (ek, _, _) ↦ ne (sym ek)
            | inr (p, live, _, _) ↦ locate-none c k ready.valid miss p live
          ])
        ∙ sym (rw (miss, find))
  ]

  -- An index that stores the item beside what it stored reads so.
  stores-Inserts : Inserts c item.key item.record_id c'
  stores-Inserts = record {
    absent = find-missing c item.key new.missing;
    after = after;
    reads = reads-Stored item.key item.record_id item.event_time (
        (stores item.key item.record_id item.event_time).0
          (inl (refl, refl, SameTime-refl c.has_event_time item.event_time)));
    keeps = keeps-Stored;
  }

module _ {R : Type 0} (go : GoRuntime R) where
  -- The resize loop ends with all items of the index and of its staging area stored.
  resize_loop-Settles :
      (fuel : ℕ) (now : ℕ → ℕ) (i : ℕ) (c : CuckooIndex R) (s : StagingEntry)
      → IsReady c
      → IsNew c (item_of s)
      → c.staging ≡ some s
      → (c' : CuckooIndex R) → resize_loop go fuel now i c ≡ some c'
      → Settles c (item_of s) c'
  unfolding resize_loop
  resize_loop-Settles zero now i c s ready new staged c' e = absurd (none-ne-some _ e)
  resize_loop-Settles (suc fuel) now i c s ready new staged c' e =
      elim (resize-cases go c ready s new staged (now i) i) [
        | inl (done, settles) ↦ subst (Settles c (item_of s)) (some_inj.0 (rw done at e)) settles
        | inr same ↦ resize_loop-Settles fuel now (suc i) c s ready new staged c' (rw same at e)
      ]

  -- Of the outcome that is returned.
  deliver :
      (c : CuckooIndex R) (item : Item) (c' : CuckooIndex R) (out : Outcome)
      (x : CuckooIndex R × Outcome)
      → some x ≡ some (c', out)
      → Answers c item.key item.record_id item.event_time x.0 x.1
      → Answers c item.key item.record_id item.event_time c' out
  deliver c item c' out x e =
      subst (λ y. Answers c item.key item.record_id item.event_time y.0 y.1) (some_inj.0 e)

  -- The part of FindOrInsert behind findOrAddNew, for an item that has no room in its buckets.
  miss-Answers :
      (fuel : ℕ) (now : ℕ → ℕ) (c : CuckooIndex R) (item : Item)
      → IsIdle c
      → IsNew c item
      → IsFull c item.key
      → event_time_expired c item.event_time ≡ false
      → (c' : CuckooIndex R) (out : Outcome)
      → let x = cuckoo_add go c item (hashes c item.key) in
        if◌then◌else◌ {A = Option (CuckooIndex R × Outcome)} x.1
            (some (x.0, entry false item.record_id))
            (elim (resize_loop go fuel now 1 x.0) [
              | none ↦ none
              | some c'' ↦ some (c'', entry false item.record_id)
            ])
          ≡ some (c', out)
        → Answers c item.key item.record_id item.event_time c' out
  miss-Answers fuel now c item idle new full fresh c' out e =
      let x = cuckoo_add go c item (hashes c item.key) in
      elim (cuckoo_add-cases go c item idle.ready new full idle.idle) [
        | inl (done, adds) ↦
            deliver c item c' out (x.0, entry false item.record_id) (rw done at e)
              (
                refl,
                stores-Inserts c x.0 item idle.ready new
                    (record { ready = adds.ready; idle = ap (λ t. t.3) adds.settings ∙ idle.idle })
                    adds.stores,
                fresh,
              )
        | inr (failed, parks) ↦ elim (Option-cases (resize_loop go fuel now 1 x.0)) [
          | inl out_of_fuel ↦ absurd (none-ne-some _ (rw out_of_fuel at (rw failed at e)))
          | inr (t, ends) ↦
              let s =
                resize_loop-Settles fuel now 1 x.0 parks.entry parks.ready parks.new parks.staged t
                  ends in
              deliver c item c' out (t, entry false item.record_id) (rw ends at (rw failed at e))
                (
                  refl,
                  stores-Inserts c t item idle.ready new (record { ready = s.ready; idle = s.idle })
                      (λ k r e. (
                        λ h. (s.stores k r e).0 ((parks.moves k r e).0 h),
                        λ h. (parks.moves k r e).1 ((s.stores k r e).1 h),
                      )),
                  fresh,
                )
        ]
      ]

  -- FindOrInsert of an idle index, whenever it returns: it refuses the call exactly if the event time
  -- is expired, and then changes nothing; otherwise an unexpired key is found with its record and
  -- nothing changes, and any other key is inserted, reads as its new record from then on, every other
  -- key reads as before, and the index is idle again.
  pub find_or_insert-Answers :
      (fuel : ℕ) (now : ℕ → ℕ) (c : CuckooIndex R) (key : Key) (value : RecordId) (event_time : ℕ)
      (c' : CuckooIndex R) (out : Outcome)
      → IsIdle c
      → find_or_insert go fuel now c key value event_time ≡ some (c', out)
      → Answers c key value event_time c' out
  unfolding find_or_insert
  find_or_insert-Answers fuel now c key value event_time c' out idle e =
      elim (Bool-cases (event_time_expired c event_time)) [
        | inl expired ↦ deliver c item c' out (c, stale) (rw expired at e) (expired, refl)
        | inr fresh ↦ elim (find_or_add_new-cases c item idle.ready fresh) [
          | inl hit ↦
              deliver c item c' out (r.index, entry true r.record_id)
                (rw hit.existing_found at (rw fresh at e))
                (
                  (find-record_iff c key _ idle.ready.valid (idle.ready.unique key)).1
                      (hit.slot, hit.live, sym hit.record_id),
                  hit.same,
                  fresh,
                )
          | inr (inl a) ↦
              deliver c item c' out (r.index, entry false r.record_id)
                (rw (a.existing_found, a.added) at (rw fresh at e))
                (
                  a.record_id,
                  stores-Inserts c r.index item idle.ready a.new
                      (record {
                        ready = a.adds.ready;
                        idle = ap (λ x. x.3) a.adds.settings ∙ idle.idle;
                      })
                      a.adds.stores,
                  fresh,
                )
          | inr (inr m) ↦
              let e' = rw (m.existing_found, m.added, m.same) at (rw fresh at e) in
              miss-Answers fuel now c item idle m.new m.full fresh c' out e'
        ]
      ]
    where
      item : Item
      item = record { key = key; record_id = value; event_time = event_time }

      r : Found R
      r = find_or_add_new c key value event_time

  -- The resize loop ends as soon as a resize succeeds.
  resize_loop-returns :
      (fuel : ℕ) (now : ℕ → ℕ) (i j : ℕ) (c : CuckooIndex R) (s : StagingEntry)
      → IsReady c
      → IsNew c (item_of s)
      → c.staging ≡ some s
      → j < fuel
      → (resize go (now (i + j)) (i + j) c).1 ≡ true
      → resize_loop go fuel now i c ≢ none
  unfolding resize_loop
  resize_loop-returns zero now i j c s ready new staged lt ok = absurd (omega arith)
  resize_loop-returns (suc fuel) now i zero c s ready new staged lt ok =
      elim (resize-cases go c ready s new staged (now i) i) [
        | inl (done, _) ↦ rw done (λ e. some-ne-none _ e)
        | inr same ↦
            let ok' = subst (λ m. (resize go (now m) m c).1 ≡ true) (add-zero i) ok in
            absurd (false≢true (rw same at ok'))
      ]
  resize_loop-returns (suc fuel) now i (suc j) c s ready new staged lt ok =
      elim (resize-cases go c ready s new staged (now i) i) [
        | inl (done, _) ↦ rw done (λ e. some-ne-none _ e)
        | inr same ↦ rw same (
            resize_loop-returns fuel now (suc i) j c s ready new staged (omega arith)
              (subst (λ m. (resize go (now m) m c).1 ≡ true) (omega arith) ok))
      ]

  -- FindOrInsert of an idle index returns if cuckooAdd of the item succeeds or if, for some `j` below
  -- the fuel, the resize of round `1 + j` succeeds on the index that cuckooAdd leaves.
  pub find_or_insert-returns :
      (fuel : ℕ) (now : ℕ → ℕ) (c : CuckooIndex R) (key : Key) (value : RecordId) (event_time j : ℕ)
      → IsIdle c
      → j < fuel
      → let item : Item = record { key = key; record_id = value; event_time = event_time } in
        let x = cuckoo_add go c item (hashes c key) in
        (x.1 ≡ true) ⊎ ((resize go (now (1 + j)) (1 + j) x.0).1 ≡ true)
        → find_or_insert go fuel now c key value event_time ≢ none
  unfolding find_or_insert
  find_or_insert-returns fuel now c key value event_time j idle lt ok =
      elim (Bool-cases (event_time_expired c event_time)) [
        | inl expired ↦ rw expired (λ e. some-ne-none _ e)
        | inr fresh ↦ elim (find_or_add_new-cases c item idle.ready fresh) [
          | inl hit ↦ rw (fresh, hit.existing_found) (λ e. some-ne-none _ e)
          | inr (inl a) ↦ rw (fresh, a.existing_found, a.added) (λ e. some-ne-none _ e)
          | inr (inr m) ↦
              rw (fresh, m.existing_found, m.added, m.same)
                (elim (cuckoo_add-cases go c item idle.ready m.new m.full idle.idle) [
                  | inl (done, _) ↦ rw done (λ e. some-ne-none _ e)
                  | inr (failed, p) ↦ elim ok [
                    | inl done ↦ absurd (false≢true (sym failed ∙ done))
                    | inr some_round ↦
                        let x = cuckoo_add go c item (hashes c key) in
                        let ends =
                          resize_loop-returns fuel now 1 j x.0 p.entry p.ready p.new p.staged lt
                            some_round in
                        elim (Option-cases (resize_loop go fuel now 1 x.0)) [
                          | inl e ↦ absurd (ends e)
                          | inr (t, e) ↦ rw (failed, e) (λ e. some-ne-none _ e)
                        ]
                  ]
                ])
        ]
      ]
    where
      item : Item
      item = record { key = key; record_id = value; event_time = event_time }
