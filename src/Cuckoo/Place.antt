-- ===== src/Cuckoo/Place.antt =====
-- What the cuckoo index stores, and what one addition or one exchange does to that:
-- insertBucket, addNew and randomSwap of memstore/cuckoo_index.go.
use mathlib.Core.Bool.{false≢true}
use mathlib.Core.Path.{subst}
use native.Mathlib.Decide.{ℕ_discrete}
use aresdb.Prelude.{
  ℕ, ◌+◌, ◌<◌, ◌≡◌, refl, sym, ap, ◌↔◌, ◌⊎◌, inl, inr, ◌≢◌, ◌∙◌, Bool, true, false, ◌&&◌, Option,
  arith, ltb, if◌then◌else◌, length,
}
use aresdb.Record.{Key, RecordId}
use aresdb.Cuckoo.{CuckooIndex, HashResult, Cell, cell_at, stash, hashes, StagingEntry}
use aresdb.Cuckoo.Insert.{Item, vacant}
use aresdb.Cuckoo.Find.{LiveCell, HomeCell, Live, IsValid}
use aresdb.Cuckoo.Cells.{
  IsCounted, IsUnique, write, cell_at-write_self, cell_at-write_ne, write-IsValid, Live-of_write,
}

-- Event times agree, in an index that keeps them.
abbrev pub SameTime : Bool → ℕ → ℕ → Type 0
SameTime true a b = a ≡ b
SameTime false a b = Unit {0}

SameTime-if :
    (timed : Bool) (a b e : ℕ) → SameTime timed a e → SameTime timed (if timed then a else b) e
SameTime-if true a b e h = h
SameTime-if false a b e h = tt

SameTime-of_if :
    (timed : Bool) (a b e : ℕ) → SameTime timed (if timed then a else b) e → SameTime timed a e
SameTime-of_if true a b e h = h
SameTime-of_if false a b e h = tt

module _ {R : Type 0} where
  -- The index before and after each operation.
  pub record IsReady (c : CuckooIndex R) : Type 0 where
    pub valid : IsValid c
    pub counted : IsCounted c
    pub unique : IsUnique c

  -- The record `r` with event time `e` is stored under the key, unexpired.
  abbrev pub Stored : CuckooIndex R → Key → RecordId → ℕ → Type 0
  Stored c k r e =
      (p : ℕ) × Live c k p
      × ((cell_at c p).record_id ≡ r)
      × SameTime c.has_event_time (cell_at c p).event_time e

  -- So it is, or it is the item in hand.
  abbrev pub InHand : CuckooIndex R → Item → Key → RecordId → ℕ → Type 0
  InHand c item k r e =
      ((item.key ≡ k) × (item.record_id ≡ r) × SameTime c.has_event_time item.event_time e)
      ⊎ Stored c k r e

  -- The item in hand is not expired, and its key is not stored.
  pub record IsNew (c : CuckooIndex R) (item : Item) : Type 0 where
    pub fresh : (c.has_event_time && ltb item.event_time c.event_time_cutoff) ≡ false
    pub missing : (p : ℕ) → Live c item.key p → ⊥

  -- What additions leave alone.
  abbrev pub settings_of : CuckooIndex R → ℕ × Bool × ℕ × Option StagingEntry
  settings_of c = (c.key_bytes, c.has_event_time, c.event_time_cutoff, c.staging)

  -- `c'` stores what `c` stores and the item.
  pub record Adds (c : CuckooIndex R) (item : Item) (c' : CuckooIndex R) : Type 0 where
    pub ready : IsReady c'
    pub stores : (k : Key) (r : RecordId) (e : ℕ) → InHand c item k r e ↔ Stored c' k r e
    pub settings : settings_of c' ≡ settings_of c

  -- The slot at `p` after insertBucket.
  abbrev pub cell_of : CuckooIndex R → Item → ℕ → ℕ → Cell
  cell_of c item signature p = record {
    signature = signature;
    record_id = item.record_id;
    event_time = if c.has_event_time then item.event_time else (cell_at c p).event_time;
    key = item.key;
  }

module _ {R : Type 0} (c : CuckooIndex R) (item : Item) (signature p : ℕ) (new : IsNew c item)
    (positive : 0 < signature) (inside : p < length c.cells) where
  abbrev pub put : CuckooIndex R
  put = write c p (cell_of c item signature p)

  pub put-Live : Live put item.key p
  put-Live =
      rw (cell_at-write_self c p (cell_of c item signature p) inside)
        (record { occupied = ground arith; current = ground (arith, new.fresh); keyed = refl })

  pub put-Stored :
      (k : Key) (r : RecordId) (e : ℕ)
      → (item.key ≡ k) × (item.record_id ≡ r) × SameTime c.has_event_time item.event_time e
      → Stored put k r e
  put-Stored k r e (ek, er, ee) = (
    p,
    subst (λ x. Live put x p) ek put-Live,
    rw (cell_at-write_self c p (cell_of c item signature p) inside) er,
    rw (cell_at-write_self c p (cell_of c item signature p) inside)
        (SameTime-if c.has_event_time _ _ e ee),
  )

  pub put-IsUnique : IsUnique c → IsUnique put
  put-IsUnique unique k a b la lb =
      elim (Live-of_write c p (cell_of c item signature p) inside k a la) [
        | inl (na, ea) ↦ elim (Live-of_write c p (cell_of c item signature p) inside k b lb) [
          | inl (nb, eb) ↦ sym ea ∙ eb
          | inr (ob, _) ↦ absurd (new.missing b (rw na.keyed ob))
        ]
        | inr (oa, _) ↦ elim (Live-of_write c p (cell_of c item signature p) inside k b lb) [
          | inl (nb, eb) ↦ absurd (new.missing a (rw nb.keyed oa))
          | inr (ob, _) ↦ unique k a b oa ob
        ]
      ]

  pub put-IsValid :
      IsValid c
      → (p < stash c → (h : HashResult) × HomeCell (hashes c item.key) signature p h)
      → p < stash c + 4
      → IsValid put
  put-IsValid v home near =
      write-IsValid c p (cell_of c item signature p) inside v (λ _. home)
        (λ far. absurd (omega arith))

  -- What another slot stores is stored as before.
  other-Stored :
      (k : Key) (r : RecordId) (e q : ℕ)
      → p ≢ q
      → Live c k q
      → (cell_at c q).record_id ≡ r
      → SameTime c.has_event_time (cell_at c q).event_time e
      → Stored put k r e
  other-Stored k r e q ne l er ee =
      let same = cell_at-write_ne c p (cell_of c item signature p) inside q ne in
      (q, rw same l, rw same er, rw same ee)

  -- What is stored after the write is the item, or was stored in another slot.
  of_put-Stored :
      (k : Key) (r : RecordId) (e : ℕ)
      → Stored put k r e
      → ((item.key ≡ k) × (item.record_id ≡ r) × SameTime c.has_event_time item.event_time e)
        ⊎ ((q : ℕ) × (p ≢ q)
            × Live c k q
            × ((cell_at c q).record_id ≡ r)
            × SameTime c.has_event_time (cell_at c q).event_time e)
  of_put-Stored k r e (q, l, er, ee) =
      elim (Live-of_write c p (cell_of c item signature p) inside k q l) [
        | inl (n, at) ↦
            let same : cell_at put q ≡ cell_of c item signature p =
              rw (← at) (cell_at-write_self c p (cell_of c item signature p) inside) in
            inl (
              n.keyed,
              rw same at er,
              SameTime-of_if c.has_event_time _ (cell_at c p).event_time e (rw same at ee),
            )
        | inr (o, ne) ↦
            let same = cell_at-write_ne c p (cell_of c item signature p) inside q ne in
            inr (q, ne, o, rw same at er, rw same at ee)
      ]

  -- A vacant slot takes the item, and nothing else changes.
  pub put-stores_vacant :
      vacant c p ≡ true → (k : Key) (r : RecordId) (e : ℕ) → InHand c item k r e ↔ Stored put k r e
  put-stores_vacant empty k r e = (
    λ h. elim h [
      | inl i ↦ put-Stored k r e i
      | inr (q, l, er, ee) ↦
          let ne : p ≢ q = λ at. vacant-Live {k = k} (rw at l) in other-Stored k r e q ne l er ee
    ],
    λ h. elim (of_put-Stored k r e h) [
      | inl i ↦ inl i
      | inr (q, _, l, er, ee) ↦ inr (q, l, er, ee)
    ],
  )
    where
      vacant-Live : {k : Key} → Live c k p → ⊥
      vacant-Live l = false≢true (ground (arith, l.occupied, l.current))

  -- The item that an exchange takes out of the slot.
  abbrev pub evicted : Item
  evicted = record {
    key = (cell_at c p).key;
    record_id = (cell_at c p).record_id;
    event_time = if c.has_event_time then (cell_at c p).event_time else item.event_time;
  }

  -- A slot in use gives its item for the one in hand, and nothing else changes.
  pub put-stores_swap :
      vacant c p ≡ false
      → (k : Key) (r : RecordId) (e : ℕ) → InHand c item k r e ↔ InHand put evicted k r e
  put-stores_swap used k r e = (
    λ h. elim h [
      | inl i ↦ inr (put-Stored k r e i)
      | inr (q, l, er, ee) ↦ elim (ℕ_discrete p q) [
        | yes at ↦ inl (
          ap (λ x. (cell_at c x).key) at ∙ l.keyed,
          ap (λ x. (cell_at c x).record_id) at ∙ er,
          SameTime-if c.has_event_time _ _ e (rw at ee),
        )
        | no ne ↦ inr (other-Stored k r e q ne l er ee)
      ]
    ],
    λ h. elim h [
      | inl (ek, er, ee) ↦
          let old : LiveCell (cell_at c p) c.has_event_time c.event_time_cutoff k = record {
            occupied = ground arith;
            current = ground arith;
            keyed = ek;
          } in
          inr (p, old, er, SameTime-of_if c.has_event_time _ item.event_time e ee)
      | inr s ↦ elim (of_put-Stored k r e s) [
        | inl i ↦ inl i
        | inr (q, _, l, er, ee) ↦ inr (q, l, er, ee)
      ]
    ],
  )

  -- The item taken out is new to the index after the exchange.
  pub evicted-IsNew : vacant c p ≡ false → IsUnique c → IsNew put evicted
  evicted-IsNew used unique =
      let old : Live c (cell_at c p).key p = record {
        occupied = ground arith;
        current = ground arith;
        keyed = refl;
      } in
      record {
        fresh = ground arith;
        missing = λ q l. elim (Live-of_write c p (cell_of c item signature p) inside _ q l) [
          | inl (n, at) ↦ new.missing p (rw n.keyed old)
          | inr (o, ne) ↦ ne (unique _ p q old o)
        ];
      }
