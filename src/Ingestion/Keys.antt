-- ===== src/Ingestion/Keys.antt =====
-- memstore/ingestion.go: the records that the primary key has while rows are ingested.
use aresdb.Prelude.{ℕ, ◌+◌, ◌^◌, ◌<◌, ◌≡◌, ◌≢◌, sym, ap, ◌∙◌, Bool, true, arith}
use mathlib.Core.List.{List-discrete}
use native.Mathlib.Decide.{ℕ_discrete}
use aresdb.Prelude.Int.{pos, negsuc, pos_part, neg_part, +ℤ_parts}
use aresdb.Record.{Key, RecordId}
use aresdb.Cuckoo.{CuckooIndex}
use aresdb.Cuckoo.Lookup.{find}
use aresdb.Cuckoo.FindOrInsert.{IsIdle, Inserts}
use aresdb.LiveStore.{LiveRecord, LiveStore, advance_next_write_record}
use aresdb.LiveStore.Advance.{row, few_ids, Advances, advance_next_write_record-Advances}
use aresdb.LiveStore.Advance
use aresdb.Ingestion.{record_id_of}

record_id_of-inj : (p q : LiveRecord) → record_id_of p ≡ record_id_of q → p ≡ q
unfolding record_id_of
record_id_of-inj p q e =
    let batches : p.batch_id ≡ q.batch_id = omega (
      arith,
      +ℤ_parts (negsuc 2147483647) (pos p.batch_id),
      +ℤ_parts (negsuc 2147483647) (pos q.batch_id),
      ap (λ (r : RecordId). pos_part r.batch_id) e,
      ap (λ (r : RecordId). neg_part r.batch_id) e,
    ) in
    let rows : p.index ≡ q.index = ap (λ (r : RecordId). r.index) e in
    λ i. record { batch_id = batches i; index = rows i }

Key-discrete : Discrete Key
Key-discrete = List-discrete ℕ_discrete

-- There is room for `n` more records before the batch ids wrap around.
abbrev pub Room : ℕ → LiveStore → Type 0
Room n l = row l.batch_size l.next_write_record + n < 2 ^ 32

module _ {R : Type 0} where
  -- The primary key and the live store of a shard: every key has a record before the next position,
  -- and no two keys have one record.
  pub record IsKeyed (c : CuckooIndex R) (l : LiveStore) : Type 0 where
    pub idle : IsIdle c
    pub store : Advance.IsValid l
    pub before :
        (k : Key) (r : RecordId)
        → find c k ≡ (r, true)
        → (q : LiveRecord) × (r ≡ record_id_of q)
          × (row l.batch_size q < row l.batch_size l.next_write_record)
    pub apart : (j k : Key) (r : RecordId) → find c j ≡ (r, true) → find c k ≡ (r, true) → j ≡ k

  module _ (c : CuckooIndex R) (l : LiveStore) (k : IsKeyed c l) (key : Key) (c' : CuckooIndex R)
      (i : Inserts c key (record_id_of l.next_write_record) c') (room : Room 1 l) where
    advanced : Advances l (advance_next_write_record l).0 (advance_next_write_record l).1
    advanced = advance_next_write_record-Advances l k.store (few_ids l k.store 0 room)

    -- The record of another key is as before.
    kept : (j : Key) (r : RecordId) → j ≢ key → find c' j ≡ (r, true) → find c j ≡ (r, true)
    kept j r ne h = sym (i.keeps j ne) ∙ h

    taken :
        (j : Key) (r : RecordId)
        → j ≡ key
        → find c' j ≡ (r, true)
        → r ≡ record_id_of l.next_write_record
    taken j r e h = ap (λ (x : RecordId × Bool). x.0) (sym h ∙ ap (find c') e ∙ i.reads)

    -- No record from before is at the next position.
    unused :
        (j : Key) (r : RecordId) → find c j ≡ (r, true) → r ≡ record_id_of l.next_write_record → ⊥
    unused j r h e =
        let (q, at_q, less) = k.before j r h in
        let same = record_id_of-inj q l.next_write_record (sym at_q ∙ e) in
        omega (arith, less, ap (row l.batch_size) same)

    -- A new key takes the next position.
    pub grown-IsKeyed : IsKeyed c' (advance_next_write_record l).0
    grown-IsKeyed = record {
      idle = i.after;
      store = advanced.valid;
      before = λ j r h. elim (Key-discrete j key) [
        | yes e ↦
            (l.next_write_record, taken j r e h, rw advanced.size (omega (arith, advanced.one_row)))
        | no ne ↦
            let (q, at_q, less) = k.before j r (kept j r ne h) in
            (q, at_q, rw advanced.size (omega (arith, advanced.one_row, less)))
      ];
      apart = λ j m r h h'. elim (Key-discrete j key) [
        | yes e ↦ elim (Key-discrete m key) [
          | yes e' ↦ e ∙ sym e'
          | no ne ↦ absurd (unused m r (kept m r ne h') (taken j r e h))
        ]
        | no ne ↦ elim (Key-discrete m key) [
          | yes e' ↦ absurd (unused j r (kept j r ne h) (taken m r e' h'))
          | no ne' ↦ k.apart j m r (kept j r ne h) (kept m r ne' h')
        ]
      ];
    }
