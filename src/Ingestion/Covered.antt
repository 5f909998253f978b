-- ===== src/Ingestion/Covered.antt =====
-- memstore/ingestion.go: which rows of a batch insertPrimaryKeys hands on to be written.
use mathlib.Core.Path.{subst}
use mathlib.Core.Bool.{false≢true}
use aresdb.Prelude.{
  ℕ, zero, suc, ◌+◌, ◌/◌, ◌<◌, ◌≤◌, ◌≡◌, ◌∙◌, ◌⊎◌, inl, inr, refl, Bool, true, false, Option, none,
  some, List, [], ◌∷◌, ◌++◌, arith, get_elem?, ltb, ◌==◌, ==_iff, if◌then◌else◌, Bool-cases,
}
use aresdb.Prelude.Int.{ℤ, pos, negsuc, ltb_ℤ, -ℤ_parts}
use aresdb.Schema.Table.{Table}
use aresdb.Record.{Key, RecordId}
use aresdb.Cuckoo.{CuckooIndex}
use aresdb.Cuckoo.Insert.{GoRuntime}
use aresdb.Cuckoo.Resize.{stale, find_or_insert}
use aresdb.Ingestion.{
  Row, UpsertBatch, RecordInfo, TableShard, Fate, rejected, ignored, untimed, backfilled, ingested,
  oldest_record_day, fate_of, Loop,
}

-- The day of an event time is within the retention: a number of days that is not positive is none.
abbrev pub IsRetained : ℤ → ℕ → ℕ → Type 0
IsRetained (pos days) now t = (days ≡ 0) ⊎ (now / 86400 ≤ t / 86400 + days)
IsRetained (negsuc days) now t = Unit {0}

-- A row with the event time, or with none, has to be written: the time is within the retention, not in
-- the future and not before the archiving cutoff; without one the batch did not arrive before it.
abbrev pub IsDue : Table → ℕ → ℕ → ℕ → Option ℕ → Type 0
IsDue schema cutoff now arrival_time none = cutoff ≤ arrival_time
IsDue schema cutoff now arrival_time (some t) =
    IsRetained schema.config.record_retention_in_days now t × (t ≤ now) × (cutoff ≤ t)

-- The fate is to be written.
abbrev pub is_taken : Fate → Bool
is_taken rejected = false
is_taken ignored = false
is_taken (untimed t) = true
is_taken (backfilled t) = false
is_taken (ingested t) = true

young-IsRetained :
    (days : ℤ) (now t : ℕ)
    → ltb_ℤ (pos (t / 86400)) (oldest_record_day now days) ≡ false
    → IsRetained days now t
unfolding oldest_record_day
young-IsRetained (pos zero) now t h = ground arith
young-IsRetained (pos (suc d)) now t h =
    inr (ground (arith, -ℤ_parts (pos (now / 86400)) (pos (suc d)), h))
young-IsRetained (negsuc d) now t h = tt

IsRetained-young :
    (days : ℤ) (now t : ℕ)
    → IsRetained days now t
    → ltb_ℤ (pos (t / 86400)) (oldest_record_day now days) ≡ false
unfolding oldest_record_day
IsRetained-young (pos zero) now t h = ground arith
IsRetained-young (pos (suc d)) now t h =
    ground (arith, -ℤ_parts (pos (now / 86400)) (pos (suc d)), h)
IsRetained-young (negsuc d) now t h = ground arith

pub fate_of-IsDue :
    (schema : Table) (cutoff now arrival_time : ℕ) (event_time : Option ℕ)
    → is_taken (fate_of schema cutoff now arrival_time event_time) ≡ true
    → IsDue schema cutoff now arrival_time event_time
unfolding fate_of
fate_of-IsDue schema cutoff now arrival_time none h = ground arith
fate_of-IsDue schema cutoff now arrival_time (some t) h =
    let days = schema.config.record_retention_in_days in
    elim (Bool-cases (ltb_ℤ (pos (t / 86400)) (oldest_record_day now days))) [
      | inl old ↦ absurd (false≢true (rw old at h))
      | inr young ↦ elim (Bool-cases (ltb now t)) [
        | inl future ↦ absurd (false≢true (rw (young, future) at h))
        | inr past ↦ elim (Bool-cases (ltb t cutoff)) [
          | inl early ↦ absurd (false≢true (rw (young, past, early) at h))
          | inr late ↦ (young-IsRetained days now t young, ground arith, ground arith)
        ]
      ]
    ]

pub IsDue-fate_of :
    (schema : Table) (cutoff now arrival_time : ℕ) (event_time : Option ℕ)
    → IsDue schema cutoff now arrival_time event_time
    → let fate = fate_of schema cutoff now arrival_time event_time in
      (is_taken fate ≡ true) ⊎ (fate ≡ rejected)
unfolding fate_of
IsDue-fate_of schema cutoff now arrival_time none due = ground arith
IsDue-fate_of schema cutoff now arrival_time (some t) (retained, past, late) =
    let days = schema.config.record_retention_in_days in
    let young = IsRetained-young days now t retained in rw young (ground arith)

-- A record is of the row `n`.
abbrev pub Occurs : ℕ → List RecordInfo → Type 0
Occurs n [] = ⊥
Occurs n (info ∷ infos) = (info.row ≡ n) ⊎ Occurs n infos

-- The records are in the order of their rows.
abbrev pub Ascending : List RecordInfo → Type 0
Ascending [] = Unit {0}
Ascending (info ∷ infos) = ((n : ℕ) → Occurs n infos → info.row < n) × Ascending infos

pub Occurs-old :
    (n : ℕ) (infos : List RecordInfo) (info : RecordInfo)
    → Occurs n infos
    → Occurs n (infos ++ (info ∷ []))
Occurs-old n [] info o = elim o [ ]
Occurs-old n (x ∷ infos) info (inl same) = inl same
Occurs-old n (x ∷ infos) info (inr o) = inr (Occurs-old n infos info o)

pub Occurs-new :
    (infos : List RecordInfo) (info : RecordInfo) → Occurs info.row (infos ++ (info ∷ []))
Occurs-new [] info = inl refl
Occurs-new (x ∷ infos) info = inr (Occurs-new infos info)

pub Occurs-cases :
    (n : ℕ) (infos : List RecordInfo) (info : RecordInfo)
    → Occurs n (infos ++ (info ∷ []))
    → Occurs n infos ⊎ (info.row ≡ n)
Occurs-cases n [] info (inl same) = inr same
Occurs-cases n [] info (inr o) = elim o [ ]
Occurs-cases n (x ∷ infos) info (inl same) = inl (inl same)
Occurs-cases n (x ∷ infos) info (inr o) = elim (Occurs-cases n infos info o) [
  | inl old ↦ inl (inr old)
  | inr new ↦ inr new
]

pub Ascending-append :
    (infos : List RecordInfo) (info : RecordInfo)
    → Ascending infos
    → ((n : ℕ) → Occurs n infos → n < info.row)
    → Ascending (infos ++ (info ∷ []))
Ascending-append [] info a below = (λ n o. absurd o, tt)
Ascending-append (x ∷ infos) info (head, a) below = (
  λ n o. elim (Occurs-cases n infos info o) [
    | inl old ↦ head n old
    | inr new ↦ rw (← new) (below x.row (inl refl))
  ],
  Ascending-append infos info a (λ n o. below n (inr o)),
)

-- The row `n` of the batch has to be written to a shard with the schema and the archiving cutoff.
abbrev pub Due : ℕ → UpsertBatch → Bool → Table → ℕ → ℕ → Type 0
Due now batch has_time schema cutoff n =
    (r : Row) × (get_elem? batch.rows n ≡ some r)
    × IsDue schema cutoff now batch.arrival_time (if has_time then r.event_time else none)

-- A row has no key, or lacks an event time that it must have, or its key is not taken into the index
-- because the time is expired.
abbrev pub HasBadRow :
    {R : Type 0} → GoRuntime R → ℕ → (ℕ → ℕ) → UpsertBatch → Bool → Table → Type 0
HasBadRow {R} go fuel seconds batch has_time schema =
    (n : ℕ) × (r : Row) × (get_elem? batch.rows n ≡ some r)
    × ((r.key ≡ none)
        ⊎ (((if has_time then r.event_time else none) ≡ none)
            × (schema.is_fact_table ≡ true)
            × (schema.config.allow_missing_event_time ≡ false))
        ⊎ ((key : Key) × (r.key ≡ some key)
            × (index : CuckooIndex R) × (index' : CuckooIndex R) × (id : RecordId) × (t : ℕ)
            × (find_or_insert go fuel seconds index key id t ≡ some (index', stale))))

pub rejected_lem :
    (schema : Table) (cutoff now arrival_time : ℕ) (event_time : Option ℕ)
    → fate_of schema cutoff now arrival_time event_time ≡ rejected
    → (event_time ≡ none)
      × (schema.is_fact_table ≡ true)
      × (schema.config.allow_missing_event_time ≡ false)
unfolding fate_of
rejected_lem schema cutoff now arrival_time none h = (refl, ground arith, ground arith)
rejected_lem schema cutoff now arrival_time (some t) h = absurd (ground arith)

module _ {R : Type 0} (now : ℕ) (batch : UpsertBatch) (has_time : Bool) (s : TableShard R) where
  -- The first `n` rows have been taken: those of them that are due are to be inserted or to update.
  pub record Covers (n : ℕ) (x : Loop R) : Type 0 where
    pub schema : x.shard.schema ≡ s.schema
    pub cutoff : x.shard.archiving_cutoff ≡ s.archiving_cutoff
    pub all_due :
        (m : ℕ)
        → m < n
        → Due now batch has_time s.schema s.archiving_cutoff m
        → Occurs m x.insert_records ⊎ Occurs m x.update_records
    pub only_due :
        (m : ℕ)
        → Occurs m x.insert_records ⊎ Occurs m x.update_records
        → (m < n) × Due now batch has_time s.schema s.archiving_cutoff m
    pub inserts_ascend : Ascending x.insert_records
    pub updates_ascend : Ascending x.update_records

  -- A row that is not due is passed over.
  pub passed :
      (n : ℕ) (x x' : Loop R)
      → Covers n x
      → (Due now batch has_time s.schema s.archiving_cutoff n → ⊥)
      → x'.shard.schema ≡ x.shard.schema
      → x'.shard.archiving_cutoff ≡ x.shard.archiving_cutoff
      → x'.insert_records ≡ x.insert_records
      → x'.update_records ≡ x.update_records
      → Covers (suc n) x'
  passed n x x' c undue schema cutoff inserts updates = record {
    schema = schema ∙ c.schema;
    cutoff = cutoff ∙ c.cutoff;
    all_due = λ m below due. elim (Bool-cases (m == n)) [
      | inl last ↦ absurd (
          undue
            (subst (Due now batch has_time s.schema s.archiving_cutoff) ((==_iff m n).0 last) due))
      | inr other ↦ rw (inserts, updates) (c.all_due m (ground arith) due)
    ];
    only_due = λ m o.
        let (below, due) = c.only_due m (rw (inserts, updates) at o) in (omega (arith, below), due);
    inserts_ascend = rw inserts c.inserts_ascend;
    updates_ascend = rw updates c.updates_ascend;
  }
