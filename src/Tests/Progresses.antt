-- ===== src/Tests/Progresses.antt =====
-- Managers of snapshots and of the backfill queue, and a live store, with the theorems on
-- memstore/snapshot_manager.go, memstore/backfill_manager.go and memstore/live_store.go applied.
use mathlib.Core.Option.{none-ne-some}
use aresdb.Prelude.{◌^◌}
use aresdb.Prelude.{
  ℕ, ◌+◌, ◌*◌, ◌≤◌, ◌/◌, ◌<◌, ◌≡◌, refl, ◌&&◌, ◌||◌, none, some, List, [], ◌∷◌, arith, ltb, ◌==◌,
  if◌then◌else◌,
}
use aresdb.Prelude.Int.{pos, ◌-ℤ◌}
use aresdb.Cuckoo.{zero_id}
use aresdb.Progress.{MetaStore, is_newer}
use aresdb.Progress.Snapshot.{new_snapshot_manager}
use aresdb.Progress.SnapshotRun.{
  World, Event, ingest, start, finish, run, IsExact, run-IsExact, Reaches, run-Reaches,
}
use aresdb.Progress.Backfill.{Sizes, new_backfill_manager}
use aresdb.Progress.BackfillRun.{
  Queue, Call, appends, starts, finishes, calls, IsConserved, calls-IsConserved,
}
use aresdb.LiveStore.{LiveStore, LiveRecord, LiveBatch, lookup, new_live_store, get_batch_ids}
use aresdb.LiveStore.Advance.{IsValid, HasBatch, row, advanced, advanced-row, new-IsValid}
use aresdb.LiveStore.Read.{has, holds, get_batch_ids-has}
use aresdb.Tests.Schemas.{trips}

-- A meta store that counts its calls and fails at the first.
abbrev store : MetaStore ℕ ℕ
store = record {
  update_snapshot_progress = λ t s f o b i n. (n + 1, if n == 0 then some 1 else none);
  update_backfill_progress = λ t s f o n. (n + 1, if n == 0 then some 1 else none);
}

abbrev world : World ℕ
world = record {
  meta = 0;
  manager = new_snapshot_manager (pos 5) trips 0;
  job = none;
  applied = pos 0;
  at_start = pos 0;
  covered = pos 0;
}

abbrev events : List Event
events =
    ingest (pos 1) 3 (pos 7) zero_id
    ∷ start
    ∷ ingest (pos 1) 4 (pos 2) zero_id
    ∷ finish (pos 9)
    ∷ start
    ∷ finish (pos 10)
    ∷ []

world-IsExact : IsExact store world
unfolding new_snapshot_manager ◌-ℤ◌
world-IsExact = record { counted = refl; carried = λ j h. absurd (none-ne-some _ h) }

run-IsExact_example : IsExact store (run store world events)
run-IsExact_example = run-IsExact store world events world-IsExact

world-Reaches : Reaches store world (pos 0) 0
unfolding new_snapshot_manager is_newer
world-Reaches = refl

run-Reaches_example : Reaches store (run store world events) (pos 0) 0
run-Reaches_example = run-Reaches store world events (pos 0) 0 world-Reaches

-- A batch here is its number of rows, of eight bytes each.
abbrev sizes : Sizes ℕ
sizes = record { num_rows = λ b. b; bytes = λ b. b * 8; almost = λ n. n * 95 / 100 }

abbrev queue : Queue ℕ ℕ
queue = record {
  meta = 0;
  manager = new_backfill_manager "trips" 0 100 16;
  appended = [];
  handed = [];
}

abbrev backfills : List (Call ℕ)
backfills =
    appends (some 4) (pos 1) 1
    ∷ appends none (pos 1) 2
    ∷ starts
    ∷ appends (some 9) (pos 1) 3
    ∷ finishes (pos 1) 2
    ∷ []

queue-IsConserved : IsConserved store sizes queue
unfolding new_backfill_manager
queue-IsConserved = record { order = refl; size = refl; rows = refl }

calls-IsConserved_example : IsConserved store sizes (calls store sizes queue backfills)
calls-IsConserved_example = calls-IsConserved store sizes queue backfills queue-IsConserved

abbrev live : LiveStore
live = new_live_store 2

live-IsValid : IsValid live
live-IsValid = new-IsValid 2 (omega arith) (omega arith)

few : live.next_write_record.batch_id + 1 < 2 ^ 32
unfolding new_live_store
few = omega arith

few_rows : row live.batch_size live.next_write_record + 5 < 2 ^ 32
unfolding new_live_store
few_rows = omega arith

advanced-row_example :
    let s' = advanced 5 live in
    IsValid s'
    × (row live.batch_size s'.next_write_record ≡ row live.batch_size live.next_write_record + 5)
    × (s'.batch_size ≡ live.batch_size)
    × (s'.last_read_record ≡ live.last_read_record)
    × ((r : LiveRecord)
        → r.index < live.batch_size
        → row live.batch_size live.next_write_record ≤ row live.batch_size r
        → row live.batch_size r < row live.batch_size live.next_write_record + 5
        → HasBatch s' r)
    × ((id : ℕ) (b : LiveBatch) → lookup live.batches id ≡ some b → lookup s'.batches id ≡ some b)
advanced-row_example = advanced-row 5 live live-IsValid few_rows

new-IsValid_example : IsValid (new_live_store 2)
new-IsValid_example = new-IsValid 2 (omega arith) (omega arith)

get_batch_ids-has_example :
    let s = advanced 5 live in
    (has (get_batch_ids s).0 0 ≡ (
      holds s.batches 0 && ltb 0 s.last_read_record.batch_id
      || ltb 0 s.last_read_record.index && s.last_read_record.batch_id == 0))
    × (0 < s.last_read_record.index → (get_batch_ids s).1 ≡ s.last_read_record.index)
get_batch_ids-has_example = get_batch_ids-has (advanced 5 live) 0
