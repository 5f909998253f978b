-- ===== src/Ingestion/Start.antt =====
-- memstore/ingestion.go: a new shard, before the first batch is ingested.
use aresdb.Prelude.{ℕ, ◌^◌, ◌<◌, ◌≤◌, ◌≡◌, ap, refl, Bool, true}
use aresdb.Record.{Key, RecordId}
use aresdb.Cuckoo.Lookup.{find}
use aresdb.Cuckoo.Insert.{GoRuntime}
use aresdb.Cuckoo.Resize.{new_cuckoo_index}
use aresdb.Cuckoo.Find.{find-found_iff}
use aresdb.Cuckoo.Fresh.{new, new-empty, new-IsReady}
use aresdb.LiveStore.{new_live_store}
use aresdb.LiveStore.Advance.{new-IsValid}
use aresdb.Ingestion.Keys.{IsKeyed}

module _ {R : Type 0} (go : GoRuntime R) (now key_bytes : ℕ) (timed : Bool) (n : ℕ) where
  new-missing :
      (k : Key) (r : RecordId) → find (new_cuckoo_index go now key_bytes timed n) k ≡ (r, true) → ⊥
  new-missing k r e =
      let index = new go now key_bytes timed n in
      let (p, live) =
        (find-found_iff index k (new-IsReady go now key_bytes timed n).valid).0
          (ap (λ (x : RecordId × Bool). x.1) e) in
      new-empty go now key_bytes timed n k p live

  -- The primary key of a new shard is empty.
  pub new-IsKeyed :
      (size : ℕ)
      → 0 < size
      → size ≤ 2 ^ 32
      → IsKeyed (new_cuckoo_index go now key_bytes timed n) (new_live_store size)
  unfolding new_cuckoo_index
  new-IsKeyed size some_rows few = record {
    idle = record { ready = new-IsReady go now key_bytes timed n; idle = refl };
    store = new-IsValid size some_rows few;
    before = λ k r e. absurd (new-missing k r e);
    apart = λ j k r e _. absurd (new-missing j r e);
  }
