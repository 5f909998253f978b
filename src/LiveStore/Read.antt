-- ===== src/LiveStore/Read.antt =====
-- What GetBatchIDs and PurgeBatches of memstore/live_store.go leave to read.
use aresdb.Prelude.{
  ℕ, lt→ltb, ◌<◌, ◌≡◌, refl, ◌∙◌, Bool, true, false, ◌||◌, ◌&&◌, Option, none, List, [], ◌∷◌, ◌++◌,
  arith, ltb, ◌==◌, if◌then◌else◌,
}
use aresdb.LiveStore.{
  LiveBatch, LiveStore, lookup, get_batch, delete, purge_batch, purge_batches, full_batches,
  get_batch_ids,
}

abbrev pub has : List ℕ → ℕ → Bool
has [] i = false
has (x ∷ xs) i = let rest = has xs i in if x == i then true else rest

lookup-delete :
    (bs : List (ℕ × LiveBatch)) (id i : ℕ)
    → lookup (delete bs id) i ≡ if◌then◌else◌ {A = Option LiveBatch} (id == i) none (lookup bs i)
unfolding lookup delete
lookup-delete [] id i = ground arith
lookup-delete ((j, b) ∷ bs) id i = ground (arith, lookup-delete bs id i)

-- A batch is there after PurgeBatches exactly as before, unless it is among those purged.
pub lookup-purge_batches :
    (s : LiveStore) (ids : List ℕ) (i : ℕ)
    → get_batch (purge_batches s ids) i
      ≡ if◌then◌else◌ {A = Option LiveBatch} (has ids i) none (get_batch s i)
unfolding get_batch purge_batches purge_batch
lookup-purge_batches s [] i = refl
lookup-purge_batches s (id ∷ ids) i =
    lookup-purge_batches (purge_batch s id) ids i ∙ rw (lookup-delete s.batches id i) (ground arith)

pub has-append : (xs ys : List ℕ) (i : ℕ) → has (xs ++ ys) i ≡ (has xs i || has ys i)
has-append [] ys i = refl
has-append (x ∷ xs) ys i = ground (arith, has-append xs ys i)

-- The map holds the id.
abbrev pub holds : List (ℕ × LiveBatch) → ℕ → Bool
holds [] i = false
holds ((j, b) ∷ bs) i = let rest = holds bs i in if j == i then true else rest

regroup :
    (a h : Bool) (j i bound : ℕ)
    → (a || ltb j bound && j == i || h && ltb i bound)
      ≡ (a || (if j == i then true else h) && ltb i bound)
regroup a h j i bound = ground arith

has-if :
    (c : Bool) (ids : List ℕ) (j n m i : ℕ)
    → has (if◌then◌else◌ {A = List ℕ × ℕ} c (ids ++ (j ∷ []), n) (ids, m)).0 i
      ≡ (has ids i || c && j == i)
has-if true ids j n m i = has-append ids (j ∷ []) i ∙ ground arith
has-if false ids j n m i = ground arith

full_batches-has :
    (bound : ℕ) (bs : List (ℕ × LiveBatch)) (acc : List ℕ × ℕ) (i : ℕ)
    → has (full_batches bound bs acc).0 i ≡ (has acc.0 i || (holds bs i && ltb i bound))
unfolding full_batches
full_batches-has bound [] acc i = ground arith
full_batches-has bound ((j, b) ∷ bs) (ids, n) i =
    full_batches-has bound bs (if ltb j bound then (ids ++ (j ∷ []), b.capacity) else (ids, n)) i
    ∙ rw (has-if (ltb j bound) ids j b.capacity n i) (regroup (has ids i) (holds bs i) j i bound)

-- GetBatchIDs lists exactly the batches of the map before the batch of LastReadRecord, and that
-- batch itself if LastReadRecord is not at its first row; the second result is then the row in it.
pub get_batch_ids-has :
    (s : LiveStore) (i : ℕ)
    → (has (get_batch_ids s).0 i ≡ (
        holds s.batches i && ltb i s.last_read_record.batch_id
        || ltb 0 s.last_read_record.index && s.last_read_record.batch_id == i))
      × (0 < s.last_read_record.index → (get_batch_ids s).1 ≡ s.last_read_record.index)
unfolding get_batch_ids
get_batch_ids-has s i =
    let r = s.last_read_record in
    let full = full_batches r.batch_id s.batches ([], 0) in
    (
      has-if (ltb 0 r.index) full.0 r.batch_id r.index full.1 i
          ∙ rw (full_batches-has r.batch_id s.batches ([], 0) i) refl,
      λ some_rows. rw (get_batch_ids, lt→ltb 0 r.index some_rows) refl,
    )
