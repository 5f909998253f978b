-- ===== src/Tests/CuckooIndex.antt =====
-- A primary key of two buckets that keeps event times, before and after one insertion, and the
-- theorems on memstore/cuckoo_index.go applied to it.
use native.Mathlib.Nat.{mod-lt}
use aresdb.Prelude.{
  ℕ, suc, ◌+◌, ◌*◌, ◌/◌, ◌%◌, ◌≡◌, ◌≢◌, ◌↔◌, ◌⊎◌, refl, inl, true, false, none, some, [], ◌∷◌,
  arith,
}
use aresdb.Prelude.Int.{pos}
use aresdb.Record.{Key, RecordId}
use aresdb.Prelude.{◌^◌, ◌≤◌, ◌<◌, ◌%◌, ◌+◌}
use aresdb.Cuckoo.Hash.{hash-fits}
use aresdb.Cuckoo.{hash, stash, CuckooIndex, StagingEntry, event_time_expired, hashes, cell_at}
use aresdb.Cuckoo.Stash.{item_of, Parks, insert-cases}
use aresdb.Cuckoo.Lookup.{find, update, delete}
use aresdb.Cuckoo.Insert.{
  GoRuntime, Item, find_or_add_new, scan_buckets, add_new, insert, cuckoo_add, evict, random_swap,
  add_to_stash, swap_at,
}
use aresdb.Cuckoo.Resize.{new_cuckoo_index, find_or_insert, entry, resize}
use aresdb.Cuckoo.Find.{Live, find-found_iff, find-record_iff}
use aresdb.Cuckoo.Update.{Updates, update-Updates}
use aresdb.Cuckoo.Delete.{Deletes, delete-Deletes}
use aresdb.Cuckoo.Place.{IsReady, IsNew, Adds}
use aresdb.Cuckoo.FindOrAdd.{IsHit, IsAdded, IsMiss, find_or_add_new-cases}
use aresdb.Cuckoo.Fresh.{new-IsReady, new-empty}
use aresdb.Cuckoo.Rehash.{Settles, resize-cases}
use aresdb.Cuckoo.FindOrInsert.{IsIdle, Answers, find_or_insert-Answers, find_or_insert-returns}

-- A source of random numbers that counts.
abbrev pub counter : GoRuntime ℕ
counter = record {
  new_source = λ t. t;
  uint32 = λ r. (r * 7 + 1, suc r);
  intn = λ n r. (r % n, suc r);
  log2_plus_one = λ n. 2;
  grown = λ n i. n * (10 + i) / 10;
  is_test = true;
  intn-lt = λ n r positive. mod-lt r positive;
}

abbrev pub before : CuckooIndex ℕ
before = new_cuckoo_index counter 3 1 true 2

abbrev pub seven : Key
seven = 7 ∷ []

abbrev first_record : RecordId
first_record = record { batch_id = pos 2; index = 5 }

abbrev second_record : RecordId
second_record = record { batch_id = pos 2; index = 6 }

abbrev after : CuckooIndex ℕ
after = (find_or_add_new before seven first_record 9).index

new-IsReady_example : IsReady before
new-IsReady_example = new-IsReady counter 3 1 true 2

before-IsIdle : IsIdle before
unfolding new_cuckoo_index
before-IsIdle = record { ready = new-IsReady counter 3 1 true 2; idle = refl }

insertion :
    find_or_insert counter 1 (λ i. i) before seven first_record 9
    ≡ some (after, entry false first_record)
unfolding find_or_insert find_or_add_new new_cuckoo_index scan_buckets hashes hash
    aresdb.Murmur.murmur3_sum32
insertion = refl

find_or_insert-Answers_example :
    Answers before seven first_record 9 after (entry false first_record)
find_or_insert-Answers_example =
    find_or_insert-Answers counter 1 (λ i. i) before seven first_record 9 after
      (entry false first_record) before-IsIdle insertion

after-IsIdle : IsIdle after
after-IsIdle = find_or_insert-Answers_example.1.after

-- The key is there now, and a second insertion finds it.
again :
    find_or_insert counter 1 (λ i. i) after seven second_record 9
    ≡ some (after, entry true first_record)
unfolding find_or_insert find_or_add_new new_cuckoo_index scan_buckets hashes hash
    aresdb.Murmur.murmur3_sum32 aresdb.Cuckoo.mem_equal
again = refl

cuckoo_run :
    (cuckoo_add counter before
      (record { key = seven; record_id = first_record; event_time = 9 })
      (hashes before seven)).1
    ≡ true
unfolding cuckoo_add new_cuckoo_index hashes evict random_swap add_new add_to_stash swap_at hash
    aresdb.Murmur.murmur3_sum32
cuckoo_run = refl

find_or_insert-returns_example :
    find_or_insert counter 1 (λ i. i) before seven first_record 9 ≢ none
find_or_insert-returns_example =
    find_or_insert-returns counter 1 (λ i. i) before seven first_record 9 0 before-IsIdle
      (omega arith) (inl cuckoo_run)

find-found_iff_example : ((find after seven).1 ≡ true) ↔ ((p : ℕ) × Live after seven p)
find-found_iff_example = find-found_iff after seven after-IsIdle.ready.valid

find-record_iff_example :
    (find after seven ≡ (first_record, true))
    ↔ ((p : ℕ) × Live after seven p × ((cell_at after p).record_id ≡ first_record))
find-record_iff_example =
    find-record_iff after seven first_record after-IsIdle.ready.valid
      (after-IsIdle.ready.unique seven)

update-Updates_example : Updates after seven second_record (update after seven second_record)
update-Updates_example = update-Updates after seven second_record after-IsIdle.ready.valid

delete-Deletes_example : Deletes after seven (delete after seven)
delete-Deletes_example =
    delete-Deletes after seven after-IsIdle.ready.valid after-IsIdle.ready.counted

abbrev eight : Item
eight = record { key = 8 ∷ []; record_id = second_record; event_time = 4 }

eight-IsNew : IsNew before eight
unfolding new_cuckoo_index
eight-IsNew = record { fresh = refl; missing = new-empty counter 3 1 true 2 (8 ∷ []) }

eight_fresh : event_time_expired after 4 ≡ false
unfolding new_cuckoo_index find_or_add_new scan_buckets hashes hash aresdb.Murmur.murmur3_sum32
eight_fresh = refl

find_or_add_new-cases_example :
    let r = find_or_add_new after (8 ∷ []) second_record 4 in
    IsHit after eight after-IsIdle.ready eight_fresh r
    ⊎ IsAdded after eight after-IsIdle.ready eight_fresh r
    ⊎ IsMiss after eight after-IsIdle.ready eight_fresh r
find_or_add_new-cases_example = find_or_add_new-cases after eight after-IsIdle.ready eight_fresh

insert-cases_example :
    let x = insert counter before eight in
    ((x.1 ≡ true) × Adds before eight x.0) ⊎ ((x.1 ≡ false) × Parks before eight x.0)
insert-cases_example =
    insert-cases counter before eight before-IsIdle.ready eight-IsNew before-IsIdle.idle

abbrev in_staging : StagingEntry
in_staging = record { event_time = 4; key = 8 ∷ []; value = second_record }

-- The new index with an item in its staging area.
abbrev parked : CuckooIndex ℕ
parked = record before { staging = some in_staging }

parked-IsReady : IsReady parked
unfolding new_cuckoo_index hashes hash
parked-IsReady =
    let r = before-IsIdle.ready in
    record {
      valid = record {
        some_bucket = r.valid.some_bucket;
        sized = r.valid.sized;
        placed = r.valid.placed;
        spare = r.valid.spare;
      };
      counted = record { in_buckets = r.counted.in_buckets; in_stash = r.counted.in_stash };
      unique = r.unique;
    }

resize-cases_example :
    let x = resize counter 5 1 parked in
    ((x.1 ≡ true) × Settles parked (item_of in_staging) x.0) ⊎ (x ≡ (parked, false))
resize-cases_example =
    resize-cases counter parked parked-IsReady in_staging
      (record { fresh = eight-IsNew.fresh; missing = eight-IsNew.missing }) refl 5 1

hash-fits_example :
    let h = hash before seven 2 in
    (h.bucket % 8 ≡ 0) × (h.bucket + 8 ≤ stash before) × (0 < h.signature) × (h.signature < 2 ^ 8)
hash-fits_example = hash-fits before seven 2 before-IsIdle.ready.valid.some_bucket
