-- ===== src/Cuckoo/Rehash.antt =====
-- Resizing keeps all items: resize of memstore/cuckoo_index.go.
use mathlib.Core.Path.{subst}
use aresdb.Prelude.{
  ℕ, ◌+◌, ◌≡◌, refl, sym, ap, ◌↔◌, ◌⊎◌, inl, inr, Bool, true, false, ◌&&◌, none, some, arith, ltb,
  Option-cases,
}
use aresdb.Record.{Key, RecordId}
use aresdb.Cuckoo.{CuckooIndex, StagingEntry, cell_at, stash, hash, hashes}
use aresdb.Cuckoo.Insert.{GoRuntime, Item}
use aresdb.Cuckoo.Resize.{new_cuckoo_index, reinsert, reinsert_staging, resize}
use aresdb.Cuckoo.Find.{Live}
use aresdb.Cuckoo.Place.{SameTime, IsReady, IsNew, Stored, InHand}
use aresdb.Cuckoo.Stash.{item_of}
use aresdb.Cuckoo.Fresh.{new-empty, new-settings, new-IsReady}
use aresdb.Cuckoo.Reload.{
  SameTime-refl, Loaded, Replaces, reinsert-Loaded, reinsert_staging-Replaces,
}

-- The expiry of an item depends on its event time alone.
current_same :
    (timed : Bool) (a b cutoff : ℕ)
    → SameTime timed a b
    → (timed && ltb a cutoff) ≡ false
    → (timed && ltb b cutoff) ≡ false
current_same true a b cutoff e h = rw (← e) h
current_same false a b cutoff e h = refl

-- `c'` is idle and stores what `c` stores and the item.
pub record Settles {R : Type 0} (c : CuckooIndex R) (item : Item) (c' : CuckooIndex R)
    : Type 0 where
  pub ready : IsReady c'
  pub idle : c'.staging ≡ none
  pub timed : c'.has_event_time ≡ c.has_event_time
  pub cutoff : c'.event_time_cutoff ≡ c.event_time_cutoff
  pub stores : (k : Key) (r : RecordId) (e : ℕ) → InHand c item k r e ↔ Stored c' k r e

module _ {R : Type 0} (go : GoRuntime R) (c : CuckooIndex R) (ready : IsReady c) (s : StagingEntry)
    (new_key : IsNew c (item_of s)) (t : CuckooIndex R)
    (load : Replaces go c ready s new_key t) where
  -- The fields that resize copies from the new index.
  abbrev adopted : CuckooIndex R
  adopted = record c {
    num_buckets = t.num_buckets;
    rand = t.rand;
    seeds = t.seeds;
    cells = t.cells;
    staging = t.staging;
    num_bucket_entries = t.num_bucket_entries;
    num_stash_entries = t.num_stash_entries;
    max_trials = t.max_trials;
  }

  hashes-adopted : (k : Key) → hashes adopted k ≡ hashes t k
  unfolding hashes hash
  hashes-adopted k =
      ap (λ b. hashes (record t { key_bytes = b }) k) (sym (ap (λ x. x.0) load.settings))

  Live-of_adopted : (k : Key) (q : ℕ) → Live adopted k q → Live t k q
  Live-of_adopted k q l = record {
    occupied = l.occupied;
    current = rw (ap (λ x. x.2) load.settings) (ground arith);
    keyed = l.keyed;
  }

  Live-adopted : (k : Key) (q : ℕ) → Live t k q → Live adopted k q
  Live-adopted k q l =
      let time = (cell_at t q).event_time in
      record {
        occupied = l.occupied;
        current =
            elim ((load.stores k _ time).1 (q, l, refl, SameTime-refl t.has_event_time time)) [
              | inl (_, _, ee) ↦ current_same c.has_event_time _ time _ ee new_key.fresh
              | inr (_, live, _, ee) ↦ current_same c.has_event_time _ time _ ee live.current
            ];
        keyed = l.keyed;
      }

  adopted-IsReady : IsReady adopted
  adopted-IsReady = record {
    valid = record {
      some_bucket = load.ready_new.valid.some_bucket;
      sized = load.ready_new.valid.sized;
      placed = λ q below occ.
          let (h, home) = load.ready_new.valid.placed q below occ in
          (h, rw (hashes-adopted (cell_at t q).key) home);
      spare = load.ready_new.valid.spare;
    };
    counted = record {
      in_buckets = load.ready_new.counted.in_buckets;
      in_stash = load.ready_new.counted.in_stash;
    };
    unique = λ k p q lp lq.
        load.ready_new.unique k p q (Live-of_adopted k p lp) (Live-of_adopted k q lq);
  }

  adopted-Settles : Settles c (item_of s) adopted
  adopted-Settles = record {
    ready = adopted-IsReady;
    idle = ap (λ x. x.3) load.settings;
    timed = refl;
    cutoff = refl;
    stores = λ k r e.
        let same = ap (λ x. x.1) load.settings in
        (
          λ h.
              let (q, l, er, ee) = (load.stores k r e).0 h in
              (
                q,
                Live-adopted k q l,
                er,
                subst (λ b. SameTime b (cell_at t q).event_time e) same ee,
              ),
          λ (q, l, er, ee). (load.stores k r e).1 (
            q,
            Live-of_adopted k q l,
            er,
            subst (λ b. SameTime b (cell_at t q).event_time e) (sym same) ee,
          ),
        );
  }

module _ {R : Type 0} (go : GoRuntime R) (c : CuckooIndex R) (ready : IsReady c) (s : StagingEntry)
    (new_key : IsNew c (item_of s)) (staged : c.staging ≡ some s) where
  new-Loaded :
      (now n : ℕ) → Loaded go c ready 0 (new_cuckoo_index go now c.key_bytes c.has_event_time n)
  new-Loaded now n = record {
    ready_new = new-IsReady go now c.key_bytes c.has_event_time n;
    settings = new-settings go now c.key_bytes c.has_event_time n;
    stores = λ k r e. (
      λ (q, lt, _, _, _). absurd (omega arith),
      λ (q, l, _, _). absurd (new-empty go now c.key_bytes c.has_event_time n k q l),
    );
  }

  -- resize of a ready index whose staging area holds an item that is new to it: the unexpired items
  -- of the index and the one in staging are stored in the new memory and nothing is staged, or
  -- resize fails and changes nothing.
  pub resize-cases :
      (now i : ℕ)
      → let x = resize go now i c in ((x.1 ≡ true) × Settles c (item_of s) x.0) ⊎ (x ≡ (c, false))
  unfolding resize
  resize-cases now i =
      let fresh = new_cuckoo_index go now c.key_bytes c.has_event_time (go.grown c.num_buckets i) in
      elim (Option-cases (reinsert go c (stash c + 4) 0 fresh)) [
        | inl failed ↦ inr (rw (resize, failed))
        | inr (filled, done) ↦ elim (Option-cases (reinsert_staging go c filled)) [
          | inl failed ↦ inr (rw (resize, done, failed))
          | inr (t, done') ↦
              let l =
                reinsert-Loaded go c ready (stash c + 4) 0 fresh filled (new-Loaded now _) done in
              let r =
                reinsert_staging-Replaces go c ready s new_key filled t staged
                  (subst (λ m. Loaded go c ready m filled) (omega arith) l) done' in
              rw (resize, done, done') (inl (refl, adopted-Settles go c ready s new_key t r))
        ]
      ]
