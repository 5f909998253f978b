-- ===== src/Cuckoo/FindOrAdd.antt =====
-- The three results of findOrAddNew in memstore/cuckoo_index.go.
use mathlib.Core.Bool.{false≢true}
use mathlib.Core.Path.{subst}
use native.Mathlib.Decide.{dec_lt}
use aresdb.Prelude.{
  ℕ, ◌+◌, ◌≡◌, refl, sym, ◌⊎◌, inl, inr, ◌∙◌, true, false, Option, none, arith, Option-cases,
}
use aresdb.Cuckoo.{
  CuckooIndex, HashResult, cell_at, stash, stash_size, hashes, first, event_time_expired,
}
use aresdb.Cuckoo.Lookup.{stash_hit}
use aresdb.Cuckoo.Insert.{
  Item, Scan, existing, absent, Found, vacant, same_key, scan_buckets, find_or_add_new,
}
use aresdb.Cuckoo.Search.{Among, first-some, first-none, mem_equal_refl, mem_equal→eq}
use aresdb.Cuckoo.Find.{Live, stash_hit-Live, Live-stash_hit}
use aresdb.Cuckoo.Place.{IsReady, IsNew, Adds}
use aresdb.Cuckoo.Evict.{IsFull, fill-Adds}
use aresdb.Cuckoo.Scan.{BucketsScan, scan_buckets-scans}

module _ {R : Type 0} (c : CuckooIndex R) (item : Item) (ready : IsReady c)
    (fresh : event_time_expired c item.event_time ≡ false) where
  -- The key was found, unexpired, and nothing changed.
  pub record IsHit (r : Found R) : Type 0 where
    pub existing_found : r.existing_found ≡ true
    pub slot : ℕ
    pub live : Live c item.key slot
    pub record_id : r.record_id ≡ (cell_at c slot).record_id
    pub same : r.index ≡ c

  -- The key was not there, and the item was added to a vacant slot.
  pub record IsAdded (r : Found R) : Type 0 where
    pub existing_found : r.existing_found ≡ false
    pub added : r.added ≡ true
    pub record_id : r.record_id ≡ item.record_id
    pub new : IsNew c item
    pub adds : Adds c item r.index

  -- The key was not there, and no bucket of the key has room.
  pub record IsMiss (r : Found R) : Type 0 where
    pub existing_found : r.existing_found ≡ false
    pub added : r.added ≡ false
    pub new : IsNew c item
    pub full : IsFull c item.key
    pub same : r.index ≡ c

  -- No slot holds the key, unexpired, if neither loop stops.
  missing_of :
      (free : Option (HashResult × ℕ))
      → BucketsScan c item.key (hashes c item.key) none (absent free)
      → first stash_size (stash c) (stash_hit c item.key) ≡ none
      → IsNew c item
  missing_of free (no_match, _) miss = record {
    fresh = ground arith;
    missing = λ p l. elim (dec_lt p (stash c)) [
      | yes inside ↦
          let (h, home) = ready.valid.placed p inside l.occupied in
          let m =
            no_match h (subst (λ k. Among h (hashes c k)) l.keyed home.hashed) p home.from
              home.below (ground (arith, l.occupied, l.current)) in
          let t : same_key c item.key h p ≡ true =
            rw l.keyed (ground (arith, mem_equal_refl item.key, home.signed)) in
          false≢true (sym m ∙ t)
      | no outside ↦ elim (dec_lt p (stash c + 4)) [
        | yes near ↦
            let m = first-none 4 (stash c) (stash_hit c item.key) miss p (omega arith) near in
            false≢true (sym m ∙ Live-stash_hit c item.key p l)
        | no far ↦ false≢true (sym l.occupied ∙ ready.valid.spare p (omega arith))
      ]
    ];
  }

  slot_in_use-Live :
      (h : HashResult) (p : ℕ)
      → vacant c p ≡ false
      → same_key c item.key h p ≡ true
      → Live c item.key p
  slot_in_use-Live h p used same = record {
    occupied = ground arith;
    current = ground arith;
    keyed = mem_equal→eq _ _ (ground arith);
  }

  -- findOrAddNew of a ready index, with an event time that is not expired: it finds the key in some
  -- slot and changes nothing; or the key is not there and it is added; or the key is not there, its
  -- buckets are full, and nothing changes.
  pub find_or_add_new-cases :
      let r = find_or_add_new c item.key item.record_id item.event_time in
      IsHit r ⊎ IsAdded r ⊎ IsMiss r
  unfolding find_or_add_new
  find_or_add_new-cases =
      go (scan_buckets c item.key (hashes c item.key) none) refl
        (scan_buckets-scans c item.key (hashes c item.key) none)
    where
      go :
          (s : Scan)
          → scan_buckets c item.key (hashes c item.key) none ≡ s
          → BucketsScan c item.key (hashes c item.key) none s
          → let r = find_or_add_new c item.key item.record_id item.event_time in
            IsHit r ⊎ IsAdded r ⊎ IsMiss r
      go (existing p) e (h, m, (lo, hi, used, same)) =
          rw (e, find_or_add_new)
            (inl (record {
              existing_found = refl;
              slot = p;
              live = slot_in_use-Live h p used same;
              record_id = refl;
              same = refl;
            }))
      go (absent free) e s =
          elim (Option-cases (first stash_size (stash c) (stash_hit c item.key))) [
            | inr (p, hit) ↦
                let f = first-some 4 (stash c) (stash_hit c item.key) p hit in
                rw (e, find_or_add_new, hit)
                  (inl (record {
                    existing_found = refl;
                    slot = p;
                    live = stash_hit-Live c item.key p f.passes;
                    record_id = refl;
                    same = refl;
                  }))
            | inl miss ↦
                let new = missing_of free s miss in
                elim s.1 [
                  | inl (none_seen, full) ↦
                      rw (e, find_or_add_new, miss, none_seen)
                        (inr (
                          inr (record {
                            existing_found = refl;
                            added = refl;
                            new = new;
                            full = full refl;
                            same = refl;
                          })))
                  | inr (h, m, (q, lo, hi, free_at, marked)) ↦
                      rw (e, find_or_add_new, miss, marked)
                        (inr (
                          inl (record {
                            existing_found = refl;
                            added = refl;
                            record_id = refl;
                            new = new;
                            adds =
                                fill-Adds c item ready new h q
                                  (record { hashed = m; from = lo; below = hi; signed = refl })
                                  free_at;
                          })))
                ]
          ]
