-- ===== src/Cuckoo/Stash.antt =====
-- The end of the cuckoo process: the stash and the staging area of cuckooAdd, and insert, of
-- memstore/cuckoo_index.go.
use aresdb.Prelude.{
  ℕ, ◌+◌, ◌≤◌, ◌<◌, ◌≡◌, refl, ap, ◌↔◌, ◌⊎◌, inl, inr, ◌∙◌, Bool, true, false, none, some, arith,
  if◌then◌else◌, Bool-cases, Option-cases, length,
}
use aresdb.Record.{Key, RecordId}
use aresdb.Cuckoo.{
  CuckooIndex, StagingEntry, cell_at, stash, hashes, is_empty, first, stash_size, min_signature,
}
use aresdb.Cuckoo.Insert.{
  Item, GoRuntime, insert_bucket, vacant, evict, add_to_stash, cuckoo_add, insert,
}
use aresdb.Cuckoo.Search.{first-some}
use aresdb.Cuckoo.Cells.{mark_of, write-counts_stash}
use aresdb.Cuckoo.Place.{
  IsReady, IsNew, Adds, InHand, SameTime, cell_of, put-IsUnique, put-IsValid, put-stores_vacant,
}
use aresdb.Cuckoo.Evict.{
  IsFull, Swapped, Swapped-Adds, with_rest-IsReady, add_new-cases, evict-cases,
}

-- The item that the staging area holds.
abbrev pub item_of : StagingEntry → Item
item_of s = record { key = s.key; record_id = s.value; event_time = s.event_time }

time-staged :
    (timed : Bool) (a e : ℕ) → SameTime timed a e ↔ SameTime timed (if timed then a else 0) e
time-staged true a e = (λ h. h, λ h. h)
time-staged false a e = (λ h. tt, λ h. tt)

module _ {R : Type 0} where
  -- `c'` and its staging area together hold what `c` stores and the item.
  pub record Parks (c : CuckooIndex R) (item : Item) (c' : CuckooIndex R) : Type 0 where
    pub entry : StagingEntry
    pub staged : c'.staging ≡ some entry
    pub ready : IsReady c'
    pub new : IsNew c' (item_of entry)
    pub moves :
        (k : Key) (r : RecordId) (e : ℕ) → InHand c item k r e ↔ InHand c' (item_of entry) k r e

module _ {R : Type 0} (c : CuckooIndex R) (item : Item) (ready : IsReady c)
    (new : IsNew c item) where
  -- A vacant slot of the stash takes the item.
  stash-Adds :
      (p : ℕ)
      → stash c ≤ p
      → p < stash c + 4
      → vacant c p ≡ true
      → let c' = insert_bucket c item.key item.record_id min_signature item.event_time p in
        Adds c item
          (if is_empty c p then record c' { num_stash_entries = c.num_stash_entries + 1 } else c')
  unfolding insert_bucket
  stash-Adds p from below empty =
      let v = ready.valid in
      let positive : 0 < min_signature = omega arith in
      let inside : p < length c.cells = omega (arith, v.sized) in
      let w = write-counts_stash c p (cell_of c item min_signature p) inside from ready.counted in
      let valid =
        put-IsValid c item min_signature p new positive inside v (λ h. absurd (omega arith))
          below in
      let unique = put-IsUnique c item min_signature p new positive inside ready.unique in
      let stores = put-stores_vacant c item min_signature p new positive inside empty in
      elim (Bool-cases (is_empty c p)) [
        | inl e ↦
            let old : mark_of (cell_at c p) ≡ 0 = rw e refl in
            rw e (record {
              ready =
                  with_rest-IsReady _ c.num_bucket_entries (c.num_stash_entries + 1) c.staging
                    c.rand valid unique
                    (record { in_buckets = w.1; in_stash = omega (arith, w.0, old) });
              stores = stores;
              settings = refl;
            })
        | inr e ↦
            let old : mark_of (cell_at c p) ≡ 1 = rw e refl in
            rw e (record {
              ready =
                  with_rest-IsReady _ c.num_bucket_entries c.num_stash_entries c.staging c.rand
                    valid unique (record { in_buckets = w.1; in_stash = omega (arith, w.0, old) });
              stores = stores;
              settings = refl;
            })
      ]

  -- The stash takes the item, or the empty staging area does.
  add_to_stash-cases :
      c.staging ≡ none
      → let x = add_to_stash c item in
        ((x.1 ≡ true) × Adds c item x.0) ⊎ ((x.1 ≡ false) × Parks c item x.0)
  unfolding add_to_stash
  add_to_stash-cases idle = elim (Option-cases (first stash_size (stash c) (vacant c))) [
    | inr (p, hit) ↦
        let s = first-some 4 (stash c) (vacant c) p hit in
        inl (
          rw (hit, add_to_stash) refl,
          rw (hit, add_to_stash) (stash-Adds p s.from s.below s.passes),
        )
    | inl miss ↦ inr (
      rw (miss, add_to_stash) refl,
      rw (miss, add_to_stash, idle)
          (record {
            entry = record {
              event_time = if c.has_event_time then item.event_time else 0;
              key = item.key;
              value = item.record_id;
            };
            staged = refl;
            ready =
                with_rest-IsReady c c.num_bucket_entries c.num_stash_entries _ c.rand ready.valid
                  ready.unique
                  (record {
                    in_buckets = ready.counted.in_buckets;
                    in_stash = ready.counted.in_stash;
                  });
            new = record { fresh = ground (arith, new.fresh); missing = new.missing };
            moves = λ k r e.
                let same = time-staged c.has_event_time item.event_time e in
                (
                  λ h. elim h [ inl (ek, er, ee) ↦ inl (ek, er, same.0 ee) | inr s ↦ inr s ],
                  λ h. elim h [ inl (ek, er, ee) ↦ inl (ek, er, same.1 ee) | inr s ↦ inr s ],
                );
          }),
    )
  ]

module _ {R : Type 0} where
  Swapped-Parks :
      (c c' c'' : CuckooIndex R) (i i' : Item) → Swapped c i c' i' → Parks c' i' c'' → Parks c i c''
  Swapped-Parks c c' c'' i i' s t = record {
    entry = t.entry;
    staged = t.staged;
    ready = t.ready;
    new = t.new;
    moves = λ k r e. (
      λ h. (t.moves k r e).0 ((s.moves k r e).0 h),
      λ h. (s.moves k r e).1 ((t.moves k r e).1 h),
    );
  }

module _ {R : Type 0} (go : GoRuntime R) (c : CuckooIndex R) (item : Item) where
  -- cuckooAdd, called with the full buckets of a new key and an empty staging area: on success the
  -- index stores what it stored and the item; on failure index and staging area hold that together.
  pub cuckoo_add-cases :
      IsReady c
      → IsNew c item
      → IsFull c item.key
      → c.staging ≡ none
      → let x = cuckoo_add go c item (hashes c item.key) in
        ((x.1 ≡ true) × Adds c item x.0) ⊎ ((x.1 ≡ false) × Parks c item x.0)
  unfolding cuckoo_add
  cuckoo_add-cases ready new full idle =
      let x = evict go c.max_trials c item (hashes c item.key) in
      elim (evict-cases go c.max_trials c item ready new full) [
        | inl (done, adds) ↦ rw done (inl (refl, adds))
        | inr (failed, s) ↦
            rw failed
              (elim (add_to_stash-cases x.0 x.1 s.ready s.new (ap (λ t. t.3) s.settings ∙ idle)) [
                | inl (done, adds) ↦ inl (done, Swapped-Adds _ _ _ _ _ s adds)
                | inr (no_room, parks) ↦ inr (no_room, Swapped-Parks _ _ _ _ _ s parks)
              ])
      ]

  -- insert of a new key into a ready index with an empty staging area: on success the index stores
  -- what it stored and the item; on failure index and staging area hold that together.
  pub insert-cases :
      IsReady c
      → IsNew c item
      → c.staging ≡ none
      → let x = insert go c item in
        ((x.1 ≡ true) × Adds c item x.0) ⊎ ((x.1 ≡ false) × Parks c item x.0)
  unfolding insert
  insert-cases ready new idle = elim (add_new-cases c item ready new) [
    | inl (added, adds) ↦ rw added (inl (refl, adds))
    | inr (same, full) ↦ rw same (cuckoo_add-cases ready new full idle)
  ]
