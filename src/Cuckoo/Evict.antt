-- ===== src/Cuckoo/Evict.antt =====
-- The cuckoo process keeps all items: addNew, cuckooAdd and insert of memstore/cuckoo_index.go.
use aresdb.Prelude.{
  ℕ, zero, suc, ◌+◌, ◌≤◌, ◌<◌, ◌≡◌, refl, ◌↔◌, ◌⊎◌, inl, inr, ◌∙◌, true, false, Option, arith,
  Bool-cases, Option-cases, length, get_or,
}
use aresdb.Record.{Key, RecordId}
use aresdb.Cuckoo.{
  CuckooIndex, HashResult, StagingEntry, Cell, cell_at, stash, hashes, is_empty, search_buckets,
}
use aresdb.Cuckoo.Insert.{Item, GoRuntime, vacant, fill, add_new, draw, random_swap, evict}
use aresdb.Cuckoo.Search.{
  Among, search_buckets-some, search_buckets-none, hashes-signature, hashes-bucket,
}
use aresdb.Cuckoo.Find.{HomeCell, IsValid}
use aresdb.Cuckoo.Cells.{
  mark_of, IsCounted, IsUnique, write-counts_bucket, with_rest, with_rest-IsValid,
}
use aresdb.Cuckoo.Place.{
  IsReady, IsNew, Adds, InHand, cell_of, put-IsUnique, put-IsValid, put-stores_vacant,
  put-stores_swap, evicted-IsNew, settings_of,
}

pub mark_positive : (x : Cell) → 0 < x.signature → mark_of x ≡ 1
mark_positive x h = ground arith

module _ {R : Type 0} where
  -- Every slot of the buckets of a key holds an unexpired item.
  abbrev pub IsFull : CuckooIndex R → Key → Type 0
  IsFull c key =
      (h : HashResult)
      → Among h (hashes c key)
      → (p : ℕ) → h.bucket ≤ p
      → p < h.bucket + 8
      → vacant c p ≡ false

  pub with_rest-IsReady :
      (c : CuckooIndex R) (a b : ℕ) (s : Option StagingEntry) (r : R)
      → IsValid c
      → IsUnique c
      → IsCounted (with_rest c a b s r)
      → IsReady (with_rest c a b s r)
  with_rest-IsReady c a b s r v u counted = record {
    valid = with_rest-IsValid c a b s r v;
    counted = counted;
    unique = u;
  }

module _ {R : Type 0} (c : CuckooIndex R) (item : Item) (ready : IsReady c)
    (new : IsNew c item) where
  -- A vacant slot of one of the key's buckets takes the item.
  pub fill-Adds :
      (h : HashResult) (p : ℕ)
      → HomeCell (hashes c item.key) h.signature p h
      → vacant c p ≡ true
      → Adds c item (fill c item.key item.record_id h.signature item.event_time p)
  unfolding fill
  fill-Adds h p home empty =
      let v = ready.valid in
      let positive = hashes-signature c item.key h home.hashed in
      let room = hashes-bucket c item.key v.some_bucket h home.hashed in
      let below : p < stash c = omega (arith, home.below) in
      let inside : p < length c.cells = omega (arith, v.sized) in
      let w = write-counts_bucket c p (cell_of c item h.signature p) inside below ready.counted in
      let m = mark_positive (cell_of c item h.signature p) positive in
      let valid =
        put-IsValid c item h.signature p new positive inside v (λ _. (h, home)) (omega arith) in
      let unique = put-IsUnique c item h.signature p new positive inside ready.unique in
      let stores = put-stores_vacant c item h.signature p new positive inside empty in
      elim (Bool-cases (is_empty c p)) [
        | inl e ↦
            let old : mark_of (cell_at c p) ≡ 0 = rw e refl in
            rw e (record {
              ready =
                  with_rest-IsReady _ (c.num_bucket_entries + 1) c.num_stash_entries c.staging
                    c.rand valid unique
                    (record { in_buckets = omega (arith, w.0, m, old); in_stash = w.1 });
              stores = stores;
              settings = refl;
            })
        | inr e ↦
            let old : mark_of (cell_at c p) ≡ 1 = rw e refl in
            rw e (record {
              ready =
                  with_rest-IsReady _ c.num_bucket_entries c.num_stash_entries c.staging c.rand
                    valid unique
                    (record { in_buckets = omega (arith, w.0, m, old); in_stash = w.1 });
              stores = stores;
              settings = refl;
            })
      ]

  -- addNew of a new item in a ready index adds the item and keeps what is stored, or changes nothing
  -- and every slot of the key's buckets holds an unexpired item.
  pub add_new-cases :
      let x = add_new c item.key item.record_id item.event_time in
      ((x.1 ≡ true) × Adds c item x.0) ⊎ ((x ≡ (c, false)) × IsFull c item.key)
  unfolding add_new
  add_new-cases = elim (Option-cases (search_buckets (hashes c item.key) (λ h p. vacant c p))) [
    | inr (r, hit) ↦
        let b = search_buckets-some (hashes c item.key) (λ h p. vacant c p) r hit in
        inl (
          rw (hit, add_new) refl,
          rw (hit, add_new)
              (fill-Adds r.0 r.1
                (record {
                  hashed = b.from_hash;
                  from = b.at.from;
                  below = b.at.below;
                  signed = refl;
                })
                b.at.passes),
        )
    | inl miss ↦
        inr (
          rw (miss, add_new) refl,
          search_buckets-none (hashes c item.key) (λ h p. vacant c p) miss,
        )
  ]

module _ {R : Type 0} where
  -- The exchange of the item in hand for another keeps all items.
  pub record Swapped (c : CuckooIndex R) (item : Item) (c' : CuckooIndex R) (item' : Item)
      : Type 0 where
    pub ready : IsReady c'
    pub new : IsNew c' item'
    pub moves : (k : Key) (r : RecordId) (e : ℕ) → InHand c item k r e ↔ InHand c' item' k r e
    pub settings : settings_of c' ≡ settings_of c

  Swapped-trans :
      (c c' c'' : CuckooIndex R) (i i' i'' : Item)
      → Swapped c i c' i'
      → Swapped c' i' c'' i''
      → Swapped c i c'' i''
  Swapped-trans c c' c'' i i' i'' s t = record {
    ready = t.ready;
    new = t.new;
    moves = λ k r e. (
      λ h. (t.moves k r e).0 ((s.moves k r e).0 h),
      λ h. (s.moves k r e).1 ((t.moves k r e).1 h),
    );
    settings = t.settings ∙ s.settings;
  }

  pub Swapped-Adds :
      (c c' c'' : CuckooIndex R) (i i' : Item) → Swapped c i c' i' → Adds c' i' c'' → Adds c i c''
  Swapped-Adds c c' c'' i i' s t = record {
    ready = t.ready;
    stores = λ k r e. (
      λ h. (t.stores k r e).0 ((s.moves k r e).0 h),
      λ h. (s.moves k r e).1 ((t.stores k r e).1 h),
    );
    settings = t.settings ∙ s.settings;
  }

  get_or-hashes :
      (c : CuckooIndex R) (key : Key) (j : ℕ) (d : HashResult)
      → j < 4
      → Among (get_or (hashes c key) j d) (hashes c key)
  unfolding hashes
  get_or-hashes c key zero d h = inl refl
  get_or-hashes c key (suc zero) d h = inr (inl refl)
  get_or-hashes c key (suc (suc zero)) d h = inr (inr (inl refl))
  get_or-hashes c key (suc (suc (suc zero))) d h = inr (inr (inr (inl refl)))
  get_or-hashes c key (suc (suc (suc (suc j)))) d h = absurd (omega arith)

module _ {R : Type 0} (go : GoRuntime R) where
  draw-HomeCell :
      (c : CuckooIndex R) (key : Key) (r : R)
      → let d = draw go (hashes c key) r in HomeCell (hashes c key) d.0.0.signature d.0.1 d.0.0
  unfolding draw
  draw-HomeCell c key r = record {
    hashed = get_or-hashes c key _ _ (go.intn-lt 4 r (omega arith));
    from = omega arith;
    below = omega (arith, go.intn-lt 8 (go.intn 4 r).1);
    signed = refl;
  }

  random_swap-Swapped :
      (c : CuckooIndex R) (item : Item)
      → IsReady c
      → IsNew c item
      → IsFull c item.key
      → let x = random_swap go c item (hashes c item.key) in Swapped c item x.0 x.1
  unfolding random_swap
  random_swap-Swapped c item ready new full =
      let d = draw go (hashes c item.key) c.rand in
      let h = d.0.0 in
      let p = d.0.1 in
      let home = draw-HomeCell c item.key c.rand in
      let v = ready.valid in
      let positive = hashes-signature c item.key h home.hashed in
      let room = hashes-bucket c item.key v.some_bucket h home.hashed in
      let below : p < stash c = omega (arith, home.below) in
      let inside : p < length c.cells = omega (arith, v.sized) in
      let used = full h home.hashed p home.from home.below in
      let w = write-counts_bucket c p (cell_of c item h.signature p) inside below ready.counted in
      let m = mark_positive (cell_of c item h.signature p) positive in
      let old : mark_of (cell_at c p) ≡ 1 = ground arith in
      record {
        ready =
            with_rest-IsReady _ c.num_bucket_entries c.num_stash_entries c.staging d.1
              (put-IsValid c item h.signature p new positive inside v (λ _. (h, home))
                (omega arith))
              (put-IsUnique c item h.signature p new positive inside ready.unique)
              (record { in_buckets = omega (arith, w.0, m, old); in_stash = w.1 });
        new =
            let n = evicted-IsNew c item h.signature p new positive inside used ready.unique in
            record { fresh = n.fresh; missing = n.missing };
        moves = put-stores_swap c item h.signature p new positive inside used;
        settings = refl;
      }

  -- The loop over the trials adds the item, or ends with some item in hand.
  pub evict-cases :
      (n : ℕ) (c : CuckooIndex R) (item : Item)
      → IsReady c
      → IsNew c item
      → IsFull c item.key
      → let x = evict go n c item (hashes c item.key) in
        ((x.2 ≡ true) × Adds c item x.0) ⊎ ((x.2 ≡ false) × Swapped c item x.0 x.1)
  unfolding evict
  evict-cases zero c item ready new full = inr (
    refl,
    record { ready = ready; new = new; moves = λ k r e. (λ h. h, λ h. h); settings = refl },
  )
  evict-cases (suc n) c item ready new full =
      let x = random_swap go c item (hashes c item.key) in
      let s = random_swap-Swapped c item ready new full in
      elim (add_new-cases x.0 x.1 s.ready s.new) [
        | inl (added, adds) ↦ rw added (inl (refl, Swapped-Adds _ _ _ _ _ s adds))
        | inr (same, full') ↦ rw same (elim (evict-cases n x.0 x.1 s.ready s.new full') [
          | inl (done, adds) ↦ inl (done, Swapped-Adds _ _ _ _ _ s adds)
          | inr (failed, t) ↦ inr (failed, Swapped-trans _ _ _ _ _ _ s t)
        ])
      ]
