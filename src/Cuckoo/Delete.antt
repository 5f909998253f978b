-- ===== src/Cuckoo/Delete.antt =====
-- Deletion from a well-formed cuckoo index: Delete of memstore/cuckoo_index.go.
use mathlib.Core.Bool.{false≢true}
use mathlib.Core.Path.{subst, fun_ext}
use native.Mathlib.Decide.{dec_lt, ℕ_discrete}
use aresdb.Prelude.{
  ℕ, ◌+◌, ◌≤◌, ◌<◌, ◌≡◌, refl, sym, ap, inl, inr, ◌≢◌, ◌∙◌, true, false, Option, none, some, arith,
  Bool-cases, Option-cases, length, get_or-beyond,
}
use aresdb.Record.{Key}
use aresdb.Cuckoo.{
  CuckooIndex, HashResult, Cell, zero_id, empty_cell, empty_signature, mem_equal, cell_at, stash,
  hash, hashes, is_empty, first, search_buckets, stash_size, dec_uint,
}
use aresdb.Cuckoo.Lookup.{locate, find, delete, bucket_hit, stash_hit, bucket_match, stash_match}
use aresdb.Cuckoo.Search.{
  Among, first-some, first-none, search_buckets-some, search_buckets-none, hashes-signature,
  hashes-bucket, mem_equal→eq, mem_equal_refl,
}
use aresdb.Cuckoo.Find.{IsValid, locate-some, find-missing}
use aresdb.Cuckoo.Cells.{
  mark_of, IsCounted, write, cell_at-write_self, cell_at-write_ne, write-IsValid, Live-of_write,
  write-counts_bucket, write-counts_stash, with_rest-IsValid,
}

module _ {R : Type 0} (c : CuckooIndex R) (k : Key) (q : ℕ) (ne : (cell_at c q).key ≢ k) where
  differ : mem_equal (cell_at c q).key k ≡ false
  differ = elim (Bool-cases (mem_equal (cell_at c q).key k)) [
    | inl e ↦ absurd (ne (mem_equal→eq _ _ e))
    | inr e ↦ e
  ]

  bucket_hit-ne : (h : HashResult) → bucket_hit c k h q ≡ false
  bucket_hit-ne h = rw differ (ground arith)

  stash_hit-ne : stash_hit c k q ≡ false
  stash_hit-ne = rw differ (ground arith)

module _ {R : Type 0} (c : CuckooIndex R) (key : Key) where
  -- A slot with an item of the key, expired or not.
  pub record Holds (p : ℕ) : Type 0 where
    pub occupied : is_empty c p ≡ false
    pub keyed : (cell_at c p).key ≡ key

  pub Holds-lt : (p : ℕ) → Holds p → p < length c.cells
  Holds-lt p l = elim (dec_lt p (length c.cells)) [
    | yes h ↦ h
    | no h ↦
        let e = get_or-beyond c.cells p empty_cell (omega arith) in
        absurd (false≢true (sym l.occupied ∙ rw e refl))
  ]

  bucket_match-Holds :
      (h : HashResult) (p : ℕ) → 0 < h.signature → bucket_match c key h p ≡ true → Holds p
  bucket_match-Holds h p pos e = record {
    occupied = ground arith;
    keyed = mem_equal→eq _ _ (ground arith);
  }

  stash_match-Holds : (p : ℕ) → stash_match c key p ≡ true → Holds p
  stash_match-Holds p e = record {
    occupied = ground arith;
    keyed = mem_equal→eq _ _ (ground arith);
  }

  -- Where the loops of Delete stop nowhere, no slot holds the key.
  no_match-none :
      IsValid c
      → search_buckets (hashes c key) (bucket_match c key) ≡ none
      → first stash_size (stash c) (stash_match c key) ≡ none
      → (p : ℕ) → Holds p
      → ⊥
  no_match-none v miss miss' p l = elim (dec_lt p (stash c)) [
    | yes inside ↦
        let (h, home) = v.placed p inside l.occupied in
        let m =
          search_buckets-none (hashes c key) (bucket_match c key) miss h
            (subst (λ k. Among h (hashes c k)) l.keyed home.hashed) p home.from home.below in
        let t : bucket_match c key h p ≡ true =
          rw l.keyed (ground (arith, mem_equal_refl key, home.signed)) in
        false≢true (sym m ∙ t)
    | no outside ↦ elim (dec_lt p (stash c + 4)) [
      | yes near ↦
          let m = first-none 4 (stash c) (stash_match c key) miss' p (omega arith) near in
          let t : stash_match c key p ≡ true =
            rw l.keyed (ground (arith, mem_equal_refl key, l.occupied)) in
          false≢true (sym m ∙ t)
      | no far ↦ false≢true (sym l.occupied ∙ v.spare p (omega arith))
    ]
  ]

  module _ (p : ℕ) (held : Holds p) where
    -- The slot with its signature cleared.
    abbrev pub cleared : Cell
    cleared = record (cell_at c p) { signature = empty_signature }

    cleared-IsValid : IsValid c → IsValid (write c p cleared)
    cleared-IsValid v = write-IsValid c p cleared (Holds-lt p held) v (λ e. cc) (λ h. refl)

    -- Lookups of other keys pass the slot before and after.
    key-cleared : (q : ℕ) → (cell_at (write c p cleared) q).key ≡ (cell_at c q).key
    key-cleared q = elim (ℕ_discrete p q) [
      | yes e ↦ rw (← e) (ap (λ x. x.key) (cell_at-write_self c p cleared (Holds-lt p held)))
      | no ne ↦ ap (λ x. x.key) (cell_at-write_ne c p cleared (Holds-lt p held) q ne)
    ]

    other_key : (k : Key) → k ≢ key → (q : ℕ) → p ≡ q → (cell_at c q).key ≢ k
    other_key k ne q e e' = ne (sym e' ∙ ap (λ x. (cell_at c x).key) (sym e) ∙ held.keyed)

    other_bucket_hit : (k : Key) → k ≢ key → bucket_hit (write c p cleared) k ≡ bucket_hit c k
    other_bucket_hit k ne = fun_ext (λ h. fun_ext (λ q. elim (ℕ_discrete p q) [
      | yes e ↦
          let differs = other_key k ne q e in
          bucket_hit-ne (write c p cleared) k q (λ e'. differs (sym (key-cleared q) ∙ e')) h
          ∙ sym (bucket_hit-ne c k q differs h)
      | no ne' ↦ rw (cell_at-write_ne c p cleared (Holds-lt p held) q ne') refl
    ]))

    other_stash_hit : (k : Key) → k ≢ key → stash_hit (write c p cleared) k ≡ stash_hit c k
    other_stash_hit k ne = fun_ext (λ q. elim (ℕ_discrete p q) [
      | yes e ↦
          let differs = other_key k ne q e in
          stash_hit-ne (write c p cleared) k q (λ e'. differs (sym (key-cleared q) ∙ e'))
          ∙ sym (stash_hit-ne c k q differs)
      | no ne' ↦ rw (cell_at-write_ne c p cleared (Holds-lt p held) q ne') refl
    ])

    module _ (a b : ℕ) where
      abbrev after : CuckooIndex R
      after = record (write c p cleared) { num_bucket_entries = a; num_stash_entries = b }

      locate-after : (k : Key) → k ≢ key → locate after k ≡ locate c k
      unfolding locate hashes hash
      locate-after k ne = λ i.
          elim (search_buckets (hashes c k) (other_bucket_hit k ne i)) as (λ x. Option ℕ) [
            | none ↦ first stash_size (stash c) (other_stash_hit k ne i)
            | some x ↦ some x.1
          ]

      find-after : (k : Key) → k ≢ key → find after k ≡ find c k
      unfolding find
      find-after k ne = elim (Option-cases (locate c k)) [
        | inl miss ↦ rw (locate-after k ne, miss, find) refl
        | inr (q, at) ↦
            let l = locate-some c k q at in
            let other : p ≢ q = λ e. other_key k ne q e l.keyed in
            rw (locate-after k ne, at, find)
              (ap (λ (x : Cell). (x.record_id, true))
                (cell_at-write_ne c p cleared (Holds-lt p held) q other))
      ]

      gone-after :
          IsValid c → ((q r : ℕ) → Holds q → Holds r → q ≡ r) → find after key ≡ (zero_id, false)
      gone-after v one = find-missing after key λ q l.
          elim (Live-of_write c p cleared (Holds-lt p held) key q l) [
            | inl (dead, e) ↦ cc dead.occupied
            | inr (alive, ne) ↦
                ne (one p q held (record { occupied = alive.occupied; keyed = alive.keyed }))
          ]

-- What Delete promises: the index stays well formed and its counters exact, other keys read as
-- before, and a key that one slot at most holds is gone.
pub record Deletes {R : Type 0} (c : CuckooIndex R) (key : Key) (c' : CuckooIndex R) : Type 0 where
  pub valid : IsValid c'
  pub counted : IsCounted c'
  pub keeps : (k : Key) → k ≢ key → find c' k ≡ find c k
  pub gone : ((p q : ℕ) → Holds c key p → Holds c key q → p ≡ q) → find c' key ≡ (zero_id, false)

module _ {R : Type 0} (c : CuckooIndex R) (key : Key) where
  marked : (p : ℕ) → Holds c key p → mark_of (cell_at c p) ≡ 1
  marked p held = rw held.occupied refl

  dec_exact : (n m : ℕ) → m + 1 ≡ n → dec_uint n ≡ m
  dec_exact n m h = ground arith

  bucket-Deletes :
      (p : ℕ)
      → p < stash c
      → (held : Holds c key p) → IsValid c
      → IsCounted c
      → Deletes c key (record (write c p (cleared c key p held)) {
        num_bucket_entries = dec_uint c.num_bucket_entries;
      })
  bucket-Deletes p inside held v counted =
      let n = dec_uint c.num_bucket_entries in
      let w =
        write-counts_bucket c p (cleared c key p held) (Holds-lt c key p held) inside counted in
      record {
        valid =
            with_rest-IsValid _ n c.num_stash_entries c.staging c.rand
              (cleared-IsValid c key p held v);
        counted = record {
          in_buckets = dec_exact _ _ (omega (arith, w.0, marked p held));
          in_stash = w.1;
        };
        keeps = find-after c key p held n c.num_stash_entries;
        gone = gone-after c key p held n c.num_stash_entries v;
      }

  stash-Deletes :
      (p : ℕ)
      → stash c ≤ p
      → (held : Holds c key p) → IsValid c
      → IsCounted c
      → Deletes c key (record (write c p (cleared c key p held)) {
        num_stash_entries = dec_uint c.num_stash_entries;
      })
  stash-Deletes p outside held v counted =
      let n = dec_uint c.num_stash_entries in
      let w =
        write-counts_stash c p (cleared c key p held) (Holds-lt c key p held) outside counted in
      record {
        valid =
            with_rest-IsValid _ c.num_bucket_entries n c.staging c.rand
              (cleared-IsValid c key p held v);
        counted = record {
          in_buckets = w.1;
          in_stash = dec_exact _ _ (omega (arith, w.0, marked p held));
        };
        keeps = find-after c key p held c.num_bucket_entries n;
        gone = gone-after c key p held c.num_bucket_entries n v;
      }

  -- Delete of a well-formed index with exact counters: it stays well formed, the counters stay
  -- exact, every other key reads as before, and the key is no longer
  -- found if at most one slot held it, expired or not.
  pub delete-Deletes : IsValid c → IsCounted c → Deletes c key (delete c key)
  unfolding delete
  delete-Deletes v counted =
      elim (Option-cases (search_buckets (hashes c key) (bucket_match c key))) [
        | inr (r, hit) ↦
            let b = search_buckets-some (hashes c key) (bucket_match c key) r hit in
            let positive = hashes-signature c key r.0 b.from_hash in
            let room = hashes-bucket c key v.some_bucket r.0 b.from_hash in
            let held = bucket_match-Holds c key r.0 r.1 positive b.at.passes in
            rw (hit, delete) (bucket-Deletes r.1 (omega (arith, b.at.below)) held v counted)
        | inl miss ↦ elim (Option-cases (first stash_size (stash c) (stash_match c key))) [
          | inr (p, hit) ↦
              let s = first-some 4 (stash c) (stash_match c key) p hit in
              rw (miss, delete, hit)
                (stash-Deletes p s.from (stash_match-Holds c key p s.passes) v counted)
          | inl miss' ↦
              rw (miss, delete, miss')
                (record {
                  valid = v;
                  counted = counted;
                  keeps = λ k ne. refl;
                  gone = λ one. find-missing c key λ p l.
                      no_match-none c key v miss miss' p
                        (record { occupied = l.occupied; keyed = l.keyed });
                })
        ]
      ]
