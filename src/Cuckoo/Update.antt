-- ===== src/Cuckoo/Update.antt =====
-- Updates in a well-formed cuckoo index: Update of memstore/cuckoo_index.go.
use mathlib.Core.Bool.{false≢true}
use mathlib.Core.Path.{fun_ext}
use aresdb.Prelude.{
  ℕ, ◌<◌, ◌≡◌, refl, sym, ap, inl, inr, ◌≢◌, ◌∙◌, Bool, true, Option, none, some, arith, ◌==◌,
  if◌then◌else◌, Option-cases, length, set, get_or-set, length-set,
}
use aresdb.Record.{Key, RecordId}
use aresdb.Cuckoo.{
  CuckooIndex, empty_cell, cell_at, stash, hash, hashes, first, search_buckets, stash_size,
}
use aresdb.Cuckoo.Lookup.{locate, find, update, bucket_hit, stash_hit}
use aresdb.Cuckoo.Find.{IsValid, locate-some, Live-lt}

-- A write of the record id in a slot that exists.
module _ {R : Type 0} (c : CuckooIndex R) (p : ℕ) (r : RecordId) (inside : p < length c.cells) where
  abbrev pub set_record_id : CuckooIndex R
  set_record_id = record c { cells = set c.cells p (record (cell_at c p) { record_id = r }) }

  pub cell_at-set_record_id :
      (q : ℕ)
      → cell_at set_record_id q
        ≡ (if p == q then record (cell_at c p) { record_id = r } else cell_at c q)
  cell_at-set_record_id q = get_or-set c.cells p q _ empty_cell inside

  -- All that lookups test is as it was.
  same_signature : (q : ℕ) → (cell_at set_record_id q).signature ≡ (cell_at c q).signature
  same_signature q = ground (arith, cell_at-set_record_id q)

  same_event_time : (q : ℕ) → (cell_at set_record_id q).event_time ≡ (cell_at c q).event_time
  same_event_time q = ground (arith, cell_at-set_record_id q)

  same_key : (q : ℕ) → (cell_at set_record_id q).key ≡ (cell_at c q).key
  same_key q = ground (arith, cell_at-set_record_id q)

  bucket_hit-set_record_id : (k : Key) → bucket_hit set_record_id k ≡ bucket_hit c k
  bucket_hit-set_record_id k =
      fun_ext (λ h. fun_ext (λ q. rw (same_signature q, same_event_time q, same_key q) refl))

  stash_hit-set_record_id : (k : Key) → stash_hit set_record_id k ≡ stash_hit c k
  stash_hit-set_record_id k =
      fun_ext (λ q. rw (same_signature q, same_event_time q, same_key q) refl)

  -- Every lookup stops where it did.
  pub locate-set_record_id : (k : Key) → locate set_record_id k ≡ locate c k
  unfolding locate hashes hash
  locate-set_record_id k = λ i.
      elim (search_buckets (hashes c k) (bucket_hit-set_record_id k i)) as (λ x. Option ℕ) [
        | none ↦ first stash_size (stash c) (stash_hit-set_record_id k i)
        | some x ↦ some x.1
      ]

  pub set_record_id-IsValid : IsValid c → IsValid set_record_id
  unfolding hashes hash
  set_record_id-IsValid v = record {
    some_bucket = v.some_bucket;
    sized = length-set c.cells p _ ∙ v.sized;
    placed = λ q in_bucket occupied.
        let (h, home) = v.placed q in_bucket (rw (← same_signature q) occupied) in
        (
          h,
          record {
            hashed = rw (same_key q) home.hashed;
            from = home.from;
            below = home.below;
            signed = rw (same_signature q) home.signed;
          },
        );
    spare = λ q far. rw (same_signature q) (v.spare q far);
  }

-- What Update promises: the index stays well formed, Update finds the key exactly when Find does,
-- the key then reads as the new record, and every other key reads as before.
pub record Updates {R : Type 0} (c : CuckooIndex R) (key : Key) (r : RecordId)
    (c' : CuckooIndex R × Bool) : Type 0 where
  pub valid : IsValid c'.0
  pub found : c'.1 ≡ (find c key).1
  pub reads : (find c key).1 ≡ true → find c'.0 key ≡ (r, true)
  pub keeps : (k : Key) → k ≢ key → find c'.0 k ≡ find c k

module _ {R : Type 0} (c : CuckooIndex R) (key : Key) (r : RecordId) where
  find-set_record_id_self :
      (p : ℕ) (inside : p < length c.cells)
      → locate c key ≡ some p
      → find (set_record_id c p r inside) key ≡ (r, true)
  unfolding find
  find-set_record_id_self p inside hit =
      rw (locate-set_record_id c p r inside key, hit, find)
        (ap (λ (x : RecordId). (x, true)) (ground (arith, cell_at-set_record_id c p r inside p)))

  find-set_record_id_ne :
      (p : ℕ) (inside : p < length c.cells)
      → locate c key ≡ some p
      → (k : Key) → k ≢ key
      → find (set_record_id c p r inside) k ≡ find c k
  unfolding find
  find-set_record_id_ne p inside hit k ne = elim (Option-cases (locate c k)) [
    | inl miss ↦ rw (locate-set_record_id c p r inside k, miss, find) refl
    | inr (q, at) ↦
        let other : p ≢ q = λ e. ne (
          sym (locate-some c k q at).keyed
          ∙ ap (λ x. (cell_at c x).key) (sym e)
          ∙ (locate-some c key p hit).keyed) in
        rw (locate-set_record_id c p r inside k, at, find)
          (ap (λ (x : RecordId). (x, true)) (ground (arith, cell_at-set_record_id c p r inside q)))
  ]

  -- Update of a well-formed index: it stays well formed, the result tells whether Find finds the
  -- key, and then the key reads as the new record; all other keys read as before.
  pub update-Updates : IsValid c → Updates c key r (update c key r)
  unfolding update find
  update-Updates v = elim (Option-cases (locate c key)) [
    | inl miss ↦
        rw (miss, update)
          (record {
            valid = v;
            found = rw (miss, find) refl;
            reads = λ e. absurd (false≢true (rw (miss, find) at e));
            keeps = λ k ne. refl;
          })
    | inr (p, hit) ↦
        let inside = Live-lt c key p (locate-some c key p hit) in
        rw (hit, update)
          (record {
            valid = set_record_id-IsValid c p r inside v;
            found = rw (hit, find) refl;
            reads = λ e. find-set_record_id_self p inside hit;
            keeps = find-set_record_id_ne p inside hit;
          })
  ]
