-- ===== src/Cuckoo/Find.antt =====
-- Lookups in a well-formed cuckoo index: Find and Update of memstore/cuckoo_index.go.
use mathlib.Core.Bool.{false≢true}
use mathlib.Core.Option.{some_inj, some-ne-none}
use mathlib.Core.Path.{subst, ◌≡◌, refl}
use native.Mathlib.Decide.{dec_lt}
use aresdb.Prelude.{
  ℕ, ◌+◌, ◌≤◌, ◌<◌, sym, inl, inr, ◌∙◌, true, false, none, some, arith, Option-cases, length,
  get_or-beyond, ap, ◌↔◌, ◌==◌, Bool, ◌&&◌, ltb, List,
}
use aresdb.Record.{Key, RecordId}
use aresdb.Cuckoo.{
  CuckooIndex, HashResult, cell_at, stash, hashes, is_empty, search_buckets, empty_cell, Cell,
  empty_signature, zero_id,
}
use aresdb.Cuckoo.Lookup.{locate, bucket_hit, stash_hit, find}
use aresdb.Cuckoo.Search.{
  Among, first-some, first-none, search_buckets-some, search_buckets-none, hashes-signature,
  mem_equal→eq, mem_equal_refl,
}

-- A slot that a lookup of `key` may find, in an index with or without event times.
pub record LiveCell (cell : Cell) (timed : Bool) (cutoff : ℕ) (key : Key) : Type 0 where
  pub occupied : (cell.signature == empty_signature) ≡ false
  pub current : (timed && ltb cell.event_time cutoff) ≡ false
  pub keyed : cell.key ≡ key

-- Slot `p` of a bucket that `h`, one of the hash results `hs`, leads to, and its signature.
pub record HomeCell (hs : List HashResult) (signature p : ℕ) (h : HashResult) : Type 0 where
  pub hashed : Among h hs
  pub from : h.bucket ≤ p
  pub below : p < h.bucket + 8
  pub signed : signature ≡ h.signature

module _ {R : Type 0} where
  abbrev pub Live : CuckooIndex R → Key → ℕ → Type 0
  Live c key p = LiveCell (cell_at c p) c.has_event_time c.event_time_cutoff key

  abbrev pub Home : CuckooIndex R → ℕ → HashResult → Type 0
  Home c p h = HomeCell (hashes c (cell_at c p).key) (cell_at c p).signature p h

  -- The shape of the memory, and every item in a bucket that one of its hashes leads to.
  pub record IsValid (c : CuckooIndex R) : Type 0 where
    pub some_bucket : 0 < c.num_buckets
    pub sized : length c.cells ≡ stash c + 8
    pub placed : (p : ℕ) → p < stash c → is_empty c p ≡ false → (h : HashResult) × Home c p h
    pub spare : (p : ℕ) → stash c + 4 ≤ p → is_empty c p ≡ true

module _ {R : Type 0} (c : CuckooIndex R) (key : Key) where
  bucket_hit-Live :
      (h : HashResult) (p : ℕ) → 0 < h.signature → bucket_hit c key h p ≡ true → Live c key p
  bucket_hit-Live h p pos e = record {
    occupied = ground arith;
    current = ground arith;
    keyed = mem_equal→eq _ _ (ground arith);
  }

  pub stash_hit-Live : (p : ℕ) → stash_hit c key p ≡ true → Live c key p
  stash_hit-Live p e = record {
    occupied = ground arith;
    current = ground arith;
    keyed = mem_equal→eq _ _ (ground arith);
  }

  -- The slot that a lookup stops at holds the key, unexpired.
  pub locate-some : (p : ℕ) → locate c key ≡ some p → Live c key p
  unfolding locate
  locate-some p e = elim (Option-cases (search_buckets (hashes c key) (bucket_hit c key))) [
    | inl miss ↦
        let s = first-some 4 (stash c) (stash_hit c key) p (rw (miss, locate) at e) in
        stash_hit-Live p s.passes
    | inr (r, hit) ↦
        let b = search_buckets-some (hashes c key) (bucket_hit c key) r hit in
        let e' : some r.1 ≡ some p = rw (hit, locate) at e in
        subst (Live c key) (some_inj.0 e')
          (bucket_hit-Live r.0 r.1 (hashes-signature c key r.0 b.from_hash) b.at.passes)
  ]

  Live-bucket_hit :
      (h : HashResult) (p : ℕ)
      → Live c key p
      → (cell_at c p).signature ≡ h.signature
      → bucket_hit c key h p ≡ true
  Live-bucket_hit h p l signed = rw l.keyed (ground (arith, mem_equal_refl key))

  pub Live-stash_hit : (p : ℕ) → Live c key p → stash_hit c key p ≡ true
  Live-stash_hit p l = rw l.keyed (ground (arith, mem_equal_refl key))

  -- A lookup that stops nowhere proves that the key is in no slot, unexpired.
  pub locate-none : IsValid c → locate c key ≡ none → (p : ℕ) → Live c key p → ⊥
  unfolding locate
  locate-none v e p l = elim (Option-cases (search_buckets (hashes c key) (bucket_hit c key))) [
    | inr (r, hit) ↦ let e' : some r.1 ≡ none = rw (hit, locate) at e in absurd (some-ne-none _ e')
    | inl miss ↦ elim (dec_lt p (stash c)) [
      | yes inside ↦
          let (h, home) = v.placed p inside l.occupied in
          let m =
            search_buckets-none (hashes c key) (bucket_hit c key) miss h
              (subst (λ k. Among h (hashes c k)) l.keyed home.hashed) p home.from home.below in
          false≢true (sym m ∙ Live-bucket_hit h p l home.signed)
      | no outside ↦ elim (dec_lt p (stash c + 4)) [
        | yes near ↦
            let m =
              first-none 4 (stash c) (stash_hit c key) (rw (miss, locate) at e) p (omega arith)
                near in
            false≢true (sym m ∙ Live-stash_hit p l)
        | no far ↦ false≢true (sym l.occupied ∙ v.spare p (omega arith))
      ]
    ]
  ]

module _ {R : Type 0} (c : CuckooIndex R) (key : Key) where
  pub Live-lt : (p : ℕ) → Live c key p → p < length c.cells
  Live-lt p l = elim (dec_lt p (length c.cells)) [
    | yes h ↦ h
    | no h ↦
        let e = get_or-beyond c.cells p empty_cell (omega arith) in
        absurd (false≢true (sym l.occupied ∙ rw e refl))
  ]

  -- In a well-formed index Find reports the key exactly when some slot holds it unexpired.
  pub find-found_iff : IsValid c → ((find c key).1 ≡ true) ↔ ((p : ℕ) × Live c key p)
  unfolding find
  find-found_iff v = elim (Option-cases (locate c key)) [
    | inl miss ↦ (
      λ e. absurd (false≢true (rw (miss, find) at e)),
      λ l. absurd (locate-none c key v miss l.0 l.1),
    )
    | inr (p, hit) ↦ (λ e. (p, locate-some c key p hit), λ l. rw (hit, find))
  ]

  -- In a well-formed index where one slot at most holds the key unexpired, Find returns a record
  -- exactly if some slot holds the key unexpired with that record.
  pub find-record_iff :
      (r : RecordId)
      → IsValid c
      → ((p q : ℕ) → Live c key p → Live c key q → p ≡ q)
      → (find c key ≡ (r, true)) ↔ ((p : ℕ) × Live c key p × ((cell_at c p).record_id ≡ r))
  unfolding find
  find-record_iff r v one = elim (Option-cases (locate c key)) [
    | inl miss ↦ (
      λ e. absurd (false≢true (ap (λ t. t.1) (rw (miss, find) at e))),
      λ l. absurd (locate-none c key v miss l.0 l.1),
    )
    | inr (p, hit) ↦ (
      λ e. (p, locate-some c key p hit, ap (λ t. t.0) (rw (hit, find) at e)),
      λ l.
          let same = one p l.0 (locate-some c key p hit) l.1 in
          rw (hit, find) (ap (λ x. (x, true)) (ap (λ q. (cell_at c q).record_id) same ∙ l.2)),
    )
  ]

  -- Find of a key that no slot holds unexpired.
  pub find-missing : ((p : ℕ) → Live c key p → ⊥) → find c key ≡ (zero_id, false)
  unfolding find
  find-missing h = elim (Option-cases (locate c key)) [
    | inl miss ↦ rw (miss, find) refl
    | inr (p, hit) ↦ absurd (h p (locate-some c key p hit))
  ]
