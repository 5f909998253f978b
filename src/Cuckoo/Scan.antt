-- ===== src/Cuckoo/Scan.antt =====
-- The single pass of findOrAddNew over the buckets, against two searches: for the key, and for the
-- first vacant slot (memstore/cuckoo_index.go).
use mathlib.Core.Bool.{false≢true}
use mathlib.Core.Option.{some-ne-none}
use native.Mathlib.Decide.{ℕ_discrete}
use aresdb.Prelude.{
  ℕ, zero, suc, ◌+◌, ◌≤◌, ◌<◌, ◌≡◌, refl, sym, ◌⊎◌, inl, inr, ◌∙◌, true, false, Option, none, some,
  List, [], ◌∷◌, arith, Bool-cases,
}
use aresdb.Record.{Key}
use aresdb.Cuckoo.{CuckooIndex, HashResult}
use aresdb.Cuckoo.Insert.{Scan, existing, absent, mark, vacant, same_key, scan_bucket, scan_buckets}
use aresdb.Cuckoo.Search.{Among}

module _ {R : Type 0} (c : CuckooIndex R) (key : Key) (h : HashResult) where
  -- What the loop over `n` slots from `p` has seen, given the vacant slot seen before.
  abbrev BucketScan : ℕ → ℕ → Option (HashResult × ℕ) → Scan → Type 0
  BucketScan n p free (existing q) =
      (p ≤ q) × (q < p + n) × (vacant c q ≡ false) × (same_key c key h q ≡ true)
  BucketScan n p free (absent f) =
      ((q : ℕ) → p ≤ q → q < p + n → vacant c q ≡ false → same_key c key h q ≡ false)
      × (((f ≡ free) × (free ≡ none → (q : ℕ) → p ≤ q → q < p + n → vacant c q ≡ false))
          ⊎ ((q : ℕ) × (p ≤ q) × (q < p + n) × (vacant c q ≡ true) × (f ≡ some (h, q))))

  -- One more slot in front, vacant.
  extend_vacant :
      (n p : ℕ) (free : Option (HashResult × ℕ)) (r : Scan)
      → vacant c p ≡ true
      → BucketScan n (suc p) (mark free h p) r
      → BucketScan (suc n) p free r
  extend_vacant n p free (existing q) v (lo, hi, used, same) =
      (omega arith, omega arith, used, same)
  extend_vacant n p none (absent f) v (no_match, seen) = (
    λ q lo hi used. elim (ℕ_discrete p q) [
      | yes e ↦ absurd (false≢true (sym used ∙ rw (← e) v))
      | no ne ↦ no_match q (omega arith) (omega arith) used
    ],
    elim seen [
      | inl (marked, _) ↦ inr (p, omega arith, omega arith, v, marked)
      | inr (q, lo, hi, free_at, marked) ↦ inr (q, omega arith, omega arith, free_at, marked)
    ],
  )
  extend_vacant n p (some g) (absent f) v (no_match, seen) = (
    λ q lo hi used. elim (ℕ_discrete p q) [
      | yes e ↦ absurd (false≢true (sym used ∙ rw (← e) v))
      | no ne ↦ no_match q (omega arith) (omega arith) used
    ],
    elim seen [
      | inl (marked, _) ↦ inl (marked, λ e. absurd (some-ne-none _ e))
      | inr (q, lo, hi, free_at, marked) ↦ inr (q, omega arith, omega arith, free_at, marked)
    ],
  )

  -- One more slot in front, in use by another key.
  extend_used :
      (n p : ℕ) (free : Option (HashResult × ℕ)) (r : Scan)
      → vacant c p ≡ false
      → same_key c key h p ≡ false
      → BucketScan n (suc p) free r
      → BucketScan (suc n) p free r
  extend_used n p free (existing q) v d (lo, hi, used, same) =
      (omega arith, omega arith, used, same)
  extend_used n p free (absent f) v d (no_match, seen) = (
    λ q lo hi used. elim (ℕ_discrete p q) [
      | yes e ↦ rw (← e) d
      | no ne ↦ no_match q (omega arith) (omega arith) used
    ],
    elim seen [
      | inl (same, full) ↦ inl (
        same,
        λ none_seen q lo hi. elim (ℕ_discrete p q) [
          | yes e ↦ rw (← e) v
          | no ne ↦ full none_seen q (omega arith) (omega arith)
        ],
      )
      | inr (q, lo, hi, free_at, marked) ↦ inr (q, omega arith, omega arith, free_at, marked)
    ],
  )

  scan_bucket-scans :
      (n p : ℕ) (free : Option (HashResult × ℕ))
      → BucketScan n p free (scan_bucket c key h n p free)
  unfolding scan_bucket
  scan_bucket-scans zero p free =
      (λ q lo hi. absurd (omega arith), inl (refl, λ _ q lo hi. absurd (omega arith)))
  scan_bucket-scans (suc n) p free = elim (Bool-cases (vacant c p)) [
    | inl v ↦ rw v (extend_vacant n p free _ v (scan_bucket-scans n (suc p) (mark free h p)))
    | inr v ↦ elim (Bool-cases (same_key c key h p)) [
      | inl same ↦ rw v (rw same (omega arith, omega arith, v, same))
      | inr differ ↦
          rw v (rw differ (extend_used n p free _ v differ (scan_bucket-scans n (suc p) free)))
    ]
  ]

module _ {R : Type 0} (c : CuckooIndex R) (key : Key) where
  -- What the loops over the buckets of `hs` have seen: a slot in use by the key; or no such slot
  -- in them, and a vacant slot if one was seen.
  abbrev pub BucketsScan : List HashResult → Option (HashResult × ℕ) → Scan → Type 0
  BucketsScan hs free (existing q) =
      (h : HashResult) × Among h hs
      × ((h.bucket ≤ q) × (q < h.bucket + 8) × (vacant c q ≡ false) × (same_key c key h q ≡ true))
  BucketsScan hs free (absent f) =
      ((h : HashResult)
        → Among h hs
        → (q : ℕ) → h.bucket ≤ q
        → q < h.bucket + 8
        → vacant c q ≡ false
        → same_key c key h q ≡ false)
      × (((f ≡ free)
            × (free ≡ none
                → (h : HashResult) → Among h hs
                → (q : ℕ) → h.bucket ≤ q
                → q < h.bucket + 8
                → vacant c q ≡ false))
          ⊎ ((h : HashResult) × Among h hs
              × ((q : ℕ) × (h.bucket ≤ q)
                  × (q < h.bucket + 8)
                  × (vacant c q ≡ true)
                  × (f ≡ some (h, q)))))

  -- One more bucket in front, without the key.
  extend_buckets :
      (g : HashResult) (hs : List HashResult) (free f : Option (HashResult × ℕ)) (r : Scan)
      → BucketScan c key g 8 g.bucket free (absent f)
      → BucketsScan hs f r
      → BucketsScan (g ∷ hs) free r
  extend_buckets g hs free f (existing q) s (h, m, rest) = (h, inr m, rest)
  extend_buckets g hs free f (absent f') (no_match, seen) (no_match', seen') = (
    λ h m q lo hi used. elim m [
      | inl e ↦ rw e (no_match q (rw (← e) lo) (rw (← e) hi) used)
      | inr m' ↦ no_match' h m' q lo hi used
    ],
    elim seen' [
      | inr (h, m, rest) ↦ inr (h, inr m, rest)
      | inl (same', full') ↦ elim seen [
        | inr (q, lo, hi, free_at, marked) ↦ inr (g, inl refl, (q, lo, hi, free_at, same' ∙ marked))
        | inl (same, full) ↦ inl (
          same' ∙ same,
          λ none_seen h m q lo hi. elim m [
            | inl e ↦ full none_seen q (rw (← e) lo) (rw (← e) hi)
            | inr m' ↦ full' (same ∙ none_seen) h m' q lo hi
          ],
        )
      ]
    ],
  )

  -- The pass over the buckets of `hs`, with `free` the slot marked so far, ends at a slot that is in
  -- use and holds the key, or else no slot in use holds the key; then the mark is as before, and
  -- every slot is in use if there was none, or it is a vacant slot of these buckets.
  pub scan_buckets-scans :
      (hs : List HashResult) (free : Option (HashResult × ℕ))
      → BucketsScan hs free (scan_buckets c key hs free)
  unfolding scan_buckets
  scan_buckets-scans [] free = (λ h m. absurd m, inl (refl, λ _ h m. absurd m))
  scan_buckets-scans (g ∷ hs) free =
      combine (scan_bucket c key g 8 g.bucket free) (scan_bucket-scans c key g 8 g.bucket free)
        (scan_buckets-scans hs)
    where
      combine :
          (r : Scan)
          → BucketScan c key g 8 g.bucket free r
          → ((f : Option (HashResult × ℕ)) → BucketsScan hs f (scan_buckets c key hs f))
          → BucketsScan
              (g ∷ hs)
              free
              (elim r [ existing p ↦ existing p | absent f ↦ scan_buckets c key hs f ])
      combine (existing q) s ih = (g, inl refl, s)
      combine (absent f) s ih = extend_buckets g hs free f _ s (ih f)
