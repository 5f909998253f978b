-- ===== src/Cuckoo/Search.antt =====
-- What the search loops of the cuckoo index promise, and its access to the cells.
use mathlib.Core.Option.{some_inj, some-ne-none}
use mathlib.Core.Path.{subst}
use aresdb.Prelude.{
  ℕ, zero, suc, ◌+◌, ◌*◌, ◌≤◌, ◌<◌, ◌≡◌, refl, sym, ◌⊎◌, inl, inr, Bool, true, false, none, some,
  List, [], ◌∷◌, arith, ◌==◌, ==_iff, Bool-cases, Option-cases,
}
use aresdb.Record.{Key, bucket_size}
use aresdb.Cuckoo.{
  CuckooIndex, HashResult, mem_equal, extract_signature_byte, hash, hashes, first, search_buckets,
}

pub mem_equal_refl : (k : Key) → mem_equal k k ≡ true
unfolding mem_equal
mem_equal_refl [] = refl
mem_equal_refl (x ∷ k) = ground (arith, mem_equal_refl k)

pub mem_equal→eq : (k j : Key) → mem_equal k j ≡ true → k ≡ j
unfolding mem_equal
mem_equal→eq [] [] h = refl
mem_equal→eq [] (y ∷ j) h = cc
mem_equal→eq (x ∷ k) [] h = cc
mem_equal→eq (x ∷ k) (y ∷ j) h = ground (arith, mem_equal→eq k j)

-- A slot where the loop may stop, in `n` slots from `i`.
pub record FirstAt (n i : ℕ) (test : ℕ → Bool) (p : ℕ) : Type 0 where
  pub from : i ≤ p
  pub below : p < i + n
  pub passes : test p ≡ true

pub first-some : (n i : ℕ) (test : ℕ → Bool) (p : ℕ) → first n i test ≡ some p → FirstAt n i test p
unfolding first
first-some zero i test p h = cc
first-some (suc n) i test p h = elim (Bool-cases (test i)) [
  | inl hit ↦
      let e : i ≡ p = ground arith in
      record { from = omega arith; below = omega arith; passes = rw (← e) hit }
  | inr miss ↦
      let r = first-some n (suc i) test p (ground arith) in
      record { from = omega (arith, r.from); below = omega (arith, r.below); passes = r.passes }
]

pub first-none :
    (n i : ℕ) (test : ℕ → Bool)
    → first n i test ≡ none
    → (p : ℕ) → i ≤ p
    → p < i + n
    → test p ≡ false
unfolding first
first-none zero i test h p lo hi = absurd (omega arith)
first-none (suc n) i test h p lo hi = elim (Bool-cases (test i)) [
  | inl hit ↦ absurd (ground arith)
  | inr miss ↦ elim (Bool-cases (i == p)) [
    | inl e ↦ rw (← (==_iff i p).0 e) miss
    | inr ne ↦ first-none n (suc i) test (ground arith) p (ground arith) (omega arith)
  ]
]

-- `h` is one of the hash results `hs`.
abbrev pub Among : HashResult → List HashResult → Type 0
Among h [] = ⊥
Among h (g ∷ hs) = (h ≡ g) ⊎ Among h hs

pub record BucketAt (hs : List HashResult) (test : HashResult → ℕ → Bool) (r : HashResult × ℕ)
    : Type 0 where
  pub from_hash : Among r.0 hs
  pub at : FirstAt bucket_size r.0.bucket (test r.0) r.1

pub search_buckets-some :
    (hs : List HashResult) (test : HashResult → ℕ → Bool) (r : HashResult × ℕ)
    → search_buckets hs test ≡ some r
    → BucketAt hs test r
unfolding search_buckets
search_buckets-some [] test r e = cc
search_buckets-some (g ∷ hs) test r e = elim (Option-cases (first bucket_size g.bucket (test g))) [
  | inl miss ↦
      let b = search_buckets-some hs test r (rw (miss, search_buckets) at e) in
      record { from_hash = inr b.from_hash; at = b.at }
  | inr (q, hit) ↦
      let e' : some (g, q) ≡ some r = rw (hit, search_buckets) at e in
      subst (BucketAt (g ∷ hs) test) (some_inj.0 e')
        (record { from_hash = inl refl; at = first-some 8 g.bucket (test g) q hit })
]

pub search_buckets-none :
    (hs : List HashResult) (test : HashResult → ℕ → Bool)
    → search_buckets hs test ≡ none
    → (h : HashResult) → Among h hs
    → (p : ℕ) → h.bucket ≤ p
    → p < h.bucket + 8
    → test h p ≡ false
unfolding search_buckets
search_buckets-none [] test e h m p lo hi = absurd m
search_buckets-none (g ∷ hs) test e h m p lo hi =
    elim (Option-cases (first bucket_size g.bucket (test g))) [
      | inr (q, hit) ↦
          let e' : some (g, q) ≡ none = rw (hit, search_buckets) at e in absurd (some-ne-none _ e')
      | inl miss ↦ elim m [
        | inl same ↦
            rw same (first-none 8 g.bucket (test g) miss p (rw (← same) lo) (rw (← same) hi))
        | inr m' ↦ search_buckets-none hs test (rw (miss, search_buckets) at e) h m' p lo hi
      ]
    ]

-- The signature of a key is never the empty mark.
pub signature-pos : (x : ℕ) → 0 < extract_signature_byte x
unfolding extract_signature_byte
signature-pos x = ground arith

module _ {R : Type 0} (c : CuckooIndex R) (key : Key) where
  -- What holds of each hash result holds of all that the loops see.
  pub hashes-all {ℓ} :
      (P : HashResult → Type ℓ)
      → ((j : ℕ) → P (hash c key j))
      → (h : HashResult) → Among h (hashes c key)
      → P h
  unfolding hashes
  hashes-all P all h (inl e) = subst P (sym e) (all 0)
  hashes-all P all h (inr (inl e)) = subst P (sym e) (all 1)
  hashes-all P all h (inr (inr (inl e))) = subst P (sym e) (all 2)
  hashes-all P all h (inr (inr (inr (inl e)))) = subst P (sym e) (all 3)
  hashes-all P all h (inr (inr (inr (inr m)))) = absurd m

  hash-signature : (j : ℕ) → 0 < (hash c key j).signature
  unfolding hash
  hash-signature j = signature-pos _

  hash-bucket : 0 < c.num_buckets → (j : ℕ) → (hash c key j).bucket + 8 ≤ c.num_buckets * 8
  unfolding hash
  hash-bucket pos j = omega arith

  pub hashes-signature : (h : HashResult) → Among h (hashes c key) → 0 < h.signature
  hashes-signature = hashes-all (λ h. 0 < h.signature) hash-signature

  -- A bucket lies before the stash.
  pub hashes-bucket :
      0 < c.num_buckets
      → (h : HashResult) → Among h (hashes c key)
      → h.bucket + 8 ≤ c.num_buckets * 8
  hashes-bucket pos = hashes-all (λ h. h.bucket + 8 ≤ c.num_buckets * 8) (hash-bucket pos)
