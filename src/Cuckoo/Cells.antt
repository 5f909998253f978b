-- ===== src/Cuckoo/Cells.antt =====
-- A write to one cell of the cuckoo index: what it changes for lookups, for the placement of items
-- and for the counts of occupied cells.
use native.Mathlib.Decide.{ℕ_discrete}
use aresdb.Prelude.{
  ℕ, zero, suc, ◌+◌, ◌≤◌, ◌<◌, ◌≡◌, refl, sym, ap, ◌⊎◌, inl, inr, ◌≢◌, ◌∙◌, true, false, Option,
  List, [], ◌∷◌, arith, ◌==◌, if◌then◌else◌, length, get_or, set, take, drop, get_or-set,
  length-set, replicate,
}
use aresdb.Record.{Key}
use aresdb.Cuckoo.{
  CuckooIndex, HashResult, Cell, empty_cell, cell_at, stash, hash, hashes, empty_signature,
  StagingEntry,
}
use aresdb.Cuckoo.Find.{HomeCell, Live, IsValid, LiveCell}

abbrev pub mark_of : Cell → ℕ
mark_of x = if x.signature == empty_signature then 0 else 1

-- The number of occupied cells.
pub occupied : List Cell → ℕ
occupied [] = 0
occupied (x ∷ xs) = mark_of x + occupied xs

module _ (v : Cell) where
  pub occupied-take-set :
      (n : ℕ) (xs : List Cell) (p : ℕ)
      → p < n
      → p < length xs
      → occupied (take n (set xs p v)) + mark_of (get_or xs p empty_cell)
        ≡ occupied (take n xs) + mark_of v
  unfolding occupied
  occupied-take-set zero xs p h inside = absurd (omega arith)
  occupied-take-set (suc n) [] p h inside = absurd (omega arith)
  occupied-take-set (suc n) (x ∷ xs) zero h inside = omega arith
  occupied-take-set (suc n) (x ∷ xs) (suc p) h inside =
      omega (arith, occupied-take-set n xs p (omega arith) (omega arith))

  pub take-set_beyond : (n : ℕ) (xs : List Cell) (p : ℕ) → n ≤ p → take n (set xs p v) ≡ take n xs
  take-set_beyond zero xs p h = refl
  take-set_beyond (suc n) [] p h = refl
  take-set_beyond (suc n) (x ∷ xs) zero h = absurd (omega arith)
  take-set_beyond (suc n) (x ∷ xs) (suc p) h =
      ap (λ t. x ∷ t) (take-set_beyond n xs p (omega arith))

  pub occupied-drop-set :
      (n : ℕ) (xs : List Cell) (p : ℕ)
      → n ≤ p
      → p < length xs
      → occupied (drop n (set xs p v)) + mark_of (get_or xs p empty_cell)
        ≡ occupied (drop n xs) + mark_of v
  unfolding occupied
  occupied-drop-set n [] p h inside = absurd (omega arith)
  occupied-drop-set zero (x ∷ xs) zero h inside = omega arith
  occupied-drop-set zero (x ∷ xs) (suc p) h inside =
      omega (arith, occupied-drop-set zero xs p (omega arith) (omega arith))
  occupied-drop-set (suc n) (x ∷ xs) zero h inside = absurd (omega arith)
  occupied-drop-set (suc n) (x ∷ xs) (suc p) h inside =
      occupied-drop-set n xs p (omega arith) (omega arith)

  pub drop-set_before : (n : ℕ) (xs : List Cell) (p : ℕ) → p < n → drop n (set xs p v) ≡ drop n xs
  drop-set_before zero xs p h = absurd (omega arith)
  drop-set_before (suc n) [] p h = refl
  drop-set_before (suc n) (x ∷ xs) zero h = refl
  drop-set_before (suc n) (x ∷ xs) (suc p) h = drop-set_before n xs p (omega arith)

pub occupied-pos :
    (xs : List Cell) (p : ℕ) → (get_or xs p empty_cell).signature ≢ 0 → 0 < occupied xs
unfolding occupied
occupied-pos [] p h = absurd (h refl)
occupied-pos (x ∷ xs) zero h = ground arith
occupied-pos (x ∷ xs) (suc p) h = omega (arith, occupied-pos xs p h)

pub occupied-take-replicate : (n m : ℕ) → occupied (take n (replicate m empty_cell)) ≡ 0
unfolding occupied
occupied-take-replicate zero m = refl
occupied-take-replicate (suc n) zero = refl
occupied-take-replicate (suc n) (suc m) = omega (arith, occupied-take-replicate n m)

occupied-replicate : (m : ℕ) → occupied (replicate m empty_cell) ≡ 0
unfolding occupied
occupied-replicate zero = refl
occupied-replicate (suc m) = omega (arith, occupied-replicate m)

pub occupied-drop-replicate : (n m : ℕ) → occupied (drop n (replicate m empty_cell)) ≡ 0
unfolding occupied
occupied-drop-replicate zero m = occupied-replicate m
occupied-drop-replicate (suc n) zero = refl
occupied-drop-replicate (suc n) (suc m) = occupied-drop-replicate n m

module _ {R : Type 0} where
  -- The two counters agree with the cells.
  pub record IsCounted (c : CuckooIndex R) : Type 0 where
    pub in_buckets : c.num_bucket_entries ≡ occupied (take (stash c) c.cells)
    pub in_stash : c.num_stash_entries ≡ occupied (drop (stash c) c.cells)

  -- No key is in two slots, unexpired in both.
  abbrev pub IsUnique : CuckooIndex R → Type 0
  IsUnique c = (k : Key) (p q : ℕ) → Live c k p → Live c k q → p ≡ q

  abbrev pub write : CuckooIndex R → ℕ → Cell → CuckooIndex R
  write c p v = record c { cells = set c.cells p v }

module _ {R : Type 0} (c : CuckooIndex R) (p : ℕ) (v : Cell) (inside : p < length c.cells) where
  pub cell_at-write_self : cell_at (write c p v) p ≡ v
  cell_at-write_self = ground (arith, get_or-set c.cells p p v empty_cell inside)

  pub cell_at-write_ne : (q : ℕ) → p ≢ q → cell_at (write c p v) q ≡ cell_at c q
  cell_at-write_ne q ne = ground (arith, get_or-set c.cells p q v empty_cell inside)

  -- A write keeps the index well formed if the new item, if any, is at home.
  pub write-IsValid :
      IsValid c
      → ((v.signature == empty_signature) ≡ false
          → p < stash c
          → (h : HashResult) × HomeCell (hashes c v.key) v.signature p h)
      → (stash c + 4 ≤ p → (v.signature == empty_signature) ≡ true)
      → IsValid (write c p v)
  unfolding hashes hash
  write-IsValid valid home spare = record {
    some_bucket = valid.some_bucket;
    sized = length-set c.cells p v ∙ valid.sized;
    placed = λ q in_bucket occ. elim (ℕ_discrete p q) [
      | yes e ↦
          let same : cell_at (write c p v) q ≡ v = rw (← e) cell_at-write_self in
          let (h, home') = home (rw same at occ) (rw e in_bucket) in (h, rw same (rw (← e) home'))
      | no ne ↦
          let same = cell_at-write_ne q ne in
          let (h, home') = valid.placed q in_bucket (rw same at occ) in (h, rw same home')
    ];
    spare = λ q far. elim (ℕ_discrete p q) [
      | yes e ↦
          let same : cell_at (write c p v) q ≡ v = rw (← e) cell_at-write_self in
          rw same (spare (rw e far))
      | no ne ↦ rw (cell_at-write_ne q ne) (valid.spare q far)
    ];
  }

  -- Only the slot that is written changes for lookups.
  pub Live-write_ne : (k : Key) (q : ℕ) → p ≢ q → Live c k q → Live (write c p v) k q
  Live-write_ne k q ne l = rw (cell_at-write_ne q ne) l

  pub Live-of_write_ne : (k : Key) (q : ℕ) → p ≢ q → Live (write c p v) k q → Live c k q
  Live-of_write_ne k q ne l = rw (cell_at-write_ne q ne) at l

  -- What the cell of a lookup is after the write.
  pub Live-of_write :
      (k : Key) (q : ℕ)
      → Live (write c p v) k q
      → (LiveCell v c.has_event_time c.event_time_cutoff k × (p ≡ q)) ⊎ (Live c k q × (p ≢ q))
  Live-of_write k q l = elim (ℕ_discrete p q) [
    | yes e ↦ inl (rw (cell_at-write_self) at (rw (sym e) at l), e)
    | no ne ↦ inr (Live-of_write_ne k q ne l, ne)
  ]

module _ {R : Type 0} (c : CuckooIndex R) (p : ℕ) (v : Cell) (inside : p < length c.cells) where
  -- The counters follow a write to a bucket.
  pub write-counts_bucket :
      p < stash c
      → IsCounted c
      → (occupied (take (stash c) (set c.cells p v)) + mark_of (cell_at c p)
          ≡ c.num_bucket_entries + mark_of v)
        × (c.num_stash_entries ≡ occupied (drop (stash c) (set c.cells p v)))
  write-counts_bucket h counted = (
    omega (arith, occupied-take-set v (stash c) c.cells p h inside, counted.in_buckets),
    counted.in_stash ∙ ap occupied (sym (drop-set_before v (stash c) c.cells p h)),
  )

  -- The counters follow a write to the stash.
  pub write-counts_stash :
      stash c ≤ p
      → IsCounted c
      → (occupied (drop (stash c) (set c.cells p v)) + mark_of (cell_at c p)
          ≡ c.num_stash_entries + mark_of v)
        × (c.num_bucket_entries ≡ occupied (take (stash c) (set c.cells p v)))
  write-counts_stash h counted = (
    omega (arith, occupied-drop-set v (stash c) c.cells p h inside, counted.in_stash),
    counted.in_buckets ∙ ap occupied (sym (take-set_beyond v (stash c) c.cells p h)),
  )

module _ {R : Type 0} (c : CuckooIndex R) (a b : ℕ) (s : Option StagingEntry) (r : R) where
  abbrev pub with_rest : CuckooIndex R
  with_rest = record c { num_bucket_entries = a; num_stash_entries = b; staging = s; rand = r }

  -- The counters, the staging area and the random source are no part of the shape.
  pub with_rest-IsValid : IsValid c → IsValid with_rest
  unfolding hashes hash
  with_rest-IsValid v = record {
    some_bucket = v.some_bucket;
    sized = v.sized;
    placed = v.placed;
    spare = v.spare;
  }
