-- ===== src/LiveStore/Advance.antt =====
-- The write position of memstore/live_store.go.
use native.Mathlib.Nat.{mod-eq_of_lt, add-mul, mul-le-mul_left, mul-le-mul_right, mul-one}
use mathlib.Core.Path.{subst}
use mathlib.Core.Option.{none-ne-some, some_inj}
use aresdb.Prelude.{
  ℕ, zero, suc, ◌+◌, ◌*◌, ◌^◌, ◌<◌, ◌≤◌, ◌≡◌, refl, sym, ap, ◌∙◌, inl, inr, Option, none, some,
  List, ◌∷◌, arith, ltb, ◌==◌, ==_iff, Bool-cases, Option-cases,
}
use aresdb.LiveStore.{
  LiveRecord, LiveBatch, LiveStore, new_live_store, lookup, get_batch, append_batch,
  get_or_create_batch, next_record, move_on, advance_next_write_record,
}

-- The row number of a position, with `size` rows to a batch.
abbrev pub row : ℕ → LiveRecord → ℕ
row size r = r.batch_id * size + r.index

-- All batches have the size that the store gives new ones, the write position is at a row of a batch,
-- and so is the read position, which is not ahead of it. Batches may have been purged.
pub record IsValid (s : LiveStore) : Type 0 where
  pub some_rows : 0 < s.batch_size
  pub few_rows : s.batch_size ≤ 2 ^ 32
  pub sized : (id : ℕ) (b : LiveBatch) → lookup s.batches id ≡ some b → b.capacity ≡ s.batch_size
  pub inside : s.next_write_record.index < s.batch_size
  pub read : row s.batch_size s.last_read_record ≤ row s.batch_size s.next_write_record
  pub read_inside : s.last_read_record.index < s.batch_size

abbrev new_batch : LiveStore → LiveBatch
new_batch s = record { capacity = s.batch_size }

get_or_create_batch-some :
    (s : LiveStore) (id : ℕ) (b : LiveBatch)
    → lookup s.batches id ≡ some b
    → get_or_create_batch s id ≡ (s, some b)
unfolding get_or_create_batch get_batch
get_or_create_batch-some s id b e = rw (get_or_create_batch, get_batch, e) refl

get_or_create_batch-none :
    (s : LiveStore) (id : ℕ)
    → lookup s.batches id ≡ none
    → get_or_create_batch s id
      ≡ (record s { batches = (id, new_batch s) ∷ s.batches }, some (new_batch s))
unfolding get_or_create_batch get_batch append_batch
get_or_create_batch-none s id e = rw (get_or_create_batch, get_batch, e) (rw (append_batch, e) refl)

next_batch : (b size i : ℕ) → i + 1 ≡ size → (b + 1) * size + 0 ≡ b * size + i + 1
next_batch b size i h = omega (arith, add-mul b 1 size)

-- The position moves by one row, unless the batch ids run out.
next_record-row :
    (size : ℕ) (r : LiveRecord)
    → size ≤ 2 ^ 32
    → r.index < size
    → r.batch_id + 1 < 2 ^ 32
    → (row size (next_record size r) ≡ row size r + 1) × ((next_record size r).index < size)
unfolding next_record
next_record-row size r few inside more = elim (Bool-cases (r.index + 1 == size)) [
  | inl e ↦
      let size_is : r.index + 1 ≡ size = (==_iff _ _).0 e in
      rw (e, next_record, mod-eq_of_lt more)
        (next_batch r.batch_id size r.index size_is, omega arith)
  | inr e ↦
      let below : r.index + 1 < size = ground arith in
      let small : r.index + 1 < 2 ^ 32 = omega arith in
      rw (e, next_record, mod-eq_of_lt small) (omega arith, below)
]

-- A store before and after AdvanceNextWriteRecord, which returns `r`.
pub record Advances (s s' : LiveStore) (r : LiveRecord) : Type 0 where
  pub valid : IsValid s'
  pub returned : r ≡ s'.next_write_record
  pub one_row : row s.batch_size s'.next_write_record ≡ row s.batch_size s.next_write_record + 1
  pub size : s'.batch_size ≡ s.batch_size
  pub there : (b : LiveBatch) × (lookup s'.batches s.next_write_record.batch_id ≡ some b)
  pub keeps :
      (id : ℕ) (b : LiveBatch) → lookup s.batches id ≡ some b → lookup s'.batches id ≡ some b
  pub unread : s'.last_read_record ≡ s.last_read_record

module _ (s : LiveStore) (v : IsValid s) (more : s.next_write_record.batch_id + 1 < 2 ^ 32) where
  abbrev next : LiveRecord
  next = next_record s.batch_size s.next_write_record

  -- The position moves in a store whose batches are `bs`.
  moved :
      (bs : List (ℕ × LiveBatch))
      → ((id : ℕ) (b : LiveBatch) → lookup bs id ≡ some b → b.capacity ≡ s.batch_size)
      → (b : LiveBatch) × (lookup bs s.next_write_record.batch_id ≡ some b)
      → ((id : ℕ) (b : LiveBatch) → lookup s.batches id ≡ some b → lookup bs id ≡ some b)
      → Advances s (record s { batches = bs; next_write_record = next }) next
  moved bs sized there keeps =
      let step = next_record-row s.batch_size s.next_write_record v.few_rows v.inside more in
      record {
        valid = record {
          some_rows = v.some_rows;
          few_rows = v.few_rows;
          sized = sized;
          inside = step.1;
          read = omega (arith, step.0, v.read);
          read_inside = v.read_inside;
        };
        returned = refl;
        one_row = step.0;
        size = refl;
        there = there;
        keeps = keeps;
        unread = refl;
      }

  -- AdvanceNextWriteRecord of a valid store whose batch ids do not run out: the store stays valid
  -- with the batch of the old position in it, and the new position, which is returned, is one row
  -- further.
  pub advance_next_write_record-Advances : let x = advance_next_write_record s in Advances s x.0 x.1
  unfolding advance_next_write_record move_on lookup
  advance_next_write_record-Advances =
      let id = s.next_write_record.batch_id in
      elim (Option-cases (lookup s.batches id)) [
        | inr (b, e) ↦
            subst after (sym (get_or_create_batch-some s id b e))
              (rw (v.sized id b e) (moved s.batches v.sized (b, e) (λ i b' h. h)))
        | inl e ↦ subst after (sym (get_or_create_batch-none s id e)) (
            moved ((id, new_batch s) ∷ s.batches)
              (λ i b h. elim (Bool-cases (id == i)) [
                | inl same ↦ ap (λ (x : LiveBatch). x.capacity) (sym (some_inj.0 (rw same at h)))
                | inr other ↦ v.sized i b (rw other at h)
              ])
              (new_batch s, ground arith)
              (λ i b h. elim (Bool-cases (id == i)) [
                | inl same ↦
                    let at : lookup s.batches i ≡ none =
                      subst (λ j. lookup s.batches j ≡ none) ((==_iff id i).0 same) e in
                    absurd (none-ne-some _ (sym at ∙ h))
                | inr other ↦ rw other h
              ]))
      ]
    where
      after : LiveStore × Option LiveBatch → Type 0
      after x = Advances s (move_on s.next_write_record x).0 (move_on s.next_write_record x).1

-- The store after `n` calls of AdvanceNextWriteRecord.
unfoldable pub advanced : ℕ → LiveStore → LiveStore
unfolding advance_next_write_record
advanced zero s = s
advanced (suc n) s = advanced n (advance_next_write_record s).0

pub few_ids :
    (s : LiveStore)
    → IsValid s
    → (n : ℕ) → row s.batch_size s.next_write_record + suc n < 2 ^ 32
    → s.next_write_record.batch_id + 1 < 2 ^ 32
few_ids s v n more =
    let id = s.next_write_record.batch_id in
    let some_row : 1 ≤ s.batch_size = v.some_rows in
    omega (arith, mul-le-mul_left id some_row, mul-one id)

-- Two positions at one row are in one batch.
row-batch_id :
    (size : ℕ) (p q : LiveRecord)
    → p.index < size
    → q.index < size
    → row size p ≡ row size q
    → p.batch_id ≡ q.batch_id
row-batch_id size p q below_p below_q same = elim (Bool-cases (ltb p.batch_id q.batch_id)) [
  | inl less ↦ absurd (ordered size p q below_p (ground arith) same)
  | inr no_less ↦ elim (Bool-cases (ltb q.batch_id p.batch_id)) [
    | inl less ↦ absurd (ordered size q p below_q (ground arith) (sym same))
    | inr no_more ↦ ground arith
  ]
]
  where
    ordered :
        (size : ℕ) (p q : LiveRecord)
        → p.index < size
        → p.batch_id + 1 ≤ q.batch_id
        → row size p ≡ row size q
        → ⊥
    ordered size p q below less same =
        omega (arith, below, same, add-mul p.batch_id 1 size, mul-le-mul_right size less)

-- The batch of the position is in the store, with as many rows as the store gives a batch.
abbrev pub HasBatch : LiveStore → LiveRecord → Type 0
HasBatch s r =
    (b : LiveBatch) × (lookup s.batches r.batch_id ≡ some b) × (b.capacity ≡ s.batch_size)

-- After `n` calls the write position of a valid store is `n` rows further, the batch of each position
-- that was passed is in the store, with the rows of a batch, all batches that were there are as they
-- were, the store is valid and what can be read is as before, as long as the number of that row is
-- below 2 ^ 32, so that no batch id wraps around.
pub advanced-row :
    (n : ℕ) (s : LiveStore)
    → IsValid s
    → row s.batch_size s.next_write_record + n < 2 ^ 32
    → let s' = advanced n s in
      IsValid s'
      × (row s.batch_size s'.next_write_record ≡ row s.batch_size s.next_write_record + n)
      × (s'.batch_size ≡ s.batch_size)
      × (s'.last_read_record ≡ s.last_read_record)
      × ((r : LiveRecord)
          → r.index < s.batch_size
          → row s.batch_size s.next_write_record ≤ row s.batch_size r
          → row s.batch_size r < row s.batch_size s.next_write_record + n
          → HasBatch s' r)
      × ((id : ℕ) (b : LiveBatch) → lookup s.batches id ≡ some b → lookup s'.batches id ≡ some b)
unfolding advanced
advanced-row zero s v more =
    (v, omega arith, refl, refl, λ r inside from below. absurd (omega arith), λ id b h. h)
advanced-row (suc n) s v more =
    let a = advance_next_write_record-Advances s v (few_ids s v n more) in
    let s1 = (advance_next_write_record s).0 in
    let ih = advanced-row n s1 a.valid (rw a.size (rw a.one_row (omega arith))) in
    let there = rw a.size at ih.1 in
    let (b, at_start) = a.there in
    (
      ih.0,
      there ∙ rw a.one_row (omega arith),
      ih.2 ∙ a.size,
      ih.3 ∙ a.unread,
      λ r inside from below.
          elim (Bool-cases (row s.batch_size r == row s.batch_size s.next_write_record)) [
            | inl same ↦
                let at_r =
                  subst (λ id. lookup s1.batches id ≡ some b)
                    (row-batch_id s.batch_size s.next_write_record r v.inside inside
                      (sym ((==_iff _ _).0 same)))
                    at_start in
                (b, ih.5 r.batch_id b at_r, a.valid.sized r.batch_id b at_r ∙ sym ih.2)
            | inr later ↦
                let from' : row s.batch_size s.next_write_record + 1 ≤ row s.batch_size r =
                  ground arith in
                ih.4 r (rw a.size inside) (rw a.size (rw a.one_row from'))
                  (rw a.size (rw a.one_row (omega arith)))
          ],
      λ id b' h. ih.5 id b' (a.keeps id b' h),
    )

-- A new store is valid.
pub new-IsValid : (size : ℕ) → 0 < size → size ≤ 2 ^ 32 → IsValid (new_live_store size)
unfolding new_live_store lookup
new-IsValid size pos few = record {
  some_rows = pos;
  few_rows = few;
  sized = λ id b h. absurd (none-ne-some _ h);
  inside = pos;
  read = omega arith;
  read_inside = pos;
}
