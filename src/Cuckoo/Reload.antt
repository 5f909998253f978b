-- ===== src/Cuckoo/Reload.antt =====
-- The loops of resize in memstore/cuckoo_index.go fill the new index with all items of the old one.
use aresdb.Cuckoo.Evict.{with_rest-IsReady}
use mathlib.Core.Bool.{false≢true}
use mathlib.Core.Option.{none-ne-some, some_inj}
use mathlib.Core.Path.{subst, subst₂}
use native.Mathlib.Decide.{dec_lt, ℕ_discrete}
use aresdb.Prelude.{
  ℕ, zero, suc, ◌+◌, ◌<◌, ◌≡◌, refl, sym, ap, ◌↔◌, inl, inr, ◌≢◌, ◌∙◌, Bool, true, false, none,
  some, arith, Bool-cases,
}
use aresdb.Record.{Key, RecordId}
use aresdb.Cuckoo.{CuckooIndex, StagingEntry, cell_at, stash}
use aresdb.Cuckoo.Insert.{GoRuntime, Item, vacant}
use aresdb.Cuckoo.Resize.{reinsert, reinsert_staging}
use aresdb.Cuckoo.Find.{Live}
use aresdb.Cuckoo.Place.{SameTime, IsReady, IsNew, Adds, Stored, InHand, settings_of}
use aresdb.Cuckoo.Stash.{item_of, insert-cases}

pub SameTime-refl : (timed : Bool) (a : ℕ) → SameTime timed a a
SameTime-refl true a = refl
SameTime-refl false a = tt

module _ {R : Type 0} (go : GoRuntime R) (c : CuckooIndex R) (ready : IsReady c) where
  -- What the first `p` slots of the old index store.
  abbrev pub StoredBelow : ℕ → Key → RecordId → ℕ → Type 0
  StoredBelow p k r e =
      (q : ℕ) × (q < p)
      × Live c k q
      × ((cell_at c q).record_id ≡ r)
      × SameTime c.has_event_time (cell_at c q).event_time e

  -- The new index stores what the first `p` slots of the old one store.
  pub record Loaded (p : ℕ) (t : CuckooIndex R) : Type 0 where
    pub ready_new : IsReady t
    pub settings : settings_of t ≡ (c.key_bytes, c.has_event_time, 0, none)
    pub stores : (k : Key) (r : RecordId) (e : ℕ) → StoredBelow p k r e ↔ Stored t k r e

  -- A slot with an unexpired item.
  used-Live : (p : ℕ) → vacant c p ≡ false → Live c (cell_at c p).key p
  used-Live p used = record { occupied = ground arith; current = ground arith; keyed = refl }

  vacant-dead : (p : ℕ) (k : Key) → vacant c p ≡ true → Live c k p → ⊥
  vacant-dead p k empty l = false≢true (ground (arith, l.occupied, l.current))

  skip-Loaded : (p : ℕ) (t : CuckooIndex R) → vacant c p ≡ true → Loaded p t → Loaded (suc p) t
  skip-Loaded p t empty l = record {
    ready_new = l.ready_new;
    settings = l.settings;
    stores = λ k r e. (
      λ (q, lt, live, er, ee).
          let ne : q ≢ p = λ at. vacant-dead p k empty (subst (Live c k) at live) in
          (l.stores k r e).0 (q, omega arith, live, er, ee),
      λ h. let (q, lt, live, er, ee) = (l.stores k r e).1 h in (q, omega arith, live, er, ee),
    );
  }

  abbrev item_at : ℕ → Item
  item_at p = record {
    key = (cell_at c p).key;
    record_id = (cell_at c p).record_id;
    event_time = (cell_at c p).event_time;
  }

  timed_eq : (p : ℕ) (t : CuckooIndex R) → Loaded p t → t.has_event_time ≡ c.has_event_time
  timed_eq p t l = ap (λ s. s.1) l.settings

  -- The item of the next slot is new to the new index.
  item_at-IsNew :
      (p : ℕ) (t : CuckooIndex R) → vacant c p ≡ false → Loaded p t → IsNew t (item_at p)
  item_at-IsNew p t used l = record {
    fresh = rw (ap (λ s. s.2) l.settings) (ground arith);
    missing = λ q live.
        let (o, lt, old, _, _) =
          (l.stores _ _ _).1 (q, live, refl, SameTime-refl t.has_event_time _) in
        absurd (omega (arith, ready.unique _ p o (used-Live p used) old));
  }

  add-Loaded :
      (p : ℕ) (t t' : CuckooIndex R)
      → vacant c p ≡ false
      → Loaded p t
      → Adds t (item_at p) t'
      → Loaded (suc p) t'
  add-Loaded p t t' used l a = record {
    ready_new = a.ready;
    settings = a.settings ∙ l.settings;
    stores = λ k r e. (
      λ (q, lt, live, er, ee). elim (ℕ_discrete q p) [
        | yes at ↦ (a.stores k r e).0 (
            inl (
              ap (λ x. (cell_at c x).key) (sym at) ∙ live.keyed,
              ap (λ x. (cell_at c x).record_id) (sym at) ∙ er,
              subst₂ (λ b x. SameTime b (cell_at c x).event_time e) (sym (timed_eq p t l)) at ee,
            ))
        | no ne ↦ (a.stores k r e).0 (inr ((l.stores k r e).0 (q, omega arith, live, er, ee)))
      ],
      λ h. elim ((a.stores k r e).1 h) [
        | inl (ek, er, ee) ↦ (
          p,
          omega arith,
          subst (λ x. Live c x p) ek (used-Live p used),
          er,
          subst (λ b. SameTime b (cell_at c p).event_time e) (timed_eq p t l) ee,
        )
        | inr s ↦ let (q, lt, live, er, ee) = (l.stores k r e).1 s in (q, omega arith, live, er, ee)
      ],
    );
  }

  -- The loop over the slots, where it ends well.
  pub reinsert-Loaded :
      (n p : ℕ) (t t' : CuckooIndex R)
      → Loaded p t
      → reinsert go c n p t ≡ some t'
      → Loaded (p + n) t'
  unfolding reinsert
  reinsert-Loaded zero p t t' l e = subst₂ (λ m x. Loaded m x) (omega arith) (some_inj.0 e) l
  reinsert-Loaded (suc n) p t t' l e =
      subst (λ m. Loaded m t') (omega arith)
        (elim (Bool-cases (vacant c p)) [
          | inl empty ↦ reinsert-Loaded n (suc p) t t' (skip-Loaded p t empty l) (rw empty at e)
          | inr used ↦
              elim (insert-cases go t (item_at p) l.ready_new (item_at-IsNew p t used l)
                (ap (λ s. s.3) l.settings)) [
                  | inl (done, adds) ↦
                      reinsert-Loaded n (suc p) _ t' (add-Loaded p t _ used l adds)
                        (rw done at (rw used at e))
                  | inr (failed, _) ↦ absurd (none-ne-some _ (rw failed at (rw used at e)))
                ]
        ])

  -- All that the old index stores lies in the slots of the loop.
  Stored-all : (k : Key) (r : RecordId) (e : ℕ) → Stored c k r e ↔ StoredBelow (stash c + 4) k r e
  Stored-all k r e = (
    λ (q, l, er, ee). elim (dec_lt q (stash c + 4)) [
      | yes lt ↦ (q, lt, l, er, ee)
      | no far ↦ absurd (false≢true (sym l.occupied ∙ ready.valid.spare q (omega arith)))
    ],
    λ (q, lt, l, er, ee). (q, l, er, ee),
  )

module _ {R : Type 0} (go : GoRuntime R) (c : CuckooIndex R) (ready : IsReady c) (s : StagingEntry)
    (new_key : IsNew c (item_of s)) where
  -- The new index stores what the old one and its staging area hold.
  pub record Replaces (t : CuckooIndex R) : Type 0 where
    pub ready_new : IsReady t
    pub settings : settings_of t ≡ (c.key_bytes, c.has_event_time, 0, none)
    pub stores : (k : Key) (r : RecordId) (e : ℕ) → InHand c (item_of s) k r e ↔ Stored t k r e

  pub Adds-Replaces :
      (t t' : CuckooIndex R)
      → Loaded go c ready (stash c + 4) t
      → Adds t (item_of s) t'
      → Replaces (record t' { staging = none })
  Adds-Replaces t t' l a =
      let timed = timed_eq go c ready (stash c + 4) t l in
      let set' = a.settings ∙ l.settings in
      record {
        ready_new =
            with_rest-IsReady t' t'.num_bucket_entries t'.num_stash_entries none t'.rand
              a.ready.valid a.ready.unique
              (record {
                in_buckets = a.ready.counted.in_buckets;
                in_stash = a.ready.counted.in_stash;
              });
        settings = λ i. ((set' i).0, (set' i).1, (set' i).2, none);
        stores = λ k r e. (
          λ h. elim h [
            | inl (ek, er, ee) ↦
                (a.stores k r e).0
                  (inl (ek, er, subst (λ b. SameTime b s.event_time e) (sym timed) ee))
            | inr st ↦
                (a.stores k r e).0 (inr ((l.stores k r e).0 ((Stored-all go c ready k r e).0 st)))
          ],
          λ h. elim ((a.stores k r e).1 h) [
            | inl (ek, er, ee) ↦ inl (ek, er, subst (λ b. SameTime b s.event_time e) timed ee)
            | inr st ↦ inr ((Stored-all go c ready k r e).1 ((l.stores k r e).1 st))
          ],
        );
      }

  pub reinsert_staging-Replaces :
      (t t' : CuckooIndex R)
      → c.staging ≡ some s
      → Loaded go c ready (stash c + 4) t
      → reinsert_staging go c t ≡ some t'
      → Replaces t'
  unfolding reinsert_staging
  reinsert_staging-Replaces t t' staged l e =
      let n : IsNew t (item_of s) = record {
        fresh = rw (ap (λ x. x.2) l.settings) (ground arith);
        missing = λ q live.
            let st = (l.stores _ _ _).1 (q, live, refl, SameTime-refl t.has_event_time _) in
            new_key.missing st.0 st.2;
      } in
      elim (insert-cases go t (item_of s) l.ready_new n (ap (λ x. x.3) l.settings)) [
        | inl (done, adds) ↦
            subst Replaces (some_inj.0 (rw done at (rw (staged, reinsert_staging) at e)))
              (Adds-Replaces t _ l adds)
        | inr (failed, _) ↦
            absurd (none-ne-some _ (rw failed at (rw (staged, reinsert_staging) at e)))
      ]
