-- ===== src/Cuckoo/Fresh.antt =====
-- A new index is well formed: newCuckooIndex of memstore/cuckoo_index.go.
use mathlib.Core.Bool.{false≢true}
use aresdb.Prelude.{
  ℕ, ◌+◌, ◌*◌, ◌≡◌, refl, sym, ◌∙◌, Bool, none, arith, length-replicate, get_or-replicate,
}
use aresdb.Record.{Key, bucket_size}
use aresdb.Cuckoo.{CuckooIndex, empty_cell, cell_at, stash}
use aresdb.Cuckoo.Insert.{GoRuntime}
use aresdb.Cuckoo.Resize.{get_default_init_num_buckets, new_cuckoo_index}
use aresdb.Cuckoo.Find.{Live}
use aresdb.Cuckoo.Cells.{occupied-take-replicate, occupied-drop-replicate}
use aresdb.Cuckoo.Place.{IsReady, settings_of}

module _ {R : Type 0} (go : GoRuntime R) (now key_bytes : ℕ) (timed : Bool) (n : ℕ) where
  abbrev pub new : CuckooIndex R
  new = new_cuckoo_index go now key_bytes timed n

  new_cell : (p : ℕ) → cell_at new p ≡ empty_cell
  unfolding new_cuckoo_index
  new_cell p = get_or-replicate _ p empty_cell

  pub new-empty : (k : Key) (p : ℕ) → Live new k p → ⊥
  new-empty k p l = false≢true (sym l.occupied ∙ rw (new_cell p) refl)

  pub new-settings : settings_of new ≡ (key_bytes, timed, 0, none)
  unfolding new_cuckoo_index
  new-settings = refl

  -- A new index is well formed, its counters are exact and no key is in two slots.
  pub new-IsReady : IsReady new
  unfolding new_cuckoo_index get_default_init_num_buckets
  new-IsReady = record {
    valid = record {
      some_bucket = ground arith;
      sized = length-replicate _ _ ∙ omega arith;
      placed = λ p below occ. absurd (false≢true (sym occ ∙ rw (new_cell p) refl));
      spare = λ p far. rw (new_cell p) refl;
    };
    counted = record {
      in_buckets = sym (occupied-take-replicate (stash new) ((new.num_buckets + 1) * bucket_size));
      in_stash = sym (occupied-drop-replicate (stash new) ((new.num_buckets + 1) * bucket_size));
    };
    unique = λ k p q l _. absurd (new-empty k p l);
  }
