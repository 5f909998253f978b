-- ===== src/Prelude/Dict.antt =====
-- Go's maps from integers, as lists of entries. The order of a range over a map is not specified in
-- Go; here it is that of the first writes.
use Prim.Native.Nat.{ℕ, ◌+◌, ◌≤◌}
use aresdb.Prelude.Tests.{if◌then◌else◌, ◌==◌, Bool-cases}
use mathlib.Core.Path.{◌≡◌, refl, ap, ◌∙◌}
use mathlib.Core.Logic.{inl, inr}
use mathlib.Core.List.{List, [], ◌∷◌}
use mathlib.Core.Option.{Option, none, some}
use native.Mathlib.Omega.{arith}

abbrev pub Dict : Type 0 → Type 0
Dict V = List (ℕ × V)

module _ {V : Type 0} where
  abbrev pub find : ℕ → Dict V → Option V
  find k [] = none
  find k ((j, v) ∷ d) = let rest = find k d in if j == k then some v else rest

  abbrev pub insert : ℕ → V → Dict V → Dict V
  insert k v [] = (k, v) ∷ []
  insert k v ((j, w) ∷ d) = let rest = insert k v d in if j == k then (k, v) ∷ d else (j, w) ∷ rest

  abbrev pub erase : ℕ → Dict V → Dict V
  erase k [] = []
  erase k ((j, w) ∷ d) = let rest = erase k d in if j == k then rest else (j, w) ∷ rest

  abbrev pub keys : Dict V → List ℕ
  keys [] = []
  keys ((j, w) ∷ d) = j ∷ keys d

  -- A read with the zero value for a missing key.
  abbrev pub find_or : V → ℕ → Dict V → V
  find_or z k d = elim (find k d) [ some v ↦ v | none ↦ z ]

  pub find-insert :
      (j k : ℕ) (v : V) (d : Dict V) → find j (insert k v d) ≡ (if k == j then some v else find j d)
  find-insert j k v [] = ground arith
  find-insert j k v ((i, w) ∷ d) = ground (arith, find-insert j k v d)

  pub insert-insert : (k : ℕ) (v w : V) (d : Dict V) → insert k v (insert k w d) ≡ insert k v d
  insert-insert k v w [] = ground arith
  insert-insert k v w ((i, u) ∷ d) = ground (arith, insert-insert k v w d)

  pub find-erase : (j k : ℕ) (d : Dict V) → find j (erase k d) ≡ (if k == j then none else find j d)
  find-erase j k [] = ground arith
  find-erase j k ((i, w) ∷ d) = ground (arith, find-erase j k d)

pub find_or-insert :
    {V : Type 0} (z v : V) (j k : ℕ) (d : Dict V)
    → find_or z j (insert k v d) ≡ (if k == j then v else find_or z j d)
find_or-insert {V} z v j k d =
    ap (λ (o : Option V). elim o as (λ _. V) [ some w ↦ w | none ↦ z ]) (find-insert j k v d)
    ∙ elim (Bool-cases (k == j)) [ inl same ↦ rw same refl | inr other ↦ rw other refl ]

-- The sum of the values.
abbrev pub total : Dict ℕ → ℕ
total [] = 0
total ((j, v) ∷ d) = v + total d

pub total-insert : (k v : ℕ) (d : Dict ℕ) → total (insert k v d) + find_or 0 k d ≡ total d + v
total-insert k v [] = omega arith
total-insert k v ((i, w) ∷ d) = ground (arith, total-insert k v d)

pub find_or-le-total : (k : ℕ) (d : Dict ℕ) → find_or 0 k d ≤ total d
find_or-le-total k [] = omega arith
find_or-le-total k ((i, w) ∷ d) = ground (arith, find_or-le-total k d)
