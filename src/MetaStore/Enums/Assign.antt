-- ===== src/MetaStore/Enums/Assign.antt =====
-- The loop of ExtendEnumDict (metastore/disk_metastore.go): the ids that it gives are the places of
-- the cases in the extended dictionary.
use Prim.Native.String.{String}
use text.Mathlib.Text.{◌==◌ as str_eq}
use text.Mathlib.TextEquality.{eq_iff}
use mathlib.Core.Bool.{true, false, false≢true}
use mathlib.Core.Path.{subst}
use mathlib.Core.List.{append_assoc, append-nil}
use mathlib.Core.Option.{some_inj, none-ne-some, some-ne-none}
use aresdb.Prelude.{
  ℕ, zero, suc, ◌≤◌, ◌≡◌, ◌≢◌, ◌⊎◌, inl, inr, refl, sym, ap, ◌∙◌, none, some, List, [], ◌∷◌, ◌++◌,
  arith, length, length-append, get_elem?, Option-cases, if◌then◌else◌, Bool-cases,
}
use aresdb.MetaStore.{find, insert}
use aresdb.MetaStore.Enums.{enum_id, enum_dict, assign}

pub find-insert :
    {V : Type 0} (j k : String) (v : V) (d : List (String × V))
    → find j (insert k v d) ≡ (if str_eq k j then some v else find j d)
find-insert j k v [] = refl
find-insert j k v ((i, w) ∷ d) =
    ground (arith, eq_iff k j, eq_iff i k, eq_iff i j, find-insert j k v d)

module _ {ℓ} {A : Type ℓ} where
  get_elem?-append :
      (xs ys : List A) (i : ℕ) (x : A) → get_elem? xs i ≡ some x → get_elem? (xs ++ ys) i ≡ some x
  get_elem?-append [] ys i x h = absurd (none-ne-some _ h)
  get_elem?-append (y ∷ xs) ys zero x h = h
  get_elem?-append (y ∷ xs) ys (suc i) x h = get_elem?-append xs ys i x h

  get_elem?-length : (xs : List A) (x : A) → get_elem? (xs ++ x ∷ []) (length xs) ≡ some x
  get_elem?-length [] x = refl
  get_elem?-length (y ∷ xs) x = get_elem?-length xs x

  -- The elements of a longer list.
  get_elem?-snoc :
      (xs : List A) (y : A) (i : ℕ) (x : A)
      → get_elem? (xs ++ y ∷ []) i ≡ some x
      → (get_elem? xs i ≡ some x) ⊎ ((i ≡ length xs) × (y ≡ x))
  get_elem?-snoc [] y zero x h = inr (refl, some_inj.0 h)
  get_elem?-snoc [] y (suc i) x h = absurd (none-ne-some _ h)
  get_elem?-snoc (z ∷ xs) y zero x h = inl h
  get_elem?-snoc (z ∷ xs) y (suc i) x h = elim (get_elem?-snoc xs y i x h) [
    | inl old ↦ inl old
    | inr new ↦ inr (ap suc new.0, new.1)
  ]

-- No case stands at two places.
abbrev pub Distinct : List String → Type 0
Distinct cs = (i j : ℕ) (c : String) → get_elem? cs i ≡ some c → get_elem? cs j ≡ some c → i ≡ j

-- The map leads each case to a place of the dictionary, and has all its cases.
pub record IsDict (dict : List (String × ℕ)) (cases : List String) : Type 0 where
  pub place : (c : String) (id : ℕ) → enum_id dict c ≡ some id → get_elem? cases id ≡ some c
  pub complete : (c : String) (i : ℕ) → enum_id dict c ≡ none → get_elem? cases i ≢ some c

find-insert_self :
    {V : Type 0} (j k : String) (v : V) (d : List (String × V))
    → str_eq k j ≡ true
    → find j (insert k v d) ≡ some v
find-insert_self j k v d h = find-insert j k v d ∙ rw h refl

find-insert_ne :
    {V : Type 0} (j k : String) (v : V) (d : List (String × V))
    → str_eq k j ≡ false
    → find j (insert k v d) ≡ find j d
find-insert_ne j k v d h = find-insert j k v d ∙ rw h refl

IsDict-insert :
    (dict : List (String × ℕ)) (cases : List String) (c : String)
    → IsDict dict cases
    → IsDict (insert c (length cases) dict) (cases ++ c ∷ [])
unfolding enum_id
IsDict-insert dict cases c d = record {
  place = λ x id e. elim (Bool-cases (str_eq c x)) [
    | inl same ↦
        let here : length cases ≡ id =
          some_inj.0 (sym (find-insert_self x c (length cases) dict same) ∙ e) in
        rw (← here, ← (eq_iff c x).0 same) (get_elem?-length cases c)
    | inr other ↦
        get_elem?-append cases (c ∷ []) id x
          (d.place x id (sym (find-insert_ne x c (length cases) dict other) ∙ e))
  ];
  complete = λ x i e h. elim (Bool-cases (str_eq c x)) [
    | inl same ↦ absurd (some-ne-none _ (sym (find-insert_self x c (length cases) dict same) ∙ e))
    | inr other ↦
        let missing = sym (find-insert_ne x c (length cases) dict other) ∙ e in
        elim (get_elem?-snoc cases c i x h) [
          | inl old ↦ d.complete x i missing old
          | inr new ↦ absurd (false≢true (sym other ∙ (eq_iff c x).1 new.1))
        ]
  ];
}

IsDict-enum_dict :
    (dict : List (String × ℕ)) (before cases : List String)
    → IsDict dict before
    → IsDict (enum_dict (length before) cases dict) (before ++ cases)
unfolding enum_dict
IsDict-enum_dict dict before [] d = rw (append-nil before) d
IsDict-enum_dict dict before (c ∷ cases) d = rw (← append_assoc before (c ∷ []) cases) (
    subst
      (λ (n : ℕ).
        IsDict (enum_dict n cases (insert c (length before) dict)) ((before ++ c ∷ []) ++ cases))
      {x = length (before ++ c ∷ [])} {y = suc (length before)}
      (omega (arith, length-append before (c ∷ [])))
      (IsDict-enum_dict (insert c (length before) dict) (before ++ c ∷ []) cases
        (IsDict-insert dict before c d)))

pub IsDict-existing : (cases : List String) → IsDict (enum_dict 0 cases []) cases
unfolding enum_id
IsDict-existing cases =
    IsDict-enum_dict [] [] cases (record {
      place = λ c id e. absurd (none-ne-some _ e);
      complete = λ c i e h. none-ne-some _ h;
    })

-- What the loop gives for the cases `cs`, where the dictionary holds `cases` before it.
pub record Assigned (cases cs : List String) (r : List ℕ × List String) : Type 0 where
  pub ids :
      (i : ℕ) (c : String)
      → get_elem? cs i ≡ some c
      → (id : ℕ) × (get_elem? r.0 i ≡ some id) × (get_elem? (cases ++ r.1) id ≡ some c)
  pub count : length r.0 ≡ length cs
  pub few : length r.1 ≤ length cs
  pub distinct : Distinct cases → Distinct (cases ++ r.1)

Distinct-snoc :
    (cases : List String) (c : String)
    → ((i : ℕ) → get_elem? cases i ≢ some c)
    → Distinct cases
    → Distinct (cases ++ c ∷ [])
Distinct-snoc cases c new d i j x h k = elim (get_elem?-snoc cases c i x h) [
  | inl a ↦ elim (get_elem?-snoc cases c j x k) [
    | inl b ↦ d i j x a b
    | inr b ↦ absurd (new i (rw b.1 a))
  ]
  | inr a ↦ elim (get_elem?-snoc cases c j x k) [
    | inl b ↦ absurd (new j (rw a.1 b))
    | inr b ↦ a.0 ∙ sym b.0
  ]
]

Assigned-known :
    (c : String) (cs cases : List String) (id : ℕ) (r : List ℕ × List String)
    → get_elem? cases id ≡ some c
    → Assigned cases cs r
    → Assigned cases (c ∷ cs) (id ∷ r.0, r.1)
Assigned-known c cs cases id r known a = record {
  ids = known-ids;
  count = ap suc a.count;
  few = omega (arith, a.few);
  distinct = a.distinct;
}
  where
    known-ids :
        (i : ℕ) (x : String)
        → get_elem? (c ∷ cs) i ≡ some x
        → (n : ℕ) × (get_elem? (id ∷ r.0) i ≡ some n) × (get_elem? (cases ++ r.1) n ≡ some x)
    known-ids zero x h = (id, refl, get_elem?-append cases r.1 id x (known ∙ h))
    known-ids (suc i) x h = a.ids i x h

Assigned-new :
    (c : String) (cs cases : List String) (r : List ℕ × List String)
    → ((i : ℕ) → get_elem? cases i ≢ some c)
    → Assigned (cases ++ c ∷ []) cs r
    → Assigned cases (c ∷ cs) (length cases ∷ r.0, c ∷ r.1)
Assigned-new c cs cases r new a = record {
  ids = new-ids;
  count = ap suc a.count;
  few = omega (arith, a.few);
  distinct = λ d. rw (← append_assoc cases (c ∷ []) r.1) (a.distinct (Distinct-snoc cases c new d));
}
  where
    new-ids :
        (i : ℕ) (x : String)
        → get_elem? (c ∷ cs) i ≡ some x
        → (n : ℕ) × (get_elem? (length cases ∷ r.0) i ≡ some n)
          × (get_elem? (cases ++ c ∷ r.1) n ≡ some x)
    new-ids zero x h = (
      length cases,
      refl,
      rw (← append_assoc cases (c ∷ []) r.1)
          (get_elem?-append (cases ++ c ∷ []) r.1 (length cases) x (get_elem?-length cases c ∙ h)),
    )
    new-ids (suc i) x h =
        let y = a.ids i x h in (y.0, y.1, rw (← append_assoc cases (c ∷ []) r.1) y.2)

pub assign-Assigned :
    (cs cases : List String) (dict : List (String × ℕ))
    → IsDict dict cases
    → Assigned cases cs (assign (length cases) cs dict)
unfolding assign
assign-Assigned [] cases dict d = record {
  ids = λ i c h. absurd (none-ne-some _ h);
  count = refl;
  few = omega arith;
  distinct = λ h. rw (append-nil cases) h;
}
assign-Assigned (c ∷ cs) cases dict d = elim (Option-cases (enum_id dict c)) [
  | inl new ↦
      let dict' = insert c (length cases) dict in
      let ih =
        subst (λ (n : ℕ). Assigned (cases ++ c ∷ []) cs (assign n cs dict'))
          {x = length (cases ++ c ∷ [])} {y = suc (length cases)}
          (omega (arith, length-append cases (c ∷ [])))
          (assign-Assigned cs (cases ++ c ∷ []) dict' (IsDict-insert dict cases c d)) in
      rw (new, assign)
        (Assigned-new c cs cases (assign (suc (length cases)) cs dict') (λ i. d.complete c i new)
          ih)
  | inr (id, known) ↦
      rw (known, assign)
        (Assigned-known c cs cases id (assign (length cases) cs dict) (d.place c id known)
          (assign-Assigned cs cases dict d))
]
