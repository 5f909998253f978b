-- ===== src/MetaStore/Batches/Version.antt =====
-- GetArchiveBatchVersion (metastore/disk_metastore.go): its binary search finds the latest version up
-- to the cutoff.
use mathlib.Core.Bool.{false≢true}
use native.Mathlib.Decide.{dec_lt}
use aresdb.Prelude.{
  lt-get_elem?, ℕ, zero, suc, ◌+◌, ◌-◌, ◌/◌, ◌<◌, ◌≤◌, ◌≡◌, ◌⊎◌, inl, inr, refl, sym, ap, ◌∙◌, Bool,
  true, false, some, List, [], ◌∷◌, arith, ltb, ltb→lt, ◌==◌, length, get_elem?, Bool-cases,
}
use aresdb.MetaStore.{BatchVersion}
use aresdb.MetaStore.Batches.{search, over, before, latest}

-- A test that stays true once it is.
abbrev Monotone : (ℕ → Bool) → ℕ → Type 0
Monotone f n = (i j : ℕ) → i ≤ j → j < n → f i ≡ true → f j ≡ true

-- Enough rounds find the first index that passes the test, in a range.
record Finds (f : ℕ → Bool) (i j k : ℕ) : Type 0 where
  low : i ≤ k
  high : k ≤ j
  fails : (m : ℕ) → i ≤ m → m < k → f m ≡ false
  passes : k < j → f k ≡ true

search-Finds :
    (fuel n : ℕ) (f : ℕ → Bool) (i j : ℕ)
    → Monotone f n
    → i ≤ j
    → j ≤ n
    → j - i ≤ fuel
    → Finds f i j (search fuel f i j)
unfolding search
search-Finds zero n f i j mono le b h = record {
  low = omega arith;
  high = le;
  fails = λ m a c. absurd (omega arith);
  passes = λ c. absurd (omega arith);
}
search-Finds (suc fuel) n f i j mono le b h = elim (Bool-cases (ltb i j)) [
  | inr done ↦ rw done (record {
    low = omega arith;
    high = le;
    fails = λ m a c. absurd (omega arith);
    passes = λ c. absurd (ground arith);
  })
  | inl more ↦
      let lt : i < j = ground arith in
      elim (Bool-cases (f ((i + j) / 2))) [
        | inl pass ↦
            let r =
              search-Finds fuel n f i ((i + j) / 2) mono (omega arith) (omega arith)
                (omega arith) in
            rw (more, pass)
              (record {
                low = r.low;
                high = omega (arith, r.high);
                fails = r.fails;
                passes = λ c. elim (dec_lt (search fuel f i ((i + j) / 2)) ((i + j) / 2)) [
                  | yes before ↦ r.passes before
                  | no at ↦
                      let there : search fuel f i ((i + j) / 2) ≡ (i + j) / 2 =
                        omega (arith, r.high) in
                      ap f there ∙ pass
                ];
              })
        | inr fail ↦
            let r = search-Finds fuel n f ((i + j) / 2 + 1) j mono (omega arith) b (omega arith) in
            rw (more, fail)
              (record {
                low = omega (arith, r.low);
                high = r.high;
                fails = λ m a c. elim (dec_lt m ((i + j) / 2 + 1)) [
                  | no after ↦ r.fails m (omega arith) c
                  | yes before ↦ elim (Bool-cases (f m)) [
                    | inr not_yet ↦ not_yet
                    | inl passed ↦ absurd (
                        false≢true
                          (sym fail ∙ mono m ((i + j) / 2) (omega arith) (omega arith) passed))
                  ]
                ];
                passes = r.passes;
              })
      ]
]

-- The versions of a file do not decrease.
abbrev pub IsSorted : List BatchVersion → Type 0
IsSorted versions =
    (i j : ℕ) (v w : BatchVersion)
    → i ≤ j
    → get_elem? versions i ≡ some v
    → get_elem? versions j ≡ some w
    → v.batch_version ≤ w.batch_version

get_elem?-lt {ℓ} :
    {A : Type ℓ} (xs : List A) (i : ℕ) → i < length xs → (x : A) × (get_elem? xs i ≡ some x)
get_elem?-lt [] i h = absurd (omega arith)
get_elem?-lt (x ∷ xs) zero h = (x, refl)
get_elem?-lt (x ∷ xs) (suc i) h = get_elem?-lt xs i (omega arith)

over-some :
    (versions : List BatchVersion) (cutoff i : ℕ) (v : BatchVersion)
    → get_elem? versions i ≡ some v
    → over versions cutoff i ≡ ltb cutoff v.batch_version
unfolding over
over-some versions cutoff i v e = rw (e, over) refl

over-Monotone :
    (versions : List BatchVersion) (cutoff : ℕ)
    → IsSorted versions
    → Monotone (over versions cutoff) (length versions)
over-Monotone versions cutoff sorted i j le b h =
    let (v, ev) = get_elem?-lt versions i (omega arith) in
    let (w, ew) = get_elem?-lt versions j b in
    let grows = sorted i j v w le ev ew in
    let first = sym (over-some versions cutoff i v ev) ∙ h in
    over-some versions cutoff j w ew ∙ ground arith

-- The entry that is found.
pub record IsLatest (versions : List BatchVersion) (cutoff : ℕ) (r : ℕ × ℕ × ℕ) : Type 0 where
  pub index : ℕ
  pub entry : BatchVersion
  pub stored : get_elem? versions index ≡ some entry
  pub result : r ≡ (entry.batch_version, entry.seq_num, entry.batch_size)
  pub old : entry.batch_version ≤ cutoff
  pub last :
      (j : ℕ) (w : BatchVersion)
      → index < j
      → get_elem? versions j ≡ some w
      → cutoff < w.batch_version

before-zero : (versions : List BatchVersion) → before versions 0 ≡ (0, 0, 0)
unfolding before
before-zero versions = refl

before-some :
    (versions : List BatchVersion) (k : ℕ) (v : BatchVersion)
    → 0 < k
    → get_elem? versions (k - 1) ≡ some v
    → before versions k ≡ (v.batch_version, v.seq_num, v.batch_size)
unfolding before
before-some versions k v h e =
    let positive : (k == 0) ≡ false = ground arith in rw positive (rw (e, before) refl)

latest-before :
    (versions : List BatchVersion) (cutoff : ℕ)
    → latest versions cutoff
      ≡ before versions (search (length versions) (over versions cutoff) 0 (length versions))
unfolding latest
latest-before versions cutoff = refl

-- What stands from the found index on is over the cutoff.
over-from :
    (versions : List BatchVersion) (cutoff k j : ℕ) (w : BatchVersion)
    → IsSorted versions
    → Finds (over versions cutoff) 0 (length versions) k
    → k ≤ j
    → get_elem? versions j ≡ some w
    → cutoff < w.batch_version
over-from versions cutoff k j w sorted r le e =
    let inside = lt-get_elem? versions j w e in
    let passed = over-Monotone versions cutoff sorted k j le inside (r.passes (omega arith)) in
    ltb→lt _ _ (sym (over-some versions cutoff j w e) ∙ passed)

-- If the versions in the file of a batch do not decrease, the binary search of
-- GetArchiveBatchVersion finds an entry up to the cutoff behind which all entries are over it, or
-- returns zeros and all entries are over it.
pub latest-IsLatest :
    (versions : List BatchVersion) (cutoff : ℕ)
    → IsSorted versions
    → IsLatest versions cutoff (latest versions cutoff)
      ⊎ ((latest versions cutoff ≡ (0, 0, 0))
          × ((j : ℕ) (w : BatchVersion) → get_elem? versions j ≡ some w → cutoff < w.batch_version))
latest-IsLatest versions cutoff sorted =
    let n = length versions in
    let k = search n (over versions cutoff) 0 n in
    let r =
      search-Finds n n (over versions cutoff) 0 n (over-Monotone versions cutoff sorted)
        (omega arith) (omega arith) (omega arith) in
    elim (dec_lt 0 k) [
      | no none_before ↦
          let at_zero : k ≡ 0 = omega arith in
          inr (
            latest-before versions cutoff ∙ ap (before versions) at_zero ∙ before-zero versions,
            λ j w e. over-from versions cutoff k j w sorted r (omega arith) e,
          )
      | yes some_before ↦
          let (v, e) = get_elem?-lt versions (k - 1) (omega (arith, r.high)) in
          let not_over =
            sym (over-some versions cutoff (k - 1) v e)
            ∙ r.fails (k - 1) (omega arith) (omega arith) in
          inl (record {
            index = k - 1;
            entry = v;
            stored = e;
            result = latest-before versions cutoff ∙ before-some versions k v some_before e;
            old = ground arith;
            last = λ j w lt ew. over-from versions cutoff k j w sorted r (omega arith) ew;
          })
    ]
