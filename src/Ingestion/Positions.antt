-- ===== src/Ingestion/Positions.antt =====
-- memstore/ingestion.go: lists of records, by their positions and by the keys of their rows.
use aresdb.Prelude.{
  get_elem?, some, Bool, ℕ, suc, ◌+◌, ◌<◌, ◌≤◌, ◌≡◌, sym, ap, ◌∙◌, true, List, [], ◌∷◌, ◌++◌, arith,
  length,
}
use mathlib.Core.Bool.{false≢true}
use aresdb.Record.{Key, RecordId}
use aresdb.Cuckoo.{CuckooIndex}
use aresdb.Cuckoo.Lookup.{find}
use aresdb.Cuckoo.FindOrInsert.{Inserts}
use aresdb.LiveStore.{LiveRecord}
use aresdb.LiveStore.Advance.{row}
use aresdb.Ingestion.{Row, RecordInfo, record_id_of}

-- The record is at the row `n`, of batches of `size` rows.
abbrev pub At : ℕ → ℕ → RecordInfo → Type 0
At size n info = (q : LiveRecord) × (info.record_id ≡ record_id_of q) × (row size q ≡ n)

-- The records are at the rows from `n` on, one after another.
abbrev pub Consecutive : ℕ → ℕ → List RecordInfo → Type 0
Consecutive size n [] = Unit {0}
Consecutive size n (info ∷ infos) = At size n info × Consecutive size (suc n) infos

-- The records are at rows before `n`.
abbrev pub AllBefore : ℕ → ℕ → List RecordInfo → Type 0
AllBefore size n [] = Unit {0}
AllBefore size n (info ∷ infos) = ((m : ℕ) × At size m info × (m < n)) × AllBefore size n infos

pub Consecutive-append :
    (size n : ℕ) (infos : List RecordInfo) (info : RecordInfo)
    → Consecutive size n infos
    → At size (n + length infos) info
    → Consecutive size n (infos ++ (info ∷ []))
Consecutive-append size n [] info c (q, e, at) = ((q, e, omega arith), tt)
Consecutive-append size n (x ∷ infos) info (a, c) (q, e, at) =
    (a, Consecutive-append size (suc n) infos info c (q, e, omega arith))

pub AllBefore-le :
    (size n m : ℕ) (infos : List RecordInfo)
    → n ≤ m
    → AllBefore size n infos
    → AllBefore size m infos
AllBefore-le size n m [] h a = tt
AllBefore-le size n m (x ∷ infos) h ((r, at, less), a) =
    ((r, at, omega arith), AllBefore-le size n m infos h a)

pub AllBefore-append :
    (size n : ℕ) (infos : List RecordInfo) (info : RecordInfo)
    → AllBefore size n infos
    → (m : ℕ) × At size m info × (m < n)
    → AllBefore size n (infos ++ (info ∷ []))
AllBefore-append size n [] info a b = (b, tt)
AllBefore-append size n (x ∷ infos) info (h, a) b = (h, AllBefore-append size n infos info a b)

-- The row `n` has the key.
abbrev pub HasKey : List Row → ℕ → Key → Type 0
HasKey rows n key = (r : Row) × (get_elem? rows n ≡ some r) × (r.key ≡ some key)

module _ {R : Type 0} where
  -- Each record is the one that the primary key has for the key of its row.
  abbrev pub AllOwned : List Row → CuckooIndex R → List RecordInfo → Type 0
  AllOwned rows c [] = Unit {0}
  AllOwned rows c (info ∷ infos) =
      ((key : Key) × HasKey rows info.row key × (find c key ≡ (info.record_id, true)))
      × AllOwned rows c infos

  pub AllOwned-append :
      (rows : List Row) (c : CuckooIndex R) (infos : List RecordInfo) (n : ℕ) (id : RecordId)
      (key : Key)
      → AllOwned rows c infos
      → HasKey rows n key
      → find c key ≡ (id, true)
      → AllOwned rows c (infos ++ (record { row = n; record_id = id } ∷ []))
  AllOwned-append rows c [] n id key a has at = ((key, has, at), tt)
  AllOwned-append rows c (x ∷ infos) n id key (h, a) has at =
      (h, AllOwned-append rows c infos n id key a has at)

  -- An insertion keeps the records of the keys that are there.
  pub AllOwned-Inserts :
      (rows : List Row) (c c' : CuckooIndex R) (key : Key) (id : RecordId)
      → Inserts c key id c'
      → (infos : List RecordInfo) → AllOwned rows c infos
      → AllOwned rows c' infos
  AllOwned-Inserts rows c c' key id i [] a = tt
  AllOwned-Inserts rows c c' key id i (x ∷ infos) ((k, has, at), a) =
      let other = λ (e : k ≡ key).
        false≢true (ap (λ (r : RecordId × Bool). r.1) (sym i.absent ∙ sym (ap (find c) e) ∙ at)) in
      ((k, has, i.keeps k other ∙ at), AllOwned-Inserts rows c c' key id i infos a)
