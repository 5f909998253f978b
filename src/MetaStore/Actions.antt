-- ===== src/MetaStore/Actions.antt =====
-- Operations of diskMetaStore (metastore/disk_metastore.go) that leave the store as it is, and the
-- files of a table after a change of it.
use Prim.Native.String.{String}
use text.Mathlib.Text.{◌==◌ as str_eq}
use text.Mathlib.TextEquality.{eq_iff}
use aresdb.Prelude.{
  ◌≡◌, ◌⊎◌, inl, inr, refl, ap, ◌∙◌, Bool, true, false, some, List, [], ◌∷◌, map, arith,
  if◌then◌else◌, Option-cases, Bool-cases,
}
use aresdb.MetaStore.{
  DiskMetaStore, TableDir, Action, Access, File, MetaError, io_failure, Result, ok, err, raise,
  raise_if, ◌>>=◌, find, insert, dir_of, access, table_exists, read_schema_file, list_tables,
  schema_file, stat, read, base_dir, table_does_not_exist,
}

pub find-insert :
    {V : Type 0} (j k : String) (v : V) (d : List (String × V))
    → find j (insert k v d) ≡ (if str_eq k j then some v else find j d)
find-insert j k v [] = refl
find-insert j k v ((i, w) ∷ d) =
    ground (arith, eq_iff k j, eq_iff i k, eq_iff i j, find-insert j k v d)

pub find-insert_self :
    {V : Type 0} (k : String) (v : V) (d : List (String × V)) → find k (insert k v d) ≡ some v
find-insert_self k v d = find-insert k k v d ∙ rw ((eq_iff k k).1 refl) refl

-- The operation returns a value, or an error, and leaves the store as it is.
abbrev pub Steady : {A : Type 0} → Action A → DiskMetaStore → Type 0
Steady {A} m s = ((a : A) × (m s ≡ (ok a, s))) ⊎ ((e : MetaError) × (m s ≡ (err e, s)))

abbrev after : {A B : Type 0} → (A → Action B) → Result A × DiskMetaStore → Result B × DiskMetaStore
after f (r, s) = elim r [ ok a ↦ f a s | err e ↦ raise e s ]

pub bind-ok :
    {A B : Type 0} (m : Action A) (f : A → Action B) (s s' : DiskMetaStore) (a : A)
    → m s ≡ (ok a, s')
    → (m >>= f) s ≡ f a s'
bind-ok {A} {B} m f s s' a e = ap (after {A = A} {B = B} f) e

pub bind-err :
    {A B : Type 0} (m : Action A) (f : A → Action B) (s s' : DiskMetaStore) (x : MetaError)
    → m s ≡ (err x, s')
    → (m >>= f) s ≡ (err x, s')
bind-err {A} {B} m f s s' x e = ap (after {A = A} {B = B} f) e

pub Steady-bind :
    {A B : Type 0} (m : Action A) (f : A → Action B) (s : DiskMetaStore)
    → Steady m s
    → ((a : A) → Steady (f a) s)
    → Steady (m >>= f) s
Steady-bind m f s (inl (a, e)) h = rw (bind-ok m f s s a e) (h a)
Steady-bind m f s (inr (x, e)) h = inr (x, bind-err m f s s x e)

pub Steady-raise_if : (b : Bool) (e : MetaError) (s : DiskMetaStore) → Steady (raise_if b e) s
Steady-raise_if true e s = inr (e, refl)
Steady-raise_if false e s = inl (tt, refl)

module _ (fails : Access → File → Bool) where
  pub Steady-access : (a : Access) (f : File) (s : DiskMetaStore) → Steady (access fails a f) s
  unfolding access
  Steady-access a f s = Steady-raise_if (fails a f) io_failure s

  pub Steady-list_tables : (s : DiskMetaStore) → Steady (list_tables fails) s
  unfolding list_tables
  Steady-list_tables s = elim (Bool-cases (fails read base_dir)) [
    | inl refused ↦ inr (io_failure, rw refused refl)
    | inr fine ↦ inl (map (λ (e : String × TableDir). e.0) s.tables, rw fine refl)
  ]

  pub Steady-table_exists :
      (table : String) (s : DiskMetaStore) → Steady (table_exists fails table) s
  unfolding table_exists
  Steady-table_exists table s = elim (Bool-cases (fails stat (schema_file table))) [
    | inl refused ↦ inr (io_failure, rw refused refl)
    | inr fine ↦ elim (Option-cases (dir_of table s).schema) [
      | inl e ↦ inr (table_does_not_exist, rw fine (rw e refl))
      | inr (t, e) ↦ inl (tt, rw fine (rw e refl))
    ]
  ]

  pub Steady-read_schema_file :
      (table : String) (s : DiskMetaStore) → Steady (read_schema_file fails table) s
  unfolding read_schema_file
  Steady-read_schema_file table s = elim (Bool-cases (fails read (schema_file table))) [
    | inl refused ↦ inr (io_failure, rw refused refl)
    | inr fine ↦ elim (Option-cases (dir_of table s).schema) [
      | inl e ↦ inr (io_failure, rw fine (rw e refl))
      | inr (t, e) ↦ inl (t, rw fine (rw e refl))
    ]
  ]

-- The files of a table after a change.
pub dir_of-insert :
    (table : String) (d : TableDir) (s : DiskMetaStore)
    → dir_of table (record s { tables = insert table d s.tables }) ≡ d
dir_of-insert table d s = rw (find-insert_self table d s.tables, dir_of) refl
