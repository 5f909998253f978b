-- ===== src/MetaStore/Failures.antt =====
-- metastore/disk_metastore.go: the writes of diskMetaStore fail only where the file system does.
use Prim.Native.String.{String}
use aresdb.Prelude.{
  ◌≡◌, ◌⊎◌, inl, inr, refl, sym, ap, ◌∙◌, Bool, true, false, none, some, List, [], ◌∷◌, ◌++◌,
  Option-cases, if◌then◌else◌,
}
use aresdb.Schema.Table.{Table, Column, is_enum_column}
use aresdb.MetaStore.{
  DiskMetaStore, TableDir, find, insert, Action, Access, File, MetaError, io_failure, Result, ok,
  err, raise, pure, ◌>>◌, access, update_dir, make_dir_all, write_schema_file, push_schema_change,
  push_shard_ownership_change, write, make_dir, schema_file, enum_file,
}
use aresdb.MetaStore.Tables.{write_enum_file, write_default, write_defaults}
use aresdb.MetaStore.Actions.{bind-ok, bind-err}

-- All errors are of the file system.
abbrev pub OnlyIo : {A : Type 0} → Action A → Type 0
OnlyIo m = (s : DiskMetaStore) (e : MetaError) → (m s).0 ≡ err e → e ≡ io_failure

pub err_inj : {A : Type 0} (e e' : MetaError) → ◌≡◌ {A = Result A} (err e) (err e') → e ≡ e'
err_inj e e' h = cc

pub err-ne-ok : {A : Type 0} (e : MetaError) (a : A) → ◌≡◌ {A = Result A} (ok a) (err e) → ⊥
err-ne-ok e a h = absurd (cc)

outcome :
    {A : Type 0} (r : Result A × DiskMetaStore)
    → ((a : A) × (r ≡ (ok a, r.1))) ⊎ ((e : MetaError) × (r ≡ (err e, r.1)))
outcome (ok a, s) = inl (a, refl)
outcome (err e, s) = inr (e, refl)

pub OnlyIo-then :
    {B : Type 0} (m : Action (Unit {0})) (k : Action B) → OnlyIo m → OnlyIo k → OnlyIo (m >> k)
OnlyIo-then {B} m k om ok' s e h = elim (outcome (m s)) [
  | inl (a, r) ↦
      ok' (m s).1 e
        (ap (λ (x : Result B × DiskMetaStore). x.0) (sym (bind-ok m (λ _. k) s (m s).1 a r)) ∙ h)
  | inr (x, r) ↦
      let same =
        ap (λ (x : Result B × DiskMetaStore). x.0) (sym (bind-err m (λ _. k) s (m s).1 x r)) ∙ h in
      om s e (ap (λ (y : Result (Unit {0}) × DiskMetaStore). y.0) r ∙ ap err (err_inj x e same))
]

pub OnlyIo-pure : OnlyIo (pure tt)
OnlyIo-pure s e h = absurd (err-ne-ok e tt h)

pub OnlyIo-if :
    (b : Bool) (m k : Action (Unit {0})) → OnlyIo m → OnlyIo k → OnlyIo (if b then m else k)
OnlyIo-if true m k om ok' = om
OnlyIo-if false m k om ok' = ok'

pub OnlyIo-push : (table : Table) → OnlyIo (push_schema_change table)
unfolding push_schema_change
OnlyIo-push table s e h = absurd (err-ne-ok e tt h)

pub OnlyIo-push_ownership : (name : String) → OnlyIo (push_shard_ownership_change name)
unfolding push_shard_ownership_change
OnlyIo-push_ownership name s e h = absurd (err-ne-ok e tt h)

pub OnlyIo-update_dir : (table : String) (f : TableDir → TableDir) → OnlyIo (update_dir table f)
unfolding update_dir
OnlyIo-update_dir table f s e h = absurd (err-ne-ok e tt h)

module _ (fails : Access → File → Bool) where
  pub OnlyIo-access : (a : Access) (f : File) → OnlyIo (access fails a f)
  unfolding access
  OnlyIo-access a f = OnlyIo-if (fails a f) (raise io_failure) (pure tt) refused OnlyIo-pure
    where
      refused : OnlyIo {A = Unit {0}} (raise io_failure)
      refused s e h = sym (err_inj io_failure e h)

  pub OnlyIo-make_dir_all : (table : String) (file : File) → OnlyIo (make_dir_all fails table file)
  unfolding make_dir_all
  OnlyIo-make_dir_all table file =
      OnlyIo-then (access fails make_dir file) (update_dir table (λ d. d))
        (OnlyIo-access make_dir file) (OnlyIo-update_dir table (λ d. d))

  pub OnlyIo-write_schema_file : (table : Table) → OnlyIo (write_schema_file fails table)
  unfolding write_schema_file
  OnlyIo-write_schema_file table =
      OnlyIo-then (access fails write (schema_file table.name))
        (update_dir table.name (λ d. record d { schema = some table }))
        (OnlyIo-access write (schema_file table.name))
        (OnlyIo-update_dir table.name (λ d. record d { schema = some table }))

  pub OnlyIo-write_enum_file :
      (table column : String) (cases : List String)
      → OnlyIo (write_enum_file fails table column cases)
  unfolding write_enum_file
  OnlyIo-write_enum_file table column [] = OnlyIo-pure
  OnlyIo-write_enum_file table column (c ∷ cases) =
      let append = λ (d : TableDir). record d {
        enums =
            insert column
              ((elim (find column d.enums) as (λ _. List String) [ none ↦ [] | some old ↦ old ])
                ++ c ∷ cases)
              d.enums;
      } in
      OnlyIo-then (make_dir_all fails table (enum_file table column))
        (access fails write (enum_file table column) >> update_dir table append)
        (OnlyIo-make_dir_all table (enum_file table column))
        (OnlyIo-then (access fails write (enum_file table column)) (update_dir table append)
          (OnlyIo-access write (enum_file table column)) (OnlyIo-update_dir table append))

  pub OnlyIo-write_default : (table : String) (c : Column) → OnlyIo (write_default fails table c)
  unfolding write_default
  OnlyIo-write_default table c = elim (Option-cases c.default_value) [
    | inl e ↦ rw e OnlyIo-pure
    | inr (v, e) ↦ rw e (
        OnlyIo-if (is_enum_column c) (write_enum_file fails table c.name (v ∷ [])) (pure tt)
          (OnlyIo-write_enum_file table c.name (v ∷ [])) OnlyIo-pure)
  ]

  pub OnlyIo-write_defaults :
      (table : String) (cs : List Column) → OnlyIo (write_defaults fails table cs)
  unfolding write_defaults
  OnlyIo-write_defaults table [] = OnlyIo-pure
  OnlyIo-write_defaults table (c ∷ cs) =
      OnlyIo-then (write_default fails table c) (write_defaults fails table cs)
        (OnlyIo-write_default table c) (OnlyIo-write_defaults table cs)
