-- ===== src/MetaStore/Batches.antt =====
-- metastore/disk_metastore.go: the versions of the archive batches.
use Prim.Native.String.{String}
use aresdb.Prelude.{
  ℕ, zero, suc, ◌+◌, ◌-◌, ◌*◌, ◌/◌, ◌^◌, Bool, true, false, not, ◌&&◌, ltb, leb, ◌==◌, Option, none,
  some, List, [], ◌∷◌, ◌++◌, if◌then◌else◌, length, get_elem?,
}
use aresdb.Prelude.Dict.{Dict, find_or, insert, erase, keys}
use aresdb.MetaStore.{
  DiskMetaStore, TableDir, BatchVersion, Action, Access, File, ok, err, raise, raise_if, pure,
  ◌>>=◌, ◌>>◌, read, write, remove, shard_file, batch_file, batches, dir_of, update_dir, access,
  make_dir_all, table_exists,
}
pub mod Version

-- The file of a batch, none if there is no such file.
abbrev pub versions_of : String → ℕ → ℕ → DiskMetaStore → List BatchVersion
versions_of table shard batch s =
    find_or [] batch (find_or [] shard (dir_of table s).archive_batches)

-- sort.Search from `i` to `j`: each round halves the range, so that `fuel` rounds do for fewer than
-- `2 ^ fuel` indices.
unfoldable pub search : ℕ → (ℕ → Bool) → ℕ → ℕ → ℕ
search zero f i j = i
search (suc fuel) f i j =
    let h = (i + j) / 2 in
    let below = search fuel f i h in
    let above = search fuel f (h + 1) j in if ltb i j then (if f h then below else above) else i

-- The test of the search: the version of a line is over the cutoff.
unfoldable pub over : List BatchVersion → ℕ → ℕ → Bool
over versions cutoff i = elim (get_elem? versions i) [
  | none ↦ true
  | some v ↦ ltb cutoff v.batch_version
]

-- The entry before the first one over the cutoff.
unfoldable pub before : List BatchVersion → ℕ → ℕ × ℕ × ℕ
before versions first = if first == 0 then (0, 0, 0) else elim (get_elem? versions (first - 1)) [
  | none ↦ (0, 0, 0)
  | some v ↦ (v.batch_version, v.seq_num, v.batch_size)
]

unfoldable pub latest : List BatchVersion → ℕ → ℕ × ℕ × ℕ
unfolding search over before
latest versions cutoff =
    before versions (search (length versions) (over versions cutoff) 0 (length versions))

module _ (fails : Access → File → Bool) where
  -- writeArchiveBatchVersionWithMode, with O_TRUNC or with O_APPEND.
  unfoldable pub write_archive_batch_version :
      Bool → String → ℕ → ℕ → BatchVersion → Action (Unit {0})
  unfolding table_exists make_dir_all access update_dir
  write_archive_batch_version truncate table shard batch v = do
    table_exists fails table
    make_dir_all fails table (shard_file table shard batches)
    access fails write (batch_file table shard batch)
    update_dir table (λ d.
        let files = find_or [] shard d.archive_batches in
        let old = if truncate then [] else find_or [] batch files in
        record d {
          archive_batches = insert shard (insert batch (old ++ v ∷ []) files) d.archive_batches;
        })

  unfoldable pub overwrite_archive_batch_version : String → ℕ → ℕ → BatchVersion → Action (Unit {0})
  unfolding write_archive_batch_version
  overwrite_archive_batch_version = write_archive_batch_version true

  unfoldable pub add_archive_batch_version : String → ℕ → ℕ → BatchVersion → Action (Unit {0})
  unfolding write_archive_batch_version
  add_archive_batch_version = write_archive_batch_version false

  unfoldable pub get_archive_batch_version : String → ℕ → ℕ → ℕ → Action (ℕ × ℕ × ℕ)
  unfolding table_exists access latest
  get_archive_batch_version table shard batch cutoff = do
    table_exists fails table
    access fails read (batch_file table shard batch)
    (λ s. (ok (latest (versions_of table shard batch s) cutoff), s))

  unfoldable pub remove_batch : String → ℕ → ℕ → Action (Unit {0})
  unfolding access update_dir
  remove_batch table shard batch = do
    access fails remove (batch_file table shard batch)
    update_dir table (λ d. record d {
      archive_batches =
          insert shard (erase batch (find_or [] shard d.archive_batches)) d.archive_batches;
    })

  -- The loop of PurgeArchiveBatches, which has purged the batches before the one that it fails at.
  unfoldable pub purge_listed : String → ℕ → ℕ → ℕ → List ℕ → Action (Unit {0})
  unfolding remove_batch
  purge_listed table shard start end [] = pure tt
  purge_listed table shard start end (batch ∷ rest) = do
    (if ltb batch end && leb start batch then remove_batch table shard batch else pure tt)
    purge_listed table shard start end rest

  unfoldable pub purge_archive_batches : String → ℕ → ℕ → ℕ → Action (Unit {0})
  unfolding table_exists access purge_listed
  purge_archive_batches table shard start end = do
    table_exists fails table
    access fails read (shard_file table shard batches)
    (λ s.
        purge_listed table shard start end
          (keys (find_or [] shard (dir_of table s).archive_batches)) s)

-- The ids from `start` to `end`, both included.
unfoldable pub in_range : ℕ → ℕ → List ℕ → List ℕ
in_range start end [] = []
in_range start end (batch ∷ rest) =
    let others = in_range start end rest in
    if leb batch end && leb start batch then batch ∷ others else others

-- An end of 0 stands for none.
unfoldable pub get_archive_batches : (Access → File → Bool) → String → ℕ → ℕ → ℕ → Action (List ℕ)
unfolding access in_range
get_archive_batches fails table shard start end = do
  access fails read (shard_file table shard batches)
  (λ s. (
    ok (
        in_range start (if end == 0 then 2 ^ 31 - 1 else end)
          (keys (find_or [] shard (dir_of table s).archive_batches))),
    s,
  ))
