-- ===== src/Record.antt =====
-- memstore/common/primary_key.go: the position of a record, and the capacities of the primary key.
use aresdb.Prelude.{ℕ, List}
use aresdb.Prelude.Int.{ℤ}

-- An int32 batch id and a uint32 row index.
pub record RecordId : Type 0 where
  pub batch_id : ℤ
  pub index : ℕ

abbrev pub bucket_size : ℕ
bucket_size = 8

abbrev pub num_hashes : ℕ
num_hashes = 4

-- The bytes of a primary key.
abbrev pub Key : Type 0
Key = List ℕ
