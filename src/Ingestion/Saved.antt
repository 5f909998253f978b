-- ===== src/Ingestion/Saved.antt =====
-- memstore/ingestion.go: the shard after ApplyUpsertBatch and saveUpsertBatch.
