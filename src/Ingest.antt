-- ===== src/Ingest.antt =====
-- Ingestion: src/elt_pipeline/ingest.
pub mod State
pub mod Kafka
