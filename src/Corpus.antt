-- ===== src/Corpus.antt =====
-- app/corpus: the parsers of the instruments' texts, chunks, references, and snapshots.
pub mod Nodes
pub mod Markers
pub mod Parser
pub mod Parse
pub mod Tree
pub mod Steps
pub mod Amended
pub mod Instrument
pub mod Joined
pub mod Chunk
pub mod Stems
pub mod Annex
pub mod Instruments
pub mod Merged
pub mod References
pub mod Embed
pub mod Snapshot
pub mod Ingest
pub mod Ingested
mod Tests
