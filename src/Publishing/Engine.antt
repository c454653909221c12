-- ===== src/Publishing/Engine.antt =====
-- lib/publishing/engine.ts: the provider-independent half of an API-mode publication, over the
-- rows of one variant.
pub mod Store
pub mod Apply
pub mod Run
pub mod Triples
pub mod Receipts
pub mod Steps
pub mod Invariant
pub mod History
