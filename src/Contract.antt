-- ===== src/Contract.antt =====
-- contract/envelope.go and contract/provenance.go: the export envelope.
pub mod Json
pub mod Provenance
pub mod Envelope
