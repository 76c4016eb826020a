-- ===== src/EventLog.antt =====
-- eventstore/firestore.go: the durable event log, an `EventStore` over a document database.
pub mod Records
pub mod Transaction
pub mod Store
pub mod Coding
pub mod Encoding
pub mod Documents
pub mod Lookup
pub mod Reads
pub mod Batch
pub mod Backed
pub mod Written
pub mod Refines
pub mod Members
pub mod Loaded
pub mod LoadRefines
pub mod Examples
