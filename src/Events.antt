-- ===== src/Events.antt =====
-- rust/src/events.rs: frames other than transactions.
pub mod SlotStart
pub mod SlotEnd
pub mod Entry
pub mod Duplicate
pub mod RawShred
pub mod LookupsComplete
pub mod Totality
pub mod Layouts
