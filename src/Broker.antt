-- ===== src/Broker.antt =====
-- What `infrastructure/results_broker` keeps on the host.
pub mod Registry
pub mod Lookup
pub mod Recorded
mod Tests
