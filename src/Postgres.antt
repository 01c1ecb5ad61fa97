-- ===== src/Postgres.antt =====
-- What `infrastructure/postgres` does beside its SQL statements.
pub mod Retry
pub mod Contention
pub mod Retried
mod Tests
