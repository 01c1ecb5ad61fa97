-- ===== src/Accounting.antt =====
-- Contracts of model accounting and of managed turns: application/model_accounting.py and
-- application/managed_dispatch.py.
pub mod Target
pub mod Intent
pub mod Event
pub mod Forecast
pub mod Cash
pub mod Forecasted
pub mod Observation
pub mod Accounted
pub mod Once
pub mod Dispatch
pub mod Dispatched
mod Tests
mod TurnTests
mod DispatchTests
