-- ===== src/Registry.antt =====
-- internal/registry/registry.go: the sessions that are connected, and the delivery of events to them.
pub mod Event
pub mod Decimal
pub mod State
pub mod Delivery
pub mod Lockstep
pub mod Arrivals
pub mod Departures
pub mod Histories
