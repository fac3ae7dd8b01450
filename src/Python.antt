-- ===== src/Python.antt =====
-- The Python bindings: taskturbine-python/src.
pub mod Values
pub mod Dicts
pub mod Options
pub mod Calls
pub mod Sync
pub mod Async
pub mod RoundTrip
pub mod Agree
