-- ===== src/History.antt =====
-- lab/history.py: bounded linearizability checking of recorded histories.
pub mod Events
pub mod Search
pub mod Check
pub mod Prefix
