-- ===== src/State.antt =====
-- tessera/state: what the program keeps between requests.
pub mod DailySpend
