-- ===== src/Watchdog.antt =====
-- src/watchdog/: the budget enforcer and the loop detector.
pub mod Budget
pub mod Loop
