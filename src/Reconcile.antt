-- ===== src/Reconcile.antt =====
-- internal/reconcile: the loop that drives a deployment to its end.
pub mod World
pub mod Phases
pub mod Drive
pub mod Order
pub mod Ends
pub mod Reaper
pub mod Loop
