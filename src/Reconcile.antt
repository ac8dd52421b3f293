-- ===== src/Reconcile.antt =====
-- internal/controller/persistentvolumeclaim_controller.go: the periodic expansion of PVCs.
pub mod Types
pub mod Class
pub mod Expand
pub mod Pvc
pub mod Sent
pub mod Panics
pub mod Safety
pub mod Rested
pub mod Reported
pub mod SwitchedOff
pub mod Sized
pub mod Cycle
pub mod Parallel
pub mod Start
