-- ===== src/Group.antt =====
-- internal/controller/pvcgroup_controller.go: the PVCs of a group are brought to one size.
pub mod Members
pub mod Reconciler
pub mod Locks
