-- ===== src/Webhook.antt =====
-- internal/webhook/pvcgroup_webhook.go: the settings of a PVCGroup become annotations of its PVCs.
pub mod Pointer
pub mod Template
pub mod Mutator
pub mod Keeps
pub mod Layers
pub mod Agree
