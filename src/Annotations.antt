-- ===== src/Annotations.antt =====
-- pkg/annotations: the configuration of one PVC, from its annotations or from a policy.
pub mod Types
pub mod Percentage
pub mod Parse
pub mod Size
pub mod Cooldown
pub mod Global
pub mod Policies
