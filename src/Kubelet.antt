-- ===== src/Kubelet.antt =====
-- pkg/kubelet: the volume metrics that the kubelets report, by PVC.
pub mod Cache
pub mod Fetch
pub mod Url
pub mod Volume
pub mod Collector
pub mod Interface
