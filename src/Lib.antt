-- ===== src/Lib.antt =====
-- pvc-chonker is a Kubernetes operator that expands persistent volume claims (PVCs) when the kubelets
-- report that they fill up. Once per interval a cycle lists all PVCs, resolves a configuration for
-- each from its annotations or from a policy of its namespace, reads the volume metrics, and asks
-- the API server for a larger request for the PVCs that have reached a threshold. Two more
-- controllers keep the status of policies and coordinate the sizes of groups, and a webhook copies
-- a group's template to the PVCs that name the group.
--
-- The parts, the files that model them, and the code:
--   * Annotations/Types, Percentage, Parse, Size, Cooldown, Global: pkg/annotations/annotations.go.
--     parse_percentage is parsePercentage, parse_pvc_annotations ParsePVCAnnotations,
--     calculate_new_size CalculateNewSize, exceeds_max_size ExceedsMaxSize, is_in_cooldown
--     IsInCooldown, is_pvc_resizing IsPvcResizing, update_last_expansion UpdateLastExpansion, and
--     new_global_config NewGlobalConfig.
--   * Annotations/Policies: pkg/annotations/policy.go. resolve_pvc_config is ResolvePVCConfig and
--     build_config_from_policy buildConfigFromPolicy.
--   * Reconcile: internal/controller/persistentvolumeclaim_controller.go. Start has the loop of
--     cycles, Cycle reconcileAll with one reconcilePVC after the other, and Parallel the goroutines
--     of reconcileAll as a step relation: a step is one access to the semaphore or to the cache of
--     storage classes, in any order. Pvc has reconcilePVC, Expand ExpandPVC, and Class
--     IsPVCEligible, IsStorageClassExpandable and getFilesystemType. The effects of an operation
--     (metrics, events, updates of objects, a panic) are a list in the order in which they happen,
--     and what is read from outside is in Env. A panic of a goroutine ends the program: and_then
--     leaves out what would come after it, in a cycle and in the loop of cycles, and in Parallel no
--     goroutine takes a step after it.
--   * StorageCache: pkg/cache/storage.go, the state that the reconciliations of a cycle share.
--   * Kubelet: pkg/kubelet/cache.go and pkg/kubelet/metrics.go. Cache has
--     MetricsCache and its setters, Fetch parseMetric, fetchNodeMetrics and GetAllVolumeMetrics with
--     one node after the other, Fetch/Interleaved the nodes' goroutines in any order of their writes,
--     Fetch/Group the error group in which an error of one node cancels the requests to the others,
--     Collector NewMetricsCollector, SetClient and the requests to the kubelets, Url
--     validateKubeletURL, and Volume GetVolumeMetrics and parseVolumeMetrics. Interface is
--     pkg/kubelet/interface.go.
--   * Metrics: pkg/metrics/metrics.go, as operations on the Prometheus series. Metrics/Registry has
--     the declarations of the series and their registration. Reconcile/Pvc/Courses lists the courses
--     of an expansion, and Reconcile/Pvc/Blocks the blocks of which the effects of a cycle are made;
--     Reconcile/Start/Typed and Reconcile/Start/Counted follow the series through them.
--     Reconcile/Start/Delivered puts the kubelets' metrics and a cycle together.
--   * Group: internal/controller/pvcgroup_controller.go. Reconciler has Reconcile, Members
--     calculateLargestSize and coordinatePVCSizes, and Locks the mutexes of statusLocks as a step
--     relation over the goroutines that call Reconcile.
--   * PolicyStatus: internal/controller/pvcpolicy_controller.go. Semaphore has its semaphore as a
--     step relation over the calls of Reconcile.
--   * Webhook: internal/webhook/pvcgroup_webhook.go. Layers puts it together with
--     ParsePVCAnnotations.
--   * Sanitize: pkg/utils/sanitize.go.
--   * Startup: cmd/main.go. run is `run`, from the values of the flags to the end of the manager,
--     and Startup/Main has init and main around it, cobra's own answer to --help included.
--   * Kube: the fields in use of the Kubernetes objects and of api/v1alpha1.
--   * Libs: what is called but not part of the repository, as parameters: float64, quantities,
--     texts of times and durations, label selectors. The answers of the API server and of the
--     clock are arguments of the operations.
--   * Prelude: shared names, int64 arithmetic that wraps around, texts, maps, results.
--   * Tests: the theorems at concrete inputs, with the libraries instantiated by Tests/Toy.
--
-- Every loop of the modelled code runs over a list and is structural recursion, so no definition
-- has fuel; the loop of Start runs over the rounds that the ticker gives. Bounds: sizes are int64
-- with wrap-around; counts are int32 with wrap-around.
--
-- Not modelled: the Prometheus text parser (a parameter); the merge of command line and
-- environment into the values of the flags; help texts and buckets of the series; texts of log
-- lines; internal/providers (an interface without implementation); generated code.
pub mod Prelude
pub mod Kube
pub mod Libs
pub mod Annotations
pub mod Metrics
pub mod StorageCache
pub mod Kubelet
pub mod Reconcile
pub mod Webhook
pub mod Group
pub mod PolicyStatus
pub mod Sanitize
pub mod Startup
pub mod Tests
