-- ===== src/Startup.antt =====
-- cmd/main.go: the flags, and `run` up to the end of the manager. The values that viper finds for
-- the flags are an argument, and so are the answers of Kubernetes and of controller-runtime, none
-- where a call gives no error. os.Exit(1) is an error of the model.
pub mod Ready
pub mod Main
use pvc_chonker.Prelude.{
  String, Bool, true, false, Option, none, some, List, [], ◌∷◌, ◌++◌, Result, ok, err, ◌==◌, ◌>>=◌,
  wrap_err, if◌then◌else◌, ◌*◌, ℕ,
}
use pvc_chonker.Prelude.Int.{ℤ, pos}
use pvc_chonker.Libs.{Libs}
use pvc_chonker.Annotations.Types.{GlobalConfig}
use pvc_chonker.Annotations.Global.{new_global_config}
use pvc_chonker.Kubelet.Url.{Url, UrlError}
use pvc_chonker.Kubelet.Collector.{MetricsCollector, new_metrics_collector}
use pvc_chonker.Sanitize.{sanitize_for_logging}
use pvc_chonker.Reconcile.Start.{Reconciler}

-- The flags by name; durations are nanoseconds.
pub record Flags (F : Type 0) : Type 0 where
  pub metrics_bind_address : String
  pub health_probe_bind_address : String
  pub leader_elect : Bool
  pub kubelet_url : String
  pub watch_interval : ℤ
  pub default_threshold : F
  pub default_inodes_threshold : F
  pub default_increase : String
  pub default_cooldown : ℤ
  pub default_min_scale_up : String
  pub default_max_size : String
  pub dry_run : Bool
  pub log_format : String
  pub log_level : String
  pub max_parallel : ℤ
  pub webhook_port : String
  pub webhook_cert_dir : String
  pub enable_webhook : Bool

pub data Level : Type 0 where
  debug_level info_level warn_level error_level : Level

unfoldable pub level_of : String → Level
level_of log_level =
    if log_level == "debug"
    then debug_level
    else if log_level == "info"
    then info_level
    else if log_level == "warn"
    then warn_level
    else if log_level == "error"
    then error_level
    else info_level

-- ctrl.Options, apart from the scheme and the fixed name of the election
pub record ManagerOptions : Type 0 where
  pub metrics_bind_address : String
  pub health_probe_bind_address : String
  pub leader_election : Bool

-- What is registered with the manager, in order.
pub data Part : Type 0 where
  pvc_controller policy_controller group_controller group_webhook healthz readyz : Part

-- Why the program exits with 1, with the error's text.
pub data Failure : Type 0 where
  no_config : String → Failure
  no_manager : String → Failure
  invalid_min_scale_up : String → Failure
  invalid_max_size : String → Failure
  no_metrics_collector : UrlError → Failure
  no_clientset : String → Failure
  not_registered : Part → String → Failure
  manager_failed : String → Failure

pub record Outside : Type 0 where
  pub get_config : Option String
  pub new_manager : ManagerOptions → Option String
  pub new_clientset : Option String
  pub register : Part → Option String
  pub start_manager : Option String

-- What has been set up when the manager starts.
pub record Setup (F Q : Type 0) : Type 0 where
  pub level : Level
  pub development : Bool
  pub options : ManagerOptions
  pub collector : MetricsCollector
  pub reconciler : Reconciler F Q
  pub parts : List Part

-- if err != nil { os.Exit(1) }
abbrev pub check : Option String → (String → Failure) → Result Failure Unit
check none failure = ok tt
check (some e) failure = err (failure e)

module _ {F : Type 0} (is_print : ℕ → Bool) (flags : Flags F) where
  abbrev pub manager_options : ManagerOptions
  manager_options = record {
    metrics_bind_address = sanitize_for_logging is_print flags.metrics_bind_address;
    health_probe_bind_address = sanitize_for_logging is_print flags.health_probe_bind_address;
    leader_election = flags.leader_elect;
  }

  abbrev pub setup_of : {Q : Type 0} → GlobalConfig F Q → MetricsCollector → List Part → Setup F Q
  setup_of global_config collector parts = record {
    level = level_of flags.log_level;
    development = flags.log_format == "console";
    options = manager_options;
    collector = collector;
    reconciler = record {
      global_config = global_config;
      watch_interval = flags.watch_interval;
      dry_run = flags.dry_run;
      max_parallel = flags.max_parallel;
    };
    parts = parts;
  }

-- the parts in the order of the code
abbrev pub parts_of : {F : Type 0} → Flags F → List Part
parts_of flags =
    pvc_controller
    ∷ policy_controller
    ∷ group_controller
    ∷ (if flags.enable_webhook
        then group_webhook ∷ healthz ∷ readyz ∷ []
        else healthz ∷ readyz ∷ [])

module _ {F Q S : Type 0} (lib : Libs F Q S) where
  -- what viper gives where neither the command line nor the environment sets a flag
  abbrev pub unset_flags : Flags F
  unset_flags = record {
    metrics_bind_address = ":8080";
    health_probe_bind_address = ":8081";
    leader_elect = false;
    kubelet_url = "";
    watch_interval = pos (5 * 60_000_000_000);
    default_threshold = lib.of_int (pos 0);
    default_inodes_threshold = lib.of_int (pos 0);
    default_increase = "";
    default_cooldown = pos 0;
    default_min_scale_up = "";
    default_max_size = "";
    dry_run = false;
    log_format = "json";
    log_level = "info";
    max_parallel = pos 4;
    webhook_port = "9443";
    webhook_cert_dir = "/tmp/k8s-webhook-server/serving-certs";
    enable_webhook = false;
  }

  -- a quantity that a flag gives, or the zero quantity
  unfoldable pub quantity_flag : String → (String → Failure) → Result Failure Q
  quantity_flag value failure =
      if value == "" then ok lib.zero_quantity else elim (lib.parse_quantity value) [
        | none ↦ err (failure value)
        | some quantity ↦ ok quantity
      ]

  abbrev pub global_config_of : Flags F → Q → Q → GlobalConfig F Q
  global_config_of flags min_scale_up max_size =
      new_global_config lib flags.default_threshold flags.default_inodes_threshold
        flags.default_increase flags.default_cooldown min_scale_up max_size

  module _ (is_print : ℕ → Bool) (parse_url : String → Option Url) (outside : Outside)
      (flags : Flags F) where
    register_all : List Part → Result Failure Unit
    register_all [] = ok tt
    register_all (part ∷ parts) = do
      registered ← check (outside.register part) (not_registered part)
      register_all parts

    -- from the metrics collector to the health checks
    connect : GlobalConfig F Q → Result Failure (Setup F Q)
    unfolding register_all
    connect global_config = do
      collector ← wrap_err no_metrics_collector (new_metrics_collector parse_url flags.kubelet_url)
      clientset ← check outside.new_clientset no_clientset
      registered ← register_all (parts_of flags)
      ok (setup_of is_print flags global_config collector (parts_of flags))

    -- `run` up to mgr.Start
    unfoldable pub set_up : Result Failure (Setup F Q)
    unfolding connect
    set_up = do
      config ← check outside.get_config no_config
      manager ← check (outside.new_manager (manager_options is_print flags)) no_manager
      min_scale_up ← quantity_flag flags.default_min_scale_up invalid_min_scale_up
      max_size ← quantity_flag flags.default_max_size invalid_max_size
      connect (global_config_of flags min_scale_up max_size)

    -- `ok` where the manager has run and ended with no error
    unfoldable pub run : Result Failure (Setup F Q)
    run = do setup ← set_up; ended ← check outside.start_manager manager_failed; ok setup
