-- ===== src/Tests/Startup.antt =====
-- Start-up and the loop of cycles, at concrete inputs.
use pvc_chonker.Prelude.{
  All, ℕ, String, Bool, true, false, ◌≡◌, ◌↔◌, Option, ◌∙◌, All-select, none, some, [], ◌∷◌, ok,
  err, refl, leb, ◌&&◌,
}
use pvc_chonker.Prelude.Int.{ℤ, pos}
use pvc_chonker.Prelude.Text.{contains, to_lower}
use pvc_chonker.Kube.{not_found}
use pvc_chonker.Kubelet.Url.{Url, validate_kubelet_url}
use pvc_chonker.Kubelet.Collector.{new_metrics_collector}
use pvc_chonker.Sanitize.{IsClean, sanitize_for_logging, sanitize_for_logging-IsClean}
use pvc_chonker.StorageCache.{new_storage_class_cache}
use pvc_chonker.Reconcile.Sent.{sent}
use pvc_chonker.Reconcile.Cycle.{is_managed, reconcile_all}
use pvc_chonker.Reconcile.Cycle.Order.{HasRequests, halts-reconcile_all, halts_of_HasRequests}
use pvc_chonker.Reconcile.Cycle.Status.{gauge, gauge-reconcile_all}
use pvc_chonker.Reconcile.Start.{Reconciler, Round, start}
use pvc_chonker.Reconcile.Start.Typed.{IsTyped, start-IsTyped}
use pvc_chonker.Reconcile.Start.Counted.{AreBalanced, start-AreBalanced}
use pvc_chonker.Reconcile.Start.Rounds.{sent_in_all, sent-start}
use pvc_chonker.Startup.{
  run, Flags, Outside, Setup, unset_flags, set_up, quantity_flag, setup_of, parts_of,
  global_config_of,
}
use pvc_chonker.Startup.Main.{
  AsksForHelp, start_with, helped, Process, returned, error_of, HasRun, start_process,
  start_process_iff,
}
use pvc_chonker.Startup.Ready.{IsReady, set_up-IsReady, set_up-sent}
use pvc_chonker.Tests.Toy.{toy, toy_global}
use pvc_chonker.Tests.Expansion.{env, volumes, disk}

-- the printable ASCII characters
abbrev ascii : ℕ → Bool
ascii c = leb 32 c && leb c 126

sanitize_for_logging-IsClean_example :
    IsClean ascii (sanitize_for_logging ascii "a\nb")
    × ((sanitize_for_logging ascii "a\nb" ≡ "a\nb") ↔ IsClean ascii "a\nb")
sanitize_for_logging-IsClean_example = sanitize_for_logging-IsClean ascii "a\nb"

abbrev node_url : String → Option Url
node_url url = some (record { scheme = "http"; hostname = "mock" })

abbrev outside : Outside
outside = record {
  get_config = none;
  new_manager = λ options. none;
  new_clientset = none;
  register = λ part. none;
  start_manager = none;
}

abbrev flags : Flags ℤ
flags = record (unset_flags toy) {
  dry_run = true;
  kubelet_url = "http://mock:8080";
  default_max_size = "100";
}

abbrev setup : Setup ℤ ℤ
setup =
    setup_of ascii flags (global_config_of toy flags (pos 0) (pos 100))
      (record { kubelet_url = "http://mock:8080"; http_timeout = pos 30_000_000_000 })
      (parts_of flags)

setup_made : set_up toy ascii node_url outside flags ≡ ok setup
unfolding set_up quantity_flag new_metrics_collector validate_kubelet_url contains to_lower
setup_made = refl

set_up-IsReady_example : IsReady toy ascii node_url outside flags setup
set_up-IsReady_example = set_up-IsReady toy ascii node_url outside flags setup setup_made

-- a cycle over one PVC, and one whose list of PVCs fails
abbrev round : Round ℤ ℤ Bool
round = record {
  list_policies = env.list_policies;
  get_storage_class = env.get_storage_class;
  update = env.update;
  now = env.now;
  stamp = env.stamp;
  list_pvcs = ok (disk ∷ []);
  volumes = ok volumes;
  schedule = λ pvcs. pvcs;
  response = pos 1;
  seconds = pos 1;
  finished = pos 2;
}

abbrev failing : Round ℤ ℤ Bool
failing = record round { list_pvcs = err not_found }

set_up-sent_example : sent (start toy setup.reconciler round (failing ∷ [])) ≡ []
set_up-sent_example =
    set_up-sent toy ascii node_url outside flags setup round (failing ∷ []) setup_made refl

abbrev wet : Reconciler ℤ ℤ
wet = record {
  global_config = toy_global;
  watch_interval = pos 1;
  dry_run = false;
  max_parallel = pos 0;
}

sent-start_example :
    sent (start toy wet round (failing ∷ round ∷ []))
    ≡ sent_in_all toy wet (round ∷ failing ∷ round ∷ [])
sent-start_example = sent-start toy wet round (failing ∷ round ∷ [])

gauge-reconcile_all_example :
    let effects =
      (reconcile_all env
        (λ pvcs. pvcs)
        (pos 1)
        (pos 1)
        (pos 2)
        {E = String}
        (ok (disk ∷ []))
        (ok volumes)
        new_storage_class_cache).1 in
    (gauge "success" none effects ≡ some (pos 1)) × (gauge "failure" none effects ≡ some (pos 0))
gauge-reconcile_all_example =
    gauge-reconcile_all env (λ pvcs. pvcs) (pos 1) (pos 1) (pos 2) String (ok (disk ∷ []))
      (ok volumes) new_storage_class_cache none
      (halts-reconcile_all env volumes (λ pvcs. pvcs) (pos 1) (pos 1) (pos 2) String
          new_storage_class_cache (disk ∷ [])
        ∙ halts_of_HasRequests env volumes _
            (All-select (is_managed env) HasRequests (disk ∷ []) ((_, refl), tt)))

start-IsTyped_example : All IsTyped (start toy wet round (failing ∷ round ∷ []))
start-IsTyped_example = start-IsTyped toy wet round (failing ∷ round ∷ [])

start-AreBalanced_example :
    AreBalanced "update_pvc" "data" "apps" (start toy wet round (failing ∷ round ∷ []))
start-AreBalanced_example =
    start-AreBalanced "update_pvc" "data" "apps" toy wet round (failing ∷ round ∷ [])

-- a process that is asked to run with these flags, and one whose arguments do not parse
abbrev process : Process ℤ
process = record {
  add_client_go_scheme = none;
  add_v1alpha1_scheme = none;
  bind_flags = none;
  parse_arguments = ok (start_with flags);
}

abbrev misspelled : Process ℤ
misspelled = record process { parse_arguments = err "unknown\nflag" }

start_process_iff_example :
    (((start_process toy ascii node_url outside process).1 ≡ returned setup)
      ↔ HasRun toy ascii node_url outside process setup)
    × ((start_process toy ascii node_url outside process).1 ≡ returned setup
        → (start_process toy ascii node_url outside process).0 ≡ [])
    × (((start_process toy ascii node_url outside process).1 ≡ helped)
        ↔ AsksForHelp toy ascii node_url outside process)
    × All
        (λ line. IsClean ascii (error_of line))
        (start_process toy ascii node_url outside process).0
start_process_iff_example = start_process_iff toy ascii node_url outside process setup

runs : run toy ascii node_url outside flags ≡ ok setup
unfolding run
runs = rw setup_made refl

process_returns : (start_process toy ascii node_url outside process).1 ≡ returned setup
process_returns = start_process_iff_example.0.1 (refl, refl, refl, (flags, refl, runs))

misspelled-IsClean :
    All
      (λ line. IsClean ascii (error_of line))
      (start_process toy ascii node_url outside misspelled).0
misspelled-IsClean = (start_process_iff toy ascii node_url outside misspelled setup).3
