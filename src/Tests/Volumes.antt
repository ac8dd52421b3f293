-- ===== src/Tests/Volumes.antt =====
-- The kubelets' samples and URL at concrete inputs.
use pvc_chonker.Prelude.{
  true, All, Any, ◌≢◌, ◌⊎◌, String, Option, none, some, List, [], ◌∷◌, Dict, ◌≡◌, ◌↔◌, inl, inr, ok,
  err, false, lookup, refl, arith, get_or, ◌==◌, if◌then◌else◌,
}
use pvc_chonker.Prelude.Int.{ℤ, pos}
use pvc_chonker.Kube.{NamespacedName}
use pvc_chonker.Kubelet.Volume.{TextLibs, own_match, parse_volume_metrics}
use pvc_chonker.Kubelet.Volume.Lines.{readings_of}
use pvc_chonker.Kubelet.Volume.Counts.{AreCounts}
use pvc_chonker.Kubelet.Volume.Report.{IsAnswer, parse_volume_metrics-IsAnswer}
use pvc_chonker.Kubelet.Cache.{
  MetricsCache, Field, capacity, inodes, get, new_metrics_cache, calculate_usage_percentages,
  key_from_namespaced_name,
}
use pvc_chonker.Kubelet.Fetch.Interleaved.{
  Write, writes_of, writes_of_family, writes_of_samples, after_writes, Interleaving, ended, takes,
}
use pvc_chonker.Kubelet.Fetch.Interleaved.AnyOrder.{IsSole, Interleaving-get}
use mathlib.Core.List.{Permᴰ}
use pvc_chonker.Kubelet.Fetch.Group.{Return, get_all_in_parallel}
use pvc_chonker.Kubelet.Fetch.Readable.{IsReadable, HasFailed}
use pvc_chonker.Kubelet.Fetch.Group.Outcome.{get_all_in_parallel_iff}
use pvc_chonker.Kubelet.Collector.{
  RequestError, proxy_failed, MetricsCollector, Requests, request_metrics,
}
use pvc_chonker.Kubelet.Fetch.{
  FetchError, no_nodes, Sample, parse_metric, is_named, node_families, get_all_volume_metrics,
}
use pvc_chonker.Kubelet.Fetch.Nodes.{IsSilent, usage_of, after_families, get-get_all_volume_metrics}
use pvc_chonker.Kubelet.Url.{
  Url, IsAllowed, validate_kubelet_url, validate_kubelet_url-IsAllowed_iff,
}
use pvc_chonker.Tests.Toy.{toy, number}

abbrev pub volume : NamespacedName
volume = record { namespace = "apps"; name = "data" }

abbrev sample : ℤ → Sample ℤ
sample value = record {
  labels = ("namespace", "apps") ∷ ("persistentvolumeclaim", "data") ∷ [];
  gauge = value;
}

abbrev pub families : Dict (List (Sample ℤ))
families =
    ("kubelet_volume_stats_capacity_bytes", sample (pos 100) ∷ sample (pos 200) ∷ [])
    ∷ ("kubelet_volume_stats_inodes", sample (pos 10) ∷ [])
    ∷ []

-- Three nodes behind the API server's proxy, of which the second has the volume.
abbrev pub requests : Requests String
requests = record {
  new_request = λ url. ok url;
  send = λ timeout url. err "no network";
  proxy = λ node. ok node;
}

abbrev pub collector : MetricsCollector
collector = record { kubelet_url = ""; http_timeout = pos 30_000_000_000 }

abbrev pub text_parser : String → Option (Dict (List (Sample ℤ)))
text_parser body = some (if body == "node-1" then families else [])

pub IsSilent-node :
    (node : String)
    → (node == "node-1") ≡ false
    → IsSilent toy requests collector text_parser volume node
unfolding node_families request_metrics lookup
IsSilent-node node other = record {
  families = [];
  read = rw other refl;
  capacity = refl;
  available = refl;
  inodes = refl;
  inodes_used = refl;
}

pub families_read : node_families toy requests collector text_parser "node-1" ≡ ok families
unfolding node_families request_metrics
families_read = refl

get-get_all_volume_metrics_example :
    (cache : MetricsCache ℤ) × (get_all_volume_metrics toy requests collector text_parser
        (ok ("node-0" ∷ "node-1" ∷ "node-2" ∷ []))
      ≡ ok cache)
    × (get cache volume ≡ usage_of toy (after_families toy families volume none))
get-get_all_volume_metrics_example =
    get-get_all_volume_metrics toy requests collector text_parser volume ("node-0" ∷ [])
      ("node-2" ∷ []) "node-1" families families_read (IsSilent-node "node-0" refl, tt)
      (IsSilent-node "node-2" refl, tt)

abbrev write : Field → ℤ → Write
write field value = record { field = field; name = volume; value = value }

-- a write of another node about another volume
abbrev other_write : Write
other_write = record {
  field = capacity;
  name = record { namespace = "apps"; name = "logs" };
  value = pos 7;
}

abbrev volume_writes : List Write
volume_writes = write capacity (pos 100) ∷ write capacity (pos 200) ∷ write inodes (pos 10) ∷ []

-- the write of the other node comes second
abbrev order : List Write
order =
    write capacity (pos 100) ∷ other_write ∷ write capacity (pos 200) ∷ write inodes (pos 10) ∷ []

runs : Interleaving ((other_write ∷ []) ∷ volume_writes ∷ []) order
runs =
    takes _ ((other_write ∷ []) ∷ (write capacity (pos 200) ∷ write inodes (pos 10) ∷ []) ∷ []) _ _
      (inr (_, inl (_, refl, refl), refl))
      (takes _ ([] ∷ (write capacity (pos 200) ∷ write inodes (pos 10) ∷ []) ∷ []) _ _
        (inl (_, refl, refl))
        (takes _ ([] ∷ (write inodes (pos 10) ∷ []) ∷ []) _ _ (inr (_, inl (_, refl, refl), refl)) (
          takes _ ([] ∷ [] ∷ []) _ _ (inr (_, inl (_, refl, refl), refl))
            (ended _ (refl, (refl, tt))))))

sole : IsSole toy volume (writes_of toy families) ((other_write ∷ []) ∷ volume_writes ∷ [])
unfolding writes_of writes_of_family writes_of_samples parse_metric is_named lookup
    key_from_namespaced_name
sole = inr ((refl, tt), inl (refl, tt))

Interleaving-get_example :
    get (calculate_usage_percentages toy (after_writes toy order new_metrics_cache)) volume
    ≡ usage_of toy (after_families toy families volume none)
Interleaving-get_example =
    Interleaving-get toy volume ((other_write ∷ []) ∷ volume_writes ∷ []) order families runs sole

abbrev parse : String → Option Url
parse url = some (record { scheme = "https"; hostname = "node-1" })

validate_kubelet_url-IsAllowed_iff_example :
    (validate_kubelet_url parse "https://node-1:10250" ≡ none)
    ↔ ((u : Url) × (parse "https://node-1:10250" ≡ some u) × IsAllowed u)
validate_kubelet_url-IsAllowed_iff_example =
    validate_kubelet_url-IsAllowed_iff parse "https://node-1:10250"

-- Two lines of one PVC, capacity and what is available, and one line of another.
abbrev submatch : String → String → List String
submatch regex line =
    if line == "a"
    then line ∷ "kubelet_volume_stats_capacity_bytes" ∷ "apps" ∷ "data" ∷ "200" ∷ []
    else if line == "b"
    then line ∷ "kubelet_volume_stats_available_bytes" ∷ "apps" ∷ "data" ∷ "50" ∷ []
    else if line == "c"
    then line ∷ "kubelet_volume_stats_available_bytes" ∷ "apps" ∷ "logs" ∷ "0" ∷ []
    else []

abbrev text : TextLibs
text = record {
  lines = λ metrics_text. "a" ∷ "b" ∷ "c" ∷ "d" ∷ [];
  find_string_submatch = submatch;
  parse_int = number;
}

volume_readings : AreCounts (get_or (readings_of text volume (text.lines "abcd")) [])
unfolding own_match
volume_readings = ((200, refl, omega arith), ((50, refl, omega arith), tt))

parse_volume_metrics-IsAnswer_example :
    IsAnswer toy String text volume
      (readings_of text volume (text.lines "abcd"))
      (parse_volume_metrics text volume toy "abcd")
parse_volume_metrics-IsAnswer_example =
    parse_volume_metrics-IsAnswer toy String text volume "abcd" volume_readings

abbrev pub nodes : List String
nodes = "node-0" ∷ "node-1" ∷ []

abbrev pub stopped : RequestError
stopped = proxy_failed "context canceled"

-- The goroutine of the second node returns first.
abbrev pub returns : List Return
returns = record { node = "node-1"; late = false } ∷ record { node = "node-0"; late = true } ∷ []

get_all_in_parallel_iff_example :
    (((after : MetricsCache ℤ) × ((get_all_in_parallel toy requests collector text_parser stopped
            (ok nodes)
            returns
            (pos 1)).0
          ≡ ok after))
      ↔ ((nodes ≢ []) × All (IsReadable toy requests collector text_parser) nodes))
    × ((e : FetchError)
        → (get_all_in_parallel toy requests collector text_parser stopped
            (ok nodes)
            returns
            (pos 1)).0
          ≡ err e
        → ((nodes ≡ []) × (e ≡ no_nodes))
          ⊎ Any (HasFailed toy requests collector text_parser e) nodes)
get_all_in_parallel_iff_example =
    get_all_in_parallel_iff toy requests collector text_parser stopped nodes returns (pos 1)
      (Permᴰ.swap refl refl)
