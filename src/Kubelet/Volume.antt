-- ===== src/Kubelet/Volume.antt =====
-- GetVolumeMetrics and parseVolumeMetrics of pkg/kubelet/metrics.go: the metrics of one PVC. The
-- regular expressions, the scanner that cuts a text into lines and ParseInt are parameters.
pub mod Lines
pub mod Counts
pub mod Report
use pvc_chonker.Prelude.{
  ℕ, String, Bool, true, false, not, ◌&&◌, ◌||◌, Option, none, some, List, [], ◌∷◌, ◌==◌, Result,
  ok, err, ◌>>=◌, or_else, if◌then◌else◌,
}
use pvc_chonker.Prelude.Int.{ℤ, pos, ltb_ℤ, leb_ℤ, sub64}
use pvc_chonker.Kube.{NamespacedName}
use pvc_chonker.Libs.{Libs}
use pvc_chonker.Metrics.{MetricOp, observe, kubelet_client_response_time}
use pvc_chonker.Kubelet.Cache.{VolumeMetrics, MetricsCache, get}

-- bufio.Scanner: the lines that Scan and Text give. regexp: FindStringSubmatch of an expression on
-- a text, [] where it does not match. strconv.ParseInt(s, 10, 64).
pub record TextLibs : Type 0 where
  pub lines : String → List String
  pub find_string_submatch : String → String → List String
  pub parse_int : String → Option ℤ

abbrev pub metric_line_regex : String
metric_line_regex =
    "^(kubelet_volume_stats_(?:capacity_bytes|available_bytes|inodes|inodes_used))\\{.*namespace=\"([^\"]+)\".*persistentvolumeclaim=\"([^\"]+)\".*\\}\\s+(\\d+)"

pub data VolumeError (E : Type 0) : Type 0 where
  -- the error of GetAllVolumeMetrics
  not_fetched : E → VolumeError E
  -- "invalid metric value" with the text
  invalid_value : String → VolumeError E
  -- "volume metrics not found for"
  volume_not_found : NamespacedName → VolumeError E

-- The variables of parseVolumeMetrics.
pub record Totals : Type 0 where
  pub capacity : ℤ
  pub available : ℤ
  pub inodes_total : ℤ
  pub inodes_used : ℤ

-- value == 0
abbrev pub is_zero : ℤ → Bool
is_zero value = leb_ℤ value (pos 0) && leb_ℤ (pos 0) value

abbrev pub no_totals : Totals
no_totals = record {
  capacity = pos 0;
  available = pos 0;
  inodes_total = pos 0;
  inodes_used = pos 0;
}

-- the switch on the name of the metric
unfoldable pub assigned : String → ℤ → Totals → Totals
assigned metric value totals =
    if metric == "kubelet_volume_stats_capacity_bytes"
    then record totals { capacity = value }
    else if metric == "kubelet_volume_stats_available_bytes"
    then record totals { available = value }
    else if metric == "kubelet_volume_stats_inodes"
    then record totals { inodes_total = value }
    else if metric == "kubelet_volume_stats_inodes_used"
    then record totals { inodes_used = value }
    else totals

-- GetVolumeMetrics on the answer of GetAllVolumeMetrics, with the seconds that it took.
unfoldable pub get_volume_metrics :
    {F E : Type 0}
    → NamespacedName
    → F
    → Result E (MetricsCache F)
    → Result (VolumeError E) (VolumeMetrics F) × List (MetricOp F)
get_volume_metrics namespaced_name seconds (err e) =
    (err (not_fetched e), observe kubelet_client_response_time seconds ∷ [])
get_volume_metrics namespaced_name seconds (ok cache) = (
  or_else (get cache namespaced_name) (volume_not_found namespaced_name),
  observe kubelet_client_response_time seconds ∷ [],
)

module _ {F Q S : Type 0} (lib : Libs F Q S) where
  -- float64(part) / float64(whole) * 100
  abbrev pub percent_of : ℤ → ℤ → F
  percent_of part whole =
      lib.mul (lib.div (lib.of_int part) (lib.of_int whole)) (lib.of_int (pos 100))

  -- used and usagePercent
  unfoldable pub space_used : ℤ → ℤ → ℤ × F
  space_used capacity available =
      if ltb_ℤ capacity available
      then (pos 0, lib.of_int (pos 0))
      else (sub64 capacity available, percent_of (sub64 capacity available) capacity)

  -- inodesFree and inodesUsagePercent
  unfoldable pub inodes_left : ℤ → ℤ → ℤ × F
  inodes_left total used =
      if ltb_ℤ (pos 0) total
      then if ltb_ℤ total used
        then (pos 0, lib.of_int (pos 100))
        else (sub64 total used, percent_of used total)
      else (pos 0, lib.of_int (pos 0))

  -- the VolumeMetrics that is returned
  volume : Totals → VolumeMetrics F
  unfolding space_used inodes_left
  volume totals =
      let (used, usage_percent) = space_used totals.capacity totals.available in
      let (inodes_free, inodes_usage_percent) =
        inodes_left totals.inodes_total totals.inodes_used in
      record {
        capacity_bytes = totals.capacity;
        available_bytes = totals.available;
        used_bytes = used;
        usage_percent = usage_percent;
        inodes_total = totals.inodes_total;
        inodes_used = totals.inodes_used;
        inodes_free = inodes_free;
        inodes_usage_percent = inodes_usage_percent;
      }

-- The name of the metric and the text of its value, where the line is one of the PVC's.
unfoldable pub own_match : NamespacedName → List String → Option (String × String)
own_match namespaced_name (whole ∷ metric ∷ namespace ∷ name ∷ value ∷ []) =
    if not (namespace == namespaced_name.namespace) || not (name == namespaced_name.name)
    then none
    else some (metric, value)
own_match namespaced_name _ = none

module _ (text : TextLibs) (namespaced_name : NamespacedName) where
  module _ {E : Type 0} where
    -- one round of the loop
    parse_line : String → Totals → Result (VolumeError E) Totals
    unfolding own_match
    parse_line line totals =
        elim (own_match namespaced_name (text.find_string_submatch metric_line_regex line)) [
          | none ↦ ok totals
          | some (metric, digits) ↦ elim (text.parse_int digits) [
            | none ↦ err (invalid_value digits)
            | some value ↦ ok (assigned metric value totals)
          ]
        ]

    pub parse_lines : List String → Totals → Result (VolumeError E) Totals
    unfolding parse_line
    parse_lines [] totals = ok totals
    parse_lines (line ∷ lines) totals = do next ← parse_line line totals; parse_lines lines next

    module _ {F Q S : Type 0} (lib : Libs F Q S) where
      -- what follows the loop
      volume_of : Totals → Result (VolumeError E) (VolumeMetrics F)
      unfolding volume
      volume_of totals =
          if is_zero totals.capacity || is_zero totals.available
          then err (volume_not_found namespaced_name)
          else ok (volume lib totals)

      unfoldable pub parse_volume_metrics : String → Result (VolumeError E) (VolumeMetrics F)
      unfolding parse_lines volume_of
      parse_volume_metrics metrics_text = do
        totals ← parse_lines (text.lines metrics_text) no_totals
        volume_of totals
