-- ===== src/Kubelet/Volume/Lines.antt =====
-- What the loop of parseVolumeMetrics leaves in its variables: the last reading of each metric.
use pvc_chonker.Prelude.{
  String, true, false, Option, none, some, List, [], ◌∷◌, ◌==◌, Result, ok, err, if◌then◌else◌, ◌≡◌,
  refl, arith, inl, inr, Option-cases, eq_iff, get_or,
}
use pvc_chonker.Prelude.Int.{ℤ}
use pvc_chonker.Kube.{NamespacedName}
use pvc_chonker.Kubelet.Volume.{
  TextLibs, VolumeError, invalid_value, Totals, assigned, metric_line_regex, own_match, parse_line,
  parse_lines,
}

-- the value of the last reading of a metric
abbrev pub latest : String → List (String × ℤ) → Option ℤ
latest metric [] = none
latest metric ((name, value) ∷ readings) = elim (latest metric readings) [
  | some later ↦ some later
  | none ↦ if name == metric then some value else none
]

abbrev pub latest_or : String → List (String × ℤ) → ℤ → ℤ
latest_or metric readings before = get_or (latest metric readings) before

-- each variable with the last reading of its metric, or as it was
abbrev pub after_readings : List (String × ℤ) → Totals → Totals
after_readings readings totals = record {
  capacity = latest_or "kubelet_volume_stats_capacity_bytes" readings totals.capacity;
  available = latest_or "kubelet_volume_stats_available_bytes" readings totals.available;
  inodes_total = latest_or "kubelet_volume_stats_inodes" readings totals.inodes_total;
  inodes_used = latest_or "kubelet_volume_stats_inodes_used" readings totals.inodes_used;
}

latest_or-cons :
    (metric name : String) (value before : ℤ) (readings : List (String × ℤ))
    → latest_or metric ((name, value) ∷ readings) before
      ≡ latest_or metric readings (if name == metric then value else before)
latest_or-cons metric name value before readings = elim (Option-cases (latest metric readings)) [
  | inl none_later ↦ rw none_later (ground arith)
  | inr (later, one_later) ↦ rw one_later refl
]

-- Each metric of the switch sets its own variable only.
module _ (metric : String) (value : ℤ) (totals : Totals) where
  -- a text that is one name is no other
  excludes :
      (one other : String)
      → (one == other) ≡ false
      → (metric == one) ≡ true
      → (metric == other) ≡ false
  excludes one other differ same = ground (arith, eq_iff metric one)

  capacity-assigned :
      (assigned metric value totals).capacity
      ≡ (if metric == "kubelet_volume_stats_capacity_bytes" then value else totals.capacity)
  unfolding assigned
  capacity-assigned = ground arith

  available-assigned :
      (assigned metric value totals).available
      ≡ (if metric == "kubelet_volume_stats_available_bytes" then value else totals.available)
  unfolding assigned
  available-assigned = ground (
    arith,
    excludes "kubelet_volume_stats_capacity_bytes" "kubelet_volume_stats_available_bytes" refl,
  )

  inodes_total-assigned :
      (assigned metric value totals).inodes_total
      ≡ (if metric == "kubelet_volume_stats_inodes" then value else totals.inodes_total)
  unfolding assigned
  inodes_total-assigned = ground (
    arith,
    excludes "kubelet_volume_stats_capacity_bytes" "kubelet_volume_stats_inodes" refl,
    excludes "kubelet_volume_stats_available_bytes" "kubelet_volume_stats_inodes" refl,
  )

  inodes_used-assigned :
      (assigned metric value totals).inodes_used
      ≡ (if metric == "kubelet_volume_stats_inodes_used" then value else totals.inodes_used)
  unfolding assigned
  inodes_used-assigned = ground (
    arith,
    excludes "kubelet_volume_stats_capacity_bytes" "kubelet_volume_stats_inodes_used" refl,
    excludes "kubelet_volume_stats_available_bytes" "kubelet_volume_stats_inodes_used" refl,
    excludes "kubelet_volume_stats_inodes" "kubelet_volume_stats_inodes_used" refl,
  )

after_readings-assigned :
    (metric : String) (value : ℤ) (readings : List (String × ℤ)) (totals : Totals)
    → after_readings readings (assigned metric value totals)
      ≡ after_readings ((metric, value) ∷ readings) totals
after_readings-assigned metric value readings totals =
    rw
      (
        capacity-assigned metric value totals,
        available-assigned metric value totals,
        inodes_total-assigned metric value totals,
        inodes_used-assigned metric value totals,
        ← latest_or-cons "kubelet_volume_stats_capacity_bytes" metric value totals.capacity
            readings,
        ← latest_or-cons "kubelet_volume_stats_available_bytes" metric value totals.available
            readings,
        ← latest_or-cons "kubelet_volume_stats_inodes" metric value totals.inodes_total readings,
        ← latest_or-cons "kubelet_volume_stats_inodes_used" metric value totals.inodes_used
            readings,
      )
      refl

module _ (text : TextLibs) (namespaced_name : NamespacedName) where
  -- The readings of the PVC's lines in their order, none where the text of a value is no number.
  abbrev pub readings_of : List String → Option (List (String × ℤ))
  readings_of [] = some []
  readings_of (line ∷ lines) =
      elim (own_match namespaced_name (text.find_string_submatch metric_line_regex line)) [
        | none ↦ readings_of lines
        | some (metric, digits) ↦ elim (text.parse_int digits) [
          | none ↦ none
          | some value ↦ elim (readings_of lines) [
            | none ↦ none
            | some readings ↦ some ((metric, value) ∷ readings)
          ]
        ]
      ]

  module _ (E : Type 0) where
    -- How the loop ends: with the last readings where all are numbers, or with an error.
    abbrev pub Ends : Option (List (String × ℤ)) → Totals → Result (VolumeError E) Totals → Type 0
    Ends none totals r = (digits : String) × (r ≡ err (invalid_value digits))
    Ends (some readings) totals r = r ≡ ok (after_readings readings totals)

    pub parse_lines-Ends :
        (lines : List String) (totals : Totals)
        → Ends (readings_of lines) totals (parse_lines text namespaced_name lines totals)
    unfolding parse_lines parse_line
    parse_lines-Ends [] totals = refl
    parse_lines-Ends (line ∷ lines) totals =
        elim (Option-cases
          (own_match namespaced_name (text.find_string_submatch metric_line_regex line))) [
            | inl other ↦ rw (parse_lines, parse_line, Ends, other) (parse_lines-Ends lines totals)
            | inr ((metric, digits), own) ↦ elim (Option-cases (text.parse_int digits)) [
              | inl bad ↦ rw (parse_lines, parse_line, Ends, own, bad) (digits, refl)
              | inr (value, good) ↦
                  let rest = parse_lines-Ends lines (assigned metric value totals) in
                  elim (Option-cases (readings_of lines)) [
                    | inl bad_later ↦
                        rw (parse_lines, parse_line, Ends, own, good, bad_later)
                          (rw bad_later at rest)
                    | inr (readings, good_later) ↦
                        rw (parse_lines, parse_line, Ends, own, good, good_later)
                          (rw (good_later, after_readings-assigned metric value readings totals) at
                            rest)
                  ]
            ]
          ]
