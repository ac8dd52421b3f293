-- ===== src/Kubelet/Volume/Report.antt =====
-- What parseVolumeMetrics returns, from the last reading of each metric.
use pvc_chonker.Prelude.{
  ℕ, ◌-◌, ◌^◌, ◌<◌, String, true, false, ◌||◌, Option, none, some, List, Result, ok, err,
  if◌then◌else◌, ◌≡◌, ◌≢◌, ◌⊎◌, refl, ◌∙◌, ap, [], ltb, get_or, arith, inl, inr, Option-cases,
  Bool-cases,
}
use pvc_chonker.Prelude.Int.{ℤ, pos, sub64_fits}
use pvc_chonker.Kube.{NamespacedName}
use pvc_chonker.Libs.{Libs}
use pvc_chonker.Kubelet.Cache.{VolumeMetrics}
use pvc_chonker.Kubelet.Volume.{
  TextLibs, VolumeError, invalid_value, volume_not_found, Totals, no_totals, is_zero, percent_of,
  space_used, inodes_left, volume, volume_of, parse_volume_metrics,
}
use pvc_chonker.Kubelet.Volume.Lines.{latest_or, after_readings, readings_of, parse_lines-Ends}
use pvc_chonker.Kubelet.Volume.Counts.{AreCounts, latest_or-IsCount, zero-cases, ltb_ℤ-pos}

module _ {F Q S : Type 0} (lib : Libs F Q S) where
  -- The volume of these readings: each number is the last reading of its metric, and what is in use
  -- or free is the rest, or 0 where the part is larger than the whole.
  pub record IsReport (readings : List (String × ℤ)) (vm : VolumeMetrics F) : Type 0 where
    pub c : ℕ
    pub a : ℕ
    pub t : ℕ
    pub u : ℕ
    pub last_capacity : latest_or "kubelet_volume_stats_capacity_bytes" readings (pos 0) ≡ pos c
    pub last_available : latest_or "kubelet_volume_stats_available_bytes" readings (pos 0) ≡ pos a
    pub last_inodes : latest_or "kubelet_volume_stats_inodes" readings (pos 0) ≡ pos t
    pub last_inodes_used : latest_or "kubelet_volume_stats_inodes_used" readings (pos 0) ≡ pos u
    pub capacity : vm.capacity_bytes ≡ pos c
    pub available : vm.available_bytes ≡ pos a
    pub inodes_total : vm.inodes_total ≡ pos t
    pub inodes_used : vm.inodes_used ≡ pos u
    pub used : vm.used_bytes ≡ pos (c - a)
    pub free : vm.inodes_free ≡ pos (t - u)
    pub usage :
        vm.usage_percent
        ≡ (if ltb c a then lib.of_int (pos 0) else percent_of lib (pos (c - a)) (pos c))
    pub inodes_usage : vm.inodes_usage_percent ≡ (
        if ltb 0 t
        then if ltb t u then lib.of_int (pos 100) else percent_of lib (pos u) (pos t)
        else lib.of_int (pos 0))

  space_used_lem :
      (c a : ℕ)
      → c < 2 ^ 63
      → space_used lib (pos c) (pos a) ≡ (
        pos (c - a),
        if ltb c a then lib.of_int (pos 0) else percent_of lib (pos (c - a)) (pos c),
      )
  unfolding space_used
  space_used_lem c a h = elim (Bool-cases (ltb c a)) [
    | inl more ↦
        let none_left : c - a ≡ 0 = ground arith in rw (ltb_ℤ-pos c a, more, none_left) refl
    | inr within ↦ rw (ltb_ℤ-pos c a, within, sub64_fits c a (ground arith) h) refl
  ]

  inodes_left_lem :
      (t u : ℕ)
      → t < 2 ^ 63
      → inodes_left lib (pos t) (pos u) ≡ (
        pos (t - u),
        if ltb 0 t
            then if ltb t u then lib.of_int (pos 100) else percent_of lib (pos u) (pos t)
            else lib.of_int (pos 0),
      )
  unfolding inodes_left
  inodes_left_lem t u h = elim (Bool-cases (ltb 0 t)) [
    | inr no_inodes ↦
        let none_left : t - u ≡ 0 = ground arith in rw (ltb_ℤ-pos 0 t, no_inodes, none_left) refl
    | inl inodes ↦ elim (Bool-cases (ltb t u)) [
      | inl more ↦
          let none_left : t - u ≡ 0 = ground arith in
          rw (ltb_ℤ-pos 0 t, ltb_ℤ-pos t u, inodes, more, none_left) refl
      | inr within ↦
          rw (ltb_ℤ-pos 0 t, ltb_ℤ-pos t u, inodes, within, sub64_fits t u (ground arith) h) refl
    ]
  ]

  volume-IsReport :
      (readings : List (String × ℤ))
      → AreCounts readings
      → IsReport readings (volume lib (after_readings readings no_totals))
  unfolding volume
  volume-IsReport readings h =
      let (c, is_c, c_fits) = latest_or-IsCount "kubelet_volume_stats_capacity_bytes" readings h in
      let (a, is_a, a_fits) = latest_or-IsCount "kubelet_volume_stats_available_bytes" readings h in
      let (t, is_t, t_fits) = latest_or-IsCount "kubelet_volume_stats_inodes" readings h in
      let (u, is_u, u_fits) = latest_or-IsCount "kubelet_volume_stats_inodes_used" readings h in
      record {
        c = c;
        a = a;
        t = t;
        u = u;
        last_capacity = is_c;
        last_available = is_a;
        last_inodes = is_t;
        last_inodes_used = is_u;
        capacity = is_c;
        available = is_a;
        inodes_total = is_t;
        inodes_used = is_u;
        used = rw (is_c, is_a) (ap (λ (x : ℤ × F). x.0) (space_used_lem c a c_fits));
        free = rw (is_t, is_u) (ap (λ (x : ℤ × F). x.0) (inodes_left_lem t u t_fits));
        usage = rw (is_c, is_a) (ap (λ (x : ℤ × F). x.1) (space_used_lem c a c_fits));
        inodes_usage = rw (is_t, is_u) (ap (λ (x : ℤ × F). x.1) (inodes_left_lem t u t_fits));
      }

  zero_or : (x y : ℤ) → (x ≡ pos 0) ⊎ (y ≡ pos 0) → (is_zero x || is_zero y) ≡ true
  zero_or x y h = ground arith

  nonzero_and : (x y : ℤ) → x ≢ pos 0 → y ≢ pos 0 → (is_zero x || is_zero y) ≡ false
  nonzero_and x y h k = ground arith

  module _ (E : Type 0) (text : TextLibs) (namespaced_name : NamespacedName) where
    volume_of_zero :
        (totals : Totals)
        → (totals.capacity ≡ pos 0) ⊎ (totals.available ≡ pos 0)
        → volume_of text namespaced_name {E = E} lib totals ≡ err (volume_not_found namespaced_name)
    unfolding volume_of
    volume_of_zero totals h = rw (zero_or totals.capacity totals.available h) refl

    volume_of_nonzero :
        (totals : Totals)
        → totals.capacity ≢ pos 0
        → totals.available ≢ pos 0
        → volume_of text namespaced_name {E = E} lib totals ≡ ok (volume lib totals)
    unfolding volume_of
    volume_of_nonzero totals c a = rw (nonzero_and totals.capacity totals.available c a) refl

    parse_of_readings :
        (metrics_text : String) (readings : List (String × ℤ))
        → readings_of text namespaced_name (text.lines metrics_text) ≡ some readings
        → parse_volume_metrics text namespaced_name {E = E} lib metrics_text
          ≡ volume_of text namespaced_name lib (after_readings readings no_totals)
    unfolding parse_volume_metrics
    parse_of_readings metrics_text readings readable =
        rw
          (rw readable at
            (parse_lines-Ends text namespaced_name E (text.lines metrics_text) no_totals))
          refl

    abbrev pub last_capacity : List (String × ℤ) → ℤ
    last_capacity readings = latest_or "kubelet_volume_stats_capacity_bytes" readings (pos 0)

    abbrev pub last_available : List (String × ℤ) → ℤ
    last_available readings = latest_or "kubelet_volume_stats_available_bytes" readings (pos 0)

    -- What is returned for these readings, or where there are none.
    abbrev pub IsAnswer :
        Option (List (String × ℤ)) → Result (VolumeError E) (VolumeMetrics F) → Type 0
    IsAnswer none r = (digits : String) × (r ≡ err (invalid_value digits))
    IsAnswer (some readings) r =
        (((last_capacity readings ≡ pos 0) ⊎ (last_available readings ≡ pos 0))
          × (r ≡ err (volume_not_found namespaced_name)))
        ⊎ ((last_capacity readings ≢ pos 0)
            × (last_available readings ≢ pos 0)
            × ((vm : VolumeMetrics F) × (r ≡ ok vm) × IsReport readings vm))

    IsAnswer-of :
        (readings : List (String × ℤ)) (r : Result (VolumeError E) (VolumeMetrics F))
        → AreCounts readings
        → r ≡ volume_of text namespaced_name lib (after_readings readings no_totals)
        → IsAnswer (some readings) r
    IsAnswer-of readings r counts e = elim (zero-cases (last_capacity readings)) [
      | inl no_capacity ↦ inl (
        inl no_capacity,
        e ∙ volume_of_zero (after_readings readings no_totals) (inl no_capacity),
      )
      | inr c ↦ elim (zero-cases (last_available readings)) [
        | inl full ↦
            inl (inr full, e ∙ volume_of_zero (after_readings readings no_totals) (inr full))
        | inr a ↦ inr (
          c,
          a,
          (
            volume lib (after_readings readings no_totals),
            e ∙ volume_of_nonzero (after_readings readings no_totals) c a,
            volume-IsReport readings counts,
          ),
        )
      ]
    ]

    -- How parseVolumeMetrics ends, where the readings are from 0 to 2^63 - 1. If the value of one
    -- of the PVC's lines is no number, it fails with an invalid value. Else, if the last reading of
    -- the capacity or of what is available is 0 or missing, it says that the volume was not found,
    -- also for a volume that is full; and otherwise it returns the volume that the last readings
    -- describe.
    pub parse_volume_metrics-IsAnswer :
        (metrics_text : String)
        → AreCounts (get_or (readings_of text namespaced_name (text.lines metrics_text)) [])
        → IsAnswer
            (readings_of text namespaced_name (text.lines metrics_text))
            (parse_volume_metrics text namespaced_name lib metrics_text)
    unfolding parse_volume_metrics
    parse_volume_metrics-IsAnswer metrics_text counts =
        elim (Option-cases (readings_of text namespaced_name (text.lines metrics_text))) [
          | inl unreadable ↦
              let loop =
                rw unreadable at
                  (parse_lines-Ends text namespaced_name E (text.lines metrics_text) no_totals) in
              rw unreadable (loop.0, rw loop.1 refl)
          | inr (readings, readable) ↦
              let volume_read = parse_of_readings metrics_text readings readable in
              let counted : AreCounts readings = rw readable at counts in
              rw readable (IsAnswer-of readings _ counted volume_read)
        ]
