-- ===== src/Startup/Ready.antt =====
-- What holds when the manager starts.
use pvc_chonker.Prelude.{
  ℕ, String, Bool, true, Option, none, some, List, [], ◌∷◌, ok, err, Result, ◌==◌, >>=-eq-ok,
  wrap_err, ◌≡◌, ◌⊎◌, ◌↔◌, inl, inr, refl, arith, subst, Any, ◌∙◌, All, eq_iff, Bool-cases,
  Option-cases,
}
use pvc_chonker.Libs.{Libs}
use pvc_chonker.Annotations.Types.{PvcConfig}
use pvc_chonker.Annotations.Size.{calculate_new_size}
use pvc_chonker.Annotations.Global.Increase.{new_global_config-calculate_new_size}
use pvc_chonker.Kubelet.Url.{
  Url, IsAllowed, validate_kubelet_url, validate_kubelet_url-IsAllowed_iff,
}
use pvc_chonker.Kubelet.Collector.{MetricsCollector, new_metrics_collector}
use pvc_chonker.Sanitize.{IsClean, sanitize_for_logging-IsClean}
use pvc_chonker.Reconcile.Sent.{sent}
use pvc_chonker.Reconcile.Start.{Round, start}
use pvc_chonker.Reconcile.Start.DryRun.{start_dry_run}
use pvc_chonker.Startup.{
  Flags, Part, group_webhook, Failure, no_metrics_collector, invalid_min_scale_up, invalid_max_size,
  Outside, Setup, check, quantity_flag, global_config_of, no_clientset, setup_of, register_all,
  parts_of, connect, set_up,
}

check-ok :
    (o : Option String) (failure : String → Failure) (u : Unit {0})
    → check o failure ≡ ok u
    → o ≡ none
check-ok none failure u e = refl
check-ok (some text) failure u e = cc

new_metrics_collector-ok :
    (parse : String → Option Url) (kubelet_url : String) (c : MetricsCollector)
    → new_metrics_collector parse kubelet_url ≡ ok c
    → ((kubelet_url ≡ "") ⊎ ((u : Url) × (parse kubelet_url ≡ some u) × IsAllowed u))
      × (c.kubelet_url ≡ kubelet_url)
unfolding new_metrics_collector
new_metrics_collector-ok parse kubelet_url c e = elim (Bool-cases (kubelet_url == "")) [
  | inl empty ↦ (inl (ground (arith, eq_iff kubelet_url "")), ground arith)
  | inr given ↦ elim (Option-cases (validate_kubelet_url parse kubelet_url)) [
    | inl valid ↦
        (inr ((validate_kubelet_url-IsAllowed_iff parse kubelet_url).0 valid), ground arith)
    | inr (x, refused) ↦ absurd (ground arith)
  ]
]

wrap_err-ok :
    {A E : Type 0} (f : E → Failure) (r : Result E A) (a : A) → wrap_err f r ≡ ok a → r ≡ ok a
wrap_err-ok f (ok b) a e = cc
wrap_err-ok f (err x) a e = cc

ok-injective : {A E : Type 0} (a b : A) → ◌≡◌ {A = Result E A} (ok a) (ok b) → a ≡ b
ok-injective a b e = cc

parts_of-webhook :
    {F : Type 0} (flags : Flags F)
    → Any (λ part. part ≡ group_webhook) (parts_of flags) ↔ (flags.enable_webhook ≡ true)
parts_of-webhook flags = elim (Bool-cases flags.enable_webhook) [
  | inl on ↦ rw on ((λ h. refl), (λ h. inr (inr (inr (inl refl)))))
  | inr off ↦ rw off ((λ h. ground (arith, h)), (λ h. absurd (cc)))
]

module _ {F Q S : Type 0} (lib : Libs F Q S) where
  -- The quantity is the one that the flag's text reads as, or the zero quantity for no text.
  abbrev pub IsQuantityOf : String → Q → Type 0
  IsQuantityOf value q =
      ((value ≡ "") × (q ≡ lib.zero_quantity)) ⊎ (lib.parse_quantity value ≡ some q)

  quantity_flag-ok :
      (value : String) (failure : String → Failure) (q : Q)
      → quantity_flag lib value failure ≡ ok q
      → IsQuantityOf value q
  unfolding quantity_flag
  quantity_flag-ok value failure q e = elim (Bool-cases (value == "")) [
    | inl empty ↦ inl (ground (arith, eq_iff value ""), ground arith)
    | inr given ↦ elim (Option-cases (lib.parse_quantity value)) [
      | inl bad ↦ absurd (ground arith)
      | inr (r, good) ↦ inr (ground arith)
    ]
  ]

  module _ (is_print : ℕ → Bool) (parse_url : String → Option Url) (outside : Outside)
      (flags : Flags F) where
    pub record IsReady (s : Setup F Q) : Type 0 where
      pub min_scale_up : Q
      pub max_size : Q
      pub reads_min : IsQuantityOf flags.default_min_scale_up min_scale_up
      pub reads_max : IsQuantityOf flags.default_max_size max_size
      pub configured : s.reconciler.global_config ≡ global_config_of lib flags min_scale_up max_size
      pub dry_run : s.reconciler.dry_run ≡ flags.dry_run
      pub interval : s.reconciler.watch_interval ≡ flags.watch_interval
      pub parallel : s.reconciler.max_parallel ≡ flags.max_parallel
      pub allowed :
          (flags.kubelet_url ≡ "")
          ⊎ ((u : Url) × (parse_url flags.kubelet_url ≡ some u) × IsAllowed u)
      pub asks : s.collector.kubelet_url ≡ flags.kubelet_url
      pub metrics_address : IsClean is_print s.options.metrics_bind_address
      pub probe_address : IsClean is_print s.options.health_probe_bind_address
      pub webhook : Any (λ part. part ≡ group_webhook) s.parts ↔ (flags.enable_webhook ≡ true)
      pub served : All (λ part. outside.register part ≡ none) s.parts

    register_all-served :
        (parts : List Part) (u : Unit {0})
        → register_all lib is_print parse_url outside flags parts ≡ ok u
        → All (λ part. outside.register part ≡ none) parts
    unfolding register_all
    register_all-served [] u e = tt
    register_all-served (part ∷ parts) u e =
        let (done, first, rest) = >>=-eq-ok (check (outside.register part) _) _ e in
        (check-ok (outside.register part) _ done first, register_all-served parts u rest)

    connect-IsReady :
        (s : Setup F Q) (min_scale_up max_size : Q)
        → IsQuantityOf flags.default_min_scale_up min_scale_up
        → IsQuantityOf flags.default_max_size max_size
        → connect lib is_print parse_url outside flags
            (global_config_of lib flags min_scale_up max_size)
          ≡ ok s
        → IsReady s
    unfolding connect
    connect-IsReady s min_scale_up max_size reads_min reads_max e =
        let (collector, e1, f1) =
          >>=-eq-ok
            (wrap_err no_metrics_collector (new_metrics_collector parse_url flags.kubelet_url)) _
            e in
        let (allowed, asks) =
          new_metrics_collector-ok parse_url flags.kubelet_url collector
            (wrap_err-ok no_metrics_collector _ collector e1) in
        let (clientset, e2, f2) = >>=-eq-ok (check outside.new_clientset no_clientset) _ f1 in
        let (registered, e3, f3) =
          >>=-eq-ok (register_all lib is_print parse_url outside flags (parts_of flags)) _ f2 in
        let served = register_all-served (parts_of flags) registered e3 in
        let config = global_config_of lib flags min_scale_up max_size in
        subst (λ t. IsReady t)
          (ok-injective (setup_of is_print flags config collector (parts_of flags)) s f3)
          (record {
            min_scale_up = min_scale_up;
            max_size = max_size;
            reads_min = reads_min;
            reads_max = reads_max;
            configured = refl;
            dry_run = refl;
            interval = refl;
            parallel = refl;
            allowed = allowed;
            asks = asks;
            metrics_address = (sanitize_for_logging-IsClean is_print flags.metrics_bind_address).0;
            probe_address =
                (sanitize_for_logging-IsClean is_print flags.health_probe_bind_address).0;
            webhook = parts_of-webhook flags;
            served = served;
          })

    -- If `run` comes to the start of the manager, then: the two quantities of the global
    -- configuration are those that their flags read as, or zero for an empty flag, and the rest of
    -- it is NewGlobalConfig of the flags; the dry run, the interval and MaxParallel are those of
    -- the flags; the URL of the kubelets is empty, for the API server's proxy, or has a scheme http
    -- or https, a host and no blocked host in it, and is the one that is asked; the addresses for
    -- metrics and probes hold printable characters only and no line feed, carriage return or
    -- escape; the webhook is registered exactly if its flag is on; and every part that is
    -- registered was accepted.
    pub set_up-IsReady :
        (s : Setup F Q) → set_up lib is_print parse_url outside flags ≡ ok s → IsReady s
    unfolding set_up
    set_up-IsReady s e =
        let (c, e1, f1) = >>=-eq-ok (check outside.get_config _) _ e in
        let (m, e2, f2) = >>=-eq-ok (check (outside.new_manager _) _) _ f1 in
        let (min_scale_up, e3, f3) =
          >>=-eq-ok (quantity_flag lib flags.default_min_scale_up invalid_min_scale_up) _ f2 in
        let (max_size, e4, f4) =
          >>=-eq-ok (quantity_flag lib flags.default_max_size invalid_max_size) _ f3 in
        connect-IsReady s min_scale_up max_size
          (quantity_flag-ok flags.default_min_scale_up _ min_scale_up e3)
          (quantity_flag-ok flags.default_max_size _ max_size e4) f4

    -- If `run` comes to the start of the manager with the flag dry-run, then the controller asks
    -- the API server for no update of a PVC in any of its cycles.
    pub set_up-sent :
        (s : Setup F Q) (first : Round F Q S) (rounds : List (Round F Q S))
        → set_up lib is_print parse_url outside flags ≡ ok s
        → flags.dry_run ≡ true
        → sent (start lib s.reconciler first rounds) ≡ []
    set_up-sent s first rounds e dry =
        start_dry_run lib s.reconciler first rounds ((set_up-IsReady s e).dry_run ∙ dry)

    -- If `run` comes to the start of the manager, the increase of the global configuration can be
    -- applied: if "10" parses as a number, a configuration that takes its increase from there has a
    -- new size for every current size.
    pub set_up-calculate_new_size :
        {x : F} (s : Setup F Q) (config : PvcConfig F Q) (current_size : Q)
        → set_up lib is_print parse_url outside flags ≡ ok s
        → lib.parse_float "10" ≡ some x
        → config.increase ≡ s.reconciler.global_config.increase
        → (q : Q) × (calculate_new_size lib (some config) current_size ≡ ok q)
    set_up-calculate_new_size s config current_size e ten same =
        let h = set_up-IsReady s e in
        new_global_config-calculate_new_size lib flags.default_threshold
          flags.default_inodes_threshold flags.default_increase flags.default_cooldown
          h.min_scale_up h.max_size config current_size ten (rw h.configured at same)
