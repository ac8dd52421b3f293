-- ===== src/Startup/Main.antt =====
-- The start of the process in cmd/main.go: init, and main around `run`. cobra's Execute parses the
-- arguments, and calls run where they parse and do not ask for the help, which it prints itself.
use pvc_chonker.Prelude.{
  ℕ, String, Bool, Option, none, some, List, [], ◌∷◌, Result, ok, err, ◌≡◌, ◌↔◌, refl, arith, All,
}
use pvc_chonker.Libs.{Libs}
use pvc_chonker.Kubelet.Url.{Url}
use pvc_chonker.Sanitize.{IsClean, sanitize_error, sanitize_for_logging-IsClean}
use pvc_chonker.Startup.{Flags, Failure, Outside, Setup, run}

-- What cobra makes of the arguments: the help, which it prints in place of a call of run, or the
-- values of the flags with which it calls run.
pub data Command (F : Type 0) : Type 0 where
  help : Command F
  start_with : Flags F → Command F

-- What init and main meet: the errors of the two AddToScheme calls and of BindPFlags, none where
-- there is none, and the command that the arguments give or their error.
pub record Process (F : Type 0) : Type 0 where
  pub add_client_go_scheme : Option String
  pub add_v1alpha1_scheme : Option String
  pub bind_flags : Option String
  pub parse_arguments : Result String (Command F)

-- A line on the standard output: its text and the sanitized error.
pub data Line : Type 0 where
  error_binding_flags : String → Line
  error_executing_command : String → Line

-- utilruntime.Must panics; os.Exit(1), in main or in run; a return of main after the help; or a
-- return after the manager has run.
pub data Exit (F Q : Type 0) : Type 0 where
  panicked : Exit F Q
  exit_1 : Exit F Q
  helped : Exit F Q
  returned : Setup F Q → Exit F Q

abbrev pub error_of : Line → String
error_of (error_binding_flags e) = e
error_of (error_executing_command e) = e

module _ {F Q S : Type 0} (lib : Libs F Q S) (is_print : ℕ → Bool) (parse_url : String → Option Url)
    (outside : Outside) where
  of_run : Result Failure (Setup F Q) → Exit F Q
  of_run (ok setup) = returned setup
  of_run (err failure) = exit_1

  -- rootCmd.Execute()
  execute : Result String (Command F) → List Line × Exit F Q
  unfolding of_run
  execute (err e) = (error_executing_command (sanitize_error is_print (some e)) ∷ [], exit_1)
  execute (ok help) = ([], helped)
  execute (ok (start_with flags)) = ([], of_run (run lib is_print parse_url outside flags))

  unfoldable pub main : Process F → List Line × Exit F Q
  unfolding execute
  main process = elim process.bind_flags [
    | some e ↦ (error_binding_flags (sanitize_error is_print (some e)) ∷ [], exit_1)
    | none ↦ execute process.parse_arguments
  ]

  -- init, and then main
  unfoldable pub start_process : Process F → List Line × Exit F Q
  start_process process = elim process.add_client_go_scheme [
    | some e ↦ ([], panicked)
    | none ↦ elim process.add_v1alpha1_scheme [ some e ↦ ([], panicked) | none ↦ main process ]
  ]

  -- everything went well, up to the return of the manager
  abbrev pub HasRun : Process F → Setup F Q → Type 0
  HasRun process setup =
      (process.add_client_go_scheme ≡ none)
      × (process.add_v1alpha1_scheme ≡ none)
      × (process.bind_flags ≡ none)
      × ((flags : Flags F) × (process.parse_arguments ≡ ok (start_with flags))
          × (run lib is_print parse_url outside flags ≡ ok setup))

  -- the schemes are added, the flags are bound, and the arguments ask for the help
  abbrev pub AsksForHelp : Process F → Type 0
  AsksForHelp process =
      (process.add_client_go_scheme ≡ none)
      × (process.add_v1alpha1_scheme ≡ none)
      × (process.bind_flags ≡ none)
      × (process.parse_arguments ≡ ok help)

  abbrev of_values :
      Option String → Option String → Option String → Result String (Command F) → Process F
  of_values client_go v1alpha1 bound parsed = record {
    add_client_go_scheme = client_go;
    add_v1alpha1_scheme = v1alpha1;
    bind_flags = bound;
    parse_arguments = parsed;
  }

  of_run-returned :
      (setup : Setup F Q) (r : Result Failure (Setup F Q))
      → (of_run r ≡ returned setup) ↔ (r ≡ ok setup)
  unfolding of_run
  of_run-returned setup (ok s) = (λ e. cc, λ e. cc)
  of_run-returned setup (err failure) = (λ e. cc, λ e. cc)

  of_run-helped : (r : Result Failure (Setup F Q)) → ¬ (of_run r ≡ helped)
  unfolding of_run
  of_run-helped (ok setup) e = cc
  of_run-helped (err failure) e = cc

  start_process-returned :
      (setup : Setup F Q) (client_go v1alpha1 bound : Option String)
      (parsed : Result String (Command F))
      → ((start_process (of_values client_go v1alpha1 bound parsed)).1 ≡ returned setup)
        ↔ HasRun (of_values client_go v1alpha1 bound parsed) setup
  unfolding start_process main
  start_process-returned setup (some e) v1alpha1 bound parsed = (λ h. cc, λ (a, b, c, d). cc)
  start_process-returned setup none (some e) bound parsed = (λ h. cc, λ (a, b, c, d). cc)
  start_process-returned setup none none (some e) parsed = (λ h. cc, λ (a, b, c, d). cc)
  start_process-returned setup none none none (err e) = (λ h. cc, λ (a, b, c, (flags, d, r)). cc)
  start_process-returned setup none none none (ok help) = (λ h. cc, λ (a, b, c, (flags, d, r)). cc)
  start_process-returned setup none none none (ok (start_with flags)) =
      let ran = of_run-returned setup (run lib is_print parse_url outside flags) in
      (
        λ h. (refl, refl, refl, (flags, refl, ran.0 h)),
        λ (a, b, c, (flags', d, r)). ran.1 (ground (arith, r)),
      )

  start_process-helped :
      (client_go v1alpha1 bound : Option String) (parsed : Result String (Command F))
      → ((start_process (of_values client_go v1alpha1 bound parsed)).1 ≡ helped)
        ↔ AsksForHelp (of_values client_go v1alpha1 bound parsed)
  unfolding start_process main
  start_process-helped (some e) v1alpha1 bound parsed = (λ h. cc, λ (a, b, c, d). cc)
  start_process-helped none (some e) bound parsed = (λ h. cc, λ (a, b, c, d). cc)
  start_process-helped none none (some e) parsed = (λ h. cc, λ (a, b, c, d). cc)
  start_process-helped none none none (err e) = (λ h. cc, λ (a, b, c, d). cc)
  start_process-helped none none none (ok help) = (λ h. (refl, refl, refl, refl), λ h. refl)
  start_process-helped none none none (ok (start_with flags)) =
      (λ h. absurd (of_run-helped (run lib is_print parse_url outside flags) h), λ (a, b, c, d). cc)

  start_process-quiet :
      (setup : Setup F Q) (client_go v1alpha1 bound : Option String)
      (parsed : Result String (Command F))
      → (start_process (of_values client_go v1alpha1 bound parsed)).1 ≡ returned setup
      → (start_process (of_values client_go v1alpha1 bound parsed)).0 ≡ []
  unfolding start_process main
  start_process-quiet setup (some e) v1alpha1 bound parsed h = refl
  start_process-quiet setup none (some e) bound parsed h = refl
  start_process-quiet setup none none (some e) parsed h = cc
  start_process-quiet setup none none none (err e) h = cc
  start_process-quiet setup none none none (ok help) h = cc
  start_process-quiet setup none none none (ok (start_with flags)) h = refl

  start_process-IsClean :
      (client_go v1alpha1 bound : Option String) (parsed : Result String (Command F))
      → All
          (λ line. IsClean is_print (error_of line))
          (start_process (of_values client_go v1alpha1 bound parsed)).0
  unfolding start_process main sanitize_error
  start_process-IsClean (some e) v1alpha1 bound parsed = tt
  start_process-IsClean none (some e) bound parsed = tt
  start_process-IsClean none none (some e) parsed =
      ((sanitize_for_logging-IsClean is_print e).0, tt)
  start_process-IsClean none none none (err e) = ((sanitize_for_logging-IsClean is_print e).0, tt)
  start_process-IsClean none none none (ok help) = tt
  start_process-IsClean none none none (ok (start_with flags)) = tt

  -- The process returns after the manager has run exactly if both schemes are added, the flags are
  -- bound, the arguments parse, do not ask for the help and `run` returns, and main has then
  -- printed nothing; and it returns without a call of `run` exactly if the schemes are added, the
  -- flags are bound and the arguments ask for the help. Whatever main prints of an error has
  -- printable characters only and no line feed, carriage return or escape.
  pub start_process_iff :
      (process : Process F) (setup : Setup F Q)
      → (((start_process process).1 ≡ returned setup) ↔ HasRun process setup)
        × ((start_process process).1 ≡ returned setup → (start_process process).0 ≡ [])
        × (((start_process process).1 ≡ helped) ↔ AsksForHelp process)
        × All (λ line. IsClean is_print (error_of line)) (start_process process).0
  start_process_iff process setup = (
    start_process-returned setup _ _ _ process.parse_arguments,
    start_process-quiet setup _ _ _ process.parse_arguments,
    start_process-helped _ _ _ process.parse_arguments,
    start_process-IsClean process.add_client_go_scheme process.add_v1alpha1_scheme
        process.bind_flags process.parse_arguments,
  )
