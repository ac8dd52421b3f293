-- ===== src/Sanitize.antt =====
-- pkg/utils/sanitize.go: texts and URLs made safe for the log. unicode.IsPrint and net/url are
-- parameters. A text is its code points, as the loop over it reads them.
use Prim.Native.Char.{Char, code}
use Prim.Native.String.{[], ◌∷◌}
use mathlib.Core.List.{List}
use pvc_chonker.Prelude.{
  ℕ, String, Bool, true, not, ◌&&◌, Option, none, some, ◌==◌, if◌then◌else◌, eqb, ◌≡◌, ◌≢◌, ◌↔◌,
  refl, arith, subst, inl, inr, Bool-cases, eq_iff, eq-false_of_ne,
}

-- url.URL, with the fields apart from User and RawQuery in `rest`.
pub record WebUrl : Type 0 where
  pub user : Option String
  pub raw_query : String
  pub rest : List (String × String)

-- url.Parse and (*URL).String
pub record UrlLibs : Type 0 where
  pub parse : String → Option WebUrl
  pub string : WebUrl → String

module _ (is_print : ℕ → Bool) where
  -- unicode.IsPrint(r) && r != '\n' && r != '\r' && r != '\x1b'
  unfoldable pub is_safe : Char → Bool
  is_safe r =
      is_print (code r)
      && not (eqb (code r) 0xa)
      && not (eqb (code r) 0xd)
      && not (eqb (code r) 0x1b)

  unfoldable pub sanitize_for_logging : String → String
  sanitize_for_logging [] = []
  sanitize_for_logging (r ∷ input) =
      let result = sanitize_for_logging input in if is_safe r then r ∷ result else result

  -- none: err == nil
  unfoldable pub sanitize_error : Option String → String
  sanitize_error none = ""
  sanitize_error (some message) = sanitize_for_logging message

  unfoldable pub sanitize_url : UrlLibs → String → String
  sanitize_url libs raw_url = if raw_url == "" then "" else elim (libs.parse raw_url) [
    | none ↦ sanitize_for_logging raw_url
    | some parsed_url ↦ libs.string (record parsed_url { user = none; raw_query = "" })
  ]

  -- The text has printable characters only, and no line feed, carriage return or escape.
  abbrev pub IsClean : String → Type 0
  IsClean [] = Unit
  IsClean (r ∷ s) =
      (is_print (code r) ≡ true) × (code r ≢ 0xa) × (code r ≢ 0xd) × (code r ≢ 0x1b) × IsClean s

  is_safe_iff :
      (r : Char)
      → (is_safe r ≡ true)
        ↔ ((is_print (code r) ≡ true) × (code r ≢ 0xa) × (code r ≢ 0xd) × (code r ≢ 0x1b))
  unfolding is_safe
  is_safe_iff r = ground arith

  sanitize_for_logging-result : (s : String) → IsClean (sanitize_for_logging s)
  unfolding sanitize_for_logging
  sanitize_for_logging-result [] = tt
  sanitize_for_logging-result (r ∷ s) = elim (Bool-cases (is_safe r)) [
    | inl safe ↦
        let (printed, a, b, c) = (is_safe_iff r).0 safe in
        rw safe (printed, a, b, c, sanitize_for_logging-result s)
    | inr unsafe ↦ rw unsafe (sanitize_for_logging-result s)
  ]

  sanitize_for_logging_of_IsClean : (s : String) → IsClean s → sanitize_for_logging s ≡ s
  unfolding sanitize_for_logging
  sanitize_for_logging_of_IsClean [] h = refl
  sanitize_for_logging_of_IsClean (r ∷ s) (printed, a, b, c, h) =
      let safe = (is_safe_iff r).1 (printed, a, b, c) in
      rw (safe, sanitize_for_logging_of_IsClean s h) refl

  -- What SanitizeForLogging returns has printable characters only and no line feed, carriage return
  -- or escape, and it returns a text unchanged exactly if the text is so already.
  pub sanitize_for_logging-IsClean :
      (s : String) → IsClean (sanitize_for_logging s) × ((sanitize_for_logging s ≡ s) ↔ IsClean s)
  sanitize_for_logging-IsClean s = (
    sanitize_for_logging-result s,
    (λ same. subst IsClean same (sanitize_for_logging-result s), sanitize_for_logging_of_IsClean s),
  )

  -- SanitizeURL does not tell two URLs apart that parse and that differ in their user information
  -- and their query alone.
  pub sanitize_url-eq :
      (libs : UrlLibs) (one other : String) (u v : WebUrl)
      → one ≢ ""
      → other ≢ ""
      → libs.parse one ≡ some u
      → libs.parse other ≡ some v
      → u.rest ≡ v.rest
      → sanitize_url libs one ≡ sanitize_url libs other
  unfolding sanitize_url
  sanitize_url-eq libs one other u v h k parsed parsed' same =
      rw (eq-false_of_ne one "" h, eq-false_of_ne other "" k, parsed, parsed', same) refl

  -- A text that url.Parse refuses is returned as it is, the user information included, where its
  -- characters are clean.
  pub sanitize_url_of_unparsed :
      (libs : UrlLibs) (raw_url : String)
      → libs.parse raw_url ≡ none
      → IsClean raw_url
      → sanitize_url libs raw_url ≡ raw_url
  unfolding sanitize_url
  sanitize_url_of_unparsed libs raw_url refused clean = elim (Bool-cases (raw_url == "")) [
    | inl empty ↦ ground (arith, eq_iff raw_url "")
    | inr given ↦ rw (given, refused) (sanitize_for_logging_of_IsClean raw_url clean)
  ]
