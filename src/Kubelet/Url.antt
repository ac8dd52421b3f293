-- ===== src/Kubelet/Url.antt =====
-- validateKubeletURL of pkg/kubelet/cache.go. url.Parse is an argument, with the scheme and the
-- host name of the URL that it gives.
use pvc_chonker.Prelude.{
  String, false, not, ◌&&◌, Option, none, some, List, [], ◌∷◌, ◌==◌, if◌then◌else◌, ◌≡◌, ◌≢◌, ◌⊎◌,
  ◌↔◌, inl, inr, arith, refl, All, Option-cases, eq_iff,
}
use pvc_chonker.Prelude.Text.{to_lower, contains}

-- The parts of a parsed URL that are read: Scheme and Hostname().
pub record Url : Type 0 where
  pub scheme : String
  pub hostname : String

pub data UrlError : Type 0 where
  not_parsed : UrlError
  scheme_not_allowed : UrlError
  no_host : UrlError
  blocked_host : String → UrlError

abbrev pub blocked : List String
blocked = "169.254.169.254" ∷ "metadata.google.internal" ∷ "localhost" ∷ []

-- the loop over the blocked hosts
check_blocked : String → List String → Option UrlError
check_blocked host [] = none
check_blocked host (b ∷ bs) =
    let rest = check_blocked host bs in
    if contains (to_lower host) b then some (blocked_host host) else rest

-- none: the URL is valid
unfoldable pub validate_kubelet_url : (String → Option Url) → String → Option UrlError
unfolding check_blocked
validate_kubelet_url parse kubelet_url = elim (parse kubelet_url) [
  | none ↦ some not_parsed
  | some parsed ↦
      if not (parsed.scheme == "http") && not (parsed.scheme == "https")
      then some scheme_not_allowed
      else if parsed.hostname == ""
      then some no_host
      else check_blocked parsed.hostname blocked
]

-- The URL that a valid text parses to.
pub record IsAllowed (u : Url) : Type 0 where
  pub web : (u.scheme ≡ "http") ⊎ (u.scheme ≡ "https")
  pub hosted : u.hostname ≢ ""
  pub unblocked : All (λ b. contains (to_lower u.hostname) b ≡ false) blocked

check_blocked_iff :
    (host : String) (bs : List String)
    → (check_blocked host bs ≡ none) ↔ All (λ b. contains (to_lower host) b ≡ false) bs
unfolding check_blocked
check_blocked_iff host [] = (λ e. tt, λ h. refl)
check_blocked_iff host (b ∷ bs) = ground (arith, check_blocked_iff host bs)

-- A kubelet URL is accepted exactly if it parses to a URL with the scheme http or https, a host
-- name, and, in lower case, none of the blocked hosts in the host name.
pub validate_kubelet_url-IsAllowed_iff :
    (parse : String → Option Url) (kubelet_url : String)
    → (validate_kubelet_url parse kubelet_url ≡ none)
      ↔ ((u : Url) × (parse kubelet_url ≡ some u) × IsAllowed u)
unfolding validate_kubelet_url
validate_kubelet_url-IsAllowed_iff parse kubelet_url = (to, from)
  where
    to :
        validate_kubelet_url parse kubelet_url ≡ none
        → (u : Url) × (parse kubelet_url ≡ some u) × IsAllowed u
    to e = elim (Option-cases (parse kubelet_url)) [
      | inl failed ↦ absurd (ground arith)
      | inr (u, parsed) ↦ (
        u,
        parsed,
        record {
          web = ground (arith, eq_iff u.scheme "http", eq_iff u.scheme "https");
          hosted = ground (arith, eq_iff u.hostname "");
          unblocked =
              (check_blocked_iff u.hostname blocked).0 (ground (arith, eq_iff u.hostname ""));
        },
      )
    ]

    from :
        (u : Url) × (parse kubelet_url ≡ some u) × IsAllowed u
        → validate_kubelet_url parse kubelet_url ≡ none
    from (u, parsed, a) = ground (
      arith,
      a.web,
      a.hosted,
      (check_blocked_iff u.hostname blocked).1 a.unblocked,
      eq_iff u.hostname "",
      eq_iff u.scheme "http",
      eq_iff u.scheme "https",
    )
