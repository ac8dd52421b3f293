-- ===== src/Kubelet/Collector.antt =====
-- NewMetricsCollector and the requests of fetchNodeMetrics and fetchFromCustomURL in
-- pkg/kubelet/cache.go. The HTTP client and the API server's proxy to a node are parameters.
use pvc_chonker.Prelude.{
  ℕ, String, not, Option, none, some, Result, ok, err, ◌==◌, eqb, if◌then◌else◌, ◌>>=◌, wrap_err,
}
use Prim.Native.String.{◌++◌}
use pvc_chonker.Prelude.Int.{ℤ, pos}
use pvc_chonker.Kubelet.Url.{Url, UrlError, validate_kubelet_url}

-- MetricsCollector, apart from the clients that SetClient stores. httpTimeout is in nanoseconds.
pub record MetricsCollector : Type 0 where
  pub kubelet_url : String
  pub http_timeout : ℤ

unfoldable pub new_metrics_collector :
    (String → Option Url) → String → Result UrlError MetricsCollector
new_metrics_collector parse kubelet_url =
    let collector : MetricsCollector = record {
      kubelet_url = kubelet_url;
      http_timeout = pos 30_000_000_000;
    } in
    if kubelet_url == ""
    then ok collector
    else elim (validate_kubelet_url parse kubelet_url) [ some e ↦ err e | none ↦ ok collector ]

-- resp.StatusCode and what reading resp.Body gives
pub record Response : Type 0 where
  pub status_code : ℕ
  pub body : Result String String

-- The collector with the clients that SetClient stores, none before its call.
pub record Connected (C : Type 0) : Type 0 where
  pub collector : MetricsCollector
  pub clients : Option C

unfoldable pub set_client : {C : Type 0} → Connected C → C → Connected C
set_client mc clients = record mc { clients = some clients }

-- http.NewRequestWithContext for a URL, client.Do with a timeout, and the GET of the metrics of a
-- node through the API server's proxy.
pub record Requests (R : Type 0) : Type 0 where
  pub new_request : String → Result String R
  pub send : ℤ → R → Result String Response
  pub proxy : String → Result String String

pub data RequestError : Type 0 where
  not_created : String → RequestError
  not_sent : String → RequestError
  unexpected_status : ℕ → RequestError
  not_read : String → RequestError
  proxy_failed : String → RequestError

module _ {R : Type 0} (requests : Requests R) (mc : MetricsCollector) where
  -- below client.Do
  body_of : Response → Result RequestError String
  body_of resp =
      if not (eqb resp.status_code 200)
      then err (unexpected_status resp.status_code)
      else wrap_err not_read resp.body

  unfoldable pub fetch_from_custom_url : Result RequestError String
  unfolding body_of
  fetch_from_custom_url = do
    req ← wrap_err not_created (requests.new_request (mc.kubelet_url ++ "/metrics"))
    resp ← wrap_err not_sent (requests.send mc.http_timeout req)
    body_of resp

  -- the first part of fetchNodeMetrics
  unfoldable pub request_metrics : String → Result RequestError String
  request_metrics node_name =
      if not (mc.kubelet_url == "")
      then fetch_from_custom_url
      else wrap_err proxy_failed (requests.proxy node_name)
