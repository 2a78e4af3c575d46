-- ===== src/Gateway/Metrics.antt =====
-- The counters of pkg/gateway/metrics.go.
pub mod Errors
use dev_plane.Base.{ℕ, ◌+◌, List, [], ◌∷◌, ◌≡◌, ◌≢◌}
use dev_plane.Base.Text.{Text, decimal}
use dev_plane.Gateway.Web.{
  Effect, header_set, cookie_set, audited, error_counted, rate_limit_counted, written, responded,
  redirected, forwarded, tunnelled, recorded,
}

-- prometheus.CounterVec: a counter for each list of label values.
pub record CounterVec : Type 1 where
  pub State : Type 0
  pub inc : List Text → State → State
  pub value : List Text → State → ℕ
  pub inc_same : (labels : List Text) (s : State) → value labels (inc labels s) ≡ value labels s + 1
  pub inc_other :
      (labels others : List Text) (s : State)
      → labels ≢ others
      → value labels (inc others s) ≡ value labels s

module _ (v : CounterVec) where
  -- RecordJSONAPIError, on jsonAPIErrors
  unfoldable pub record_json_api_error : (http_status : ℕ) → (code : Text) → v.State → v.State
  record_json_api_error http_status code = v.inc (decimal http_status ∷ code ∷ [])

  -- RecordRateLimitHit, on rateLimitHits
  unfoldable pub record_rate_limit_hit : (endpoint scope : Text) → v.State → v.State
  record_rate_limit_hit endpoint scope = v.inc (endpoint ∷ scope ∷ [])

  -- RateLimitHitsTotal
  unfoldable pub rate_limit_hits_total : (endpoint scope : Text) → v.State → ℕ
  rate_limit_hits_total endpoint scope = v.value (endpoint ∷ scope ∷ [])

  -- What the effects of a request add to jsonAPIErrors.
  unfoldable pub count_errors : List Effect → v.State → v.State
  unfolding record_json_api_error
  count_errors [] s = s
  count_errors (error_counted n code ∷ es) s = count_errors es (record_json_api_error n code s)
  count_errors (header_set key value ∷ es) s = count_errors es s
  count_errors (cookie_set c ∷ es) s = count_errors es s
  count_errors (audited a ∷ es) s = count_errors es s
  count_errors (rate_limit_counted e t ∷ es) s = count_errors es s
  count_errors (written w ∷ es) s = count_errors es s
  count_errors (responded n b ∷ es) s = count_errors es s
  count_errors (redirected t ∷ es) s = count_errors es s
  count_errors (forwarded t ∷ es) s = count_errors es s
  count_errors (tunnelled t ∷ es) s = count_errors es s
  count_errors (recorded r m ∷ es) s = count_errors es s

  -- And to rateLimitHits.
  unfoldable pub count_hits : List Effect → v.State → v.State
  unfolding record_rate_limit_hit
  count_hits [] s = s
  count_hits (rate_limit_counted e t ∷ es) s = count_hits es (record_rate_limit_hit e t s)
  count_hits (error_counted n code ∷ es) s = count_hits es s
  count_hits (header_set key value ∷ es) s = count_hits es s
  count_hits (cookie_set c ∷ es) s = count_hits es s
  count_hits (audited a ∷ es) s = count_hits es s
  count_hits (written w ∷ es) s = count_hits es s
  count_hits (responded n b ∷ es) s = count_hits es s
  count_hits (redirected t ∷ es) s = count_hits es s
  count_hits (forwarded t ∷ es) s = count_hits es s
  count_hits (tunnelled t ∷ es) s = count_hits es s
  count_hits (recorded r m ∷ es) s = count_hits es s
