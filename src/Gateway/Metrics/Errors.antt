-- ===== src/Gateway/Metrics/Errors.antt =====
-- The errors that the gateway counts are those that it answers.
use dev_plane.Base.{
  ℕ, ◌+◌, Bool, true, false, List, [], ◌∷◌, ◌≡◌, ◌≢◌, refl, sym, ap, ◌∙◌, arith, ◌&&◌, inl, inr,
  Bool-cases, if◌then◌else◌,
}
use dev_plane.Base.Text.{Text, text_eq, text_eq_iff, decimal}
use dev_plane.Gateway.Auth.{Request}
use dev_plane.Gateway.Web.{
  Effect, header_set, cookie_set, audited, error_counted, rate_limit_counted, written, responded,
  redirected, forwarded, tunnelled, recorded, handle_health,
}
use dev_plane.Gateway.Web.Login.{handle_login}
use dev_plane.Gateway.Web.Measures.{answers, counted_errors, answered_errors, IsAnswered}
use dev_plane.Gateway.Web.Answers.{
  handle_callback-IsAnswered, handle_workspace_api-IsAnswered, handle_proxy-IsAnswered,
  handle_ws-IsAnswered,
}
use dev_plane.Gateway.Program.{
  Surroundings, Route, metrics, health, workspace_api, web_socket, login, callback, proxy, route,
  serve_route, serve,
}
use dev_plane.Gateway.Metrics.{CounterVec, record_json_api_error, count_errors}

-- Two lists of label values, compared.
abbrev pub labels_eq : List Text → List Text → Bool
labels_eq [] [] = true
labels_eq [] (b ∷ bs) = false
labels_eq (a ∷ rest) [] = false
labels_eq (a ∷ rest) (b ∷ others) = text_eq a b && labels_eq rest others

-- How often an error with these labels is in a list.
abbrev pub times : List Text → List (ℕ × Text) → ℕ
times labels [] = 0
times labels (e ∷ es) =
    let rest = times labels es in
    if labels_eq labels (decimal e.0 ∷ e.1 ∷ []) then rest + 1 else rest

serve_route-IsAnswered :
    (y : Surroundings) (uuid : Text) (p : Route) (r : Request) → IsAnswered (serve_route y uuid p r)
unfolding serve_route handle_health handle_login
serve_route-IsAnswered y uuid metrics r = (refl, refl)
serve_route-IsAnswered y uuid health r = (refl, refl)
serve_route-IsAnswered y uuid workspace_api r =
    handle_workspace_api-IsAnswered (record y.sessions { allow = y.allow_lifecycle })
      y.cookie_secure uuid r
serve_route-IsAnswered y uuid web_socket r = handle_ws-IsAnswered y.sessions uuid r
serve_route-IsAnswered y uuid login r = (refl, refl)
serve_route-IsAnswered y uuid callback r =
    handle_callback-IsAnswered y.oauth y.sessions.validator y.cookie_secure y.now uuid r
serve_route-IsAnswered y uuid proxy r =
    handle_proxy-IsAnswered y.sessions.validator y.sessions.lifecycle y.sessions.url_string
      y.reachable y.sessions.namespace y.cookie_secure r

serve-IsAnswered :
    (y : Surroundings) (uuid path : Text) (r : Request) → IsAnswered (serve y uuid path r)
unfolding serve
serve-IsAnswered y uuid path r = serve_route-IsAnswered y uuid (route path) r

pub labels_eq_sound : (xs ys : List Text) → labels_eq xs ys ≡ true → xs ≡ ys
labels_eq_sound [] [] h = refl
labels_eq_sound [] (b ∷ bs) h = cc
labels_eq_sound (a ∷ rest) [] h = cc
labels_eq_sound (a ∷ rest) (b ∷ others) h =
    ground (arith, text_eq_iff a b, labels_eq_sound rest others)

pub labels_eq_refl : (xs : List Text) → labels_eq xs xs ≡ true
labels_eq_refl [] = refl
labels_eq_refl (a ∷ rest) = ground (arith, text_eq_iff a a, labels_eq_refl rest)

differs : (xs ys : List Text) → labels_eq xs ys ≡ false → xs ≢ ys
differs xs ys f e = let g = labels_eq_refl xs in let h = ap (labels_eq xs) e in cc

module _ (v : CounterVec) where
  -- One increment, seen from any label values.
  value_inc :
      (labels others : List Text) (s : v.State)
      → v.value labels (v.inc others s)
        ≡ (if labels_eq labels others then v.value labels s + 1 else v.value labels s)
  value_inc labels others s = elim (Bool-cases (labels_eq labels others)) [
    | inl same ↦ rw same (
        ap (λ l. v.value labels (v.inc l s)) (sym (labels_eq_sound labels others same))
        ∙ v.inc_same labels s)
    | inr differ ↦ rw differ (v.inc_other labels others s (differs labels others differ))
  ]

  counted_once :
      (labels : List Text) (n : ℕ) (code : Text) (others : ℕ) (s : v.State)
      → v.value labels (record_json_api_error v n code s) + others
        ≡ v.value labels s
          + (if labels_eq labels (decimal n ∷ code ∷ []) then others + 1 else others)
  unfolding record_json_api_error
  counted_once labels n code others s = ground (arith, value_inc labels (decimal n ∷ code ∷ []) s)

  value-count_errors :
      (labels : List Text) (es : List Effect) (s : v.State)
      → v.value labels (count_errors v es s) ≡ v.value labels s + times labels (counted_errors es)
  unfolding count_errors record_json_api_error
  value-count_errors labels [] s = omega arith
  value-count_errors labels (error_counted n code ∷ es) s =
      value-count_errors labels es (record_json_api_error v n code s)
      ∙ counted_once labels n code (times labels (counted_errors es)) s
  value-count_errors labels (header_set key value ∷ es) s = value-count_errors labels es s
  value-count_errors labels (cookie_set c ∷ es) s = value-count_errors labels es s
  value-count_errors labels (audited a ∷ es) s = value-count_errors labels es s
  value-count_errors labels (rate_limit_counted e t ∷ es) s = value-count_errors labels es s
  value-count_errors labels (written w ∷ es) s = value-count_errors labels es s
  value-count_errors labels (responded n b ∷ es) s = value-count_errors labels es s
  value-count_errors labels (redirected t ∷ es) s = value-count_errors labels es s
  value-count_errors labels (forwarded t ∷ es) s = value-count_errors labels es s
  value-count_errors labels (tunnelled t ∷ es) s = value-count_errors labels es s
  value-count_errors labels (recorded r m ∷ es) s = value-count_errors labels es s

-- Whatever the path of a request, the gateway answers it once: with a response, a redirect, or by
-- handing it on to the pod. And for every status and code, the counter of JSON errors rises by the
-- number of such errors that the request was answered with.
pub serve_counts_errors :
    (v : CounterVec) (y : Surroundings) (uuid path : Text) (r : Request) (n : ℕ) (code : Text)
    (s : v.State)
    → (answers (serve y uuid path r) ≡ 1)
      × (v.value (decimal n ∷ code ∷ []) (count_errors v (serve y uuid path r) s)
          ≡ v.value (decimal n ∷ code ∷ []) s
            + times (decimal n ∷ code ∷ []) (answered_errors (serve y uuid path r)))
serve_counts_errors v y uuid path r n code s =
    let (once, same) = serve-IsAnswered y uuid path r in
    (
      once,
      value-count_errors v (decimal n ∷ code ∷ []) (serve y uuid path r) s
          ∙ ap (λ es. v.value (decimal n ∷ code ∷ []) s + times (decimal n ∷ code ∷ []) es) same,
    )
