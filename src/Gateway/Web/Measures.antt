-- ===== src/Gateway/Web/Measures.antt =====
-- How a request is answered, and which of its errors are counted, in a list of effects.
use dev_plane.Base.{ℕ, ◌+◌, List, [], ◌∷◌, ◌++◌, ◌≡◌, refl}
use dev_plane.Base.Text.{Text}
use dev_plane.Gateway.Lifecycle.{Write}
use dev_plane.Gateway.Web.{
  Body, error_code, workspace_json, plain, loading_page, Effect, header_set, cookie_set, audited,
  error_counted, rate_limit_counted, written, responded, redirected, forwarded, tunnelled, recorded,
  writes,
}

-- The answers of a request: responses, redirects, and requests that are handed on to a pod.
abbrev pub answers : List Effect → ℕ
answers [] = 0
answers (responded n b ∷ es) = 1 + answers es
answers (redirected t ∷ es) = 1 + answers es
answers (forwarded t ∷ es) = 1 + answers es
answers (tunnelled t ∷ es) = 1 + answers es
answers (header_set k v ∷ es) = answers es
answers (cookie_set c ∷ es) = answers es
answers (audited a ∷ es) = answers es
answers (error_counted n t ∷ es) = answers es
answers (rate_limit_counted e s ∷ es) = answers es
answers (written w ∷ es) = answers es
answers (recorded r m ∷ es) = answers es

-- The JSON errors that are counted, and those that are answered, with their status.
abbrev pub counted_errors : List Effect → List (ℕ × Text)
counted_errors [] = []
counted_errors (error_counted n code ∷ es) = (n, code) ∷ counted_errors es
counted_errors (responded n b ∷ es) = counted_errors es
counted_errors (redirected t ∷ es) = counted_errors es
counted_errors (forwarded t ∷ es) = counted_errors es
counted_errors (tunnelled t ∷ es) = counted_errors es
counted_errors (header_set k v ∷ es) = counted_errors es
counted_errors (cookie_set c ∷ es) = counted_errors es
counted_errors (audited a ∷ es) = counted_errors es
counted_errors (rate_limit_counted e s ∷ es) = counted_errors es
counted_errors (written w ∷ es) = counted_errors es
counted_errors (recorded r m ∷ es) = counted_errors es

abbrev pub error_of : ℕ → Body → List (ℕ × Text)
error_of n (error_code code) = (n, code) ∷ []
error_of n (workspace_json w) = []
error_of n (plain t) = []
error_of n (loading_page d p) = []

abbrev pub answered_errors : List Effect → List (ℕ × Text)
answered_errors [] = []
answered_errors (responded n b ∷ es) = error_of n b ++ answered_errors es
answered_errors (error_counted n code ∷ es) = answered_errors es
answered_errors (redirected t ∷ es) = answered_errors es
answered_errors (forwarded t ∷ es) = answered_errors es
answered_errors (tunnelled t ∷ es) = answered_errors es
answered_errors (header_set k v ∷ es) = answered_errors es
answered_errors (cookie_set c ∷ es) = answered_errors es
answered_errors (audited a ∷ es) = answered_errors es
answered_errors (rate_limit_counted e s ∷ es) = answered_errors es
answered_errors (written w ∷ es) = answered_errors es
answered_errors (recorded r m ∷ es) = answered_errors es

-- One answer, and each JSON error counted.
abbrev pub IsAnswered : List Effect → Type 0
IsAnswered es = (answers es ≡ 1) × (counted_errors es ≡ answered_errors es)

pub writes-IsAnswered :
    (ws : List Write) (es : List Effect) → IsAnswered es → IsAnswered (writes ws ++ es)
writes-IsAnswered [] es h = h
writes-IsAnswered (w ∷ ws) es h = writes-IsAnswered ws es h

pub answers-writes : (ws : List Write) (es : List Effect) → answers (writes ws ++ es) ≡ answers es
answers-writes [] es = refl
answers-writes (w ∷ ws) es = answers-writes ws es

pub counted_errors-writes :
    (ws : List Write) (es : List Effect) → counted_errors (writes ws ++ es) ≡ counted_errors es
counted_errors-writes [] es = refl
counted_errors-writes (w ∷ ws) es = counted_errors-writes ws es

pub answered_errors-writes :
    (ws : List Write) (es : List Effect) → answered_errors (writes ws ++ es) ≡ answered_errors es
answered_errors-writes [] es = refl
answered_errors-writes (w ∷ ws) es = answered_errors-writes ws es
