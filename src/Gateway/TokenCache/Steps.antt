-- ===== src/Gateway/TokenCache/Steps.antt =====
-- Sequences of the sections.
use dev_plane.Base.{ℕ, List, [], ◌∷◌}
use dev_plane.Base.Text.{Text}
use dev_plane.Gateway.Lifecycle.{Claims}
use dev_plane.Gateway.TokenCache.{Cache, lookup, insert, sweep}

-- A section that some request, or the background loop, goes through.
pub data Op : Type 0 where
  look : (now : ℕ) (key : Text) → Op
  keep : (now : ℕ) (key : Text) (claims : Claims) → Op
  clean : (now : ℕ) → Op

unfoldable pub step : Op → Cache → Cache
step (look now key) c = (lookup now key c).1
step (keep now key claims) c = insert now key claims c
step (clean now) c = sweep now c

-- The sections one after the other.
unfoldable pub run : List Op → Cache → Cache
unfolding step
run [] c = c
run (o ∷ os) c = run os (step o c)
