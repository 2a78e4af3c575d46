-- ===== src/Gateway/Proxy.antt =====
-- The Proxy of pkg/gateway/proxy.go. Two goroutines copy frames between the two connections; here
-- they advance in any order, one call at a time. The WebSocket library is a parameter: what it
-- answers to a call is given with the step.
pub mod Frames
pub mod Ends
use dev_plane.Base.{
  ℕ, suc, Bool, true, false, Option, none, some, List, [], ◌∷◌, ◌++◌, ◌≡◌, ◌==◌, ◌||◌,
  if◌then◌else◌,
}
use dev_plane.Base.Text.{Text, lit}
use dev_plane.Base.Result.{Error, wrap}

-- A message: its type and its data.
pub record Message : Type 0 where
  pub message_type : ℕ
  pub data_bytes : Text

-- An error of a connection, with the code if it is a close error.
pub record WsError : Type 0 where
  pub text : Text
  pub close_code : Option ℕ

-- The labels that the two goroutines are started with.
pub data Direction : Type 0 where
  client_to_backend backend_to_client : Direction

-- websocket.IsCloseError(err, CloseNormalClosure, CloseGoingAway)
unfoldable pub is_normal_close : WsError → Bool
is_normal_close e = elim e.close_code [ none ↦ false | some code ↦ code == 1000 || code == 1001 ]

-- Where a copyFrames loop stands: at ReadMessage, at WriteMessage, at onActivity, at onFrame, at the
-- test of a read error, at the send on the channel, or behind its return.
pub data Position : Type 0 where
  reading : Position
  writing notifying observing : Message → Position
  failing sending : WsError → Position
  ended : Position

-- A loop, with the messages and the number of close frames that it wrote, newest first.
pub record Loop : Type 0 where
  pub position : Position
  pub delivered : List Message
  pub closes : ℕ

-- The tunnel: the loop that writes to the client and the one that writes to the pod, the frames that onFrame saw, newest first, the number of calls of
-- onActivity, the errors on the channel, and whether ServeWS has returned.
pub record Tunnel : Type 0 where
  pub to_client : Loop
  pub to_backend : Loop
  pub observed : List (Direction × Message)
  pub activities : ℕ
  pub errors : List WsError
  pub is_returned : Bool

-- What the library answers to the next call.
pub record Answer : Type 0 where
  pub read_error : Option WsError
  pub read : Message
  pub write_error : Option WsError

-- What one step of a loop shows to the tunnel.
pub data Shown : Type 0 where
  nothing active : Shown
  saw : Message → Shown
  failed : WsError → Shown

-- A step of copyFrames, up to its next call.
unfoldable pub copy_frames : Answer → Loop → Loop × Shown
copy_frames a l = elim l.position [
  | reading ↦ elim a.read_error [
    | some err ↦ (record l { position = failing err }, nothing)
    | none ↦ (record l { position = writing a.read }, nothing)
  ]
  | failing err ↦
      if is_normal_close err
      then (record l { position = sending err; closes = suc l.closes }, nothing)
      else (record l { position = sending err }, nothing)
  | writing m ↦ elim a.write_error [
    | some err ↦ (record l { position = sending err }, nothing)
    | none ↦ (record l { position = notifying m; delivered = m ∷ l.delivered }, nothing)
  ]
  | notifying m ↦ (record l { position = observing m }, active)
  | observing m ↦ (record l { position = reading }, saw m)
  | sending err ↦ (record l { position = ended }, failed err)
  | ended ↦ (l, nothing)
]

-- The tunnel after a loop showed something.
abbrev pub shown : Direction → Shown → Tunnel → Tunnel
shown d nothing t = t
shown d active t = record t { activities = suc t.activities }
shown d (saw m) t = record t { observed = (d, m) ∷ t.observed }
shown d (failed err) t = record t { errors = err ∷ t.errors }

-- A step of a goroutine, by its label. ServeWS starts the one with the label client_to_backend with
-- the client's connection as the destination, and the other one with the pod's.
unfoldable pub advance : Direction → Answer → Tunnel → Tunnel
unfolding copy_frames
advance client_to_backend a t =
    let stepped = copy_frames a t.to_client in
    shown client_to_backend stepped.1 (record t { to_client = stepped.0 })
advance backend_to_client a t =
    let stepped = copy_frames a t.to_backend in
    shown backend_to_client stepped.1 (record t { to_backend = stepped.0 })

abbrev started : Loop
started = record { position = reading; delivered = []; closes = 0 }

-- The tunnel that ServeWS opens behind the upgrade and the dial.
abbrev pub opened : Tunnel
opened = record {
  to_client = started;
  to_backend = started;
  observed = [];
  activities = 0;
  errors = [];
  is_returned = false;
}

-- The tunnels that are reached: a loop advances, or ServeWS takes an error off the channel and
-- returns. The other loop may run on.
pub data Reach : Tunnel → Type 0 where
  start : Reach opened
  advanced : {t : Tunnel} → Reach t → (d : Direction) (a : Answer) → Reach (advance d a t)
  returned :
      {t : Tunnel} (err : WsError) (errs : List WsError)
      → Reach t
      → t.errors ≡ err ∷ errs
      → Reach (record t { is_returned = true })

-- What ServeWS returns once it returns; the arguments are the errors of the upgrade and of the dial,
-- and %q of the URL.
unfoldable pub serve_ws : (upgrade dial : Option Error) → (quoted : Text) → Option Error
serve_ws upgrade dial quoted = elim upgrade [
  | some err ↦ some (wrap (lit "upgrade client connection") err)
  | none ↦ elim dial [ some err ↦ some (wrap (lit "dial backend " ++ quoted) err) | none ↦ none ]
]

-- BackendURL and BackendHTTPURL; `url_string` is (&url.URL{Scheme, Host}).String().
module _ (url_string : (scheme host : Text) → Text) where
  unfoldable pub backend_url : Text → Text
  backend_url service_endpoint = url_string (lit "ws") (service_endpoint ++ lit ":7681")

  unfoldable pub backend_http_url : Text → Text
  backend_http_url service_endpoint = url_string (lit "http") (service_endpoint ++ lit ":7681")
