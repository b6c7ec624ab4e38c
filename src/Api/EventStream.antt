-- ===== src/Api/EventStream.antt =====
-- internal/api/events.go: the loop that writes an event stream, and what follows it. `encode` is
-- json.Marshal, none where it returns an error.
use type_type_downloader.Prelude.{
  List, Option, Option-cases, [], ap, false, if◌then◌else◌, inl, inr, map, none, refl, some, true,
  ℕ, ◌++◌, ◌∷◌, ◌≡◌,
}
use type_type_downloader.Api.{Server}
use type_type_downloader.Job.{Response}
use type_type_downloader.Job.Store.{update}
use type_type_downloader.Job.Store.Events.{unsubscribe}
use type_type_downloader.Prelude.Text.{Str, cut_prefix, has_prefix, lit}

-- What the `select` of the loop wakes up for.
pub data Wakeup : Type 0 where
  client_gone heartbeat : Wakeup
  next_update : Response → Wakeup

abbrev pub event_text : Str → Str
event_text payload = lit "event: progress\ndata: " ++ (payload ++ lit "\n\n")

abbrev pub keep_alive : Str
keep_alive = lit ": keep-alive\n\n"

-- The texts that are written, each with a flush; the loop waits on where the list of what it wakes up
-- for ends.
unfoldable pub stream_events : (Response → Option Str) → List Wakeup → List Str
stream_events encode [] = []
stream_events encode (client_gone ∷ rest) = []
stream_events encode (heartbeat ∷ rest) = keep_alive ∷ stream_events encode rest
stream_events encode (next_update update ∷ rest) = elim (encode update) [
  | none ↦ []
  | some payload ↦ event_text payload ∷ stream_events encode rest
]

-- The deferred call of `events`.
unfoldable pub end_events : Str → ℕ → Server → Server
end_events id channel s = record s { store = unsubscribe id channel s.store }

abbrev then_sent : Option Str → List Str → List Str
then_sent none later = []
then_sent (some payload) later = payload ∷ later

-- The updates that come before the client is gone or one cannot be encoded.
abbrev pub sent : (Response → Option Str) → List Wakeup → List Str
sent encode [] = []
sent encode (client_gone ∷ rest) = []
sent encode (heartbeat ∷ rest) = sent encode rest
sent encode (next_update update ∷ rest) = then_sent (encode update) (sent encode rest)

-- The texts of events among those that are written; a comment of the protocol starts with `:`.
abbrev pub events_of : List Str → List Str
events_of [] = []
events_of (text ∷ rest) =
    let later = events_of rest in if has_prefix text (lit ":") then later else text ∷ later

event_text_no_comment : (payload : Str) → has_prefix (event_text payload) (lit ":") ≡ false
unfolding has_prefix cut_prefix
event_text_no_comment payload = refl

keep_alive_comment : has_prefix keep_alive (lit ":") ≡ true
unfolding has_prefix cut_prefix
keep_alive_comment = refl

-- The events of a stream are the updates of the job that could be encoded, in their order, each once,
-- until the client is gone.
pub stream_events-sent :
    (encode : Response → Option Str) (wakeups : List Wakeup)
    → events_of (stream_events encode wakeups) ≡ map event_text (sent encode wakeups)
unfolding stream_events
stream_events-sent encode [] = refl
stream_events-sent encode (client_gone ∷ rest) = refl
stream_events-sent encode (heartbeat ∷ rest) =
    rw keep_alive_comment (stream_events-sent encode rest)
stream_events-sent encode (next_update update ∷ rest) = elim (Option-cases (encode update)) [
  | inl e ↦ rw (stream_events, e) refl
  | inr (payload, e) ↦
      rw (stream_events, e, event_text_no_comment payload)
        (ap (λ later. event_text payload ∷ later) (stream_events-sent encode rest))
]
