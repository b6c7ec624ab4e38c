-- ===== src/Job/Store/Events.antt =====
-- internal/job/store_events.go: `Subscribe` and its `unsubscribe`.
use type_type_downloader.Prelude.{List, Option, [], if◌then◌else◌, none, some, ℕ, ◌++◌, ◌==◌, ◌∷◌}
use type_type_downloader.Job.{Response, to_response}
use type_type_downloader.Job.Store.{Listener, Store, listeners_of}
use type_type_downloader.Prelude.Map.{delete, get, put}
use type_type_downloader.Prelude.Text.{Str}

-- The part of `Subscribe` under the lock; the first response is sent after it.
unfoldable pub subscribe_locked : Str → ℕ → ℕ → Store → Option (Store × Response)
subscribe_locked id channel now s = elim (get id s.jobs) [
  | none ↦ none
  | some r ↦ some (
    record s {
      listeners =
          put id (record { channel = channel; buffer = [] } ∷ listeners_of id s) s.listeners;
    },
    to_response s.base_url now r,
  )
]

unfoldable pub send_to : ℕ → Response → List Listener → List Listener
send_to channel response [] = []
send_to channel response (l ∷ ls) =
    if l.channel == channel
    then record l { buffer = l.buffer ++ response ∷ [] } ∷ ls
    else l ∷ send_to channel response ls

-- `ch <- initial`: a send that waits while the channel is full; here there is room.
unfoldable pub send_initial : Str → ℕ → Response → Store → Store
unfolding send_to
send_initial id channel response s = record s {
  listeners = put id (send_to channel response (listeners_of id s)) s.listeners;
}

unfoldable pub drop_listener : ℕ → List Listener → List Listener
drop_listener channel [] = []
drop_listener channel (l ∷ ls) =
    let rest = drop_listener channel ls in if l.channel == channel then rest else l ∷ rest

unfoldable pub unsubscribe : Str → ℕ → Store → Store
unfolding drop_listener
unsubscribe id channel s = elim (get id s.listeners) [
  | none ↦ s
  | some ls ↦ elim (drop_listener channel ls) [
    | [] ↦ record s { listeners = delete id s.listeners }
    | l ∷ rest ↦ record s { listeners = put id (l ∷ rest) s.listeners }
  ]
]
