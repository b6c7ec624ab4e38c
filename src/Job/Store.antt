-- ===== src/Job/Store.antt =====
-- internal/job/store.go, store_events.go and store_expiry.go: the job store. `jobs`, `cache` and
-- `listeners` are its maps; a sink is the list of the records that it was given. `now` is what the
-- clock says in the call. A part between Lock and Unlock is a function of its own, named `_locked`. The operations are in the children.
pub mod Lifecycle
pub mod Removal
pub mod Create
pub mod Events
pub mod Dedup
pub mod Transitions
pub mod Consistency
pub mod Steps
pub mod Delivery
use mathlib.Core.Option
use type_type_downloader.Prelude.{
  Bool, List, Option, [], false, if◌then◌else◌, leb, length, ltb, map, none, replicate, some, true,
  ℕ, ◌++◌, ◌∷◌,
}
use type_type_downloader.Job.{Record, Response, failed, to_response}
use type_type_downloader.Prelude.Map.{Map, get, put}
use type_type_downloader.Prelude.Text.{Str}

-- A subscriber's channel, with the responses that wait in its buffer.
pub record Listener : Type 0 where
  pub channel : ℕ
  pub buffer : List Response

pub record Store : Type 0 where
  pub base_url : Str
  pub jobs : Map Record
  pub cache : Map Str
  pub listeners : Map (List Listener)
  pub sinks : List (List Record)

abbrev pub channel_capacity : ℕ
channel_capacity = 16

unfoldable pub new_store : Str → ℕ → Store
new_store base_url sinks = record {
  base_url = base_url;
  jobs = [];
  cache = [];
  listeners = [];
  sinks = replicate sinks [];
}

abbrev blank_response : Str → Response
blank_response id = record {
  id = id;
  url = [];
  status = failed;
  title = [];
  error = none;
  error_code = none;
  artifact_url = none;
  artifact_expires_at = none;
  resolved = none;
  progress_percent = none;
  downloaded_bytes = none;
  total_bytes = none;
  speed_bytes_per_second = none;
  stage = none;
  queued_at = none;
  started_at = none;
  finished_at = none;
  queue_wait_ms = none;
  run_time_ms = none;
  download_ms = none;
  mux_ms = none;
  total_ms = none;
}

unfoldable pub response_locked : Str → ℕ → Store → Response
response_locked id now s = elim (get id s.jobs) [
  | none ↦ blank_response id
  | some r ↦ to_response s.base_url now r
]

-- A send that does not block: a full channel misses the response.
unfoldable pub offer : Response → Listener → Listener
offer response l =
    if ltb (length l.buffer) channel_capacity
    then record l { buffer = l.buffer ++ response ∷ [] }
    else l

abbrev pub listeners_of : Str → Store → List Listener
listeners_of id s = Option.get_or (get id s.listeners) []

unfoldable pub broadcast : Str → ℕ → Store → Store
unfolding offer
broadcast id now s = elim (get id s.listeners) [
  | none ↦ s
  | some ls ↦ record s {
    listeners = put id (map (offer (response_locked id now s)) ls) s.listeners;
  }
]

unfoldable pub notify : Record → Store → Store
notify r s = record s { sinks = map (λ saved. saved ++ r ∷ []) s.sinks }

unfoldable pub update_locked : Str → (Record → Record) → Store → Option (Record × Store)
update_locked id mutate s =
    Option.map (λ r. (mutate r, record s { jobs = put id (mutate r) s.jobs })) (get id s.jobs)

unfoldable pub update : Str → (Record → Record) → ℕ → Store → Store × Bool
unfolding update_locked
update id mutate now s = elim (update_locked id mutate s) [
  | none ↦ (s, false)
  | some (snapshot, s') ↦ (notify snapshot (broadcast id now s'), true)
]

unfoldable pub lookup_response : Str → ℕ → Store → Option Response
lookup_response id now s = Option.map (to_response s.base_url now) (get id s.jobs)

unfoldable pub artifact_expired : Record → ℕ → Bool
artifact_expired r now = elim r.expires_at [ none ↦ false | some t ↦ leb t now ]
