-- ===== src/Job/Store/Delivery.antt =====
-- What the subscribers of internal/job/store_events.go are sent.
use type_type_downloader.Prelude.{
  Bool-cases, List, [], append-nil, append_assoc, arith, inl, inr, length, length-append, ltb, map,
  refl, some, take, take-all, take-append_left, ℕ, ◌++◌, ◌∙◌, ◌∷◌, ◌≡◌, ◌≤◌,
}
use type_type_downloader.Job.{Record, Response, to_response}
use type_type_downloader.Job.Store.{
  Listener, Store, broadcast, channel_capacity, listeners_of, notify, offer, response_locked,
  update, update_locked,
}
use type_type_downloader.Job.Store.Events.{send_initial, send_to, subscribe_locked}
use type_type_downloader.Job.Store.Transitions.{get-update}
use type_type_downloader.Prelude.Map.{get, get-put, put}
use type_type_downloader.Prelude.Text.{Str, str_eq_refl}

-- Updates of one job, each with the time of its broadcast.
unfoldable pub run_updates : Str → List ((Record → Record) × ℕ) → Store → Store
run_updates id [] s = s
run_updates id ((f, now) ∷ rest) s = run_updates id rest (update id f now s).0

-- The response to each of the updates.
unfoldable pub responses : Str → List ((Record → Record) × ℕ) → Record → List Response
responses base_url [] r = []
responses base_url ((f, now) ∷ rest) r =
    to_response base_url now (f r) ∷ responses base_url rest (f r)

abbrev pub HasRoom : Listener → Type 0
HasRoom l = length l.buffer ≤ channel_capacity

-- A channel that nobody reads takes the first responses, as many as it has room for.
abbrev pub fill : List Response → Listener → Listener
fill sent l = record l { buffer = take channel_capacity (l.buffer ++ sent) }

fill_none : (l : Listener) → HasRoom l → fill [] l ≡ l
fill_none l room = rw (append-nil, take-all channel_capacity l.buffer room) refl

offer-HasRoom : (response : Response) (l : Listener) → HasRoom l → HasRoom (offer response l)
unfolding offer
offer-HasRoom response l room = ground (arith, length-append l.buffer (response ∷ []))

fill-offer :
    (response : Response) (sent : List Response) (l : Listener)
    → HasRoom l
    → fill sent (offer response l) ≡ fill (response ∷ sent) l
unfolding offer
fill-offer response sent l room = elim (Bool-cases (ltb (length l.buffer) channel_capacity)) [
  | inl y ↦ rw (y, offer) (rw append_assoc refl)
  | inr n ↦
      let full : channel_capacity ≤ length l.buffer = ground arith in
      rw
        (
          n,
          offer,
          take-append_left channel_capacity l.buffer sent full,
          take-append_left channel_capacity l.buffer (response ∷ sent) full,
        )
        refl
]

abbrev pub AllRoom : List Listener → Type 0
AllRoom [] = Unit
AllRoom (l ∷ ls) = HasRoom l × AllRoom ls

offered-AllRoom :
    (response : Response) (ls : List Listener) → AllRoom ls → AllRoom (map (offer response) ls)
offered-AllRoom response [] room = tt
offered-AllRoom response (l ∷ ls) (first, rest) =
    (offer-HasRoom response l first, offered-AllRoom response ls rest)

fill_all-offer :
    (response : Response) (sent : List Response) (ls : List Listener)
    → AllRoom ls
    → map (fill sent) (map (offer response) ls) ≡ map (fill (response ∷ sent)) ls
fill_all-offer response sent [] room = refl
fill_all-offer response sent (l ∷ ls) (first, rest) =
    rw (fill-offer response sent l first, fill_all-offer response sent ls rest) refl

fill_all_none : (ls : List Listener) → AllRoom ls → map (fill []) ls ≡ ls
fill_all_none [] room = refl
fill_all_none (l ∷ ls) (first, rest) = rw (fill_none l first, fill_all_none ls rest) refl

base_url-update :
    (id : Str) (f : Record → Record) (now : ℕ) (s : Store)
    → (update id f now s).0.base_url ≡ s.base_url
unfolding update update_locked notify broadcast
base_url-update id f now s = ground arith

listeners-broadcast :
    (id : Str) (now : ℕ) (s : Store) (r : Record) (ls : List Listener)
    → get id s.jobs ≡ some r
    → get id s.listeners ≡ some ls
    → get id (broadcast id now s).listeners ≡ some (map (offer (to_response s.base_url now r)) ls)
unfolding broadcast response_locked
listeners-broadcast id now s r ls there watched =
    rw (watched, broadcast) (rw (there, response_locked, get-put, str_eq_refl id) refl)

listeners-update :
    (id : Str) (f : Record → Record) (now : ℕ) (s : Store) (r : Record) (ls : List Listener)
    → get id s.jobs ≡ some r
    → get id s.listeners ≡ some ls
    → get id (update id f now s).0.listeners
      ≡ some (map (offer (to_response s.base_url now (f r))) ls)
unfolding update notify
listeners-update id f now s r ls there watched =
    rw (there, update, update_locked)
      (listeners-broadcast id now (record s { jobs = put id (f r) s.jobs }) (f r) ls
        (rw (get-put id id (f r) s.jobs, str_eq_refl id) refl) watched)

filled :
    (id base_url : Str) (updates : List ((Record → Record) × ℕ)) (s : Store) (r : Record)
    (ls : List Listener)
    → s.base_url ≡ base_url
    → get id s.jobs ≡ some r
    → get id s.listeners ≡ some ls
    → AllRoom ls
    → get id (run_updates id updates s).listeners
      ≡ some (map (fill (responses base_url updates r)) ls)
unfolding run_updates responses
filled id base_url [] s r ls base there watched room = rw (fill_all_none ls room) watched
filled id base_url ((f, now) ∷ rest) s r ls base there watched room =
    let s' = (update id f now s).0 in
    let sent = to_response base_url now (f r) in
    rw (← fill_all-offer sent (responses base_url rest (f r)) ls room) (
      filled id base_url rest s' (f r) (map (offer sent) ls) (base_url-update id f now s ∙ base)
        (rw (get-update id f now s id, str_eq_refl id, there) refl)
        (rw (← base) (listeners-update id f now s r ls there watched))
        (offered-AllRoom sent ls room))

-- While nobody reads or subscribes, updates of a job give each of its subscribers the responses of
-- the updates in order, after those that wait in its channel, until the channel holds 16; the rest
-- is dropped. At the start the channels hold at most 16 responses.
pub run_updates-fill :
    (id : Str) (updates : List ((Record → Record) × ℕ)) (s : Store) (r : Record)
    (ls : List Listener)
    → get id s.jobs ≡ some r
    → get id s.listeners ≡ some ls
    → AllRoom ls
    → get id (run_updates id updates s).listeners
      ≡ some (map (fill (responses s.base_url updates r)) ls)
run_updates-fill id updates s r ls there watched room =
    filled id s.base_url updates s r ls refl there watched room

abbrev watched_store : Str → ℕ → Store → Store
watched_store id channel s = record s {
  listeners = put id (record { channel = channel; buffer = [] } ∷ listeners_of id s) s.listeners;
}

subscribe_locked-some :
    (id : Str) (channel now : ℕ) (s : Store) (r : Record)
    → get id s.jobs ≡ some r
    → subscribe_locked id channel now s
      ≡ some (watched_store id channel s, to_response s.base_url now r)
unfolding subscribe_locked
subscribe_locked-some id channel now s r there = rw (there, subscribe_locked) refl

late_initial :
    (id : Str) (channel now later : ℕ) (f : Record → Record) (s : Store) (r : Record)
    (first : Response)
    → get id s.jobs ≡ some r
    → listeners_of id
        (send_initial id channel first (update id f later (watched_store id channel s)).0)
      ≡ record { channel = channel; buffer = to_response s.base_url later (f r) ∷ first ∷ [] }
        ∷ map (offer (to_response s.base_url later (f r))) (listeners_of id s)
unfolding send_initial send_to offer
late_initial id channel now later f s r first there =
    let ls = record { channel = channel; buffer = [] } ∷ listeners_of id s in
    rw
      (
        get-put,
        str_eq_refl id,
        listeners-update id f later (watched_store id channel s) r ls there
            (rw (get-put id id ls s.listeners, str_eq_refl id) refl),
      )
      (ground arith)

-- If an update of the job comes between the two parts of Subscribe, the channel holds the
-- response of the update first and the older first response after it.
pub initial_after_update :
    (id : Str) (channel now later : ℕ) (f : Record → Record) (s s' : Store) (r : Record)
    (first : Response)
    → get id s.jobs ≡ some r
    → subscribe_locked id channel now s ≡ some (s', first)
    → listeners_of id (send_initial id channel first (update id f later s').0)
      ≡ record {
        channel = channel;
        buffer = to_response s.base_url later (f r) ∷ to_response s.base_url now r ∷ [];
      }
        ∷ map (offer (to_response s.base_url later (f r))) (listeners_of id s)
initial_after_update id channel now later f s s' r first there e =
    let e' = subscribe_locked-some id channel now s r there in
    let store : watched_store id channel s ≡ s' = cc (e, e') in
    let response : to_response s.base_url now r ≡ first = cc (e, e') in
    rw (← store, ← response)
      (late_initial id channel now later f s r (to_response s.base_url now r) there)
