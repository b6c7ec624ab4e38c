-- ===== src/Api/Handlers.antt =====
-- internal/api/jobs.go, artifact.go, events.go and server.go: the handlers of a job and the routes.
use type_type_downloader.Prelude.{
  Bool, List, Option, [], false, if◌then◌else◌, none, not, some, ℕ, ◌&&◌, ◌||◌, ◌∷◌,
}
use type_type_downloader.Api.{
  Reply, Request, Server, capacity_body, created_body, events_body, file_body, health, health_deep,
  job_body, job_not_found, no_body, not_found, parse_job_path, text_body, version, write_error,
}
use type_type_downloader.Artifact.{Saved}
use type_type_downloader.Job.{CacheInput, JobOptions, Record, Response, is_done, is_running}
use type_type_downloader.Job.Store.{Store, artifact_expired, lookup_response}
use type_type_downloader.Job.Store.Create.{Created, create, fresh, hit}
use type_type_downloader.Job.Store.Events.{send_initial, subscribe_locked}
use type_type_downloader.Job.Store.Lifecycle.{cancel, fail}
use type_type_downloader.Job.Store.Removal.{remove}
use type_type_downloader.Pipeline.Queue.{enqueue}
use type_type_downloader.Prelude.Map.{get}
use type_type_downloader.Prelude.Result.{Result, err, ok}
use type_type_downloader.Prelude.Text.{Str, has_prefix, is_empty, lit, str_eq, trim_space}
use type_type_downloader.Storage.{Capacity, Statfs, StorageError, check}
use type_type_downloader.Typetype.Client.{UrlError, UrlLib, normalize_watch_url}

-- The server's state after a call, and its answer.
abbrev pub Handled : Type 0
Handled = Server × Reply

-- What the world answers: the disk, the clock, net/url, newID, the hash of a cache key, the artifact
-- store (`serves` is the status that it answers a file with, none if it could not), and the texts of
-- errors.
pub record ApiWorld : Type 0 where
  pub stat : Option Statfs
  pub now : ℕ
  pub lower : ℕ → ℕ
  pub urls : UrlLib
  pub digest : CacheInput → Option Str
  pub new_id : Option Str
  pub serves : Saved → Option ℕ
  pub can_flush : Bool
  pub channel : ℕ
  pub checks : List (Str × Option Str)
  pub disk_health : Option Str
  pub build : Str × Str × Str
  pub storage_text : StorageError → Str
  pub url_text : UrlError → Str
  pub create_text : Str

module _ (w : ApiWorld) where
  abbrev pub reply_error : ℕ → Str → Str → Server → Handled
  reply_error status code message s = (s, write_error status code message)

  unfoldable pub created_reply : Record → Bool → Reply
  created_reply r cached = record { status = 201; body = created_body r.id cached }

  -- What follows `Create`: a new job is put into the queue, or failed when that is full.
  unfoldable pub queue_created : Record → Option (List Str) → Server → Handled
  unfolding created_reply
  queue_created r none s = (
    record s { store = fail r.id (lit "queue_full") (lit "job queue is full") w.now s.store },
    write_error 429 (lit "queue_full") (lit "job queue is full"),
  )
  queue_created r (some queue) s = (record s { queue = queue }, created_reply r false)

  unfoldable pub after_create : Server → Store × Option Created → Handled
  unfolding queue_created created_reply
  after_create s (store, none) =
      reply_error 500 (lit "create_failed") w.create_text (record s { store = store })
  after_create s (store, some (hit r cached)) = (record s { store = store }, created_reply r cached)
  after_create s (store, some (fresh r)) =
      queue_created r (enqueue s.max_queue_size r.id s.queue) (record s { store = store })

  unfoldable pub create_normalized : Request → JobOptions → Result UrlError Str → Server → Handled
  unfolding after_create
  create_normalized request options (err e) s = reply_error 400 (lit "invalid_url") (w.url_text e) s
  create_normalized request options (ok url) s =
      after_create s
        (create w.lower w.digest w.new_id url options request.authorization w.now s.store)

  unfoldable pub create_decoded : Request → Option (Str × JobOptions) → Server → Handled
  unfolding create_normalized
  create_decoded request none s = reply_error 400 (lit "invalid_json") (lit "invalid JSON body") s
  create_decoded request (some (raw, options)) s =
      let url = trim_space raw in
      if is_empty url
      then reply_error 400 (lit "invalid_url") (lit "url is required") s
      else create_normalized request options (normalize_watch_url w.urls url) s

  unfoldable pub create_checked : Request → Result StorageError Capacity → Server → Handled
  unfolding create_decoded
  create_checked request (err e) s =
      reply_error 503 (lit "storage_check_failed") (w.storage_text e) s
  create_checked request (ok capacity) s =
      if capacity.available
      then create_decoded request request.decoded s
      else (s, record { status = 507; body = capacity_body capacity })

  unfoldable pub create_job : Request → Server → Handled
  unfolding create_checked
  create_job request s = create_checked request (check s.disk w.stat) s

  unfoldable pub get_job : Str → Server → Handled
  get_job id s = elim (lookup_response id w.now s.store) [
    | none ↦ (s, job_not_found)
    | some response ↦ (s, record { status = 200; body = job_body response })
  ]

  unfoldable pub refused : Option Record → Reply
  refused none = job_not_found
  refused (some r) = write_error 409 (lit "not_cancellable") (lit "job is not cancellable")

  unfoldable pub after_cancel : Str → Server → Store × Bool × Option ℕ → Handled
  unfolding refused
  after_cancel id s (store, accepted, called) =
      if accepted
      then (
        record s { store = store },
        record { status = 202; body = text_body ((lit "status", lit "cancelled") ∷ []) },
      )
      else (record s { store = store }, refused (get id store.jobs))

  unfoldable pub cancel_job : Str → Server → Handled
  unfolding after_cancel
  cancel_job id s = after_cancel id s (cancel id w.now s.store)

  unfoldable pub not_deleted : Option Record → Reply
  not_deleted none = job_not_found
  not_deleted (some r) =
      if is_running r.status
      then write_error 409 (lit "running") (lit "job is running")
      else job_not_found

  abbrev pub saved_of : Record → Saved
  saved_of r = record { backend = r.storage; location = r.artifact; expires = none }

  unfoldable pub after_delete : Str → Server → Store × Option Record → Handled
  unfolding not_deleted
  after_delete id s (store, none) = (record s { store = store }, not_deleted (get id store.jobs))
  after_delete id s (store, some r) = (
    record s {
      store = store;
      deleted = if is_empty r.artifact then s.deleted else saved_of r ∷ s.deleted;
    },
    record { status = 204; body = no_body },
  )

  unfoldable pub delete_job : Str → Server → Handled
  unfolding after_delete
  delete_job id s = after_delete id s (remove id w.now s.store)

  abbrev pub file_name_of : Record → Str
  file_name_of r = elim r.resolved [ none ↦ [] | some resolved ↦ resolved.file_name ]

  unfoldable pub serve : Record → Reply
  serve r = elim (w.serves (saved_of r)) [
    | none ↦ write_error 404 (lit "artifact_missing") (lit "artifact missing")
    | some status ↦ record { status = status; body = file_body (saved_of r) (file_name_of r) }
  ]

  unfoldable pub artifact_of : Option Record → Reply
  unfolding serve
  artifact_of none = job_not_found
  artifact_of (some r) =
      if not (is_done r.status) || is_empty r.artifact
      then write_error 409 (lit "artifact_not_ready") (lit "artifact is not ready")
      else if artifact_expired r w.now
      then write_error 404 (lit "not_found") (lit "artifact expired")
      else serve r

  unfoldable pub artifact : Str → Server → Handled
  unfolding artifact_of
  artifact id s = (s, artifact_of (get id s.store.jobs))

  -- The subscription of an event stream; its end calls `unsubscribe`.
  unfoldable pub after_subscribe : Str → Server → Option (Store × Response) → Handled
  after_subscribe id s none = (s, job_not_found)
  after_subscribe id s (some (store, initial)) = (
    record s { store = send_initial id w.channel initial store },
    record { status = 200; body = events_body initial },
  )

  unfoldable pub events : Str → Server → Handled
  unfolding after_subscribe
  events id s =
      if w.can_flush
      then after_subscribe id s (subscribe_locked id w.channel w.now s.store)
      else reply_error 500 (lit "sse_unsupported") (lit "streaming unsupported") s

  unfoldable pub jobs : Request → Server → Handled
  unfolding create_job
  jobs request s =
      if not (str_eq request.path (lit "/jobs"))
      then (s, not_found)
      else if str_eq request.method (lit "POST")
      then create_job request s
      else (s, write_error 405 (lit "method_not_allowed") (lit "method not allowed"))

  unfoldable pub job_action : Str → Str → Str → Server → Handled
  unfolding get_job delete_job events artifact cancel_job
  job_action method id action s =
      if is_empty action && str_eq method (lit "GET")
      then get_job id s
      else if is_empty action && str_eq method (lit "DELETE")
      then delete_job id s
      else if str_eq action (lit "events") && str_eq method (lit "GET")
      then events id s
      else if str_eq action (lit "artifact") && str_eq method (lit "GET")
      then artifact id s
      else if str_eq action (lit "cancel") && str_eq method (lit "POST")
      then cancel_job id s
      else (s, write_error 405 (lit "method_not_allowed") (lit "method not allowed"))

  unfoldable pub job_by_id : Request → Server → Handled
  unfolding parse_job_path job_action
  job_by_id request s = elim (parse_job_path request.path) [
    | none ↦ (s, not_found)
    | some (id, action) ↦ job_action request.method id action s
  ]

  -- The routes of the ServeMux; every other path is not found.
  unfoldable pub routes : Request → Server → Handled
  unfolding health health_deep version jobs job_by_id not_found
  routes request s =
      if str_eq request.path (lit "/health")
      then (s, health)
      else if str_eq request.path (lit "/health/deep")
      then (s, health_deep w.checks w.disk_health)
      else if str_eq request.path (lit "/version")
      then (s, version w.build.0 w.build.1 w.build.2)
      else if str_eq request.path (lit "/jobs")
      then jobs request s
      else if has_prefix request.path (lit "/jobs/")
      then job_by_id request s
      else (s, not_found)
