-- ===== src/Api/Outcomes.antt =====
-- What `createJob` of internal/api has done by the time of its answer.
-- How `Create` of the job store ends.
use type_type_downloader.Prelude.{
  Bool-cases, Option, Option-cases, [], ap, arith, false, inl, inr, length, ltb, none, refl, some,
  ℕ, ◌++◌, ◌<◌, ◌∙◌, ◌∷◌, ◌≡◌, ◌≢◌, ◌≤◌,
}
use type_type_downloader.Api.{Reply, Request, Server, write_error}
use type_type_downloader.Api.Handlers.{
  ApiWorld, Handled, after_create, create_checked, create_decoded, create_job, create_normalized,
  created_reply, queue_created,
}
use type_type_downloader.Job.{
  CacheInput, JobOptions, Record, cache_key, failed, is_done, is_failed, queued,
}
use type_type_downloader.Job.Store.{Store, artifact_expired, broadcast, notify}
use type_type_downloader.Job.Store.Create.{
  Created, broadcast_expired, cached_job, create, create_locked, create_with, fresh, hit,
  new_record, tell_created,
}
use type_type_downloader.Job.Store.Lifecycle.{fail, mark_failed}
use type_type_downloader.Job.Store.Transitions.{get-update, jobs-broadcast}
use type_type_downloader.Pipeline.Queue.{enqueue}
use type_type_downloader.Pipeline.Running.{now}
use type_type_downloader.Prelude.Map.{delete, get, get-put}
use type_type_downloader.Prelude.Result.{Result, err, ok}
use type_type_downloader.Prelude.Text.{Str, is_empty, lit, str_eq_refl, trim_space}
use type_type_downloader.Storage.{Capacity, StorageError, check}
use type_type_downloader.Typetype.Client.{UrlError}

data CreateEnd (now : ℕ) (s : Store) : Store × Option Created → Type 0 where
  nothing : CreateEnd now s (s, none)
  found :
      (j : Str) (r : Record)
      → get j s.jobs ≡ some r
      → is_failed r.status ≡ false
      → CreateEnd now s (s, some (hit r (is_done r.status)))
  made :
      (t : Store) (r : Record)
      → get r.id t.jobs ≡ some r
      → r.status ≡ queued
      → CreateEnd now s (t, some (fresh r))

jobs-tell_created :
    (id : Str) (r : Record) (now : ℕ) (s : Store) (expired : Option Str)
    → (notify r (broadcast id now (broadcast_expired expired now s))).jobs ≡ s.jobs
unfolding notify broadcast_expired
jobs-tell_created id r now s none = jobs-broadcast id now s
jobs-tell_created id r now s (some gone) =
    jobs-broadcast id now (broadcast gone now s) ∙ jobs-broadcast gone now s

some_created : Store × Created → Store × Option Created
some_created (s, created) = (s, some created)

cached_job-found :
    (key : Str) (s : Store) (j : Str) (q : Record)
    → cached_job key s ≡ some (j, q)
    → (get j s.jobs ≡ some q) × (is_failed q.status ≡ false)
unfolding cached_job
cached_job-found key s j q e = grind arith

made_new :
    (id : Str) (r : Record) (now : ℕ) (s t : Store) (expired : Option Str)
    → r.id ≡ id
    → r.status ≡ queued
    → get id t.jobs ≡ some r
    → CreateEnd now s (some_created (tell_created id r now (t, fresh r, expired)))
unfolding tell_created some_created
made_new id r now s t expired same waits e =
    made _ r
      (ap (get r.id) (jobs-tell_created id r now t expired) ∙ ap (λ j. get j t.jobs) same ∙ e) waits

create_with-CreateEnd :
    (key id : Str) (r : Record) (now : ℕ) (s : Store)
    → r.id ≡ id
    → r.status ≡ queued
    → CreateEnd now s (some_created (create_with key id r now s))
unfolding create_with create_locked
create_with-CreateEnd key id r now s same waits = elim (Option-cases (cached_job key s)) [
  | inl e ↦
      rw (e, create_locked)
        (made_new id r now s _ none same waits (rw (get-put id id r s.jobs, str_eq_refl id) refl))
  | inr ((j, q), e) ↦
      let (there, fine) = cached_job-found key s j q e in
      elim (Bool-cases (artifact_expired q now)) [
        | inl y ↦
            rw (e, create_locked, y)
              (made_new id r now s _ (some j) same waits
                (rw (get-put id id r (delete j s.jobs), str_eq_refl id) refl))
        | inr n ↦
            rw (e, create_locked, n)
              (unfold tell_created in unfold some_created in found j q there fine)
      ]
]

create-CreateEnd :
    (lower : ℕ → ℕ) (digest : CacheInput → Option Str) (new_id : Option Str) (url : Str)
    (options : JobOptions) (authorization : Str) (now : ℕ) (s : Store)
    → CreateEnd now s (create lower digest new_id url options authorization now s)
unfolding create
create-CreateEnd lower digest new_id url options authorization now s =
    elim (Option-cases (cache_key lower digest url options authorization)) [
      | inl e ↦ rw (e, create) nothing
      | inr (key, e) ↦ elim (Option-cases new_id) [
        | inl q ↦ rw (e, create, q) nothing
        | inr (id, q) ↦
            rw (e, create, q)
              (unfold some_created in
                create_with-CreateEnd key id (new_record id key url authorization options now) now s
                  refl refl)
      ]
    ]

module _ (w : ApiWorld) where
  -- How `createJob` ends: it refuses and changes nothing; it answers 201 with a job that was there and
  -- has not failed, and changes nothing; it answers 201 with a new job that waits in the store and
  -- stands at the end of the queue; or the queue is full, it answers 429, and the new job has failed.
  pub data CreateOutcome (s : Server) : Handled → Type 0 where
    refuses : (reply : Reply) → reply.status ≢ 201 → reply.status ≢ 429 → CreateOutcome s (s, reply)
    answers :
        (j : Str) (r : Record)
        → get j s.store.jobs ≡ some r
        → is_failed r.status ≡ false
        → CreateOutcome s (s, created_reply w r (is_done r.status))
    queues :
        (t : Store) (r : Record)
        → get r.id t.jobs ≡ some r
        → r.status ≡ queued
        → length s.queue < s.max_queue_size
        → CreateOutcome s
            (record s { store = t; queue = s.queue ++ r.id ∷ [] }, created_reply w r false)
    overflows :
        (t : Store) (r : Record)
        → get r.id t.jobs ≡ some r
        → r.status ≡ failed
        → r.error_code ≡ some (lit "queue_full")
        → s.max_queue_size ≤ length s.queue
        → CreateOutcome s
            (record s { store = t }, write_error 429 (lit "queue_full") (lit "job queue is full"))

  abbrev full : Record → Store → Store
  full r t = fail r.id (lit "queue_full") (lit "job queue is full") w.now t

  abbrev full_record : Record → Record
  full_record r = record r {
    status = failed;
    error = some (lit "job queue is full");
    error_code = some (lit "queue_full");
    finished_at = some w.now;
    cancel = none;
  }

  failed_job :
      (r : Record) (t : Store)
      → get r.id t.jobs ≡ some r
      → get r.id (full r t).jobs ≡ some (full_record r)
  unfolding fail mark_failed
  failed_job r t e = rw (get-update r.id _ w.now t r.id, str_eq_refl r.id, e) refl

  after_create-Outcome :
      (s : Server) (x : Store × Option Created)
      → CreateEnd w.now s.store x
      → CreateOutcome s (after_create w s x)
  unfolding after_create queue_created write_error enqueue
  after_create-Outcome s _ nothing = refuses _ (omega arith) (omega arith)
  after_create-Outcome s _ (found j r e fine) = answers j r e fine
  after_create-Outcome s _ (made t r e waits) =
      elim (Bool-cases (ltb (length s.queue) s.max_queue_size)) [
        | inl y ↦ rw (y, queue_created) (queues t r e waits (ground arith))
        | inr n ↦
            rw (n, queue_created)
              (overflows (full r t) (full_record r) (failed_job r t e) refl refl (ground arith))
      ]

  create_normalized-Outcome :
      (request : Request) (options : JobOptions) (url : Result UrlError Str) (s : Server)
      → CreateOutcome s (create_normalized w request options url s)
  unfolding create_normalized write_error
  create_normalized-Outcome request options (err e) s = refuses _ (omega arith) (omega arith)
  create_normalized-Outcome request options (ok url) s =
      after_create-Outcome s _
        (create-CreateEnd w.lower w.digest w.new_id url options request.authorization w.now s.store)

  create_decoded-Outcome :
      (request : Request) (decoded : Option (Str × JobOptions)) (s : Server)
      → CreateOutcome s (create_decoded w request decoded s)
  unfolding create_decoded write_error
  create_decoded-Outcome request none s = refuses _ (omega arith) (omega arith)
  create_decoded-Outcome request (some (raw, options)) s =
      elim (Bool-cases (is_empty (trim_space raw))) [
        | inl y ↦ rw y (refuses _ (omega arith) (omega arith))
        | inr n ↦ rw n (create_normalized-Outcome request options _ s)
      ]

  create_checked-Outcome :
      (request : Request) (checked : Result StorageError Capacity) (s : Server)
      → CreateOutcome s (create_checked w request checked s)
  unfolding create_checked write_error
  create_checked-Outcome request (err e) s = refuses _ (omega arith) (omega arith)
  create_checked-Outcome request (ok capacity) s = elim (Bool-cases capacity.available) [
    | inl y ↦ rw y (create_decoded-Outcome request request.decoded s)
    | inr n ↦ rw n (refuses _ (omega arith) (omega arith))
  ]

  -- A POST to /jobs ends in one of four ways: it is refused, and nothing changes; it is answered with
  -- 201 and a job that was there and has not failed, and nothing changes; it is answered with 201 and
  -- a new job that is queued in the store and stands at the end of the runner's queue, which had room;
  -- or the queue was full, the answer is 429, and the new job has failed with the code queue_full.
  pub create_job-Outcome :
      (request : Request) (s : Server) → CreateOutcome s (create_job w request s)
  unfolding create_job
  create_job-Outcome request s = create_checked-Outcome request (check s.disk w.stat) s
