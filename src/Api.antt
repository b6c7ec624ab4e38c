-- ===== src/Api.antt =====
-- internal/api: the HTTP interface. A handler is a function of the server's state and the request; it
-- answers with a status and a body. The children have the parse of a path and what the handlers
-- guarantee.
pub mod Handlers
pub mod Routes
pub mod Outcomes
pub mod Serving
pub mod EventStream
use mathlib.Core.Option
use type_type_downloader.Prelude.{
  Bool, List, Option, [], if◌then◌else◌, leb, length, none, some, take, ℕ, ◌++◌, ◌==◌, ◌∷◌,
}
use type_type_downloader.Artifact.{Saved, trim}
use type_type_downloader.Job.{JobOptions, Response}
use type_type_downloader.Job.Store.{Store}
use type_type_downloader.Prelude.Map.{Map, put}
use type_type_downloader.Prelude.Text.{Str, cut_prefix, is_empty, lit, split_from}
use type_type_downloader.Storage.{Capacity, Monitor}
use type_type_downloader.Typetype.Client.{is_slash}

-- The state that the handlers share: the job store, the disk monitor, the runner's queue with its
-- size, and the artifacts that the artifact store was asked to delete.
pub record Server : Type 0 where
  pub store : Store
  pub disk : Monitor
  pub queue : List Str
  pub max_queue_size : ℕ
  pub deleted : List Saved

pub data Body : Type 0 where
  error_body : Str → Str → Body
  capacity_body : Capacity → Body
  created_body : Str → Bool → Body
  job_body : Response → Body
  text_body : List (Str × Str) → Body
  checks_body : Str → List (Str × Str) → Body
  file_body : Saved → Str → Body
  events_body : Response → Body
  no_body : Body

pub record Reply : Type 0 where
  pub status : ℕ
  pub body : Body

-- `decoded` is what encoding/json makes of the body: an address and options.
pub record Request : Type 0 where
  pub method : Str
  pub path : Str
  pub authorization : Str
  pub decoded : Option (Str × JobOptions)

unfoldable pub write_error : ℕ → Str → Str → Reply
write_error status code message = record { status = status; body = error_body code message }

unfoldable pub not_found : Reply
unfolding write_error
not_found = write_error 404 (lit "not_found") (lit "not found")

unfoldable pub job_not_found : Reply
unfolding write_error
job_not_found = write_error 404 (lit "not_found") (lit "job not found")

unfoldable pub status_text : ℕ → Str
status_text status = if status == 200 then lit "ok" else lit "degraded"

unfoldable pub health : Reply
health = record {
  status = 200;
  body = text_body ((lit "status", lit "ok") ∷ (lit "service", lit "typetype-downloader") ∷ []);
}

-- The first bytes of the revision.
unfoldable pub short_revision : Str → Str
short_revision revision = if leb (length revision) 12 then revision else take 12 revision

unfoldable pub version : Str → Str → Str → Reply
unfolding short_revision
version number revision build_time = record {
  status = 200;
  body = text_body (
      (lit "service", lit "downloader")
      ∷ (lit "version", number)
      ∷ (lit "revision", revision)
      ∷ (lit "shortRevision", short_revision revision)
      ∷ (lit "buildTime", build_time)
      ∷ []);
}

abbrev pub check_text : Option Str → Str
check_text none = lit "ok"
check_text (some e) = e

abbrev pub worse : Option Str → ℕ → ℕ
worse none status = status
worse (some e) status = 503

-- The loop over the health checks: each has a name, and an error or none.
unfoldable pub run_checks : List (Str × Option Str) → ℕ → Map Str → ℕ × Map Str
run_checks [] status checks = (status, checks)
run_checks ((name, result) ∷ rest) status checks =
    run_checks rest (worse result status) (put name (check_text result) checks)

-- The check of the disk comes after the others.
unfoldable pub health_deep : List (Str × Option Str) → Option Str → Reply
unfolding run_checks status_text
health_deep checks disk =
    let (status, results) =
      run_checks (checks ++ (lit "disk", disk) ∷ []) 200 (put (lit "service") (lit "ok") []) in
    record { status = status; body = checks_body (status_text status) results }

-- The path of a job and what is asked of it.
unfoldable pub job_parts : List Str → Option (Str × Str)
job_parts [] = none
job_parts (id ∷ []) = if is_empty id then none else some (id, [])
job_parts (id ∷ action ∷ []) = if is_empty id then none else some (id, action)
job_parts (id ∷ action ∷ more ∷ rest) = none

abbrev pub trim_prefix : Str → Str → Str
trim_prefix s prefix = Option.get_or (cut_prefix s prefix) s

unfoldable pub parse_job_path : Str → Option (Str × Str)
unfolding job_parts split_from
parse_job_path path =
    job_parts (split_from b'/' [] (trim is_slash (trim_prefix path (lit "/jobs/"))))
