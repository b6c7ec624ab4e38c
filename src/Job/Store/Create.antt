-- ===== src/Job/Store/Create.antt =====
-- internal/job/store.go: `Create`, `Restore` and `RestorePending`.
use type_type_downloader.Prelude.{
  Bool, List, Option, [], if◌then◌else◌, none, not, some, ℕ, ◌&&◌, ◌||◌, ◌∷◌,
}
use type_type_downloader.Job.{
  CacheInput, JobOptions, Record, cache_key, is_done, is_failed, queued, trim_categories,
}
use type_type_downloader.Job.Store.{Store, artifact_expired, broadcast, notify}
use type_type_downloader.Prelude.Int.{pos}
use type_type_downloader.Prelude.Map.{delete, get, put}
use type_type_downloader.Prelude.Text.{Str, is_empty, lit}

-- A cached job that `Create` may answer with: one that is there and has not failed.
unfoldable pub cached_job : Str → Store → Option (Str × Record)
cached_job key s = elim (get key s.cache) [
  | none ↦ none
  | some id ↦ elim (get id s.jobs) [
    | none ↦ none
    | some r ↦ if is_empty id || is_failed r.status then none else some (id, r)
  ]
]

pub data Created : Type 0 where
  hit : Record → Bool → Created
  fresh : Record → Created

abbrev pub insert_job : Str → Str → Record → Store → Store
insert_job key id r s = record s { jobs = put id r s.jobs; cache = put key id s.cache }

-- The part of `Create` under the lock: what it found, and the job that had expired.
unfoldable pub create_locked : Str → Str → Record → ℕ → Store → Store × Created × Option Str
unfolding cached_job artifact_expired
create_locked key id r now s = elim (cached_job key s) [
  | none ↦ (insert_job key id r s, fresh r, none)
  | some (existing_id, existing) ↦
      if artifact_expired existing now
      then (
        insert_job key id r
            (record s { jobs = delete existing_id s.jobs; cache = delete key s.cache }),
        fresh r,
        some existing_id,
      )
      else (s, hit existing (is_done existing.status), none)
]

unfoldable pub broadcast_expired : Option Str → ℕ → Store → Store
broadcast_expired none now s = s
broadcast_expired (some id) now s = broadcast id now s

-- The part of `Create` after the lock.
unfoldable pub tell_created : Str → Record → ℕ → Store × Created × Option Str → Store × Created
unfolding broadcast_expired
tell_created id r now (s, hit existing cached, expired) = (s, hit existing cached)
tell_created id r now (s, fresh new, expired) =
    (notify r (broadcast id now (broadcast_expired expired now s)), fresh new)

unfoldable pub create_with : Str → Str → Record → ℕ → Store → Store × Created
unfolding tell_created
create_with key id r now s = tell_created id r now (create_locked key id r now s)

abbrev pub new_record : Str → Str → Str → Str → JobOptions → ℕ → Record
new_record id key url authorization options now = record {
  id = id;
  cache_key = key;
  url = url;
  authorization = authorization;
  options = trim_categories options;
  status = queued;
  title = [];
  error = none;
  error_code = none;
  artifact = [];
  expires_at = none;
  storage = [];
  resolved = none;
  progress = record {
    stage = [];
    downloaded_bytes = pos 0;
    total_bytes = pos 0;
    speed_bytes_per_second = pos 0;
  };
  queued_at = now;
  started_at = none;
  finished_at = none;
  download_ms = none;
  mux_ms = none;
  total_ms = none;
  cancel = none;
}

-- `new_id` is what newID gives: none if the system has no random bytes.
unfoldable pub create :
    (ℕ → ℕ)
    → (CacheInput → Option Str)
    → Option Str
    → Str
    → JobOptions
    → Str
    → ℕ
    → Store
    → Store × Option Created
unfolding create_with cache_key
create lower digest new_id url options authorization now s =
    elim (cache_key lower digest url options authorization) [
      | none ↦ (s, none)
      | some key ↦ elim new_id [
        | none ↦ (s, none)
        | some id ↦
            let (s', created) =
              create_with key id (new_record id key url authorization options now) now s in
            (s', some created)
      ]
    ]

unfoldable pub restore_one : Option Record → Store → Store
restore_one none s = s
restore_one (some r) s = if is_empty r.id then s else record s {
  jobs = put r.id (record r { cancel = none }) s.jobs;
  cache =
      if not (is_empty r.cache_key) && is_done r.status
      then put r.cache_key r.id s.cache
      else s.cache;
}

unfoldable pub restore : List (Option Record) → Store → Store
unfolding restore_one
restore [] s = s
restore (r ∷ rest) s = restore rest (restore_one r s)

unfoldable pub requeue : Record → Record
requeue r = record r {
  status = queued;
  cancel = none;
  started_at = none;
  finished_at = none;
  error = none;
  error_code = none;
  progress = record {
    stage = lit "queued";
    downloaded_bytes = pos 0;
    total_bytes = pos 0;
    speed_bytes_per_second = pos 0;
  };
}

unfoldable pub restore_pending : List (Option Record) → Store → Store × List Str
unfolding requeue
restore_pending [] s = (s, [])
restore_pending (none ∷ rest) s = restore_pending rest s
restore_pending (some r ∷ rest) s =
    let added = restore_pending rest (record s { jobs = put r.id (requeue r) s.jobs }) in
    let skipped = restore_pending rest s in
    if is_empty r.id then skipped else (added.0, r.id ∷ added.1)
