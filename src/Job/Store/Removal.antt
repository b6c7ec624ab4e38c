-- ===== src/Job/Store/Removal.antt =====
-- internal/job/store.go and store_expiry.go: `Delete` (here `remove`) and `RemoveExpiredArtifact`.
use type_type_downloader.Prelude.{
  Bool, Option, false, if◌then◌else◌, none, not, some, true, ℕ, ◌&&◌,
}
use type_type_downloader.Job.{Record, is_done, is_running}
use type_type_downloader.Job.Store.{Store, artifact_expired, broadcast}
use type_type_downloader.Prelude.Map.{Map, delete, get}
use type_type_downloader.Prelude.Text.{Str, is_empty, str_eq}

-- Forgets a cache entry if it still leads to the job.
abbrev pub is_there : Str → Option Str → Bool
is_there id none = false
is_there id (some cached) = str_eq cached id

unfoldable pub forget : Record → Str → Map Str → Map Str
forget r id cache =
    if not (is_empty r.cache_key) && is_there id (get r.cache_key cache)
    then delete r.cache_key cache
    else cache

unfoldable pub remove_locked : Str → Record → Store → Store
unfolding forget
remove_locked id r s = record s { jobs = delete id s.jobs; cache = forget r id s.cache }

unfoldable pub remove : Str → ℕ → Store → Store × Option Record
unfolding remove_locked
remove id now s = elim (get id s.jobs) [
  | none ↦ (s, none)
  | some r ↦
      if is_running r.status then (s, none) else (broadcast id now (remove_locked id r s), some r)
]

unfoldable pub remove_expired_artifact : Str → Str → ℕ → ℕ → Store → Store × Bool
unfolding remove_locked artifact_expired
remove_expired_artifact id location cutoff now s = elim (get id s.jobs) [
  | none ↦ (s, false)
  | some r ↦
      if is_done r.status && str_eq r.artifact location && artifact_expired r cutoff
      then (broadcast id now (remove_locked id r s), true)
      else (s, false)
]
