-- ===== src/Examples/JobRuns.antt =====
-- Runs of the job store of internal/job.
use type_type_downloader.Prelude.{List, [], arith, false, map, none, refl, some, true, ℕ, ◌∷◌, ◌≡◌}
use type_type_downloader.Job.{JobOptions, Record, failed, running, to_response}
use type_type_downloader.Job.Store.{Store, broadcast, listeners_of, new_store, offer, update}
use type_type_downloader.Job.Store.Create.{
  cached_job, create_locked, create_with, fresh, new_record, tell_created,
}
use type_type_downloader.Job.Store.Dedup.{Repeated, create_again}
use type_type_downloader.Job.Store.Delivery.{
  fill, initial_after_update, responses, run_updates, run_updates-fill,
}
use type_type_downloader.Job.Store.Events.{send_initial, subscribe_locked}
use type_type_downloader.Job.Store.Lifecycle.{cancel, complete, mark_done, mark_started, start}
use type_type_downloader.Job.Store.Steps.{
  IsConsistent, Mutation, Reach, Reach-IsConsistent, broadcasts, creates, here, mutate, mutates,
  next, section, starts,
}
use type_type_downloader.Job.Store.Transitions.{
  AfterCancel, cancel_lem, complete_after_start, start_after_cancel,
}
use type_type_downloader.Prelude.Int.{pos}
use type_type_downloader.Prelude.Map.{get, put}
use type_type_downloader.Prelude.Text.{Str, lit, str_eq}

abbrev job_options : JobOptions
job_options = record {
  mode = lit "video";
  quality = [];
  format = [];
  container = lit "mp4";
  audio_passthrough = false;
  video_itag = [];
  audio_itag = [];
  height = none;
  fps = none;
  video_codec = [];
  audio_codec = [];
  bitrate = none;
  allow_quality_fallback = false;
  sponsor_block = false;
  sponsor_block_categories = [];
  thumbnail_only = false;
  subtitles = [];
}

abbrev pub job : Str → Record
job id = new_record id (lit "k") (lit "https://x") [] job_options 1_000_000

abbrev empty_store : Store
empty_store = new_store (lit "http://h") 1

abbrev first_store : Store
first_store = (create_locked (lit "k") (lit "j1") (job (lit "j1")) 5 empty_store).0

no_jobs : get (lit "j1") empty_store.jobs ≡ none
unfolding new_store get
no_jobs = refl

abbrev begins : Mutation
begins = starts (some 3) 6

abbrev run :
    Reach empty_store (broadcast (lit "j1") 7 (section (lit "j1") (mutate begins) first_store))
run =
    next
      (next (next here (creates (lit "k") (lit "j1") (job (lit "j1")) 5 no_jobs refl refl refl))
        (mutates (lit "j1") begins))
      (broadcasts (lit "j1") 7)

reach_example :
    IsConsistent (broadcast (lit "j1") 7 (section (lit "j1") (mutate begins) first_store))
reach_example = Reach-IsConsistent (lit "http://h") 1 run

abbrev failing : Record → Record
failing r = record r { status = failed }

created_fresh :
    (create_with (lit "k") (lit "j1") (job (lit "j1")) 5 empty_store).1 ≡ fresh (job (lit "j1"))
unfolding create_with tell_created create_locked cached_job new_store get
created_fresh = refl

again_example :
    Repeated
      (update
        (lit "j1")
        failing
        6
        (create_with (lit "k") (lit "j1") (job (lit "j1")) 5 empty_store).0).0
      (failing (job (lit "j1")))
      (job (lit "j2"))
      7
      (create_with
        (lit "k")
        (lit "j2")
        (job (lit "j2"))
        7
        (update
          (lit "j1")
          failing
          6
          (create_with (lit "k") (lit "j1") (job (lit "j1")) 5 empty_store).0).0)
again_example =
    create_again (lit "k") (lit "j1") (lit "j2") (job (lit "j1")) (job (lit "j2")) failing 5 6 7
      empty_store created_fresh refl

abbrev watched : Store
watched = record empty_store {
  jobs = (lit "j1", job (lit "j1")) ∷ [];
  listeners = (lit "j1", record { channel = 4; buffer = [] } ∷ []) ∷ [];
}

there : get (lit "j1") watched.jobs ≡ some (job (lit "j1"))
unfolding get str_eq
there = refl

listening : get (lit "j1") watched.listeners ≡ some (record { channel = 4; buffer = [] } ∷ [])
unfolding get str_eq
listening = refl

abbrev updates : List ((Record → Record) × ℕ)
updates = (mark_started 6 none, 6) ∷ (failing, 7) ∷ []

delivery_example :
    get (lit "j1") (run_updates (lit "j1") updates watched).listeners
    ≡ some (
        map
          (fill (responses watched.base_url updates (job (lit "j1"))))
          (record { channel = 4; buffer = [] } ∷ []))
delivery_example =
    run_updates-fill (lit "j1") updates watched (job (lit "j1"))
      (record { channel = 4; buffer = [] } ∷ []) there listening (omega arith, tt)

cancel_example :
    AfterCancel
      (lit "j1")
      8
      watched
      (get (lit "j1") watched.jobs)
      (get (lit "j1") (cancel (lit "j1") 8 watched).0.jobs)
      (cancel (lit "j1") 8 watched).1
      (cancel (lit "j1") 8 watched).2
cancel_example = cancel_lem (lit "j1") 8 watched

start_after_cancel_example :
    ((cancel (lit "j1") 8 watched).1 ≡ true)
    × (get (lit "j1") (start (lit "j1") (some 3) 9 (cancel (lit "j1") 8 watched).0).0.jobs
        ≡ some (record (job (lit "j1")) {
          status = running;
          started_at = some 9;
          cancel = some 3;
          progress = record (job (lit "j1")).progress { stage = lit "extract" };
          error = some (lit "job cancelled");
          error_code = some (lit "cancelled");
          finished_at = some 8;
        }))
start_after_cancel_example =
    start_after_cancel (lit "j1") (job (lit "j1")) (some 3) 8 9 watched there refl

complete_example :
    get
      (lit "j1")
      (complete
        (lit "j1")
        (lit "artifacts/j1")
        (lit "s3")
        (some 99)
        (pos 3)
        (pos 4)
        9
        (start (lit "j1") (some 3) 8 watched).0).jobs
    ≡ some (
        mark_done
          (lit "artifacts/j1")
          (lit "s3")
          (some 99)
          (pos 3)
          (pos 4)
          9
          (mark_started 8 (some 3) (job (lit "j1"))))
complete_example =
    complete_after_start (lit "j1") (job (lit "j1")) (some 3) (lit "artifacts/j1") (lit "s3")
      (some 99) (pos 3) (pos 4) 8 9 watched there

abbrev subscribed : Store
subscribed = record watched {
  listeners =
      (lit "j1", record { channel = 5; buffer = [] } ∷ record { channel = 4; buffer = [] } ∷ [])
      ∷ [];
}

subscribes_first :
    subscribe_locked (lit "j1") 5 8 watched
    ≡ some (subscribed, to_response watched.base_url 8 (job (lit "j1")))
unfolding subscribe_locked get put str_eq
subscribes_first = refl

initial_example :
    listeners_of (lit "j1") (
      send_initial
        (lit "j1")
        5
        (to_response watched.base_url 8 (job (lit "j1")))
        (update (lit "j1") failing 9 subscribed).0)
    ≡ record {
      channel = 5;
      buffer =
          to_response watched.base_url 9 (failing (job (lit "j1")))
          ∷ to_response watched.base_url 8 (job (lit "j1"))
          ∷ [];
    }
      ∷ map
          (offer (to_response watched.base_url 9 (failing (job (lit "j1")))))
          (listeners_of (lit "j1") watched)
initial_example =
    initial_after_update (lit "j1") 5 8 9 failing watched subscribed (job (lit "j1"))
      (to_response watched.base_url 8 (job (lit "j1"))) there subscribes_first
