-- ===== src/Examples/ApiRuns.antt =====
-- Runs of the handlers of internal/api.
use type_type_downloader.Prelude.{[], none, refl, some, true, ◌++◌, ◌∷◌, ◌≡◌}
use type_type_downloader.Api.{Request, Server, file_body, parse_job_path}
use type_type_downloader.Api.Handlers.{ApiWorld, artifact, artifact_of, create_job, saved_of, serve}
use type_type_downloader.Api.Outcomes.{CreateOutcome, create_job-Outcome}
use type_type_downloader.Api.Routes.{IsSegment, parse_job_path-print}
use type_type_downloader.Api.Serving.{MayServe, artifact-MayServe}
use type_type_downloader.Examples.JobRuns.{job}
use type_type_downloader.Job.{Record, done}
use type_type_downloader.Job.Store.{artifact_expired, new_store}
use type_type_downloader.Prelude.Map.{get}
use type_type_downloader.Prelude.Text.{ascii_lower, lit, str_eq}

abbrev here_and_now : ApiWorld
here_and_now = record {
  stat = some (record { blocks = 1000; bavail = 500; bsize = 4096 });
  now = 9;
  lower = ascii_lower;
  urls = record {
    parse = λ raw. some (record {
      scheme = lit "https";
      host = lit "x";
      hostname = lit "x";
      path = lit "/v";
      query_get = λ key. [];
    });
    query_escape = λ raw. raw;
    query_unescape = λ raw. some raw;
    resolve = λ base ref. ref;
    print = λ url. [];
  };
  digest = λ input. some (lit "key");
  new_id = some (lit "j7");
  serves = λ saved. some 200;
  can_flush = true;
  channel = 4;
  checks = [];
  disk_health = none;
  build = (lit "1", lit "r", lit "t");
  storage_text = λ e. lit "disk";
  url_text = λ e. lit "url";
  create_text = lit "create";
}

abbrev finished_job : Record
finished_job = record (job (lit "j1")) {
  status = done;
  artifact = lit "data/artifacts/j1/a.mp4";
  storage = lit "local";
}

abbrev server : Server
server = record {
  store = record (new_store (lit "http://h") 1) { jobs = (lit "j1", finished_job) ∷ [] };
  disk = record { min_free_bytes = 0; min_free_percent = 0; reservations = [] };
  queue = [];
  max_queue_size = 1;
  deleted = [];
}

abbrev post : Request
post = record {
  method = lit "POST";
  path = lit "/jobs";
  authorization = [];
  decoded = some (lit " https://x/v ", (job (lit "j1")).options);
}

create_job_example : CreateOutcome here_and_now server (create_job here_and_now post server)
create_job_example = create_job-Outcome here_and_now post server

id-IsSegment : IsSegment (lit "j1")
id-IsSegment = record { full = refl; plain = (refl, (refl, tt)) }

action-IsSegment : IsSegment (lit "events")
action-IsSegment = record {
  full = refl;
  plain = (refl, (refl, (refl, (refl, (refl, (refl, tt))))));
}

path_example :
    (parse_job_path (lit "/jobs/" ++ lit "j1") ≡ some (lit "j1", []))
    × (parse_job_path (lit "/jobs/" ++ (lit "j1" ++ b'/' ∷ lit "events"))
        ≡ some (lit "j1", lit "events"))
path_example = parse_job_path-print (lit "j1") (lit "events") id-IsSegment action-IsSegment

served :
    (artifact here_and_now (lit "j1") server).1.body
    ≡ file_body (saved_of here_and_now finished_job) []
unfolding artifact artifact_of serve get str_eq artifact_expired
served = refl

artifact_example :
    (r : Record) × MayServe here_and_now (lit "j1") server r (saved_of here_and_now finished_job)
artifact_example =
    artifact-MayServe here_and_now (lit "j1") server (saved_of here_and_now finished_job) [] served
