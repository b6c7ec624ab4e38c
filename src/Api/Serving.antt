-- ===== src/Api/Serving.antt =====
-- What the handlers `artifact` and `deleteJob` of internal/api serve and delete.
use type_type_downloader.Prelude.{
  Bool-cases, Option, Option-cases, arith, false, inl, inr, none, not, refl, some, true, ◌||◌, ◌≡◌,
}
use type_type_downloader.Api.{Server, file_body, job_not_found, write_error}
use type_type_downloader.Api.Handlers.{ApiWorld, artifact, artifact_of, saved_of, serve}
use type_type_downloader.Artifact.{Saved}
use type_type_downloader.Job.{Record, is_done}
use type_type_downloader.Job.Store.{artifact_expired}
use type_type_downloader.Prelude.Map.{get}
use type_type_downloader.Prelude.Text.{Str, is_empty}

module _ (w : ApiWorld) (id : Str) (s : Server) where
  -- The artifact of a job that may be served: it is done, has an artifact, and has not expired.
  pub record MayServe (r : Record) (saved : Saved) : Type 0 where
    pub found : get id s.store.jobs ≡ some r
    pub ended : is_done r.status ≡ true
    pub has_artifact : is_empty r.artifact ≡ false
    pub valid : artifact_expired r w.now ≡ false
    pub same : saved ≡ saved_of w r

  serve_lem :
      (r : Record) (saved : Saved) (name : Str)
      → (serve w r).body ≡ file_body saved name
      → saved ≡ saved_of w r
  unfolding serve write_error
  serve_lem r saved name e = elim (Option-cases (w.serves (saved_of w r))) [
    | inl q ↦ absurd (cc (rw (q, serve) at e))
    | inr (status, q) ↦ cc (rw (q, serve) at e)
  ]

  artifact_of_lem :
      (found : Option Record) (saved : Saved) (name : Str)
      → get id s.store.jobs ≡ found
      → (artifact_of w found).body ≡ file_body saved name
      → (r : Record) × MayServe r saved
  unfolding artifact_of write_error job_not_found
  artifact_of_lem none saved name q e = absurd (cc e)
  artifact_of_lem (some r) saved name q e =
      elim (Bool-cases (not (is_done r.status) || is_empty r.artifact)) [
        | inl y ↦ absurd (cc (rw y at e))
        | inr n ↦ elim (Bool-cases (artifact_expired r w.now)) [
          | inl y ↦ absurd (cc (rw (n, y) at e))
          | inr m ↦ (
            r,
            record {
              found = q;
              ended = ground arith;
              has_artifact = ground arith;
              valid = m;
              same = serve_lem r saved name (rw (n, m) at e);
            },
          )
        ]
      ]

  -- A GET of an artifact that is answered with a file names the artifact of a record of the store
  -- under the job's id, and that job is done, has an artifact, and is not past its expiry.
  pub artifact-MayServe :
      (saved : Saved) (name : Str)
      → (artifact w id s).1.body ≡ file_body saved name
      → (r : Record) × MayServe r saved
  unfolding artifact
  artifact-MayServe saved name e = artifact_of_lem (get id s.store.jobs) saved name refl e
