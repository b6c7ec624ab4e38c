-- ===== src/Examples/CleanupRuns.antt =====
-- Runs of internal/cleanup.
use type_type_downloader.Prelude.{[], false, refl, some, true, ℕ, ◌∷◌, ◌≡◌}
use type_type_downloader.Cleanup.{
  ExpiredArtifact, Purge, PurgeWorld, is_unsafe, purge_candidate, purge_expired_s3_artifacts,
  purge_page, purge_pages,
}
use type_type_downloader.Cleanup.Safety.{IsSafe, purge_expired_s3_artifacts-IsSafe}
use type_type_downloader.Job.Store.{new_store}
use type_type_downloader.Prelude.Int.{pos}
use type_type_downloader.Prelude.Text.{Str, cut_prefix, has_prefix, lit}

abbrev candidate : Str → ℕ → ExpiredArtifact
candidate location expires_at = record {
  id = lit "j1";
  location = location;
  expires_at = expires_at;
}

-- One page: an expired artifact, a path outside artifacts/ and one whose URLs still live.
abbrev world : PurgeWorld
world = record {
  ended = λ k. false;
  pages = λ k cutoff after limit. some (
      candidate (lit "artifacts/a.mp4") 10
      ∷ candidate (lit "other/b") 10
      ∷ candidate (lit "artifacts/c") 95
      ∷ []);
  deletes = λ c. true;
}

abbrev before : Purge
before = record { jobs = new_store [] 0; objects = []; rows = [] }

purge_result :
    (purge_expired_s3_artifacts world 100 (pos 10) 3 before).objects
    ≡ candidate (lit "artifacts/a.mp4") 10 ∷ []
unfolding purge_expired_s3_artifacts purge_pages purge_page purge_candidate is_unsafe has_prefix
    cut_prefix
purge_result = refl

purge_example : IsSafe 90 (purge_expired_s3_artifacts world 100 (pos 10) 3 before)
purge_example = purge_expired_s3_artifacts-IsSafe world 100 (pos 10) 3 before (tt, tt)
