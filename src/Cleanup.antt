-- ===== src/Cleanup.antt =====
-- internal/cleanup/s3_artifacts.go: the purge of expired artifacts. The world is what the context,
-- the repository and the object store answer: `ended k` before page k, the page that the repository
-- lists behind an id (none for an error), and whether the object of a candidate is deleted.
pub mod Safety
pub mod Sweep
use type_type_downloader.Prelude.{
  Bool, List, Option, [], false, if◌then◌else◌, length, ltb, none, not, some, suc, true, zero, ℕ,
  ◌+◌, ◌-◌, ◌||◌, ◌∷◌,
}
use type_type_downloader.Job.Store.{Store}
use type_type_downloader.Job.Store.Removal.{remove_expired_artifact}
use type_type_downloader.Job.Store.Steps.{next}
use type_type_downloader.Prelude.Int.{pos_part, ℤ}
use type_type_downloader.Prelude.Text.{Str, has_prefix, is_empty, lit}

pub record ExpiredArtifact : Type 0 where
  pub id : Str
  pub location : Str
  pub expires_at : ℕ

pub record PurgeWorld : Type 0 where
  pub ended : ℕ → Bool
  pub pages : ℕ → ℕ → Str → ℕ → Option (List ExpiredArtifact)
  pub deletes : ExpiredArtifact → Bool

-- The job store, the candidates whose objects the object store was told to delete, and those whose
-- rows the repository was told to delete.
pub record Purge : Type 0 where
  pub jobs : Store
  pub objects : List ExpiredArtifact
  pub rows : List ExpiredArtifact

abbrev pub batch_size : ℕ
batch_size = 100

-- A URL can be minted until the expiry and lives for one more `url_ttl`.
abbrev pub cutoff_of : ℕ → ℤ → ℕ
cutoff_of now url_ttl = now - pos_part url_ttl

unfoldable pub is_unsafe : ℕ → ExpiredArtifact → Bool
is_unsafe cutoff candidate =
    is_empty candidate.id
    || is_empty candidate.location
    || not (has_prefix candidate.location (lit "artifacts/"))
    || ltb cutoff candidate.expires_at

module _ (world : PurgeWorld) (cutoff now : ℕ) where
  unfoldable pub purge_candidate : ExpiredArtifact → Purge → Purge
  purge_candidate candidate p =
      let removed = (remove_expired_artifact candidate.id candidate.location cutoff now p.jobs).0 in
      let tried = record p { jobs = removed; objects = candidate ∷ p.objects } in
      if is_unsafe cutoff candidate
      then p
      else if world.deletes candidate
      then record tried { rows = candidate ∷ p.rows }
      else tried

  unfoldable pub purge_page : List ExpiredArtifact → Purge → Purge
  purge_page [] p = p
  purge_page (candidate ∷ rest) p = purge_page rest (purge_candidate candidate p)

  last_id : Str → List ExpiredArtifact → Str
  last_id after [] = after
  last_id after (candidate ∷ rest) = last_id candidate.id rest

  -- The loop over the pages; `fuel` bounds how many are asked for.
  unfoldable pub purge_pages : ℕ → ℕ → Str → Purge → Purge
  unfolding last_id
  purge_pages zero k after p = p
  purge_pages (suc fuel) k after p = elim (world.ended k) [
    | true ↦ p
    | false ↦ elim (world.pages k cutoff after batch_size) [
      | none ↦ p
      | some candidates ↦
          let p' = purge_page candidates p in
          let next = purge_pages fuel (k + 1) (last_id after candidates) p' in
          if ltb (length candidates) batch_size then p' else next
    ]
  ]

unfoldable pub purge_expired_s3_artifacts : PurgeWorld → ℕ → ℤ → ℕ → Purge → Purge
purge_expired_s3_artifacts world now url_ttl fuel p =
    purge_pages world (cutoff_of now url_ttl) now fuel 0 [] p
