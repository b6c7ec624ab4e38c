-- ===== src/Cleanup/Safety.antt =====
-- Which deletions the purge of internal/cleanup/s3_artifacts.go asks for.
use type_type_downloader.Prelude.{
  Bool-cases, List, Option-cases, [], arith, false, inl, inr, length, ltb, suc, true, zero, ℕ, ◌+◌,
  ◌∷◌, ◌≡◌, ◌≤◌,
}
use type_type_downloader.Cleanup.{
  ExpiredArtifact, Purge, PurgeWorld, batch_size, cutoff_of, is_unsafe, purge_candidate,
  purge_expired_s3_artifacts, purge_page, purge_pages,
}
use type_type_downloader.Prelude.Int.{ℤ}
use type_type_downloader.Prelude.Text.{Str, has_prefix, is_empty, lit}

-- An object under artifacts/ of a job with an id, whose URLs have all run out.
abbrev pub IsPurgeable : ℕ → ExpiredArtifact → Type 0
IsPurgeable cutoff candidate =
    (is_empty candidate.id ≡ false)
    × (has_prefix candidate.location (lit "artifacts/") ≡ true)
    × (candidate.expires_at ≤ cutoff)

abbrev pub AllPurgeable : ℕ → List ExpiredArtifact → Type 0
AllPurgeable cutoff [] = Unit
AllPurgeable cutoff (candidate ∷ rest) = IsPurgeable cutoff candidate × AllPurgeable cutoff rest

abbrev pub IsSafe : ℕ → Purge → Type 0
IsSafe cutoff p = AllPurgeable cutoff p.objects × AllPurgeable cutoff p.rows

safe-IsPurgeable :
    (cutoff : ℕ) (candidate : ExpiredArtifact)
    → is_unsafe cutoff candidate ≡ false
    → IsPurgeable cutoff candidate
unfolding is_unsafe
safe-IsPurgeable cutoff candidate h = ground arith

module _ (world : PurgeWorld) (cutoff now : ℕ) where
  purge_candidate-IsSafe :
      (candidate : ExpiredArtifact) (p : Purge)
      → IsSafe cutoff p
      → IsSafe cutoff (purge_candidate world cutoff now candidate p)
  unfolding purge_candidate
  purge_candidate-IsSafe candidate p (objects, rows) =
      elim (Bool-cases (is_unsafe cutoff candidate)) [
        | inl y ↦ rw y (objects, rows)
        | inr n ↦
            let good = safe-IsPurgeable cutoff candidate n in
            elim (Bool-cases (world.deletes candidate)) [
              | inl y ↦ rw (n, y) ((good, objects), (good, rows))
              | inr m ↦ rw (n, m) ((good, objects), rows)
            ]
      ]

  purge_page-IsSafe :
      (candidates : List ExpiredArtifact) (p : Purge)
      → IsSafe cutoff p
      → IsSafe cutoff (purge_page world cutoff now candidates p)
  unfolding purge_page
  purge_page-IsSafe [] p h = h
  purge_page-IsSafe (candidate ∷ rest) p h =
      purge_page-IsSafe rest (purge_candidate world cutoff now candidate p)
        (purge_candidate-IsSafe candidate p h)

  purge_pages-IsSafe :
      (fuel k : ℕ) (after : Str) (p : Purge)
      → IsSafe cutoff p
      → IsSafe cutoff (purge_pages world cutoff now fuel k after p)
  unfolding purge_pages
  purge_pages-IsSafe zero k after p h = h
  purge_pages-IsSafe (suc fuel) k after p h = elim (Bool-cases (world.ended k)) [
    | inl y ↦ rw (y, purge_pages) h
    | inr n ↦ elim (Option-cases (world.pages k cutoff after batch_size)) [
      | inl e ↦ rw (n, purge_pages, e) h
      | inr (candidates, e) ↦
          let page = purge_page-IsSafe candidates p h in
          elim (Bool-cases (ltb (length candidates) batch_size)) [
            | inl y ↦ rw (n, purge_pages, e, y) page
            | inr m ↦ rw (n, purge_pages, e, m) (purge_pages-IsSafe fuel (k + 1) _ _ page)
          ]
    ]
  ]

-- Whatever the repository lists and the object store answers, and however many pages there are, the
-- purge asks for no deletion but of an object under artifacts/, of a job with an id, that expired at
-- least one URL lifetime ago. `p` is what the purge has deleted before.
pub purge_expired_s3_artifacts-IsSafe :
    (world : PurgeWorld) (now : ℕ) (url_ttl : ℤ) (fuel : ℕ) (p : Purge)
    → IsSafe (cutoff_of now url_ttl) p
    → IsSafe (cutoff_of now url_ttl) (purge_expired_s3_artifacts world now url_ttl fuel p)
unfolding purge_expired_s3_artifacts
purge_expired_s3_artifacts-IsSafe world now url_ttl fuel p h =
    purge_pages-IsSafe world (cutoff_of now url_ttl) now fuel 0 [] p h
