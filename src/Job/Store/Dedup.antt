-- ===== src/Job/Store/Dedup.antt =====
-- `Create` of internal/job/store.go, for a request that is made again.
use type_type_downloader.Prelude.{
  Bool-cases, Option-cases, false, if◌then◌else◌, inl, inr, none, refl, some, true, ℕ, ◌||◌, ◌≡◌,
}
use type_type_downloader.Job.{Record, is_done, is_failed}
use type_type_downloader.Job.Store.{Store, artifact_expired, notify, update}
use type_type_downloader.Job.Store.Create.{
  Created, broadcast_expired, cached_job, create_locked, create_with, fresh, hit, insert_job,
  tell_created,
}
use type_type_downloader.Job.Store.Transitions.{
  cache-broadcast, cache-update, get-update, jobs-broadcast,
}
use type_type_downloader.Prelude.Map.{delete, get, get-put}
use type_type_downloader.Prelude.Text.{Str, is_empty, str_eq_refl}

module _ (key id : Str) (r : Record) (now : ℕ) (s : Store) where
  locked_new :
      cached_job key s ≡ none
      → create_locked key id r now s ≡ (insert_job key id r s, fresh r, none)
  unfolding create_locked
  locked_new e = rw (e, create_locked) refl

  locked_expired :
      (j : Str) (q : Record)
      → cached_job key s ≡ some (j, q)
      → artifact_expired q now ≡ true
      → create_locked key id r now s ≡ (
        insert_job key id r (record s { jobs = delete j s.jobs; cache = delete key s.cache }),
        fresh r,
        some j,
      )
  unfolding create_locked
  locked_expired j q e y = rw (e, create_locked, y) refl

  locked_hit :
      (j : Str) (q : Record)
      → cached_job key s ≡ some (j, q)
      → artifact_expired q now ≡ false
      → create_locked key id r now s ≡ (s, hit q (is_done q.status), none)
  unfolding create_locked
  locked_hit j q e n = rw (e, create_locked, n) refl

  fresh_lem :
      (create_with key id r now s).1 ≡ fresh r
      → (get id (create_with key id r now s).0.jobs ≡ some r)
        × (get key (create_with key id r now s).0.cache ≡ some id)
  unfolding create_with tell_created notify broadcast_expired
  fresh_lem e = elim (Option-cases (cached_job key s)) [
    | inl n ↦
        rw (locked_new n, create_with)
          (rw
            (
              jobs-broadcast,
              cache-broadcast,
              get-put id id r,
              get-put key key id,
              str_eq_refl id,
              str_eq_refl key,
            )
            (refl, refl))
    | inr ((j, q), y) ↦ elim (Bool-cases (artifact_expired q now)) [
      | inl x ↦
          rw (locked_expired j q y x, create_with)
            (rw
              (
                jobs-broadcast,
                cache-broadcast,
                jobs-broadcast,
                cache-broadcast,
                get-put id id r,
                get-put key key id,
                str_eq_refl id,
                str_eq_refl key,
              )
              (refl, refl))
      | inr n ↦ absurd (cc (rw (locked_hit j q y n, create_with) at e))
    ]
  ]

cached_job-some :
    (key id : Str) (q : Record) (s : Store)
    → get key s.cache ≡ some id
    → get id s.jobs ≡ some q
    → is_empty id ≡ false
    → cached_job key s ≡ (if is_failed q.status then none else some (id, q))
unfolding cached_job
cached_job-some key id q s leads there full = rw (leads, cached_job, there, full) refl

-- What the second of two requests gets.
abbrev pub Repeated : Store → Record → Record → ℕ → Store × Created → Type 0
Repeated s q r later (s', created) =
    if is_failed q.status || artifact_expired q later
    then created ≡ fresh r
    else (s' ≡ s) × (created ≡ hit q (is_done q.status))

again_lem :
    (key id id2 : Str) (q r2 : Record) (later : ℕ) (s : Store)
    → get key s.cache ≡ some id
    → get id s.jobs ≡ some q
    → is_empty id ≡ false
    → Repeated s q r2 later (create_with key id2 r2 later s)
unfolding create_with tell_created
again_lem key id id2 q r2 later s leads there full =
    let found = cached_job-some key id q s leads there full in
    elim (Bool-cases (is_failed q.status)) [
      | inl y ↦ rw (locked_new key id2 r2 later s (rw y at found), create_with, y) refl
      | inr n ↦ elim (Bool-cases (artifact_expired q later)) [
        | inl y ↦
            rw (locked_expired key id2 r2 later s id q (rw n at found) y, create_with, n, y) refl
        | inr m ↦
            rw (locked_hit key id2 r2 later s id q (rw n at found) m, create_with, n, m)
              (refl, refl)
      ]
    ]

-- If Create makes a new job for a cache key, and the job's record is then changed by an update,
-- Create for the same key gives that job back and leaves the store alone, unless the changed record
-- has failed or its artifact has expired: then Create makes a new job. The id of a job is not empty.
pub create_again :
    (key id id2 : Str) (r r2 : Record) (f : Record → Record) (now between later : ℕ) (s : Store)
    → (create_with key id r now s).1 ≡ fresh r
    → is_empty id ≡ false
    → let s' = (update id f between (create_with key id r now s).0).0 in
      Repeated s' (f r) r2 later (create_with key id2 r2 later s')
create_again key id id2 r r2 f now between later s e full =
    let (there, leads) = fresh_lem key id r now s e in
    let s1 = (create_with key id r now s).0 in
    again_lem key id id2 (f r) r2 later (update id f between s1).0
      (rw (cache-update id f between s1) leads)
      (rw (get-update id f between s1 id, str_eq_refl id, there) refl) full
