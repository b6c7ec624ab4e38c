-- ===== src/Job/Store/Transitions.antt =====
-- What the lifecycle operations of internal/job/store.go do to the jobs.
use mathlib.Core.Option
use type_type_downloader.Prelude.{
  Bool, Bool-cases, Option, Option-cases, [], ap, arith, false, if◌then◌else◌, inl, inr, is_some,
  map, none, refl, some, true, ℕ, ◌++◌, ◌||◌, ◌∷◌, ◌≡◌, ◌⊎◌,
}
use type_type_downloader.Job.{Record, failed, is_done, is_failed, queued, running}
use type_type_downloader.Job.Store.{Store, broadcast, notify, update, update_locked}
use type_type_downloader.Job.Store.Lifecycle.{
  cancel, cancels, complete, mark_cancelled, mark_done, mark_started, start,
}
use type_type_downloader.Prelude.Int.{ℤ}
use type_type_downloader.Prelude.Map.{get, get-put}
use type_type_downloader.Prelude.Text.{Str, lit, str_eq, str_eq_iff, str_eq_refl}

pub jobs-broadcast : (id : Str) (now : ℕ) (s : Store) → (broadcast id now s).jobs ≡ s.jobs
unfolding broadcast
jobs-broadcast id now s = ground arith

pub cache-broadcast : (id : Str) (now : ℕ) (s : Store) → (broadcast id now s).cache ≡ s.cache
unfolding broadcast
cache-broadcast id now s = ground arith

pub sinks-broadcast : (id : Str) (now : ℕ) (s : Store) → (broadcast id now s).sinks ≡ s.sinks
unfolding broadcast
sinks-broadcast id now s = ground arith

module _ (id : Str) (f : Record → Record) (now : ℕ) (s : Store) where
  unchanged :
      (j : Str) → get id s.jobs ≡ none → get j s.jobs ≡ (if str_eq id j then none else get j s.jobs)
  unchanged j e = elim (Bool-cases (str_eq id j)) [
    | inl q ↦ rw q (rw (← (str_eq_iff id j).0 q) e)
    | inr q ↦ rw q refl
  ]

  -- An update changes the record of its job, if there is one, and no other record.
  pub get-update :
      (j : Str)
      → get j (update id f now s).0.jobs
        ≡ (if str_eq id j then Option.map f (get id s.jobs) else get j s.jobs)
  unfolding update notify
  get-update j = elim (Option-cases (get id s.jobs)) [
    | inl e ↦ rw (e, update, update_locked) (unchanged j e)
    | inr (r, e) ↦ rw (e, update, update_locked) (rw (jobs-broadcast, get-put))
  ]

  pub cache-update : (update id f now s).0.cache ≡ s.cache
  unfolding update notify
  cache-update = elim (Option-cases (get id s.jobs)) [
    | inl e ↦ rw (e, update, update_locked)
    | inr (r, e) ↦ rw (e, update, update_locked) (cache-broadcast id now _)
  ]

  pub update_found : (update id f now s).1 ≡ is_some (get id s.jobs)
  unfolding update
  update_found = elim (Option-cases (get id s.jobs)) [
    | inl e ↦ rw (e, update, update_locked)
    | inr (r, e) ↦ rw (e, update, update_locked)
  ]

  -- Every sink is given the record as the update left it.
  pub sinks-update :
      (r : Record)
      → get id s.jobs ≡ some r
      → (update id f now s).0.sinks ≡ map (λ saved. saved ++ f r ∷ []) s.sinks
  unfolding update notify
  sinks-update r e =
      rw (e, update, update_locked)
        (ap (map (λ saved. saved ++ f r ∷ [])) (sinks-broadcast id now _))

module _ (id : Str) (now : ℕ) (s : Store) where
  abbrev pub cancelled_record : Record → Record
  cancelled_record r = record r {
    status = failed;
    error = some (lit "job cancelled");
    error_code = some (lit "cancelled");
    finished_at = some now;
  }

  abbrev pub AfterCancel : Option Record → Option Record → Bool → Option ℕ → Type 0
  AfterCancel none after accepted called = (after ≡ none) × (accepted ≡ false) × (called ≡ none)
  AfterCancel (some r) after accepted called =
      ((r.status ≡ queued)
        × (after ≡ some (cancelled_record r))
        × (accepted ≡ true)
        × (called ≡ none))
      ⊎ ((r.status ≡ running) × (after ≡ some r) × (accepted ≡ true) × (called ≡ r.cancel))
      ⊎ ((is_done r.status || is_failed r.status) ≡ true)
        × (after ≡ some r)
        × (accepted ≡ false)
        × (called ≡ none)

  cancelled_cases :
      (r : Record) → AfterCancel (some r) (some (mark_cancelled now r)) (cancels r).0 (cancels r).1
  unfolding mark_cancelled cancels
  cancelled_cases r = ground arith

  -- Cancel fails a queued job on the spot, calls the cancel function of a running one and leaves its
  -- record alone, and refuses every other.
  pub cancel_lem :
      AfterCancel
        (get id s.jobs)
        (get id (cancel id now s).0.jobs)
        (cancel id now s).1
        (cancel id now s).2
  unfolding cancel
  cancel_lem = elim (Option-cases (get id s.jobs)) [
    | inl e ↦ rw (e, cancel) (e, refl, refl)
    | inr (r, e) ↦
        rw (e, cancel)
          (rw (get-update id (mark_cancelled now) now s id, str_eq_refl id, e) (cancelled_cases r))
  ]

queued_accepted : (r : Record) → r.status ≡ queued → (cancels r).0 ≡ true
unfolding cancels
queued_accepted r q = rw q refl

mark_cancelled_lem :
    (now : ℕ) (r : Record)
    → r.status ≡ queued
    → mark_cancelled now r ≡ record r {
      status = failed;
      error = some (lit "job cancelled");
      error_code = some (lit "cancelled");
      finished_at = some now;
    }
unfolding mark_cancelled
mark_cancelled_lem now r q = ground arith

mark_started_lem :
    (now : ℕ) (stop : Option ℕ) (r : Record)
    → mark_started now stop r ≡ record r {
      status = running;
      started_at = some now;
      cancel = stop;
      progress = record r.progress { stage = lit "extract" };
    }
unfolding mark_started
mark_started_lem now stop r = refl

-- A Cancel of a queued job is accepted, and a Start that comes after it makes the job run all the
-- same: its status is running, and its record still holds the error, the code and the end of the
-- cancellation.
pub start_after_cancel :
    (id : Str) (r : Record) (stop : Option ℕ) (now later : ℕ) (s : Store)
    → get id s.jobs ≡ some r
    → r.status ≡ queued
    → ((cancel id now s).1 ≡ true)
      × (get id (start id stop later (cancel id now s).0).0.jobs
          ≡ some (record r {
            status = running;
            started_at = some later;
            cancel = stop;
            progress = record r.progress { stage = lit "extract" };
            error = some (lit "job cancelled");
            error_code = some (lit "cancelled");
            finished_at = some now;
          }))
unfolding cancel start
start_after_cancel id r stop now later s e q = (
  rw (e, cancel) (queued_accepted r q),
  rw (e, cancel)
      (rw (get-update, str_eq_refl id, get-update, str_eq_refl id, e)
        (rw (mark_cancelled_lem now r q)
          (ap some (mark_started_lem later stop (cancelled_record id now s r))))),
)

-- The record of a job after Start and Done is the one that first Start's and then Done's changes
-- make of the job's record.
pub complete_after_start :
    (id : Str) (r : Record) (stop : Option ℕ) (artifact storage : Str) (expires_at : Option ℕ)
    (download_ms mux_ms : ℤ) (now later : ℕ) (s : Store)
    → get id s.jobs ≡ some r
    → get id
        (complete id artifact storage expires_at download_ms mux_ms later
          (start id stop now s).0).jobs
      ≡ some
          (mark_done artifact storage expires_at download_ms mux_ms later (mark_started now stop r))
unfolding complete start
complete_after_start id r stop artifact storage expires_at download_ms mux_ms now later s e =
    rw (get-update, str_eq_refl id, get-update, str_eq_refl id, e) refl
