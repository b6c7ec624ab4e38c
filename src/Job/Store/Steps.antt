-- ===== src/Job/Store/Steps.antt =====
-- The job store of internal/job as goroutines use it: each lock section, and each broadcast and
-- notification between them, is a step, in any order.
use type_type_downloader.Prelude.{
  Bool-cases, Option, Option-cases, arith, false, inl, inr, none, refl, some, ℕ, ◌≡◌,
}
use type_type_downloader.Job.{Progress, Record, ResolvedOutput, Response, is_done}
use type_type_downloader.Job.Store.{
  Store, artifact_expired, broadcast, new_store, notify, update_locked,
}
use type_type_downloader.Job.Store.Consistency.{
  Consistent, Consistent-add, Consistent-cache, Consistent-delete, Consistent-remove,
  Consistent-update, dropped,
}
use type_type_downloader.Job.Store.Create.{cached_job, create_locked, requeue, restore_one}
use type_type_downloader.Job.Store.Events.{send_initial, subscribe_locked, unsubscribe}
use type_type_downloader.Job.Store.Lifecycle.{mark_cancelled, mark_done, mark_failed, mark_started}
use type_type_downloader.Job.Store.Removal.{remove_locked}
use type_type_downloader.Job.Store.Transitions.{cache-broadcast, jobs-broadcast}
use type_type_downloader.Prelude.Int.{ℤ}
use type_type_downloader.Prelude.Map.{Map, delete, get, get-delete, get-put, put}
use type_type_downloader.Prelude.Text.{Str, is_empty, str_eq, str_eq_refl}

-- The mutations that store.go hands to `update`.
pub data Mutation : Type 0 where
  starts : Option ℕ → ℕ → Mutation
  progresses : Progress → Mutation
  resolves : Str → ResolvedOutput → Mutation
  completes : Str → Str → Option ℕ → ℤ → ℤ → ℕ → Mutation
  fails : Str → Str → ℕ → Mutation
  cancels_at : ℕ → Mutation

unfoldable pub mutate : Mutation → Record → Record
mutate (starts stop now) r = mark_started now stop r
mutate (progresses p) r = record r { progress = p }
mutate (resolves title resolved) r = record r { title = title; resolved = some resolved }
mutate (completes artifact storage expires_at download_ms mux_ms now) r =
    mark_done artifact storage expires_at download_ms mux_ms now r
mutate (fails code message now) r = mark_failed code message now r
mutate (cancels_at now) r = mark_cancelled now r

-- The lock section of `update`.
unfoldable pub section : Str → (Record → Record) → Store → Store
section id f s = elim (update_locked id f s) [ none ↦ s | some (snapshot, s') ↦ s' ]

pub data Step (s : Store) : Store → Type 0 where
  mutates : (id : Str) (m : Mutation) → Step s (section id (mutate m) s)
  broadcasts : (id : Str) (now : ℕ) → Step s (broadcast id now s)
  notifies : (r : Record) → Step s (notify r s)
  -- newID gives an id that no job has, and the cache key is no empty text.
  creates :
      (key id : Str) (r : Record) (now : ℕ)
      → get id s.jobs ≡ none
      → r.id ≡ id
      → r.cache_key ≡ key
      → is_empty key ≡ false
      → Step s (create_locked key id r now s).0
  removes : (id : Str) (r : Record) → get id s.jobs ≡ some r → Step s (remove_locked id r s)
  subscribes :
      (id : Str) (channel now : ℕ) (s' : Store) (first : Response)
      → subscribe_locked id channel now s ≡ some (s', first)
      → Step s s'
  sends : (id : Str) (channel : ℕ) (first : Response) → Step s (send_initial id channel first s)
  unsubscribes : (id : Str) (channel : ℕ) → Step s (unsubscribe id channel s)
  -- The database has one row for an id.
  restores : (r : Record) → get r.id s.jobs ≡ none → Step s (restore_one (some r) s)
  requeues :
      (r : Record)
      → get r.id s.jobs ≡ none
      → Step s (record s { jobs = put r.id (requeue r) s.jobs })

pub data Reach (s : Store) : Store → Type 0 where
  here : Reach s s
  next : {t u : Store} → Reach s t → Step t u → Reach s u

abbrev pub IsConsistent : Store → Type 0
IsConsistent s = Consistent s.jobs s.cache

mutate_id : (m : Mutation) (r : Record) → (mutate m r).id ≡ r.id
unfolding mutate mark_started mark_done mark_failed mark_cancelled
mutate_id (starts stop now) r = refl
mutate_id (cancels_at now) r = ground arith
mutate_id _ r = refl

mutate_key : (m : Mutation) (r : Record) → (mutate m r).cache_key ≡ r.cache_key
unfolding mutate mark_started mark_done mark_failed mark_cancelled
mutate_key (starts stop now) r = refl
mutate_key (cancels_at now) r = ground arith
mutate_key _ r = refl

section-IsConsistent :
    (id : Str) (m : Mutation) (s : Store) → IsConsistent s → IsConsistent (section id (mutate m) s)
unfolding section update_locked
section-IsConsistent id m s c = elim (Option-cases (get id s.jobs)) [
  | inl e ↦ rw (e, section, update_locked) c
  | inr (r, e) ↦
      rw (e, section, update_locked)
        (Consistent-update s.jobs s.cache c id r (mutate m r) e (mutate_id m r) (mutate_key m r))
]

created-IsConsistent :
    (key id : Str) (r : Record) (jobs : Map Record) (cache : Map Str)
    → Consistent jobs cache
    → get id jobs ≡ none
    → r.id ≡ id
    → r.cache_key ≡ key
    → is_empty key ≡ false
    → Consistent (put id r jobs) (put key id cache)
created-IsConsistent key id r jobs cache c new same has full =
    Consistent-cache (put id r jobs) cache (Consistent-add jobs cache c id r new same) key id r
      (rw (get-put id id r jobs, str_eq_refl id)) has full

cached_job_lem :
    (key : Str) (s : Store) (j : Str) (q : Record)
    → cached_job key s ≡ some (j, q)
    → (get key s.cache ≡ some j) × (get j s.jobs ≡ some q)
unfolding cached_job
cached_job_lem key s j q e = grind arith

absent : (j id : Str) (jobs : Map Record) → get id jobs ≡ none → get id (delete j jobs) ≡ none
absent j id jobs e = elim (Bool-cases (str_eq j id)) [
  | inl y ↦ rw (get-delete id j jobs, y) refl
  | inr n ↦ rw (get-delete id j jobs, n) e
]

-- Without the expired job and its cache entry.
expired-IsConsistent :
    (key j : Str) (q : Record) (s : Store)
    → IsConsistent s
    → get key s.cache ≡ some j
    → get j s.jobs ≡ some q
    → Consistent (delete j s.jobs) (delete key s.cache)
expired-IsConsistent key j q s c leads there =
    let (q', there', has, full) = c.keys key j leads in
    let eq : q' ≡ q = cc (there, there') in
    let mine : q.cache_key ≡ key = rw (← eq) has in
    Consistent-delete s.jobs s.cache c j (delete key s.cache)
      (rw (← mine) (dropped s.jobs s.cache c j q there))

create_locked-IsConsistent :
    (key id : Str) (r : Record) (now : ℕ) (s : Store)
    → IsConsistent s
    → get id s.jobs ≡ none
    → r.id ≡ id
    → r.cache_key ≡ key
    → is_empty key ≡ false
    → IsConsistent (create_locked key id r now s).0
unfolding create_locked
create_locked-IsConsistent key id r now s c new same has full =
    elim (Option-cases (cached_job key s)) [
      | inl e ↦
          rw (e, create_locked) (created-IsConsistent key id r s.jobs s.cache c new same has full)
      | inr ((j, q), e) ↦
          let (leads, there) = cached_job_lem key s j q e in
          elim (Bool-cases (artifact_expired q now)) [
            | inl y ↦
                rw (e, create_locked, y)
                  (created-IsConsistent key id r (delete j s.jobs) (delete key s.cache)
                    (expired-IsConsistent key j q s c leads there) (absent j id s.jobs new) same has
                    full)
            | inr n ↦ rw (e, create_locked, n) c
          ]
    ]

subscribe_locked_lem :
    (id : Str) (channel now : ℕ) (s s' : Store) (first : Response)
    → subscribe_locked id channel now s ≡ some (s', first)
    → (s'.jobs ≡ s.jobs) × (s'.cache ≡ s.cache)
unfolding subscribe_locked
subscribe_locked_lem id channel now s s' first e = grind arith

unsubscribe_lem :
    (id : Str) (channel : ℕ) (s : Store)
    → ((unsubscribe id channel s).jobs ≡ s.jobs) × ((unsubscribe id channel s).cache ≡ s.cache)
unfolding unsubscribe
unsubscribe_lem id channel s = ground arith

restored-IsConsistent :
    (r : Record) (s : Store)
    → IsConsistent s
    → get r.id s.jobs ≡ none
    → IsConsistent (restore_one (some r) s)
unfolding restore_one
restored-IsConsistent r s c new = elim (Bool-cases (is_empty r.id)) [
  | inl y ↦ rw y c
  | inr n ↦
      let r' = record r { cancel = none } in
      let added = Consistent-add s.jobs s.cache c r.id r' new refl in
      elim (Bool-cases (is_empty r.cache_key)) [
        | inl y ↦ rw (n, y) added
        | inr full ↦ elim (Bool-cases (is_done r.status)) [
          | inl y ↦
              rw (n, full, y)
                (Consistent-cache (put r.id r' s.jobs) s.cache added r.cache_key r.id r'
                  (rw (get-put r.id r.id r' s.jobs, str_eq_refl r.id)) refl full)
          | inr m ↦ rw (n, full, m) added
        ]
      ]
]

pub Step-IsConsistent : {s t : Store} → Step s t → IsConsistent s → IsConsistent t
Step-IsConsistent {s} (mutates id m) c = section-IsConsistent id m s c
Step-IsConsistent {s} (broadcasts id now) c =
    rw (jobs-broadcast id now s, cache-broadcast id now s) c
Step-IsConsistent {s} (notifies r) c = unfold notify in c
Step-IsConsistent {s} (creates key id r now new same has full) c =
    create_locked-IsConsistent key id r now s c new same has full
Step-IsConsistent {s} (removes id r e) c =
    unfold remove_locked in Consistent-remove s.jobs s.cache c id r e
Step-IsConsistent {s} (subscribes id channel now s' first e) c =
    let (jobs, cache) = subscribe_locked_lem id channel now s s' first e in rw (jobs, cache) c
Step-IsConsistent {s} (sends id channel first) c = unfold send_initial in c
Step-IsConsistent {s} (unsubscribes id channel) c =
    let (jobs, cache) = unsubscribe_lem id channel s in rw (jobs, cache) c
Step-IsConsistent {s} (restores r new) c = restored-IsConsistent r s c new
Step-IsConsistent {s} (requeues r new) c =
    Consistent-add s.jobs s.cache c r.id (requeue r) new (unfold requeue in refl)

new_store-IsConsistent : (base_url : Str) (sinks : ℕ) → IsConsistent (new_store base_url sinks)
unfolding new_store get
new_store-IsConsistent base_url sinks = record {
  ids = λ id r e. absurd (cc e);
  keys = λ key id e. absurd (cc e);
}

-- In every store that goroutines reach from a new one, in whatever order their lock sections,
-- broadcasts and notifications come, each job is stored under its id, and each cache entry leads to
-- a job whose cache key is the entry's key and is not empty.
pub Reach-IsConsistent :
    (base_url : Str) (sinks : ℕ) {s : Store} → Reach (new_store base_url sinks) s → IsConsistent s
Reach-IsConsistent base_url sinks here = new_store-IsConsistent base_url sinks
Reach-IsConsistent base_url sinks (next reached step) =
    Step-IsConsistent step (Reach-IsConsistent base_url sinks reached)
