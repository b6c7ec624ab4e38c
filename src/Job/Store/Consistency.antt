-- ===== src/Job/Store/Consistency.antt =====
-- The consistency of the maps of internal/job/store.go, under each change that the code makes.
use type_type_downloader.Prelude.{
  Bool-cases, false, inl, inr, none, not, refl, some, true, ◌&&◌, ◌∙◌, ◌≡◌,
}
use type_type_downloader.Job.{Record}
use type_type_downloader.Job.Store.Removal.{forget, is_there}
use type_type_downloader.Prelude.Map.{Map, delete, get, get-delete, get-put, put}
use type_type_downloader.Prelude.Text.{Str, is_empty, str_eq, str_eq_iff, str_eq_refl}

-- A job is stored under its id, and a cache entry leads to a job with the entry's key.
pub record Consistent (jobs : Map Record) (cache : Map Str) : Type 0 where
  pub ids : (id : Str) (r : Record) → get id jobs ≡ some r → r.id ≡ id
  pub keys :
      (key id : Str)
      → get key cache ≡ some id
      → (r : Record) × (get id jobs ≡ some r) × (r.cache_key ≡ key) × (is_empty key ≡ false)

module _ (jobs : Map Record) (cache : Map Str) (c : Consistent jobs cache) where
  replaced_ids :
      (id : Str) (r' : Record)
      → r'.id ≡ id
      → (j : Str) (q : Record) → get j (put id r' jobs) ≡ some q
      → q.id ≡ j
  replaced_ids id r' same j q e = elim (Bool-cases (str_eq id j)) [
    | inl y ↦
        let eq : r' ≡ q = cc (rw (get-put j id r' jobs, y) at e) in
        rw (← eq) (same ∙ (str_eq_iff id j).0 y)
    | inr n ↦ c.ids j q (rw (get-put j id r' jobs, n) at e)
  ]

  -- A mutation that keeps the id and the cache key.
  pub Consistent-update :
      (id : Str) (r r' : Record)
      → get id jobs ≡ some r
      → r'.id ≡ r.id
      → r'.cache_key ≡ r.cache_key
      → Consistent (put id r' jobs) cache
  Consistent-update id r r' e same key_same = record {
    ids = replaced_ids id r' (same ∙ c.ids id r e);
    keys = λ key j f.
        let (q, there, has, full) = c.keys key j f in
        elim (Bool-cases (str_eq id j)) [
          | inl y ↦
              let back : get j jobs ≡ some r = rw (← (str_eq_iff id j).0 y) e in
              let eq : r ≡ q = cc (there, back) in
              (r', rw (get-put j id r' jobs, y) refl, key_same ∙ rw eq has, full)
          | inr n ↦ (q, rw (get-put j id r' jobs, n) there, has, full)
        ];
  }

  -- A job under a new id.
  pub Consistent-add :
      (id : Str) (r : Record) → get id jobs ≡ none → r.id ≡ id → Consistent (put id r jobs) cache
  Consistent-add id r new same = record {
    ids = replaced_ids id r same;
    keys = λ key j f.
        let (q, there, has, full) = c.keys key j f in
        elim (Bool-cases (str_eq id j)) [
          | inl y ↦
              let back : get j jobs ≡ none = rw (← (str_eq_iff id j).0 y) new in
              absurd (cc (there, back))
          | inr n ↦ (q, rw (get-put j id r jobs, n) there, has, full)
        ];
  }

  -- A cache entry that leads to a job with its key.
  pub Consistent-cache :
      (key id : Str) (r : Record)
      → get id jobs ≡ some r
      → r.cache_key ≡ key
      → is_empty key ≡ false
      → Consistent jobs (put key id cache)
  Consistent-cache key id r e has full = record {
    ids = c.ids;
    keys = λ k j f. elim (Bool-cases (str_eq key k)) [
      | inl y ↦
          let eq : id ≡ j = cc (rw (get-put k key id cache, y) at f) in
          let same = (str_eq_iff key k).0 y in (r, rw (← eq) e, has ∙ same, rw (← same) full)
      | inr n ↦ c.keys k j (rw (get-put k key id cache, n) at f)
    ];
  }

  removed_ids : (id j : Str) (q : Record) → get j (delete id jobs) ≡ some q → q.id ≡ j
  removed_ids id j q e = elim (Bool-cases (str_eq id j)) [
    | inl y ↦ absurd (cc (rw (get-delete j id jobs, y) at e))
    | inr n ↦ c.ids j q (rw (get-delete j id jobs, n) at e)
  ]

  -- What is left of the cache when every entry that leads to the removed job is gone.
  pub Consistent-delete :
      (id : Str) (cache' : Map Str)
      → ((key j : Str) → get key cache' ≡ some j → (get key cache ≡ some j) × (str_eq id j ≡ false))
      → Consistent (delete id jobs) cache'
  Consistent-delete id cache' left = record {
    ids = removed_ids id;
    keys = λ key j f.
        let (f', n) = left key j f in
        let (q, there, has, full) = c.keys key j f' in
        (q, rw (get-delete j id jobs, n) there, has, full);
  }

  -- A cache entry that leads to the removed job is the one under its own key.
  points :
      (id : Str) (r : Record)
      → get id jobs ≡ some r
      → (key j : Str) → get key cache ≡ some j
      → str_eq id j ≡ true
      → (r.cache_key ≡ key) × (is_empty r.cache_key ≡ false) × (get r.cache_key cache ≡ some id)
  points id r e key j f y =
      let (q, there, has, full) = c.keys key j f in
      let same = (str_eq_iff id j).0 y in
      let back : get j jobs ≡ some r = rw (← same) e in
      let eq : q ≡ r = cc (there, back) in
      let mine : r.cache_key ≡ key = rw (← eq) has in (mine, rw mine full, rw (mine, same) f)

  kept :
      (id : Str) (r : Record)
      → get id jobs ≡ some r
      → (not (is_empty r.cache_key) && is_there id (get r.cache_key cache)) ≡ false
      → (key j : Str) → get key cache ≡ some j
      → (get key cache ≡ some j) × (str_eq id j ≡ false)
  kept id r e test key j f = elim (Bool-cases (str_eq id j)) [
    | inl y ↦
        let (mine, full, leads) = points id r e key j f y in
        absurd (cc (rw (full, leads, str_eq_refl id) at test))
    | inr n ↦ (f, n)
  ]

  pub dropped :
      (id : Str) (r : Record)
      → get id jobs ≡ some r
      → (key j : Str) → get key (delete r.cache_key cache) ≡ some j
      → (get key cache ≡ some j) × (str_eq id j ≡ false)
  dropped id r e key j f = elim (Bool-cases (str_eq r.cache_key key)) [
    | inl y ↦ absurd (cc (rw (get-delete key r.cache_key cache, y) at f))
    | inr n ↦
        let f' = rw (get-delete key r.cache_key cache, n) at f in
        elim (Bool-cases (str_eq id j)) [
          | inl y ↦
              let (mine, full, leads) = points id r e key j f' y in
              absurd (cc ((str_eq_iff r.cache_key key).1 mine, n))
          | inr m ↦ (f', m)
        ]
  ]

  pub Consistent-remove :
      (id : Str) (r : Record)
      → get id jobs ≡ some r
      → Consistent (delete id jobs) (forget r id cache)
  unfolding forget
  Consistent-remove id r e =
      elim (Bool-cases (not (is_empty r.cache_key) && is_there id (get r.cache_key cache))) [
        | inl y ↦ rw y (Consistent-delete id (delete r.cache_key cache) (dropped id r e))
        | inr n ↦ rw n (Consistent-delete id cache (kept id r e n))
      ]
