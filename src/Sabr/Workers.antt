-- ===== src/Sabr/Workers.antt =====
-- internal/sabr/multipart.go: the workers of `downloadParts` as goroutines that step in any order.
use type_type_downloader.Prelude.{
  Bool, List, [], ap, arith, false, if◌then◌else◌, inl, inr, length, ltb, min, not, refl, suc, true,
  zero, ℕ, ◌&&◌, ◌++◌, ◌+◌, ◌<◌, ◌==◌, ◌||◌, ◌∷◌, ◌≡◌, ◌⊎◌,
}

-- What they share: the parts in the channel, the parts that a worker downloads, those that are
-- downloaded, those that a worker has taken and left behind, the workers that wait for a part, the
-- errors in the channel of failures, and whether the context has ended.
pub record Pool : Type 0 where
  pub waiting : List ℕ
  pub active : List ℕ
  pub finished_parts : List ℕ
  pub dropped : List ℕ
  pub idle : ℕ
  pub failures : List Bool
  pub ended : Bool

abbrev pub max_concurrent_part_downloads : ℕ
max_concurrent_part_downloads = 3

abbrev pub count_up : ℕ → List ℕ
count_up zero = []
count_up (suc n) = count_up n ++ n ∷ []

unfoldable pub start_pool : ℕ → Pool
start_pool parts = record {
  waiting = count_up parts;
  active = [];
  finished_parts = [];
  dropped = [];
  idle = min parts max_concurrent_part_downloads;
  failures = [];
  ended = false;
}

-- The part that a worker has finished stands anywhere among the active ones.
pub data Removed (part : ℕ) : List ℕ → List ℕ → Type 0 where
  at_head : (rest : List ℕ) → Removed part (part ∷ rest) rest
  after_other :
      (other : ℕ) {from rest : List ℕ}
      → Removed part from rest
      → Removed part (other ∷ from) (other ∷ rest)

-- A failure is true where its error is context.Canceled.
pub data PoolStep (s : Pool) : Pool → Type 0 where
  -- A worker takes the next part and starts it, unless the context has ended.
  takes :
      (part workers : ℕ) (rest : List ℕ)
      → s.waiting ≡ part ∷ rest
      → s.idle ≡ suc workers
      → s.ended ≡ false
      → PoolStep s (record s { waiting = rest; active = part ∷ s.active; idle = workers })
  leaves_part :
      (part workers : ℕ) (rest : List ℕ)
      → s.waiting ≡ part ∷ rest
      → s.idle ≡ suc workers
      → s.ended ≡ true
      → PoolStep s (record s { waiting = rest; dropped = part ∷ s.dropped; idle = workers })
  -- The channel is empty and closed.
  leaves_empty :
      (workers : ℕ)
      → s.waiting ≡ []
      → s.idle ≡ suc workers
      → PoolStep s (record s { idle = workers })
  finishes :
      (part : ℕ) (rest : List ℕ)
      → Removed part s.active rest
      → PoolStep s
          (record s { active = rest; finished_parts = part ∷ s.finished_parts; idle = suc s.idle })
  -- A worker that fails ends the context and returns.
  fails :
      (part : ℕ) (rest : List ℕ) (is_canceled : Bool)
      → Removed part s.active rest
      → PoolStep s (record s {
        active = rest;
        dropped = part ∷ s.dropped;
        failures = s.failures ++ is_canceled ∷ [];
        ended = true;
      })
  -- The caller's context ends.
  ends_outside : PoolStep s (record s { ended = true })

pub data PoolRuns (s : Pool) : Pool → Type 0 where
  at_start : PoolRuns s s
  then_step : {t u : Pool} → PoolRuns s t → PoolStep t u → PoolRuns s u

-- After workers.Wait(): no worker waits or downloads.
pub record AllReturned (s : Pool) : Type 0 where
  pub none_active : s.active ≡ []
  pub none_idle : s.idle ≡ 0

abbrev pub has_real_failure : List Bool → Bool
has_real_failure [] = false
has_real_failure (is_canceled ∷ rest) = not is_canceled || has_real_failure rest

-- Whether `downloadParts` returns nil then.
unfoldable pub returns_nil : Pool → Bool
returns_nil s = not (has_real_failure s.failures) && not s.ended

abbrev pub times : ℕ → List ℕ → ℕ
times k [] = 0
times k (part ∷ rest) = (if part == k then 1 else 0) + times k rest

-- Where a part is, and what it means that a worker has left.
pub record IsPool (parts : ℕ) (s : Pool) : Type 0 where
  pub once :
      (k : ℕ)
      → times k s.waiting + times k s.active + times k s.finished_parts + times k s.dropped
        ≡ (if ltb k parts then 1 else 0)
  pub drops : s.ended ≡ false → s.dropped ≡ []
  pub stays : s.ended ≡ false → (s.waiting ≡ []) ⊎ (0 < length s.active + s.idle)

times_append : (k : ℕ) (xs ys : List ℕ) → times k (xs ++ ys) ≡ times k xs + times k ys
times_append k [] ys = omega arith
times_append k (x ∷ xs) ys = omega (arith, times_append k xs ys)

pub times-count_up : (k n : ℕ) → times k (count_up n) ≡ (if ltb k n then 1 else 0)
times-count_up k zero = ground arith
times-count_up k (suc n) = ground (arith, times_append k (count_up n) (n ∷ []), times-count_up k n)

times-Removed :
    (k part : ℕ) {from rest : List ℕ}
    → Removed part from rest
    → times k from ≡ (if part == k then 1 else 0) + times k rest
times-Removed k part (at_head rest) = refl
times-Removed k part (after_other other r) = omega (arith, times-Removed k part r)

start-IsPool : (parts : ℕ) → IsPool parts (start_pool parts)
unfolding start_pool
start-IsPool zero = record { once = λ k. ground arith; drops = λ e. refl; stays = λ e. inl refl }
start-IsPool (suc parts) = record {
  once = λ k. ground (arith, times_append k (count_up parts) (parts ∷ []), times-count_up k parts);
  drops = λ e. refl;
  stays = λ e. inr (ground arith);
}

PoolStep-IsPool : (parts : ℕ) {s t : Pool} → PoolStep s t → IsPool parts s → IsPool parts t
PoolStep-IsPool parts {s} (takes part workers rest w i e) p = record {
  once = λ k. omega (arith, p.once k, ap (times k) w);
  drops = p.drops;
  stays = λ q. inr (omega arith);
}
PoolStep-IsPool parts {s} (leaves_part part workers rest w i e) p = record {
  once = λ k. omega (arith, p.once k, ap (times k) w);
  drops = λ q. absurd (cc (q, e));
  stays = λ q. absurd (cc (q, e));
}
PoolStep-IsPool parts {s} (leaves_empty workers w i) p = record {
  once = p.once;
  drops = p.drops;
  stays = λ q. inl w;
}
PoolStep-IsPool parts {s} (finishes part rest r) p = record {
  once = λ k. omega (arith, p.once k, times-Removed k part r);
  drops = p.drops;
  stays = λ q. inr (omega arith);
}
PoolStep-IsPool parts {s} (fails part rest canceled r) p = record {
  once = λ k. omega (arith, p.once k, times-Removed k part r);
  drops = λ q. absurd (cc q);
  stays = λ q. absurd (cc q);
}
PoolStep-IsPool parts {s} ends_outside p = record {
  once = p.once;
  drops = λ q. absurd (cc q);
  stays = λ q. absurd (cc q);
}

PoolRuns-IsPool : (parts : ℕ) {s : Pool} → PoolRuns (start_pool parts) s → IsPool parts s
PoolRuns-IsPool parts at_start = start-IsPool parts
PoolRuns-IsPool parts (then_step runs step) =
    PoolStep-IsPool parts step (PoolRuns-IsPool parts runs)

not_ended : (s : Pool) → returns_nil s ≡ true → s.ended ≡ false
unfolding returns_nil
not_ended s e = ground arith

-- However the workers of a SABR download step, when all of them have returned and `downloadParts`
-- returns nil, each part has been downloaded, and downloaded once.
pub downloaded_once :
    (parts : ℕ) {s : Pool}
    → PoolRuns (start_pool parts) s
    → AllReturned s
    → returns_nil s ≡ true
    → (k : ℕ) → times k s.finished_parts ≡ (if ltb k parts then 1 else 0)
downloaded_once parts {s} runs all nil k =
    let p = PoolRuns-IsPool parts runs in
    let open_still = not_ended s nil in
    let dropped = p.drops open_still in
    let waiting : s.waiting ≡ [] = elim (p.stays open_still) [
      | inl w ↦ w
      | inr more ↦ absurd (omega (arith, rw (all.none_active, all.none_idle) at more))
    ] in
    omega
      (arith, p.once k, ap (times k) dropped, ap (times k) waiting, ap (times k) all.none_active)
