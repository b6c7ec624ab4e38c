-- ===== src/Downloader/Once.antt =====
-- What the workers of `downloadChunks` of internal/downloader/range_downloader.go keep true.
use type_type_downloader.Prelude.{
  Bool, Bool-cases, Option, [], ap, arith, false, if◌then◌else◌, inl, inr, length, none, refl, some,
  true, ℕ, ◌&&◌, ◌++◌, ◌+◌, ◌<◌, ◌==◌, ◌∷◌, ◌≡◌, ◌⊎◌,
}
use type_type_downloader.Downloader.Files.{chunks_error}
use type_type_downloader.Downloader.Whole.{Pieces}
use type_type_downloader.Downloader.Workers.{
  RangePool, RangeReturned, RangeRuns, RangeStep, Taken, behind, caller_ends, fails_chunk,
  finishes_chunk, first_error, from_head, leaves, queues, range_result, range_start, range_then,
  start_range, stops_queueing, takes_chunk,
}
use type_type_downloader.Prelude.Int.{ℤ}

abbrev pub count : ℕ → ℕ → Pieces → ℕ
count start n [] = 0
count start n ((a, b) ∷ rest) = (if a == start && b == n then 1 else 0) + count start n rest

count-append :
    (start n : ℕ) (xs ys : Pieces) → count start n (xs ++ ys) ≡ count start n xs + count start n ys
count-append start n [] ys = omega arith
count-append start n ((a, b) ∷ xs) ys = omega (arith, count-append start n xs ys)

count-Taken :
    (start n : ℕ) (piece : ℕ × ℕ) {from rest : Pieces}
    → Taken piece from rest
    → count start n from ≡ count start n (piece ∷ []) + count start n rest
count-Taken start n (a, b) (from_head rest) = omega arith
count-Taken start n (a, b) (behind (c, d) r) = omega (arith, count-Taken start n (a, b) r)

abbrev has_error : {E : Type 0} → Option E → Option E → Bool
has_error none none = false
has_error none (some e) = true
has_error (some f) other = true

record IsRangePool {E : Type 0} (pieces : Pieces) (s : RangePool E) : Type 0 where
  once :
      (start n : ℕ)
      → count start n s.to_queue
          + count start n s.queued
          + count start n s.active
          + count start n s.finished
          + count start n s.given_up
        ≡ count start n pieces
  keeps : s.ended ≡ false → s.given_up ≡ []
  stays : s.ended ≡ false → ((s.to_queue ≡ []) × (s.queued ≡ [])) ⊎ (0 < length s.active + s.idle)
  ends_by : s.ended ≡ true → has_error s.failure s.caller_error ≡ true

start-IsRangePool :
    {E : Type 0} (workers : ℕ) (pieces : Pieces)
    → 0 < workers
    → IsRangePool {E = E} pieces (start_range workers pieces)
unfolding start_range
start-IsRangePool workers pieces some_workers = record {
  once = λ start n. omega arith;
  keeps = λ e. refl;
  stays = λ e. inr (omega arith);
  ends_by = λ e. absurd (cc e);
}

has_error-first : {E : Type 0} (f o : Option E) (e : E) → has_error (first_error f e) o ≡ true
has_error-first none o e = refl
has_error-first (some first) o e = refl

has_error-caller : {E : Type 0} (f : Option E) (e : E) → has_error f (some e) ≡ true
has_error-caller none e = refl
has_error-caller (some first) e = refl

module _ {E : Type 0} (workers : ℕ) (pieces : Pieces) where
  RangeStep-IsRangePool :
      {s t : RangePool E} → RangeStep workers s t → IsRangePool pieces s → IsRangePool pieces t
  RangeStep-IsRangePool {s} (queues piece rest q l) p = record {
    once = λ start n.
        omega
          (arith, p.once start n, ap (count start n) q, count-append start n s.queued (piece ∷ []));
    keeps = p.keeps;
    stays = λ open_still. elim (p.stays open_still) [
      | inl (none_left, empty) ↦ absurd (cc (q, none_left))
      | inr more ↦ inr more
    ];
    ends_by = p.ends_by;
  }
  RangeStep-IsRangePool {s} (stops_queueing e) p = record {
    once = λ start n. omega (arith, p.once start n, count-append start n s.to_queue s.given_up);
    keeps = λ open_still. absurd (cc (e, open_still));
    stays = λ open_still. absurd (cc (e, open_still));
    ends_by = p.ends_by;
  }
  RangeStep-IsRangePool {s} (takes_chunk piece waiting rest q i) p = record {
    once = λ start n. omega (arith, p.once start n, ap (count start n) q);
    keeps = p.keeps;
    stays = λ open_still. inr (omega arith);
    ends_by = p.ends_by;
  }
  RangeStep-IsRangePool {s} (leaves waiting none_left empty i) p = record {
    once = p.once;
    keeps = p.keeps;
    stays = λ open_still. inl (none_left, empty);
    ends_by = p.ends_by;
  }
  RangeStep-IsRangePool {s} (finishes_chunk piece rest r) p = record {
    once = λ start n. omega (
      arith,
      p.once start n,
      count-Taken start n piece r,
      count-append start n s.finished (piece ∷ []),
    );
    keeps = p.keeps;
    stays = λ open_still. inr (omega arith);
    ends_by = p.ends_by;
  }
  RangeStep-IsRangePool {s} (fails_chunk piece rest e r) p = record {
    once = λ start n. omega (arith, p.once start n, count-Taken start n piece r);
    keeps = λ open_still. absurd (cc open_still);
    stays = λ open_still. absurd (cc open_still);
    ends_by = λ ended. has_error-first s.failure s.caller_error e;
  }
  RangeStep-IsRangePool {s} (caller_ends e) p = record {
    once = p.once;
    keeps = λ open_still. absurd (cc open_still);
    stays = λ open_still. absurd (cc open_still);
    ends_by = λ ended. has_error-caller s.failure e;
  }

  RangeRuns-IsRangePool :
      {s : RangePool E}
      → 0 < workers
      → RangeRuns workers (start_range workers pieces) s
      → IsRangePool pieces s
  RangeRuns-IsRangePool some_workers range_start = start-IsRangePool workers pieces some_workers
  RangeRuns-IsRangePool some_workers (range_then runs step) =
      RangeStep-IsRangePool step (RangeRuns-IsRangePool some_workers runs)

no_error :
    {E : Type 0} (f o : Option E) (downloaded size : ℤ)
    → chunks_error f o downloaded size ≡ none
    → has_error f o ≡ false
unfolding chunks_error
no_error (some e) o downloaded size h = absurd (cc h)
no_error none (some e) downloaded size h = absurd (cc h)
no_error none none downloaded size h = refl

-- When all workers have returned and `downloadChunks` returns nil, each chunk was downloaded as often
-- as it was queued.
pub finished_once :
    {E : Type 0} (workers : ℕ) (pieces : Pieces) {s : RangePool E} (size : ℤ)
    → 0 < workers
    → RangeRuns workers (start_range workers pieces) s
    → RangeReturned s
    → range_result s size ≡ none
    → (start n : ℕ) → count start n s.finished ≡ count start n pieces
unfolding range_result
finished_once workers pieces {s} size some_workers runs all nil start n =
    let p = RangeRuns-IsRangePool workers pieces some_workers runs in
    let fine = no_error s.failure s.caller_error s.downloaded size nil in
    let open_still : s.ended ≡ false = elim (Bool-cases s.ended) [
      | inl y ↦ absurd (cc (p.ends_by y, fine))
      | inr m ↦ m
    ] in
    let empty : s.queued ≡ [] = elim (p.stays open_still) [
      | inl (none_left, empty) ↦ empty
      | inr more ↦ absurd (omega (arith, rw (all.none_active, all.none_idle) at more))
    ] in
    omega (
      arith,
      p.once start n,
      ap (count start n) (p.keeps open_still),
      ap (count start n) empty,
      ap (count start n) all.none_active,
      ap (count start n) all.all_queued,
    )
