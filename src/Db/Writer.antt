-- ===== src/Db/Writer.antt =====
-- internal/db/job_writer.go: the queue between the job store and the database. `saved` is what `save`
-- has accepted. A record that is taken off the queue comes with the context's error, and with the
-- error of `save` where the context has none.
use type_type_downloader.Prelude.{
  Bool, Bool-cases, List, Option, [], ap, append-nil, append_assoc, arith, false, if◌then◌else◌,
  inl, inr, length, ltb, none, refl, some, suc, sym, true, ℕ, ◌++◌, ◌+◌, ◌∙◌, ◌∷◌, ◌≡◌,
}
use type_type_downloader.Job.{Record}

pub record JobWriter (E : Type 0) : Type 0 where
  pub queue : List Record
  pub closed : Bool
  pub rejected : ℕ
  pub failures : ℕ
  pub last_error : Option E
  pub saved : List Record

pub data CloseError (E : Type 0) : Type 0 where
  writes_failed : ℕ → ℕ → Option E → CloseError E
  queue_rejected : ℕ → CloseError E

-- What happens before the queue is closed, in any order.
pub data WriterEvent (E : Type 0) : Type 0 where
  enqueues : Record → WriterEvent E
  takes : Option E → Option E → WriterEvent E

abbrev pub queue_capacity : ℕ
queue_capacity = 2048

module _ {E : Type 0} where
  unfoldable pub new_job_writer : JobWriter E
  new_job_writer = record {
    queue = [];
    closed = false;
    rejected = 0;
    failures = 0;
    last_error = none;
    saved = [];
  }

  unfoldable pub enqueue : Record → JobWriter E → JobWriter E
  enqueue r w =
      if w.closed
      then w
      else if ltb (length w.queue) queue_capacity
      then record w { queue = w.queue ++ r ∷ [] }
      else record w { rejected = w.rejected + 1 }

  unfoldable pub failed_write : E → JobWriter E → JobWriter E
  failed_write e w = record w { failures = w.failures + 1; last_error = some e }

  -- A round of `run` for one record.
  unfoldable pub write_one : Record → Option E → Option E → JobWriter E → JobWriter E
  unfolding failed_write
  write_one r (some e) save_error w = failed_write e w
  write_one r none (some e) w = failed_write e w
  write_one r none none w = record w { saved = w.saved ++ r ∷ [] }

  unfoldable pub take_from : List Record → Option E → Option E → JobWriter E → JobWriter E
  take_from [] context_error save_error w = w
  take_from (r ∷ rest) context_error save_error w =
      write_one r context_error save_error (record w { queue = rest })

  -- A round of `run`; with nothing in the queue it waits.
  unfoldable pub take_one : Option E → Option E → JobWriter E → JobWriter E
  unfolding take_from
  take_one context_error save_error w = take_from w.queue context_error save_error w

  -- What is left of `run` when the queue is closed: one round for each record that waits.
  unfoldable pub drain : (ℕ → Option E × Option E) → List Record → JobWriter E → JobWriter E
  drain errors [] w = w
  drain errors (r ∷ rest) w =
      drain (λ k. errors (suc k)) rest (write_one r (errors 0).0 (errors 0).1 w)

  unfoldable pub close_error : JobWriter E → Option (CloseError E)
  close_error w =
      if ltb 0 w.failures
      then some (writes_failed w.failures w.rejected w.last_error)
      else if ltb 0 w.rejected
      then some (queue_rejected w.rejected)
      else none

  -- `close` shuts the queue and waits for `run` to end.
  unfoldable pub close :
      (ℕ → Option E × Option E) → JobWriter E → JobWriter E × Option (CloseError E)
  unfolding drain close_error
  close errors w =
      let drained = drain errors w.queue (record w { closed = true; queue = [] }) in
      (drained, close_error drained)

  unfoldable pub run_events : List (WriterEvent E) → JobWriter E → JobWriter E
  run_events [] w = w
  run_events (enqueues r ∷ rest) w = run_events rest (enqueue r w)
  run_events (takes context_error save_error ∷ rest) w =
      run_events rest (take_one context_error save_error w)

  -- The records that are offered to the writer, in their order.
  abbrev pub offered : List (WriterEvent E) → List Record
  offered [] = []
  offered (enqueues r ∷ rest) = r ∷ offered rest
  offered (takes context_error save_error ∷ rest) = offered rest

  record Lossless (before : List Record) (w : JobWriter E) : Type 0 where
    still_open : w.closed ≡ false
    kept : w.rejected ≡ 0 → w.failures ≡ 0 → w.saved ++ w.queue ≡ before

  enqueue-Lossless :
      (r : Record) (before : List Record) (w : JobWriter E)
      → Lossless before w
      → Lossless (before ++ r ∷ []) (enqueue r w)
  unfolding enqueue
  enqueue-Lossless r before w l = elim (Bool-cases (ltb (length w.queue) queue_capacity)) [
    | inl y ↦
        rw (l.still_open, y)
          (record {
            still_open = refl;
            kept = λ rejected failures.
                sym (append_assoc w.saved w.queue (r ∷ []))
                ∙ ap (λ b. b ++ r ∷ []) (l.kept rejected failures);
          })
    | inr n ↦
        rw (l.still_open, n)
          (record {
            still_open = refl;
            kept = λ rejected failures. absurd (omega (arith, rejected));
          })
  ]

  write_one-Lossless :
      (r : Record) (context_error save_error : Option E) (before rest : List Record)
      (w : JobWriter E)
      → (w.rejected ≡ 0 → w.failures ≡ 0 → w.saved ++ r ∷ rest ≡ before)
      → let after = write_one r context_error save_error w in
        after.rejected ≡ 0 → after.failures ≡ 0 → after.saved ++ rest ≡ before
  unfolding write_one failed_write
  write_one-Lossless r (some e) save_error before rest w k rejected failures = absurd (omega arith)
  write_one-Lossless r none (some e) before rest w k rejected failures = absurd (omega arith)
  write_one-Lossless r none none before rest w k rejected failures =
      append_assoc w.saved (r ∷ []) rest ∙ k rejected failures

  write_one-others :
      (r : Record) (context_error save_error : Option E) (w : JobWriter E)
      → ((write_one r context_error save_error w).closed ≡ w.closed)
        × ((write_one r context_error save_error w).queue ≡ w.queue)
  unfolding write_one failed_write
  write_one-others r (some e) save_error w = (refl, refl)
  write_one-others r none (some e) w = (refl, refl)
  write_one-others r none none w = (refl, refl)

  take_from-Lossless :
      (q : List Record) (context_error save_error : Option E) (before : List Record)
      (w : JobWriter E)
      → w.queue ≡ q
      → Lossless before w
      → Lossless before (take_from q context_error save_error w)
  unfolding take_from
  take_from-Lossless [] context_error save_error before w e l = l
  take_from-Lossless (r ∷ rest) context_error save_error before w e l =
      let taken = record w { queue = rest } in
      let (closed, queue) = write_one-others r context_error save_error taken in
      record {
        still_open = closed ∙ l.still_open;
        kept = λ rejected failures. rw queue (
            write_one-Lossless r context_error save_error before rest taken
              (λ a b. rw e at (l.kept a b)) rejected failures);
      }

  run_events-Lossless :
      (es : List (WriterEvent E)) (before : List Record) (w : JobWriter E)
      → Lossless before w
      → Lossless (before ++ offered es) (run_events es w)
  unfolding run_events take_one
  run_events-Lossless [] before w l = rw append-nil l
  run_events-Lossless (enqueues r ∷ rest) before w l =
      rw (← append_assoc before (r ∷ []) (offered rest))
        (run_events-Lossless rest (before ++ r ∷ []) (enqueue r w) (enqueue-Lossless r before w l))
  run_events-Lossless (takes context_error save_error ∷ rest) before w l =
      run_events-Lossless rest before (take_one context_error save_error w)
        (take_from-Lossless w.queue context_error save_error before w refl l)

  drain-saved :
      (errors : ℕ → Option E × Option E) (q before : List Record) (w : JobWriter E)
      → (w.rejected ≡ 0 → w.failures ≡ 0 → w.saved ++ q ≡ before)
      → let after = drain errors q w in
        after.rejected ≡ 0 → after.failures ≡ 0 → after.saved ≡ before
  unfolding drain
  drain-saved errors [] before w k rejected failures =
      sym (append-nil w.saved) ∙ k rejected failures
  drain-saved errors (r ∷ rest) before w k rejected failures =
      drain-saved (λ k. errors (suc k)) rest before (write_one r (errors 0).0 (errors 0).1 w)
        (write_one-Lossless r (errors 0).0 (errors 0).1 before rest w k) rejected failures

  no_error : (w : JobWriter E) → close_error w ≡ none → (w.failures ≡ 0) × (w.rejected ≡ 0)
  unfolding close_error
  no_error w e = grind arith

  -- If `close` returns no error after any run of a new writer, the records that were saved are the
  -- records that were offered to the writer, in the order in which they were offered, each once.
  pub close-offered :
      (es : List (WriterEvent E)) (errors : ℕ → Option E × Option E)
      → (close errors (run_events es new_job_writer)).1 ≡ none
      → (close errors (run_events es new_job_writer)).0.saved ≡ offered es
  unfolding close new_job_writer
  close-offered es errors e =
      let w = run_events es new_job_writer in
      let shut = record w { closed = true; queue = [] } in
      let (failures, rejected) = no_error (drain errors w.queue shut) e in
      let start : Lossless [] new_job_writer = record {
        still_open = refl;
        kept = λ rejected failures. refl;
      } in
      drain-saved errors w.queue (offered es) shut
        (run_events-Lossless es [] new_job_writer start).kept rejected failures
