-- ===== src/Pipeline/Attempts.antt =====
-- internal/pipeline/retry.go and failure.go: the retry loop of a job and the code of its failure.
use type_type_downloader.Prelude.{
  Bool, Option, Option-cases, ap, arith, if◌then◌else◌, inl, inr, is_some, ltb, none, refl, some,
  suc, sym, true, zero, ℕ, ◌+◌, ◌-◌, ◌<◌, ◌||◌, ◌∙◌, ◌≡◌, ◌⊎◌,
}
use type_type_downloader.Prelude.Int.{ltb_ℤ, pos, pos_part, ℤ}
use type_type_downloader.Prelude.Text.{Str, lit}

-- `no_attempt` wraps the nil error; `errors_is` below looks through the wrapping.
pub data RetryError {ℓ} (E : Type ℓ) : Type ℓ where
  stopped : E → RetryError E
  exhausted : ℕ → Option E → RetryError E

-- What the world does to a call of `retry`: the context's error as attempt k starts, the outcome
-- of its `run`, and the context's error during the wait after it.
pub record World {ℓ} (E : Type ℓ) : Type ℓ where
  pub before : ℕ → Option E
  pub runs : ℕ → Option E
  pub waits : ℕ → Option E

module _ {E : Type 0} (world : World E) (attempts : ℕ) where
  -- What follows a failed attempt: the wait, unless it was the last.
  unfoldable pub wait_after : ℕ → Option E
  wait_after attempt = if ltb attempt attempts then world.waits attempt else none

  unfoldable pub retry_loop : ℕ → ℕ → Option E → Option (RetryError E)
  unfolding wait_after
  retry_loop zero attempt last = some (exhausted attempts last)
  retry_loop (suc left) attempt last = elim (world.before attempt) [
    | some e ↦ some (stopped e)
    | none ↦ elim (world.runs attempt) [
      | none ↦ none
      | some e ↦ elim (wait_after attempt) [
        | some cancelled ↦ some (stopped cancelled)
        | none ↦ retry_loop left (attempt + 1) (some e)
      ]
    ]
  ]

-- none is the nil error.
unfoldable pub retry : {E : Type 0} → World E → ℤ → Option (RetryError E)
unfolding retry_loop
retry world attempts =
    let count = if ltb_ℤ (pos 0) attempts then pos_part attempts else 1 in
    retry_loop world count count 1 none

-- `errors.Is` answers the two questions about the error.
pub record ErrorKind : Type 0 where
  pub is_cancelled : Bool
  pub is_insufficient_storage : Bool

unfoldable pub failure_code : Bool → ErrorKind → Str
failure_code context_ended kind =
    if context_ended || kind.is_cancelled
    then lit "cancelled"
    else if kind.is_insufficient_storage
    then lit "insufficient_storage"
    else lit "download_failed"

module _ {E : Type 0} (world : World E) (attempts : ℕ) where
  -- `n` attempts fail in a row, and nothing stops the call in between.
  abbrev pub Fails : ℕ → ℕ → Type 0
  Fails attempt zero = Unit
  Fails attempt (suc n) =
      (world.before attempt ≡ none)
      × ((e : E) × (world.runs attempt ≡ some e))
      × (wait_after world attempts attempt ≡ none)
      × Fails (attempt + 1) n

  -- How the loop ends after `k` such attempts, at most `left`.
  abbrev pub Ends : ℕ → ℕ → ℕ → Option E → Option (RetryError E) → Type 0
  Ends left attempt k last none =
      (k < left) × (world.before (attempt + k) ≡ none) × (world.runs (attempt + k) ≡ none)
  Ends left attempt k last (some (stopped e)) =
      (k < left)
      × ((world.before (attempt + k) ≡ some e)
          ⊎ (is_some (world.runs (attempt + k)) ≡ true)
            × (wait_after world attempts (attempt + k) ≡ some e))
  Ends left attempt k last (some (exhausted n e)) =
      (k ≡ left)
      × (n ≡ attempts)
      × (((left ≡ 0) × (e ≡ last)) ⊎ (0 < left) × (e ≡ world.runs (attempt + left - 1)))

  base : (attempt : ℕ) → attempt + 0 ≡ attempt
  base attempt = omega arith

  shift : (attempt k : ℕ) → attempt + 1 + k ≡ attempt + suc k
  shift attempt k = omega arith

  Ends-next :
      (left attempt k : ℕ) (last last' : Option E) (result : Option (RetryError E))
      → world.runs attempt ≡ last'
      → Ends left (attempt + 1) k last' result
      → Ends (suc left) attempt (suc k) last result
  Ends-next left attempt k last last' none e h =
      (omega (arith, h.0), rw (← shift attempt k) h.1, rw (← shift attempt k) h.2)
  Ends-next left attempt k last last' (some (stopped x)) e h =
      (omega (arith, h.0), rw (← shift attempt k) h.1)
  Ends-next left attempt k last last' (some (exhausted n x)) e (all, same, inl (z, y)) =
      let here : attempt + suc left - 1 ≡ attempt = omega arith in
      (ap suc all, same, inr (omega arith, rw here (y ∙ sym e)))
  Ends-next left attempt k last last' (some (exhausted n x)) e (all, same, inr (z, y)) =
      let there : attempt + 1 + left - 1 ≡ attempt + suc left - 1 = omega arith in
      (ap suc all, same, inr (omega arith, rw (← there) y))

  retry_loop_lem :
      (left attempt : ℕ) (last : Option E)
      → (k : ℕ) × Fails attempt k
        × Ends left attempt k last (retry_loop world attempts left attempt last)
  unfolding retry_loop
  retry_loop_lem zero attempt last = (0, tt, (refl, refl, inl (refl, refl)))
  retry_loop_lem (suc left) attempt last = elim (Option-cases (world.before attempt)) [
    | inr (e, b) ↦ rw (b, retry_loop) (0, tt, (omega arith, inl (rw (base attempt) b)))
    | inl b ↦ elim (Option-cases (world.runs attempt)) [
      | inl r ↦
          rw (b, retry_loop, r) (0, tt, (omega arith, rw (base attempt) b, rw (base attempt) r))
      | inr (e, r) ↦ elim (Option-cases (wait_after world attempts attempt)) [
        | inr (x, w) ↦
            rw (b, retry_loop, r, w)
              (0, tt, (omega arith, inr (rw (base attempt, r) refl, rw (base attempt) w)))
        | inl w ↦
            let (k, lost, ended) = retry_loop_lem left (attempt + 1) (some e) in
            rw (b, retry_loop, r, w)
              (suc k, (b, (e, r), w, lost), Ends-next left attempt k last (some e) _ r ended)
      ]
    ]
  ]

-- A call of `retry` makes one attempt after the other until one succeeds, the context ends before
-- an attempt or in the wait after a failed one, or all attempts, at least one, have failed. It
-- returns nil, the context's error or the last error, and every attempt before that has failed.
pub retry_lem :
    {E : Type 0} (world : World E) (attempts : ℤ)
    → (k : ℕ) × Fails world (if ltb_ℤ (pos 0) attempts then pos_part attempts else 1) 1 k
      × Ends world
          (if ltb_ℤ (pos 0) attempts then pos_part attempts else 1)
          (if ltb_ℤ (pos 0) attempts then pos_part attempts else 1)
          1
          k
          none
          (retry world attempts)
unfolding retry
retry_lem world attempts =
    let count = if ltb_ℤ (pos 0) attempts then pos_part attempts else 1 in
    retry_loop_lem world count count 1 none
