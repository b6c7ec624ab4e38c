-- ===== src/Downloader/Attempts.antt =====
-- What an attempt at a chunk, `fetchChunk` of internal/downloader/range_request.go, leaves in the file.
use type_type_downloader.Prelude.{
  Bool-cases, List, [], ap, arith, inl, inr, leb, length, length-append, length-take, ltb, min,
  none, refl, some, suc, take, zero, ℕ, ◌++◌, ◌+◌, ◌-◌, ◌<◌, ◌∙◌, ◌∷◌, ◌≡◌, ◌≤◌,
}
use type_type_downloader.Downloader.{Chunk}
use type_type_downloader.Downloader.Copying.{
  Body, DownloadError, and_then, copy_chunk, copy_chunk_loop, copy_round, overwrite, splice,
  write_at, write_at-append,
}
use type_type_downloader.Downloader.Fetch.{
  Answer, check_trailing, fetch_chunk, validate_range_response,
}
use type_type_downloader.Prelude.Int.{pos, ℤ}
use type_type_downloader.Prelude.Result.{Result, Result-cases, err, ok}
use type_type_downloader.Prelude.Text.{Str}

overwrite-again :
    (c d file : List ℕ) → length d ≤ length c → overwrite c (overwrite d file) ≡ overwrite c file
unfolding overwrite
overwrite-again c [] file h = refl
overwrite-again [] (y ∷ d) file h = absurd (omega arith)
overwrite-again (x ∷ c) (y ∷ d) [] h = ap (◌∷◌ x) (overwrite-again c d [] (omega arith))
overwrite-again (x ∷ c) (y ∷ d) (z ∷ file) h = ap (◌∷◌ x) (overwrite-again c d file (omega arith))

splice-again :
    (p : ℕ) (c d file : List ℕ)
    → length d ≤ length c
    → splice p c (splice p d file) ≡ splice p c file
unfolding splice
splice-again zero c d file h = overwrite-again c d file h
splice-again (suc p) c d [] h = ap (◌∷◌ 0) (splice-again p c d [] h)
splice-again (suc p) c d (x ∷ file) h = ap (◌∷◌ x) (splice-again p c d file h)

-- A write hides an earlier one at the same place that is no longer.
pub write_at-again :
    (p : ℕ) (c d file : List ℕ)
    → length d ≤ length c
    → write_at p c (write_at p d file) ≡ write_at p c file
unfolding write_at
write_at-again p c [] file h = refl
write_at-again p [] (y ∷ d) file h = absurd (omega arith)
write_at-again p (x ∷ c) (y ∷ d) file h = splice-again p (x ∷ c) (y ∷ d) file h

-- The file differs from what it was by one write of at most `n` bytes at `p`.
abbrev pub Within : ℕ → ℕ → List ℕ → List ℕ → Type 0
Within p n file file' =
    (data_bytes : List ℕ) × (length data_bytes ≤ n) × (file' ≡ write_at p data_bytes file)

unwritten : (p n : ℕ) (file : List ℕ) → Within p n file file
unfolding write_at
unwritten p n file = ([], omega arith, refl)

module _ (os_write : ℕ → List ℕ → ℕ) (buffer : ℕ) where
  abbrev RoundWithin : ℕ → ℕ → List ℕ → List ℕ × Result DownloadError (ℕ × Body) → Type 0
  RoundWithin p size file (file', err e) = Within p size file file'
  RoundWithin p size file (file', ok (k, rest)) =
      (data_bytes : List ℕ) × (length data_bytes ≡ k)
      × (k ≤ size)
      × (file' ≡ write_at p data_bytes file)

  copy_round-RoundWithin :
      (p size : ℕ) (body : Body) (file : List ℕ)
      → RoundWithin p size file (copy_round os_write buffer p size body file)
  unfolding copy_round
  copy_round-RoundWithin p size body file =
      let got = take size body.bytes in
      let w = min (length got) (os_write p got) in
      let short : length got ≤ size = omega (arith, length-take size body.bytes) in
      let part_of : length (take w got) ≡ w = omega (arith, length-take w got) in
      elim (Bool-cases (ltb w (length got))) [
        | inl y ↦ rw (y, copy_round) (take w got, omega arith, refl)
        | inr n ↦ elim (Bool-cases (ltb (length got) size)) [
          | inl y ↦ rw (n, copy_round, y) (take w got, omega arith, refl)
          | inr m ↦ rw (n, copy_round, m) (take w got, ground arith, short, refl)
        ]
      ]

  -- What the rounds before and the rounds after have written is one write.
  both-Within :
      (p k n : ℕ) (d file file' : List ℕ)
      → length d ≡ k
      → k ≤ n
      → Within (p + k) (n - k) (write_at p d file) file'
      → Within p n file file'
  both-Within p k n d file file' same le (e, short, written) =
      (d ++ e, omega (arith, length-append d e), written ∙ rw same at (write_at-append p d e file))

  round_then_rest :
      (fuel position last : ℕ) (file : List ℕ) (r : List ℕ × Result DownloadError (ℕ × Body))
      → position ≤ last
      → RoundWithin position (min buffer (last - position + 1)) file r
      → ((p : ℕ) (body : Body) (file : List ℕ)
          → Within p (last + 1 - p) file (copy_chunk_loop os_write buffer fuel p last body file).0)
      → Within position
          (last + 1 - position)
          file
          (and_then
            (λ n rest file'. copy_chunk_loop os_write buffer fuel (position + n) last rest file')
            r).0
  round_then_rest fuel position last file (file', err e) le (d, short, written) rest_within =
      (d, omega arith, written)
  round_then_rest fuel position last file (file', ok (k, rest)) le (d, same, short, written)
        rest_within =
      both-Within position k (last + 1 - position) d file _ same (omega arith)
        (rw (← written) (tail (rest_within (position + k) rest file')))
    where
      tail :
          {file'' : List ℕ}
          → Within (position + k) (last + 1 - (position + k)) file' file''
          → Within (position + k) (last + 1 - position - k) file' file''
      tail (e, less, w) = (e, omega arith, w)

  loop-Within :
      (last fuel position : ℕ) (body : Body) (file : List ℕ)
      → Within position
          (last + 1 - position)
          file
          (copy_chunk_loop os_write buffer fuel position last body file).0
  unfolding copy_chunk_loop
  loop-Within last zero position body file = elim (Bool-cases (leb position last)) [
    | inl y ↦ rw y (unwritten position _ file)
    | inr n ↦ rw n (unwritten position _ file)
  ]
  loop-Within last (suc fuel) position body file = elim (Bool-cases (leb position last)) [
    | inr n ↦ rw n (unwritten position _ file)
    | inl y ↦ rw y (
        round_then_rest fuel position last file
          (copy_round os_write buffer position (min buffer (last - position + 1)) body file)
          (ground arith)
          (copy_round-RoundWithin position (min buffer (last - position + 1)) body file)
          (loop-Within last fuel))
  ]

check_trailing_file :
    (content_length : ℤ) (r : List ℕ × Result DownloadError Body)
    → (check_trailing content_length r).0 ≡ r.0
unfolding check_trailing
check_trailing_file content_length (file, err e) = refl
check_trailing_file content_length (file, ok rest) = ground arith

abbrev pub chunk_of : ℕ → ℕ → Chunk
chunk_of start n = record { start = pos start; end = pos (start + n - 1) }

module _ (os_write : ℕ → List ℕ → ℕ) (buffer : ℕ) (mode : Str) (start n : ℕ)
    (some_bytes : 0 < n) where
  copy_chunk-Within :
      (body : Body) (file : List ℕ)
      → Within start n file (copy_chunk os_write buffer (chunk_of start n) body file).0
  unfolding copy_chunk
  copy_chunk-Within body file =
      let all : start + n - 1 + 1 - start ≡ n = omega arith in
      rw (all, copy_chunk)
        (rw all at (loop-Within os_write buffer (start + n - 1) n start body file))

  -- Whatever a server answers and a system writes, an attempt changes nothing but the bytes of its
  -- chunk, which holds at least one.
  pub fetch_chunk-Within :
      (answer : Answer) (file : List ℕ)
      → Within start n file (fetch_chunk os_write buffer mode (chunk_of start n) answer file).0
  unfolding fetch_chunk
  fetch_chunk-Within none file = unwritten start n file
  fetch_chunk-Within (some response) file =
      elim (Result-cases (validate_range_response response (chunk_of start n) mode)) [
        | inr (e, bad) ↦ rw (bad, fetch_chunk) (unwritten start n file)
        | inl (u, good) ↦
            rw (good, fetch_chunk) (rw check_trailing_file (copy_chunk-Within response.body file))
      ]
