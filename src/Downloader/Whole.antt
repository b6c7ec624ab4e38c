-- ===== src/Downloader/Whole.antt =====
-- `downloadChunks` of internal/downloader/range_downloader.go as a whole: the chunks of `queueChunks`,
-- finished in any order.
use type_type_downloader.Prelude.{
  Bool, Bool-cases, List, [], ap, arith, false, inl, inr, length, ltb, sym, ℕ, ◌+◌, ◌-◌, ◌<◌, ◌^◌,
  ◌∙◌, ◌∷◌, ◌≡◌, ◌≤◌, ◌⊎◌,
}
use type_type_downloader.Downloader.{Chunk, queue_chunks}
use type_type_downloader.Downloader.Assembly.{
  Agree, Covers, length-splice, same_elements, slice, splice-Agree, write_at-splice,
}
use type_type_downloader.Downloader.Attempts.{chunk_of}
use type_type_downloader.Downloader.Chunks.{Tiles, queue_chunks-Tiles}
use type_type_downloader.Downloader.Copying.{Healthy, splice}
use type_type_downloader.Downloader.Fetch.{Answer, download_chunk}
use type_type_downloader.Downloader.Retries.{LoseThen, Serves, download_chunk-recovers}
use type_type_downloader.Prelude.Int.{pos}
use type_type_downloader.Prelude.Text.{Str}

-- A chunk as its start and how many bytes it holds.
abbrev pub Pieces : Type 0
Pieces = List (ℕ × ℕ)

abbrev pub CoveredBy : ℕ → Pieces → Type 0
CoveredBy i [] = ⊥
CoveredBy i ((start, n) ∷ rest) = Covers start n i ⊎ CoveredBy i rest

abbrev pub Listed : ℕ → ℕ → Pieces → Type 0
Listed start n [] = ⊥
Listed start n ((s, m) ∷ rest) = ((s ≡ start) × (m ≡ n)) ⊎ Listed start n rest

-- Each queued chunk is among the pieces.
abbrev pub AllListed : List Chunk → Pieces → Type 0
AllListed [] order = Unit
AllListed (c ∷ cs) order =
    ((start : ℕ) × (n : ℕ) × (0 < n) × (c ≡ chunk_of start n) × Listed start n order)
    × AllListed cs order

Listed-CoveredBy :
    (start n i : ℕ) (order : Pieces) → Listed start n order → Covers start n i → CoveredBy i order
Listed-CoveredBy start n i [] h c = elim h [ ]
Listed-CoveredBy start n i ((s, m) ∷ rest) (inl (a, b)) c = inl (rw (a, b) c)
Listed-CoveredBy start n i ((s, m) ∷ rest) (inr h) c = inr (Listed-CoveredBy start n i rest h c)

le_of_not : (a b : ℕ) → ltb a b ≡ false → b ≤ a
le_of_not a b h = ground arith

Tiles-CoveredBy :
    (limit at size i : ℕ) (cs : List Chunk) (order : Pieces)
    → Tiles limit at size cs
    → AllListed cs order
    → at ≤ i
    → i < size
    → CoveredBy i order
Tiles-CoveredBy limit at size i [] order ended listed from to = absurd (omega arith)
Tiles-CoveredBy limit at size i (c ∷ cs) order (starts, (m, some_bytes, less, ends_at, rest))
      ((start, n, bytes, same, there), listed) from to =
    let starts' : pos start ≡ pos at = sym (ap (λ (x : Chunk). x.start) same) ∙ starts in
    let ends' : pos (start + n - 1) ≡ pos (at + m - 1) =
      sym (ap (λ (x : Chunk). x.end) same) ∙ ends_at in
    let start_same : start ≡ at = cc starts' in
    let end_same : start + n - 1 ≡ at + m - 1 = cc ends' in
    elim (Bool-cases (ltb i (at + m))) [
      | inl y ↦
          let before : i < at + m = ground arith in
          Listed-CoveredBy start n i order there (omega arith, omega arith)
      | inr n' ↦
          Tiles-CoveredBy limit (at + m) size i cs order rest listed (le_of_not i (at + m) n') to
    ]

module _ (os_write : ℕ → List ℕ → ℕ) (buffer : ℕ) (mode : Str) (retries : ℕ)
    (answers : ℕ → ℕ → Answer) (ended : ℕ → ℕ → Bool) where
  -- The workers take the chunks off the channel; `order` is the order in which they are done.
  unfoldable pub download_in_order : Pieces → List ℕ → List ℕ
  download_in_order [] file = file
  download_in_order ((start, n) ∷ rest) file =
      download_in_order rest
        (download_chunk os_write buffer mode (chunk_of start n) (answers start) (ended start)
          (pos retries) file).0

  -- The server answers an attempt of each chunk, in time, with the bytes of the content.
  abbrev pub AllServed : List ℕ → Pieces → Type 0
  AllServed content [] = Unit
  AllServed content ((start, n) ∷ rest) =
      ((0 < n)
        × (start + n ≤ length content)
        × ((k : ℕ) × (k < retries)
            × LoseThen os_write buffer mode start n (answers start) (ended start) 0 k
            × Serves os_write buffer mode start n (answers start) (ended start)
                (slice start n content) (answers start k)))
      × AllServed content rest

module _ (os_write : ℕ → List ℕ → ℕ) (buffer : ℕ) (mode : Str) (retries : ℕ)
    (answers : ℕ → ℕ → Answer) (ended : ℕ → ℕ → Bool) (healthy : Healthy os_write)
    (some_buffer : 0 < buffer) (content : List ℕ) where
  one_piece :
      (start n k : ℕ) (file : List ℕ)
      → length file ≡ length content
      → 0 < n
      → start + n ≤ length content
      → k < retries
      → LoseThen os_write buffer mode start n (answers start) (ended start) 0 k
      → Serves os_write buffer mode start n
          (answers start)
          (ended start)
          (slice start n content)
          (answers start k)
      → (download_chunk os_write buffer mode
          (chunk_of start n)
          (answers start)
          (ended start)
          (pos retries)
          file).0
        ≡ splice start (slice start n content) file
  one_piece start n k file size some_bytes fits less lose serve =
      rw
        (download_chunk-recovers os_write buffer mode start n (answers start) (ended start)
          some_bytes healthy some_buffer (slice start n content) k retries file less lose serve)
        (write_at-splice start (slice start n content) file (omega arith))

  in_order_length :
      (order : Pieces) (file : List ℕ)
      → AllServed os_write buffer mode retries answers ended content order
      → length file ≡ length content
      → length (download_in_order os_write buffer mode retries answers ended order file)
        ≡ length content
  unfolding download_in_order
  in_order_length [] file served size = size
  in_order_length ((start, n) ∷ rest) file ((some_bytes, fits, (k, less, lose, serve)), served)
        size =
      rw (one_piece start n k file size some_bytes fits less lose serve) (
        in_order_length rest (splice start (slice start n content) file) served
          (length-splice start n content file size (omega arith)))

  in_order-Agree :
      (i : ℕ) (order : Pieces) (file : List ℕ)
      → AllServed os_write buffer mode retries answers ended content order
      → length file ≡ length content
      → (Agree i content file ⊎ CoveredBy i order)
      → Agree i content (download_in_order os_write buffer mode retries answers ended order file)
  unfolding download_in_order
  in_order-Agree i [] file served size (inl a) = a
  in_order-Agree i [] file served size (inr never) = elim never [ ]
  in_order-Agree i ((start, n) ∷ rest) file ((some_bytes, fits, (k, less, lose, serve)), served)
        size a =
      rw (one_piece start n k file size some_bytes fits less lose serve) (
        in_order-Agree i rest (splice start (slice start n content) file) served
          (length-splice start n content file size (omega arith)) (next a))
    where
      next :
          Agree i content file ⊎ (Covers start n i ⊎ CoveredBy i rest)
          → Agree i content (splice start (slice start n content) file) ⊎ CoveredBy i rest
      next (inl h) = inl (splice-Agree start n i content file size (omega arith) (inl h))
      next (inr (inl c)) = inl (splice-Agree start n i content file size (omega arith) (inr c))
      next (inr (inr later)) = inr later

  -- If the server answers an attempt of each chunk with the bytes of the content, the file holds the
  -- content in the end, in whatever order the workers are done with the chunks that were queued.
  -- The disk is healthy, a buffer and a chunk hold at least one byte, the file was truncated to the
  -- size of the content, and the size and the chunk size together are an int64.
  pub download_in_order-content :
      (chunk_size : ℕ) (order : Pieces) (file : List ℕ)
      → 0 < chunk_size
      → length content + chunk_size < 2 ^ 63
      → length file ≡ length content
      → AllListed
          (queue_chunks (length content) (pos 0) (pos (length content)) (pos chunk_size))
          order
      → AllServed os_write buffer mode retries answers ended content order
      → download_in_order os_write buffer mode retries answers ended order file ≡ content
  download_in_order-content chunk_size order file positive fits size listed served =
      same_elements content _ (in_order_length order file served size) (λ i less.
        in_order-Agree i order file served size (
          inr (
            Tiles-CoveredBy chunk_size 0 (length content) i _ order
              (queue_chunks-Tiles (length content) chunk_size positive fits) listed (omega arith)
              less)))
