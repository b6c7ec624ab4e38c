-- ===== src/Downloader/Chunks.antt =====
-- How the chunks of internal/downloader/range_downloader.go lie in the file.
use type_type_downloader.Prelude.{
  Bool-cases, List, [], arith, false, inl, inr, ltb, min, refl, suc, true, zero, ℕ, ◌+◌, ◌-◌, ◌<◌,
  ◌^◌, ◌∷◌, ◌≡◌, ◌≤◌,
}
use type_type_downloader.Downloader.{Chunk, min_ℤ, queue_chunks}
use type_type_downloader.Prelude.Int.{ltb_ℤ, pos, ◌+ℤ◌, ◌-ℤ◌}
use type_type_downloader.Prelude.Words.{i64}

-- The chunks follow one another from `at` to `size`, and none holds more than `limit` bytes.
abbrev pub Tiles : ℕ → ℕ → ℕ → List Chunk → Type 0
Tiles limit at size [] = at ≡ size
Tiles limit at size (c ∷ cs) =
    (c.start ≡ pos at)
    × ((n : ℕ) × (0 < n) × (n ≤ limit) × (c.end ≡ pos (at + n - 1)) × Tiles limit (at + n) size cs)

chunk_at :
    (at size c : ℕ)
    → 0 < c
    → at < size
    → size + c < 2 ^ 63
    → i64 (min_ℤ (pos (at + c)) (pos size) -ℤ pos 1) ≡ pos (min (at + c) size - 1)
unfolding ◌-ℤ◌ i64
chunk_at at size c p l h = ground arith

next_at : (at size c : ℕ) → at < size → size + c < 2 ^ 63 → i64 (pos at +ℤ pos c) ≡ pos (at + c)
unfolding ◌+ℤ◌ i64
next_at at size c l h = ground arith

queue_chunks-Tiles_at :
    (fuel at size c : ℕ)
    → 0 < c
    → size + c < 2 ^ 63
    → size - at ≤ fuel
    → Tiles c (min at size) size (queue_chunks fuel (pos at) (pos size) (pos c))
unfolding queue_chunks
queue_chunks-Tiles_at zero at size c p h f = omega arith
queue_chunks-Tiles_at (suc fuel) at size c p h f = elim (Bool-cases (ltb at size)) [
  | inr n ↦ rw (ended n) (ground arith)
  | inl y ↦
      let before : at < size = ground arith in
      let here : min at size ≡ at = omega arith in
      let after : min (at + c) size ≡ at + min c (size - at) = omega arith in
      rw (here, next_at at size c before h, chunk_at at size c p before h, starts y)
        (
          refl,
          (
            min c (size - at),
            omega arith,
            omega arith,
            rw after refl,
            rw (← after) (queue_chunks-Tiles_at fuel (at + c) size c p h (omega arith)),
          ),
        )
]
  where
    ended : ltb at size ≡ false → ltb_ℤ (pos at) (pos size) ≡ false
    ended n = ground arith

    starts : ltb at size ≡ true → ltb_ℤ (pos at) (pos size) ≡ true
    starts y = ground arith

-- The chunks that are queued for a file cover it from 0 to its size, in order, each byte once, and
-- each holds at least one byte and at most `c`, the chunk size. The size and the chunk size together
-- are an int64.
pub queue_chunks-Tiles :
    (size c : ℕ)
    → 0 < c
    → size + c < 2 ^ 63
    → Tiles c 0 size (queue_chunks size (pos 0) (pos size) (pos c))
queue_chunks-Tiles size c p h =
    let start : min 0 size ≡ 0 = omega arith in
    rw start at (queue_chunks-Tiles_at size 0 size c p h (omega arith))
