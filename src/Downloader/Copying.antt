-- ===== src/Downloader/Copying.antt =====
-- internal/downloader/range_worker.go: `copyChunk`. A chunk holds numbers from 0,
-- as queueChunks makes them. `os_write` is how many bytes the system writes of a write at an offset:
-- os.File.WriteAt returns an error where they are fewer than asked.

use native.Mathlib.Nat.{zero-add, suc-add, add-zero}
use type_type_downloader.Prelude.{
  Bool, List, [], ap, append-nil, arith, drop, drop-drop, false, if◌then◌else◌, leb, length,
  length-drop, length-take, ltb, min, refl, suc, take, take-all, take-take-drop, true, zero, ℕ,
  ◌++◌, ◌+◌, ◌-◌, ◌<◌, ◌∙◌, ◌∷◌, ◌≡◌, ◌≤◌,
}
use type_type_downloader.Downloader.{Chunk}
use type_type_downloader.Prelude.Int.{pos, pos_part, ℤ}
use type_type_downloader.Prelude.Result.{Result, err, ok}
use type_type_downloader.Prelude.Text.{Str}

pub record Body : Type 0 where
  pub bytes : List ℕ
  pub at_end : Bool

pub data DownloadError : Type 0 where
  invalid_source missing_content_length request_failed write_failed short_chunk chunk_overflow
        context_ended no_fuel :
      DownloadError
  unexpected_status unexpected_content_length : ℤ → DownloadError
  unexpected_content_range : Str → DownloadError
  all_failed : DownloadError → DownloadError

unfoldable pub overwrite : List ℕ → List ℕ → List ℕ
overwrite [] file = file
overwrite (d ∷ ds) [] = d ∷ overwrite ds []
overwrite (d ∷ ds) (x ∷ file) = d ∷ overwrite ds file

unfoldable pub splice : ℕ → List ℕ → List ℕ → List ℕ
unfolding overwrite
splice zero data_bytes file = overwrite data_bytes file
splice (suc p) data_bytes [] = 0 ∷ splice p data_bytes []
splice (suc p) data_bytes (x ∷ file) = x ∷ splice p data_bytes file

-- A file after a write at an offset; what lies between its end and the offset is filled with 0.
unfoldable pub write_at : ℕ → List ℕ → List ℕ → List ℕ
unfolding splice
write_at p [] file = file
write_at p (d ∷ ds) file = splice p (d ∷ ds) file

abbrev pub and_then :
    (ℕ → Body → List ℕ → List ℕ × Result DownloadError Body)
    → List ℕ × Result DownloadError (ℕ × Body)
    → List ℕ × Result DownloadError Body
and_then go (file, err e) = (file, err e)
and_then go (file, ok (n, rest)) = go n rest file

module _ (os_write : ℕ → List ℕ → ℕ) (buffer : ℕ) where
  -- A round of the loop of `copyChunk`: io.ReadFull and WriteAt; the bytes it has read and the file.
  unfoldable pub copy_round : ℕ → ℕ → Body → List ℕ → List ℕ × Result DownloadError (ℕ × Body)
  copy_round position size body file =
      let got = take size body.bytes in
      let written = min (length got) (os_write position got) in
      let file' = write_at position (take written got) file in
      if ltb written (length got)
      then (file', err write_failed)
      else if ltb (length got) size
      then (file', err short_chunk)
      else (file', ok (length got, record body { bytes = drop size body.bytes }))

  unfoldable pub copy_chunk_loop : ℕ → ℕ → ℕ → Body → List ℕ → List ℕ × Result DownloadError Body
  copy_chunk_loop zero position last body file =
      if leb position last then (file, err no_fuel) else (file, ok body)
  copy_chunk_loop (suc fuel) position last body file =
      let next =
        and_then (λ n rest file'. copy_chunk_loop fuel (position + n) last rest file')
          (copy_round position (min buffer (last - position + 1)) body file) in
      if leb position last then next else (file, ok body)

-- Each round reads a byte at least, so as much fuel as bytes are asked for is enough.
unfoldable pub copy_chunk :
    (ℕ → List ℕ → ℕ) → ℕ → Chunk → Body → List ℕ → List ℕ × Result DownloadError Body
unfolding copy_chunk_loop
copy_chunk os_write buffer part body file =
    let start = pos_part part.start in
    let last = pos_part part.end in
    copy_chunk_loop os_write buffer (last + 1 - start) start last body file

overwrite-append :
    (a b file : List ℕ) → splice (length a) b (overwrite a file) ≡ overwrite (a ++ b) file
unfolding splice overwrite
overwrite-append [] b file = refl
overwrite-append (x ∷ a) b [] = ap (◌∷◌ x) (overwrite-append a b [])
overwrite-append (x ∷ a) b (y ∷ file) = ap (◌∷◌ x) (overwrite-append a b file)

splice-append :
    (p : ℕ) (a b file : List ℕ) → splice (p + length a) b (splice p a file) ≡ splice p (a ++ b) file
unfolding splice
splice-append zero a b file = rw zero-add (overwrite-append a b file)
splice-append (suc p) a b [] = rw suc-add (ap (◌∷◌ 0) (splice-append p a b []))
splice-append (suc p) a b (x ∷ file) = rw suc-add (ap (◌∷◌ x) (splice-append p a b file))

-- A write behind another write is one write of both.
pub write_at-append :
    (p : ℕ) (a b file : List ℕ)
    → write_at (p + length a) b (write_at p a file) ≡ write_at p (a ++ b) file
unfolding write_at
write_at-append p [] b file = rw add-zero refl
write_at-append p (x ∷ a) [] file = rw append-nil refl
write_at-append p (x ∷ a) (y ∷ b) file = splice-append p (x ∷ a) (y ∷ b) file

-- A disk that writes all that it is asked to.
abbrev pub Healthy : (ℕ → List ℕ → ℕ) → Type 0
Healthy os_write = (p : ℕ) (data_bytes : List ℕ) → length data_bytes ≤ os_write p data_bytes

module _ (os_write : ℕ → List ℕ → ℕ) (buffer : ℕ) (healthy : Healthy os_write)
    (some_buffer : 0 < buffer) where
  ltb_self : (n : ℕ) → ltb n n ≡ false
  ltb_self n = ground arith

  copy_round-ok :
      (position size : ℕ) (body : Body) (file : List ℕ)
      → size ≤ length body.bytes
      → copy_round os_write buffer position size body file ≡ (
        write_at position (take size body.bytes) file,
        ok (size, record body { bytes = drop size body.bytes }),
      )
  unfolding copy_round
  copy_round-ok position size body file h =
      let got = take size body.bytes in
      let n : length got ≡ size = omega (arith, length-take size body.bytes) in
      let w : min (length got) (os_write position got) ≡ length got =
        omega (arith, healthy position got) in
      let all = take-all (length got) got (omega arith) in
      rw (w, copy_round, all, n, ltb_self size) refl

  joined :
      (position k m : ℕ) (data_bytes file : List ℕ)
      → k ≤ length data_bytes
      → write_at
          (position + k)
          (take m (drop k data_bytes))
          (write_at position (take k data_bytes) file)
        ≡ write_at position (take (k + m) data_bytes) file
  joined position k m data_bytes file h =
      let n : length (take k data_bytes) ≡ k = omega (arith, length-take k data_bytes) in
      rw (n, take-take-drop k m data_bytes) at
        (write_at-append position (take k data_bytes) (take m (drop k data_bytes)) file)

  copy_chunk_loop-ok :
      (fuel position last n : ℕ) (body : Body) (file : List ℕ)
      → position + n ≡ last + 1
      → n ≤ fuel
      → n ≤ length body.bytes
      → copy_chunk_loop os_write buffer fuel position last body file ≡ (
        write_at position (take n body.bytes) file,
        ok (record body { bytes = drop n body.bytes }),
      )
  unfolding copy_chunk_loop write_at
  copy_chunk_loop-ok zero position last zero body file e f h = ground arith
  copy_chunk_loop-ok zero position last (suc n) body file e f h = absurd (omega arith)
  copy_chunk_loop-ok (suc fuel) position last zero body file e f h =
      let past : leb position last ≡ false = ground arith in rw past refl
  copy_chunk_loop-ok (suc fuel) position last (suc n) body file e f h =
      let k = min buffer (suc n) in
      let m = suc n - k in
      let here : leb position last ≡ true = ground arith in
      let asked : last - position + 1 ≡ suc n = omega arith in
      let sum : k + m ≡ suc n = omega arith in
      rw (here, asked, copy_round-ok position k body file (omega arith))
        (copy_chunk_loop-ok fuel (position + k) last m (record body { bytes = drop k body.bytes })
            (write_at position (take k body.bytes) file) (omega arith) (omega arith)
            (omega (arith, length-drop k body.bytes))
          ∙ rw (joined position k m body.bytes file (omega arith), drop-drop k m body.bytes, sum)
              refl)

  -- With a buffer of at least one byte and a disk that writes what it is asked to, the copy of a
  -- chunk of `n` bytes from `start` puts the first `n` bytes of the body there, in one piece, leaves
  -- every other byte of the file alone and the rest of the body unread; the body has `n` bytes.
  pub copy_chunk-ok :
      (start n : ℕ) (body : Body) (file : List ℕ)
      → 0 < n
      → n ≤ length body.bytes
      → copy_chunk os_write buffer
          (record { start = pos start; end = pos (start + n - 1) })
          body
          file
        ≡ (write_at start (take n body.bytes) file, ok (record body { bytes = drop n body.bytes }))
  unfolding copy_chunk
  copy_chunk-ok start n body file p h =
      copy_chunk_loop-ok _ start (start + n - 1) n body file (omega arith) (omega arith) h
