-- ===== src/Sabr/Stream/Copy.antt =====
-- The loop of `copyFrame` of internal/sabr/stream_protocol.go, for any length of its buffer.
use type_type_downloader.Prelude.{
  List, [], ap, append-nil, append_assoc, arith, drop, drop-drop, length, length-append,
  length-drop, length-take, lt→ltb, min, refl, suc, sym, take, take-take-drop, zero, ℕ, ◌++◌, ◌+◌,
  ◌-◌, ◌<◌, ◌∙◌, ◌≡◌, ◌≤◌,
}
use type_type_downloader.Prelude.Result.{ok}
use type_type_downloader.Sabr.Stream.{
  Reader, StreamError, Writer, copy_loop, discard, read_frame, read_full, to_file, write,
}

-- The writer after `chunk`, where there is room for it.
abbrev pub wrote : List ℕ → Writer → Writer
wrote chunk discard = discard
wrote chunk (to_file f) =
    to_file (record { written = f.written ++ chunk; room = f.room - length chunk })

abbrev pub RoomFor : ℕ → Writer → Type 0
RoomFor n discard = Unit
RoomFor n (to_file f) = n ≤ f.room

write-ok :
    (chunk : List ℕ) (w : Writer) → RoomFor (length chunk) w → write chunk w ≡ ok (wrote chunk w)
unfolding write
write-ok chunk discard h = refl
write-ok chunk (to_file f) h = ground arith

wrote-nil : (w : Writer) → wrote [] w ≡ w
wrote-nil discard = refl
wrote-nil (to_file f) = ground (arith, append-nil f.written)

wrote-append : (a b : List ℕ) (w : Writer) → wrote b (wrote a w) ≡ wrote (a ++ b) w
wrote-append a b discard = refl
wrote-append a b (to_file f) = ground (arith, append_assoc f.written a b, length-append a b)

RoomFor-wrote :
    (chunk : List ℕ) (n k : ℕ) (w : Writer)
    → RoomFor n w
    → length chunk + k ≡ n
    → RoomFor k (wrote chunk w)
RoomFor-wrote chunk n k discard h e = tt
RoomFor-wrote chunk n k (to_file f) h e = omega arith

RoomFor-le : (n k : ℕ) (w : Writer) → RoomFor n w → k ≤ n → RoomFor k w
RoomFor-le n k discard h e = tt
RoomFor-le n k (to_file f) h e = omega arith

abbrev pub rest_of : ℕ → Reader → Reader
rest_of n r = record r { bytes = drop n r.bytes }

pub read_full-ok :
    (n : ℕ) (e : StreamError) (r : Reader)
    → n ≤ length r.bytes
    → read_full n e r ≡ ok (take n r.bytes, rest_of n r)
unfolding read_full
read_full-ok n e r h = ground arith

length-take_le : (n : ℕ) (xs : List ℕ) → n ≤ length xs → length (take n xs) ≡ n
length-take_le n xs h = omega (arith, length-take n xs)

module _ (buffer size : ℕ) (positive : 0 < buffer) where
  copy_done :
      (fuel written : ℕ) (w : Writer) (r : Reader)
      → written ≡ size
      → copy_loop fuel buffer written size w r ≡ ok (size, w, r)
  unfolding copy_loop
  copy_done zero written w r e = ground arith
  copy_done (suc fuel) written w r e = ground arith

  copy_round :
      (fuel written k n : ℕ) (w : Writer) (r : Reader)
      → written + n ≡ size
      → k ≡ min buffer n
      → 0 < n
      → n ≤ length r.bytes
      → RoomFor n w
      → copy_loop (suc fuel) buffer written size w r
        ≡ copy_loop fuel buffer (written + k) size (wrote (take k r.bytes) w) (rest_of k r)
  unfolding copy_loop
  copy_round fuel written k n w r e ek p h room =
      let left : size - written ≡ n = omega arith in
      let here = length-take_le k r.bytes (omega arith) in
      rw (lt→ltb written size (omega arith), left, ← ek)
        (rw (read_full-ok k read_frame r (omega arith)) (
          rw (write-ok (take k r.bytes) w (rw here (RoomFor-le n k w room (omega arith))))
            (rw here)))

  pub copy_loop_lem :
      (fuel written n : ℕ) (w : Writer) (r : Reader)
      → written + n ≡ size
      → n ≤ fuel
      → n ≤ length r.bytes
      → RoomFor n w
      → copy_loop fuel buffer written size w r ≡ ok (size, wrote (take n r.bytes) w, rest_of n r)
  copy_loop_lem fuel written zero w r e f h room =
      copy_done fuel written w r (omega arith) ∙ ap (λ v. ok (size, v, r)) (sym (wrote-nil w))
  copy_loop_lem zero written (suc n) w r e f h room = absurd (omega arith)
  copy_loop_lem (suc fuel) written (suc n) w r e f h room =
      let k = min buffer (suc n) in
      let m = suc n - k in
      let here = length-take_le k r.bytes (omega arith) in
      let sum : k + m ≡ suc n = omega arith in
      copy_round fuel written k (suc n) w r e refl (omega arith) h room
      ∙ copy_loop_lem fuel (written + k) m (wrote (take k r.bytes) w) (rest_of k r) (omega arith)
          (omega arith) (omega (arith, length-drop k r.bytes))
          (RoomFor-wrote (take k r.bytes) (suc n) m w room (omega (arith, here)))
      ∙ rw (wrote-append, take-take-drop, drop-drop, sum)
