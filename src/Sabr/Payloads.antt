-- ===== src/Sabr/Payloads.antt =====
-- What `downloadPart` of internal/sabr/multipart.go writes to the files of a part.
use type_type_downloader.Prelude.{
  Bool, Bool-cases, List, Option-cases, [], ap, inl, inr, not, refl, sym, ℕ, ◌++◌, ◌==◌, ◌||◌, ◌∙◌,
  ◌∷◌, ◌≡◌, ◌≤◌,
}
use type_type_downloader.Prelude.Int.{ltb_ℤ, pos}
use type_type_downloader.Prelude.Result.{Result, Result-cases, err, ok}
use type_type_downloader.Prelude.Text.{Str, is_empty, trim_space}
use type_type_downloader.Sabr.{SabrOptions, StreamTrack}
use type_type_downloader.Sabr.Download.{build_download_url, request_download}
use type_type_downloader.Sabr.Fetching.{
  PartWorld, after_consume, after_open, after_reply, close_tracks, download_part, written_files,
}
use type_type_downloader.Sabr.Parts.{PartError, open_part_tracks, part_path, track_specs}
use type_type_downloader.Sabr.Stream.{StreamError, consume_download_stream, download_magic}
use type_type_downloader.Sabr.Stream.Codec.{Frame}
use type_type_downloader.Sabr.Stream.Frames.{ends}
use type_type_downloader.Sabr.Stream.Outcome.{play-AllGrow}
use type_type_downloader.Sabr.Stream.Play.{IsBody, Roomy, encode_body, payload_bytes, play}
use type_type_downloader.Sabr.Stream.Refines.{consume_download_stream-play}
use type_type_downloader.Sabr.Stream.Tracks.{AllGrow, Distinct, itags, payloads}

-- The file of the part of each track, with the payloads of the track's own frames.
abbrev pub payload_files : ℕ → List Frame → List StreamTrack → List (Str × List ℕ)
payload_files part fs [] = []
payload_files part fs (t ∷ ts) =
    (part_path t.path part, payloads (part == 0) t.itag fs) ∷ payload_files part fs ts

module _ (creates : Str → Bool) (room part : ℕ) where
  -- An open file is empty, and stands at the path of the part.
  record OpenedOne (t o : StreamTrack) : Type 0 where
    at_path : o.path ≡ part_path t.path part
    same_itag : o.itag ≡ t.itag
    empty : o.output.written ≡ []
    roomy : o.output.room ≡ room

  abbrev Opened : List StreamTrack → List StreamTrack → Type 0
  Opened [] [] = Unit
  Opened [] (o ∷ os) = ⊥
  Opened (t ∷ ts) [] = ⊥
  Opened (t ∷ ts) (o ∷ os) = OpenedOne t o × Opened ts os

  open_part_tracks-Opened :
      (ts opened : List StreamTrack)
      → open_part_tracks creates room part ts ≡ ok opened
      → Opened ts opened
  unfolding open_part_tracks
  open_part_tracks-Opened [] [] h = tt
  open_part_tracks-Opened [] (o ∷ os) h = absurd (cc h)
  open_part_tracks-Opened (t ∷ ts) opened h =
      elim (Bool-cases (not (ltb_ℤ (pos 0) t.itag) || is_empty (trim_space t.path))) [
        | inl y ↦ absurd (cc (rw y at h))
        | inr n ↦ elim (Bool-cases (creates (part_path t.path part))) [
          | inr m ↦ absurd (cc (rw (n, m) at h))
          | inl c ↦ elim (Result-cases (open_part_tracks creates room part ts)) [
            | inr (e, q) ↦ absurd (cc (rw (n, c, q) at h))
            | inl (os, q) ↦
                let path = part_path t.path part in
                let first = record t {
                  path = path;
                  output = record { written = []; room = room };
                } in
                let same : first ∷ os ≡ opened = cc (rw (n, c, q) at h) in
                rw (← same) (
                  record { at_path = refl; same_itag = refl; empty = refl; roomy = refl },
                  open_part_tracks-Opened ts os q,
                )
          ]
        ]
      ]

  Opened-Roomy :
      (bytes : ℕ) (ts opened : List StreamTrack)
      → bytes ≤ room
      → Opened ts opened
      → Roomy bytes opened
  Opened-Roomy bytes [] [] le h = tt
  Opened-Roomy bytes [] (o ∷ os) le h = absurd h
  Opened-Roomy bytes (t ∷ ts) [] le h = absurd h
  Opened-Roomy bytes (t ∷ ts) (o ∷ os) le (one, h) =
      (rw one.roomy le, Opened-Roomy bytes ts os le h)

  itags-Opened : (ts opened : List StreamTrack) → Opened ts opened → itags opened ≡ itags ts
  itags-Opened [] [] h = refl
  itags-Opened [] (o ∷ os) h = absurd h
  itags-Opened (t ∷ ts) [] h = absurd h
  itags-Opened (t ∷ ts) (o ∷ os) (one, h) = cc (one.same_itag, itags-Opened ts os h)

  written_files-payload_files :
      (fs : List Frame) (ts opened after : List StreamTrack)
      → Opened ts opened
      → AllGrow (part == 0) fs opened after
      → written_files opened after ≡ payload_files part fs ts
  unfolding written_files
  written_files-payload_files fs [] [] after h g = refl
  written_files-payload_files fs [] (o ∷ os) after h g = absurd h
  written_files-payload_files fs (t ∷ ts) [] after h g = absurd h
  written_files-payload_files fs (t ∷ ts) (o ∷ os) [] h g = absurd g
  written_files-payload_files fs (t ∷ ts) (o ∷ os) (a ∷ after) (one, h) ((i, w, s), g) =
      cc (one.at_path, w, one.empty, one.same_itag, written_files-payload_files fs ts os after h g)

module _ {E : Type 0} (w : PartWorld E) (options : SabrOptions) (part : ℕ) (fs : List Frame)
    (streamed : w.body ≡ ends (download_magic ++ encode_body fs)) (body : IsBody fs)
    (fits : payload_bytes fs ≤ w.room) (distinct : Distinct (itags (track_specs options))) where
  after_consume-ok :
      (opened : List StreamTrack) (r : ℕ × Result StreamError (List StreamTrack))
      (written : List (Str × List ℕ))
      → (after_consume w opened r).1 ≡ ok written
      → (tracks : List StreamTrack) × (r.1 ≡ ok tracks) × (written_files opened tracks ≡ written)
  unfolding after_consume
  after_consume-ok opened (counted, err e) written h = absurd (cc h)
  after_consume-ok opened (counted, ok tracks) written h =
      elim (Option-cases (close_tracks w.closes opened)) [
        | inr (kind, q) ↦ absurd (cc (rw (after_consume, q) at h))
        | inl q ↦ (tracks, refl, cc (rw (after_consume, q) at h))
      ]

  after_open-payload_files :
      (r : Result PartError (List StreamTrack)) (written : List (Str × List ℕ))
      → open_part_tracks w.creates w.room part (track_specs options) ≡ r
      → (after_open w part r).1 ≡ ok written
      → written ≡ payload_files part fs (track_specs options)
  unfolding after_open
  after_open-payload_files (err e) written q h = absurd (cc h)
  after_open-payload_files (ok opened) written q h =
      let specs = track_specs options in
      let is_opened = open_part_tracks-Opened w.creates w.room part specs opened q in
      let (tracks, accepted, same) =
        after_consume-ok opened (consume_download_stream w.body opened (part == 0)) written h in
      let plays : consume_download_stream w.body opened (part == 0) ≡ play (part == 0) opened 0 fs =
        ap (λ b. consume_download_stream b opened (part == 0)) streamed
        ∙ consume_download_stream-play fs opened (part == 0) body
            (Opened-Roomy w.creates w.room part (payload_bytes fs) specs opened fits is_opened) in
      let done = play (part == 0) opened 0 fs in
      let ended : done.1 ≡ ok tracks =
        sym (ap (λ (r : ℕ × Result StreamError (List StreamTrack)). r.1) plays) ∙ accepted in
      let (grown, complete) =
        play-AllGrow (part == 0) fs opened 0 done.0 tracks
          (rw (itags-Opened w.creates w.room part specs opened is_opened) distinct)
          (ap (λ (r : Result StreamError (List StreamTrack)). (done.0, r)) ended) in
      sym same
      ∙ written_files-payload_files w.creates w.room part fs specs opened tracks is_opened grown

  -- A part that is downloaded has written, to the file of each track, the payloads of the frames of
  -- that track.
  pub download_part-payload_files :
      (parts : ℕ) (written : List (Str × List ℕ))
      → (download_part w options part parts).1 ≡ ok written
      → written ≡ payload_files part fs (track_specs options)
  unfolding download_part after_reply
  download_part-payload_files parts written h =
      elim (Option-cases (build_download_url w.urls options (pos part) (pos parts))) [
        | inl q ↦ absurd (cc (rw (download_part, q) at h))
        | inr (address, q) ↦
            elim (Result-cases (request_download w.send address options.authorization)) [
              | inr (e, k) ↦ absurd (cc (rw (download_part, q, k) at h))
              | inl (reply, k) ↦
                  after_open-payload_files
                    (open_part_tracks w.creates w.room part (track_specs options)) written refl
                    (rw (download_part, q, k) at h)
            ]
      ]
