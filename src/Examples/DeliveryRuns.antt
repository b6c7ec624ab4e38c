-- ===== src/Examples/DeliveryRuns.antt =====
-- A run of a whole SABR download: an audio track in two parts, the second downloaded first.
use type_type_downloader.Prelude.{
  List, [], ap, arith, false, none, refl, some, suc, true, zero, ℕ, ◌++◌, ◌<◌, ◌==◌, ◌^◌, ◌∷◌, ◌≡◌,
}
use type_type_downloader.Examples.AssemblyRuns.{willing}
use type_type_downloader.Prelude.Decimal.{decimal}
use type_type_downloader.Prelude.Int.{pos, ◌+ℤ◌}
use type_type_downloader.Prelude.Map.{delete, get, put}
use type_type_downloader.Prelude.Result.{Result, ok}
use type_type_downloader.Prelude.Text.{Str, cut_prefix, lit, str_eq, trim_space}
use type_type_downloader.Sabr.{SabrOptions, StreamTrack}
use type_type_downloader.Sabr.Assembly.{
  Files, after_parts, assemble_download, cleanup_download_files, download_attempt,
}
use type_type_downloader.Sabr.Committed.{Apart, Every}
use type_type_downloader.Sabr.Delivered.{IsServed, contents, download_attempt-contents}
use type_type_downloader.Sabr.Download.{download_media_type}
use type_type_downloader.Sabr.Fetching.{PartWorld, after_consume, download_part}
use type_type_downloader.Sabr.Parts.{part_path, track_spec, track_specs}
use type_type_downloader.Sabr.Stored.{store_parts}
use type_type_downloader.Sabr.Stream.{
  StreamError, accept_frame, consume_download_stream, download_magic, find_track, selected,
}
use type_type_downloader.Sabr.Stream.Codec.{Frame, IsFrame}
use type_type_downloader.Sabr.Stream.Frames.{ends}
use type_type_downloader.Sabr.Stream.Play.{encode_body, play, play_frame}
use type_type_downloader.Sabr.Stream.Refines.{consume_download_stream-play}
use type_type_downloader.Sabr.Stream.Tracks.{Distinct, itags}
use type_type_downloader.Sabr.Workers.{
  Pool, PoolRuns, at_head, at_start, count_up, finishes, leaves_empty, returns_nil, start_pool,
  takes, then_step, times,
}

abbrev audio_options : SabrOptions
audio_options = record {
  manifest_url = lit "https://h/sabr/manifest/x";
  authorization = [];
  video_itag = pos 0;
  audio_itag = pos 140;
  audio_track_id = [];
  audio_only = true;
  video_path = [];
  audio_path = lit "a";
  expected_bytes = pos 0;
  parts = pos 2;
  idle_timeout = pos 0;
}

abbrev audio_frame : ℕ → ℕ → List ℕ → Frame
audio_frame kind sequence payload = record {
  kind = kind;
  itag = pos 140;
  sequence = pos sequence;
  payload = payload;
}

-- Both parts begin with initialization data.
abbrev part_frames : ℕ → List Frame
part_frames zero = audio_frame 1 0 (7 ∷ []) ∷ audio_frame 2 1 (8 ∷ []) ∷ []
part_frames (suc k) = audio_frame 1 0 (7 ∷ []) ∷ audio_frame 2 2 (9 ∷ []) ∷ []

abbrev part_world : ℕ → PartWorld ℕ
part_world k = record {
  urls = record { parse = λ raw. some (raw, []); print = λ raw path query. path };
  send = λ address authorization.
      ok (record { status_code = pos 200; content_type = download_media_type });
  body = ends (download_magic ++ encode_body (part_frames k));
  cause = none;
  creates = λ path. true;
  room = 100;
  closes = λ path. true;
}

audio_frame-IsFrame :
    (kind sequence byte : ℕ) → sequence < 2 ^ 31 → IsFrame (audio_frame kind sequence (byte ∷ []))
audio_frame-IsFrame kind sequence byte s = record {
  itag = omega arith;
  sequence = s;
  fits = omega arith;
}

part-IsServed : (k : ℕ) → IsServed (part_world k) (part_frames k)
part-IsServed zero = record {
  streamed = refl;
  body = (
    audio_frame-IsFrame 1 0 7 (omega arith),
    refl,
    (audio_frame-IsFrame 2 1 8 (omega arith), refl, tt),
  );
  fits = omega arith;
}
part-IsServed (suc k) = record {
  streamed = refl;
  body = (
    audio_frame-IsFrame 1 0 7 (omega arith),
    refl,
    (audio_frame-IsFrame 2 2 9 (omega arith), refl, tt),
  );
  fits = omega arith;
}

abbrev part_written : ℕ → List (Str × List ℕ)
part_written zero = (lit "a.download.part-00", 7 ∷ 8 ∷ []) ∷ []
part_written (suc k) = (lit "a.download.part-01", 9 ∷ []) ∷ []

abbrev open_track : ℕ → StreamTrack
open_track k = record {
  kind = lit "audio";
  itag = pos 140;
  path = part_path (lit "a") k;
  output = record { written = []; room = 100 };
  next_sequence = pos 0;
  initialized = false;
  media_written = false;
}

-- Of a part with the frames of the specification.
stream_played :
    (k : ℕ)
    → consume_download_stream (part_world k).body (open_track k ∷ []) (k == 0)
      ≡ play (k == 0) (open_track k ∷ []) 0 (part_frames k)
stream_played zero =
    consume_download_stream-play (part_frames 0) (open_track 0 ∷ []) true (part-IsServed 0).body
      (omega arith, tt)
stream_played (suc k) =
    consume_download_stream-play (part_frames (suc k)) (open_track (suc k) ∷ []) (suc k == 0)
      (part-IsServed (suc k)).body (omega arith, tt)

downloads_first : (download_part (part_world 0) audio_options 0 2).1 ≡ ok (part_written 0)
unfolding download_part after_consume track_specs part_path decimal cut_prefix str_eq trim_space
    play play_frame accept_frame find_track selected ◌+ℤ◌
downloads_first =
    ap
      (λ (r : ℕ × Result StreamError (List StreamTrack)).
        (after_consume (part_world 0) (open_track 0 ∷ []) r).1)
      (stream_played 0)

downloads_second : (download_part (part_world 1) audio_options 1 2).1 ≡ ok (part_written 1)
unfolding download_part after_consume track_specs part_path decimal cut_prefix str_eq trim_space
    play play_frame accept_frame find_track selected ◌+ℤ◌
downloads_second =
    ap
      (λ (r : ℕ × Result StreamError (List StreamTrack)).
        (after_consume (part_world 1) (open_track 1 ∷ []) r).1)
      (stream_played 1)

abbrev all_done : Pool
all_done = record {
  waiting = [];
  active = [];
  finished_parts = 0 ∷ 1 ∷ [];
  dropped = [];
  idle = 0;
  failures = [];
  ended = false;
}

second_first : PoolRuns (start_pool 2) all_done
unfolding start_pool
second_first =
    then_step
      (then_step
        (then_step
          (then_step
            (then_step (then_step at_start (takes 0 1 (1 ∷ []) refl refl refl))
              (takes 1 0 [] refl refl refl))
            (finishes 1 (0 ∷ []) (at_head (0 ∷ []))))
          (finishes 0 [] (at_head [])))
        (leaves_empty 1 refl refl))
      (leaves_empty 0 refl refl)

done_nil : returns_nil all_done ≡ true
unfolding returns_nil
done_nil = refl

finished_downloaded :
    (k : ℕ)
    → 0 < times k all_done.finished_parts
    → (download_part (part_world k) audio_options k 2).1 ≡ ok (part_written k)
finished_downloaded zero h = downloads_first
finished_downloaded (suc zero) h = downloads_second
finished_downloaded (suc (suc k)) h = absurd (ground (arith, h))

audio-Apart : Apart (track_specs audio_options)
unfolding track_specs track_spec
audio-Apart = (tt, tt)

audio-Distinct : Distinct (itags (track_specs audio_options))
unfolding track_specs track_spec
audio-Distinct = (tt, tt)

abbrev stored : Files
stored = store_parts part_written all_done.finished_parts []

attempt_ok : (download_attempt {E = ℕ} willing audio_options 2 (stored, none)).1 ≡ none
unfolding download_attempt after_parts assemble_download cleanup_download_files store_parts get put
    delete str_eq track_specs part_path decimal
attempt_ok = refl

sabr_download_example :
    Every
      (λ t.
        get t.path (download_attempt {E = ℕ} willing audio_options 2 (stored, none)).0
        ≡ some (contents part_frames t.itag (count_up 2)))
      (track_specs audio_options)
sabr_download_example =
    download_attempt-contents willing audio_options 2 part_world part_frames part_written []
      audio-Apart audio-Distinct part-IsServed second_first
      (record { none_active = refl; none_idle = refl }) done_nil finished_downloaded attempt_ok

delivers : contents part_frames (pos 140) (count_up 2) ≡ 7 ∷ 8 ∷ 9 ∷ []
delivers = refl
