-- ===== src/Typetype/Urls.antt =====
-- What the addresses of internal/typetype/client.go are good for.
use type_type_downloader.Prelude.{
  Bool-cases, List, Option-cases, [], false, inl, inr, map, none, refl, some, true, ℕ, ◌++◌, ◌∷◌,
  ◌≡◌,
}
use type_type_downloader.Prelude.Int.{eq_ℤ, pos}
use type_type_downloader.Prelude.Result.{Result, Result-cases, err, ok}
use type_type_downloader.Prelude.Text.{Str, has_prefix, is_empty, lit, trim_right, trim_space}
use type_type_downloader.Typetype.{AudioStreamItem, StreamResponse, VideoStreamItem}
use type_type_downloader.Typetype.Client.{
  FetchError, StreamsClient, StreamsReply, Url, UrlLib, absolute_url, accept_reply, at_audio,
  at_video, fetch_stream, is_abs, is_slash, media_url, normalize_stream_urls, normalize_watch_url,
  resolve_against, stream_endpoint, with_proxy,
}

module _ (urls : UrlLib) where
  -- The text that is read as an address: what was sent, where Niconico's own form goes to the proxy.
  pub data IsAsked (raw asked : Str) : Type 0 where
    as_sent :
        has_prefix (trim_space raw) (lit "nicovideo?") ≡ false
        → asked ≡ trim_space raw
        → IsAsked raw asked
    by_proxy :
        has_prefix (trim_space raw) (lit "nicovideo?") ≡ true
        → asked ≡ lit "proxy/" ++ trim_space raw
        → IsAsked raw asked

  with_proxy-IsAsked : (raw : Str) → IsAsked raw (with_proxy urls (trim_space raw))
  with_proxy-IsAsked raw = elim (Bool-cases (has_prefix (trim_space raw) (lit "nicovideo?"))) [
    | inl y ↦ by_proxy y (rw y refl)
    | inr n ↦ as_sent n (rw n refl)
  ]

  module _ (c : StreamsClient) (base : Url)
      (found : urls.parse (trim_right is_slash c.base_url ++ lit "/") ≡ some base)
      (base_abs : is_abs base ≡ true)
      (takes_scheme : (ref : Url)
        → is_abs ref ≡ false
        → (urls.resolve base ref).scheme ≡ base.scheme)
      (reads_back : (raw : Str) (ref : Url)
        → urls.parse raw ≡ some ref
        → (again : Url) × (urls.parse (urls.print (urls.resolve base ref)) ≡ some again)
          × (again.scheme ≡ (urls.resolve base ref).scheme)) where
    -- How an address is returned (`got`) for the one that was sent (`raw`).
    pub data IsSettled (raw got : Str) : Type 0 where
      nothing_sent : is_empty (trim_space raw) ≡ true → got ≡ [] → IsSettled raw got
      no_address :
          (asked : Str)
          → IsAsked raw asked
          → urls.parse asked ≡ none
          → got ≡ asked
          → IsSettled raw got
      kept :
          (asked : Str) (url : Url)
          → IsAsked raw asked
          → urls.parse asked ≡ some url
          → is_abs url ≡ true
          → got ≡ asked
          → IsSettled raw got
      made_absolute :
          (asked : Str) (ref url : Url)
          → IsAsked raw asked
          → urls.parse asked ≡ some ref
          → is_abs ref ≡ false
          → got ≡ urls.print (urls.resolve base ref)
          → urls.parse got ≡ some url
          → is_abs url ≡ true
          → IsSettled raw got

    resolved-IsSettled :
        (raw asked : Str) (ref : Url)
        → IsAsked raw asked
        → urls.parse asked ≡ some ref
        → is_abs ref ≡ false
        → IsSettled raw (urls.print (urls.resolve base ref))
    resolved-IsSettled raw asked ref a e n =
        let (again, e', same) = reads_back asked ref e in
        made_absolute asked ref again a e n refl e' (rw (same, takes_scheme ref n) base_abs)

    absolute_url-IsSettled :
        (raw asked : Str) → IsAsked raw asked → IsSettled raw (absolute_url urls c asked)
    unfolding absolute_url resolve_against
    absolute_url-IsSettled raw asked a = elim (Option-cases (urls.parse asked)) [
      | inl e ↦ rw (e, absolute_url) (no_address asked a e refl)
      | inr (url, e) ↦ elim (Bool-cases (is_abs url)) [
        | inl y ↦ rw (e, absolute_url, y) (kept asked url a e y refl)
        | inr n ↦
            rw (e, absolute_url, n, found, resolve_against) (resolved-IsSettled raw asked url a e n)
      ]
    ]

    media_url-IsSettled : (raw : Str) → IsSettled raw (media_url urls c raw)
    unfolding media_url
    media_url-IsSettled raw = elim (Bool-cases (is_empty (trim_space raw))) [
      | inl y ↦ rw y (nothing_sent y refl)
      | inr n ↦
          rw n
            (absolute_url-IsSettled raw (with_proxy urls (trim_space raw)) (with_proxy-IsAsked raw))
    ]

    pub VideosSettled : List VideoStreamItem → List VideoStreamItem → Type 0
    VideosSettled [] [] = Unit
    VideosSettled (s ∷ sent) (t ∷ got) =
        (t ≡ record s { url = t.url }) × IsSettled s.url t.url × VideosSettled sent got
    VideosSettled sent got = ⊥

    pub AudiosSettled : List AudioStreamItem → List AudioStreamItem → Type 0
    AudiosSettled [] [] = Unit
    AudiosSettled (s ∷ sent) (t ∷ got) =
        (t ≡ record s { url = t.url }) × IsSettled s.url t.url × AudiosSettled sent got
    AudiosSettled sent got = ⊥

    videos :
        (streams : List VideoStreamItem) → VideosSettled streams (map (at_video urls c) streams)
    unfolding VideosSettled
    videos [] = tt
    videos (s ∷ rest) = (refl, media_url-IsSettled s.url, videos rest)

    audios :
        (streams : List AudioStreamItem) → AudiosSettled streams (map (at_audio urls c) streams)
    unfolding AudiosSettled
    audios [] = tt
    audios (s ∷ rest) = (refl, media_url-IsSettled s.url, audios rest)

    -- `rest`: id, title, duration and the audio track ids are as they were sent.
    pub record StreamSettled (sent got : StreamResponse) : Type 0 where
      pub video_streams : VideosSettled sent.video_streams got.video_streams
      pub video_only_streams : VideosSettled sent.video_only_streams got.video_only_streams
      pub audio_streams : AudiosSettled sent.audio_streams got.audio_streams
      pub hls_url : IsSettled sent.hls_url got.hls_url
      pub dash_mpd_url : IsSettled sent.dash_mpd_url got.dash_mpd_url
      pub rest : got ≡ record sent {
        video_streams = got.video_streams;
        video_only_streams = got.video_only_streams;
        audio_streams = got.audio_streams;
        hls_url = got.hls_url;
        dash_mpd_url = got.dash_mpd_url;
      }

    normalize-StreamSettled :
        (stream : StreamResponse) → StreamSettled stream (normalize_stream_urls urls c stream)
    unfolding normalize_stream_urls
    normalize-StreamSettled stream = record {
      video_streams = videos stream.video_streams;
      video_only_streams = videos stream.video_only_streams;
      audio_streams = audios stream.audio_streams;
      hls_url = media_url-IsSettled stream.hls_url;
      dash_mpd_url = media_url-IsSettled stream.dash_mpd_url;
      rest = refl;
    }

    -- What a returned stream goes back to: the reply of the streams API and the stream it holds.
    pub record Answered {E : Type 0} (answer : Result E StreamsReply) (got : StreamResponse)
        : Type 0 where
      pub reply : StreamsReply
      pub sent : StreamResponse
      pub answered : answer ≡ ok reply
      pub accepted : eq_ℤ reply.status_code (pos 200) ≡ true
      pub decoded : reply.decoded ≡ some sent
      pub settled : StreamSettled sent got

    abbrev pub OkAnswered :
        {E : Type 0} → Result E StreamsReply → Result (FetchError E) StreamResponse → Type 0
    OkAnswered answer (err e) = Unit
    OkAnswered answer (ok got) = Answered answer got

    module _ {E : Type 0} (lower : ℕ → ℕ) (send : Str → Str → Result E StreamsReply) where
      accept_reply-OkAnswered :
          (answer : Result E StreamsReply)
          → OkAnswered answer (accept_reply urls lower send c answer)
      unfolding accept_reply
      accept_reply-OkAnswered (err e) = tt
      accept_reply-OkAnswered (ok reply) = elim (Bool-cases (eq_ℤ reply.status_code (pos 200))) [
        | inr n ↦ rw n tt
        | inl y ↦ elim (Option-cases reply.decoded) [
          | inl e ↦ rw (y, e) tt
          | inr (stream, e) ↦
              simp (y, e)
                (record {
                  reply = reply;
                  sent = stream;
                  answered = refl;
                  accepted = y;
                  decoded = e;
                  settled = normalize-StreamSettled stream;
                })
        ]
      ]

      -- What FetchStream made of the address: the one it asked for, and the answer to it.
      abbrev pub OkSettled : Str → Str → Result (FetchError E) StreamResponse → Type 0
      OkSettled raw authorization (err e) = Unit
      OkSettled raw authorization (ok got) =
          (watch : Str) × (normalize_watch_url urls raw ≡ ok watch)
          × Answered (send (stream_endpoint urls lower c watch) (trim_space authorization)) got

      settled_in :
          (raw authorization watch : Str) (r : Result (FetchError E) StreamResponse)
          → normalize_watch_url urls raw ≡ ok watch
          → OkAnswered (send (stream_endpoint urls lower c watch) (trim_space authorization)) r
          → OkSettled raw authorization r
      settled_in raw authorization watch (err e) q a = tt
      settled_in raw authorization watch (ok got) q a = (watch, q, a)

      -- A stream that FetchStream returns is the one in a 200 reply of the streams API, in which
      -- only the url of each video and audio stream, the HLS address and the DASH address are
      -- changed; all else, the manifest and SABR session addresses among it, is as it was sent. Each
      -- of those addresses is empty where nothing was sent, the text that was sent (in Niconico's
      -- form behind the proxy's path) where it is absolute or url.Parse refuses it, and otherwise
      -- that text resolved against the base address, which is absolute. This holds where the base
      -- address is absolute, where a reference without a scheme takes the scheme of the base, and where
      -- what ResolveReference makes is read back from its text with its scheme.
      pub fetch_stream-OkSettled :
          (raw authorization : Str)
          → OkSettled raw authorization (fetch_stream urls lower send c raw authorization)
      unfolding fetch_stream
      fetch_stream-OkSettled raw authorization =
          elim (Result-cases (normalize_watch_url urls raw)) [
            | inr (e, q) ↦ rw (q, fetch_stream) tt
            | inl (watch, q) ↦
                let answer = send (stream_endpoint urls lower c watch) (trim_space authorization) in
                rw (q, fetch_stream)
                  (settled_in raw authorization watch (accept_reply urls lower send c answer) q
                    (accept_reply-OkAnswered answer))
          ]
