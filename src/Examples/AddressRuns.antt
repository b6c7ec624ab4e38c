-- ===== src/Examples/AddressRuns.antt =====
-- Runs of the names of internal/artifact and of the addresses of internal/typetype.
use type_type_downloader.Prelude.{[], if◌then◌else◌, refl, some, ℕ, ◌++◌, ◌∷◌, ◌≡◌}
use type_type_downloader.Artifact.{safe_name}
use type_type_downloader.Artifact.Names.{IsName, safe_name-IsName}
use type_type_downloader.Prelude.Int.{pos}
use type_type_downloader.Prelude.Result.{Result, ok}
use type_type_downloader.Prelude.Text.{
  Str, ascii_lower, cut_prefix, has_prefix, lit, trim_left, trim_right,
}
use type_type_downloader.Selector.Runs.{stream}
use type_type_downloader.Typetype.Client.{
  StreamsClient, StreamsReply, Url, UrlLib, fetch_stream, is_slash,
}
use type_type_downloader.Typetype.Urls.{OkSettled, fetch_stream-OkSettled}

name_example : IsName (safe_name (lit " ../My: video. "))
name_example = safe_name-IsName (lit " ../My: video. ")

abbrev absolute : Url
absolute = record {
  scheme = lit "https";
  host = lit "api";
  hostname = lit "api";
  path = lit "/";
  query_get = λ key. [];
}

abbrev relative : Url
relative = record {
  scheme = [];
  host = [];
  hostname = [];
  path = lit "v.mp4";
  query_get = λ key. [];
}

-- A small net/url: an address is absolute if it starts with https.
abbrev some_urls : UrlLib
some_urls = record {
  parse = λ raw. if has_prefix raw (lit "https:") then some absolute else some relative;
  query_escape = λ raw. raw;
  query_unescape = λ raw. some raw;
  resolve = λ base ref. record ref { scheme = base.scheme; host = base.host };
  print = λ url. url.scheme ++ (lit "://" ++ (url.host ++ b'/' ∷ url.path));
}

abbrev api : StreamsClient
api = record { base_url = lit "https://api" }

base_found : some_urls.parse (trim_right is_slash api.base_url ++ lit "/") ≡ some absolute
unfolding has_prefix cut_prefix trim_right trim_left
base_found = refl

resolved_back :
    (raw : Str) (ref : Url)
    → some_urls.parse raw ≡ some ref
    → (again : Url) × (some_urls.parse (some_urls.print (some_urls.resolve absolute ref))
        ≡ some again)
      × (again.scheme ≡ (some_urls.resolve absolute ref).scheme)
unfolding has_prefix cut_prefix
resolved_back raw ref e = (absolute, refl, refl)

abbrev answers : Str → Str → Result ℕ StreamsReply
answers endpoint authorization =
    ok (record { status_code = pos 200; text = []; decoded = some stream })

fetch_example :
    OkSettled some_urls api absolute base_found refl
      (λ ref n. refl)
      resolved_back
      ascii_lower
      answers
      (lit "https://x/watch")
      (lit "token")
      (fetch_stream some_urls ascii_lower answers api (lit "https://x/watch") (lit "token"))
fetch_example =
    fetch_stream-OkSettled some_urls api absolute base_found refl (λ ref n. refl) resolved_back
      ascii_lower answers (lit "https://x/watch") (lit "token")
