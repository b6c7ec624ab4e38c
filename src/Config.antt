-- ===== src/Config.antt =====
-- internal/config/config.go: the settings of the service from its environment. `getenv` is os.Getenv;
-- `url_host` gives the host and the scheme that url.Parse finds, none for its error; `query_escape`
-- is url.QueryEscape and `lower` unicode.ToLower.
pub mod Settings
use type_type_downloader.Prelude.{
  Bool, Option, [], false, if◌then◌else◌, none, not, some, true, ℕ, ◌&&◌, ◌++◌, ◌==◌, ◌||◌, ◌∷◌,
}
use type_type_downloader.Prelude.Decimal.{atoi, decimal}
use type_type_downloader.Prelude.Int.{ltb_ℤ, pos, ℤ}
use type_type_downloader.Prelude.Text.{
  Str, cut_prefix, has_prefix, is_empty, lit, str_eq, to_lower, trim_right, trim_space,
}

pub record Config : Type 0 where
  pub http_addr : Str
  pub public_base_url : Str
  pub typetype_api_base : Str
  pub data_dir : Str
  pub database_url : Str
  pub redis_addr : Str
  pub job_ttl_seconds : ℤ
  pub storage_backend : Str
  pub s3_endpoint : Str
  pub s3_public_endpoint : Str
  pub s3_region : Str
  pub s3_bucket : Str
  pub s3_access_key : Str
  pub s3_secret_key : Str
  pub s3_use_ssl : Bool
  pub s3_public_use_ssl : Bool
  pub s3_path_style : Bool
  pub artifact_ttl : ℤ
  pub max_workers : ℤ
  pub download_workers : ℤ
  pub chunk_size : ℤ
  pub range_mode : Str
  pub muxer : Str
  pub http2 : Bool
  pub max_queue_size : ℤ
  pub min_free_bytes : ℤ
  pub min_free_percent : ℤ

abbrev is_slash : ℕ → Bool
is_slash c = c == b'/'

-- strings.TrimPrefix
abbrev trim_prefix : Str → Str → Str
trim_prefix s prefix = elim (cut_prefix s prefix) [ none ↦ s | some rest ↦ rest ]

abbrev or_fallback : Str → Str → Str
or_fallback value fallback = if is_empty value then fallback else value

unfoldable pub positive_or : ℤ → Option ℤ → ℤ
positive_or fallback none = fallback
positive_or fallback (some value) = if ltb_ℤ (pos 0) value then value else fallback

unfoldable pub compose_postgres_url : (Str → Str) → Str → ℤ → Str → Str → Str → Str
compose_postgres_url query_escape host port database user password =
    lit "postgres://"
    ++ (query_escape user
        ++ (b':'
            ∷ (query_escape password
                ++ (b'@'
                    ∷ (host
                        ++ (b':'
                            ∷ (decimal port ++ (b'/' ∷ (database ++ lit "?sslmode=disable")))))))))

module _ (getenv : Str → Str) (lower : ℕ → ℕ) (url_host : Str → Option (Str × Str))
    (query_escape : Str → Str) where
  unfoldable pub env : Str → Str → Str
  env name fallback = or_fallback (trim_space (getenv name)) fallback

  -- envInt and envSize
  unfoldable pub env_int : Str → ℤ → ℤ
  unfolding env positive_or atoi
  env_int name fallback = positive_or fallback (atoi (env name []))

  unfoldable pub env_size : Str → ℤ → ℤ
  unfolding env positive_or atoi
  env_size name fallback = positive_or fallback (atoi (env name []))

  unfoldable pub env_bool : Str → Bool → Bool
  unfolding env
  env_bool name fallback =
      let value = to_lower lower (env name []) in
      if str_eq value (lit "true") || str_eq value (lit "1") || str_eq value (lit "yes")
      then true
      else if str_eq value (lit "false") || str_eq value (lit "0") || str_eq value (lit "no")
      then false
      else fallback

  unfoldable pub redis_addr : Str
  unfolding env
  redis_addr =
      let value = env (lit "REDIS_ADDR") [] in
      let host = env (lit "REDIS_HOST") [] in
      if not (is_empty value)
      then value
      else if is_empty host
      then []
      else host ++ b':' ∷ env (lit "REDIS_PORT") (lit "6379")

  unfoldable pub http_addr : Str
  unfolding env
  http_addr =
      let value = env (lit "HTTP_ADDR") [] in
      if not (is_empty value) then value else b':' ∷ env (lit "HTTP_PORT") (lit "18093")

  unfoldable pub jdbc_url : Str → Str
  unfolding env
  jdbc_url raw =
      let user = query_escape (env (lit "DB_USER") (lit "typetype")) in
      let password = query_escape (env (lit "DB_PASSWORD") (lit "typetype")) in
      if has_prefix raw (lit "jdbc:postgresql://")
      then lit "postgres://"
        ++ (user
            ++ (b':'
                ∷ (password
                    ++ (b'@'
                        ∷ (trim_prefix raw (lit "jdbc:postgresql://") ++ lit "?sslmode=disable")))))
      else raw

  unfoldable pub database_url : Str
  unfolding env jdbc_url
  database_url =
      let value = env (lit "DATABASE_URL") [] in
      let raw = env (lit "DB_URL") [] in
      if not (is_empty value) then value else if is_empty raw then [] else jdbc_url raw

  unfoldable pub storage_backend : Str
  unfolding env
  storage_backend =
      let value = to_lower lower (env (lit "STORAGE_BACKEND") []) in
      if not (is_empty value)
      then value
      else if not (is_empty (env (lit "S3_ENDPOINT") []))
          && not (is_empty (env (lit "S3_BUCKET") []))
          && not (is_empty (env (lit "S3_ACCESS_KEY") []))
      then lit "s3"
      else lit "local"

  unfoldable pub endpoint_of : Str → Option (Str × Str) → Str × Bool
  endpoint_of raw none = (trim_prefix (trim_prefix raw (lit "https://")) (lit "http://"), true)
  endpoint_of raw (some (host, scheme)) =
      if is_empty host
      then (trim_prefix (trim_prefix raw (lit "https://")) (lit "http://"), true)
      else (host, str_eq scheme (lit "https"))

  unfoldable pub parse_s3_endpoint : Str → Str × Bool
  unfolding env endpoint_of
  parse_s3_endpoint name =
      let raw = env name [] in if is_empty raw then ([], true) else endpoint_of raw (url_host raw)

  unfoldable pub load : Config
  unfolding parse_s3_endpoint http_addr trim_right database_url redis_addr env_int env_size env_bool
      storage_backend env
  load =
      let endpoint = parse_s3_endpoint (lit "S3_ENDPOINT") in
      let public = parse_s3_endpoint (lit "S3_PUBLIC_ENDPOINT") in
      record {
        http_addr = http_addr;
        public_base_url =
            trim_right is_slash (env (lit "PUBLIC_BASE_URL") (lit "http://localhost:18093"));
        typetype_api_base =
            trim_right is_slash (env (lit "TYPETYPE_API_BASE") (lit "http://typetype-server:8080"));
        data_dir = env (lit "DATA_DIR") (lit "data");
        database_url = database_url;
        redis_addr = redis_addr;
        job_ttl_seconds = env_int (lit "JOB_TTL_SECONDS") (pos 600);
        storage_backend = storage_backend;
        s3_endpoint = endpoint.0;
        s3_public_endpoint = public.0;
        s3_region = env (lit "S3_REGION") (lit "garage");
        s3_bucket = env (lit "S3_BUCKET") [];
        s3_access_key = env (lit "S3_ACCESS_KEY") [];
        s3_secret_key = env (lit "S3_SECRET_KEY") [];
        s3_use_ssl = env_bool (lit "S3_USE_SSL") endpoint.1;
        s3_public_use_ssl = env_bool (lit "S3_PUBLIC_USE_SSL") public.1;
        s3_path_style = env_bool (lit "S3_PATH_STYLE") true;
        artifact_ttl =
            env_int (lit "ARTIFACT_URL_TTL_SECONDS")
              (env_int (lit "S3_ARTIFACT_TTL_SECONDS") (pos 7200));
        max_workers = env_int (lit "MAX_CONCURRENT_WORKERS") (pos 2);
        download_workers = env_int (lit "DOWNLOAD_WORKERS") (pos 8);
        chunk_size = env_size (lit "DOWNLOAD_CHUNK_SIZE") (pos 10485760);
        range_mode = env (lit "DOWNLOAD_RANGE_MODE") (lit "query");
        muxer = env (lit "MUXER") (lit "avformat");
        http2 = env_bool (lit "DOWNLOAD_HTTP2") true;
        max_queue_size = env_int (lit "MAX_QUEUE_SIZE") (pos 100);
        min_free_bytes = env_size (lit "STORAGE_MIN_FREE_BYTES") (pos 10737418240);
        min_free_percent = env_int (lit "STORAGE_MIN_FREE_PERCENT") (pos 20);
      }
