-- ===== src/Config/Settings.antt =====
-- What the settings of internal/config/config.go can be.
use type_type_downloader.Prelude.{Option, false, true, ℕ, ◌≡◌}
use type_type_downloader.Config.{Config, storage_backend}
use type_type_downloader.Prelude.Int.{ltb_ℤ, pos, ℤ}
use type_type_downloader.Prelude.Text.{Str, is_empty}

pub record IsPositive (value : ℤ) : Type 0 where
  pub holds : ltb_ℤ (pos 0) value ≡ true

module _ (getenv : Str → Str) (lower : ℕ → ℕ) (url_host : Str → Option (Str × Str))
    (query_escape : Str → Str) where
  -- The settings that the runner, the downloader and the disk monitor work with.
  pub record IsUsable (c : Config) : Type 0 where
    pub job_ttl_seconds : IsPositive c.job_ttl_seconds
    pub artifact_ttl : IsPositive c.artifact_ttl
    pub max_workers : IsPositive c.max_workers
    pub download_workers : IsPositive c.download_workers
    pub chunk_size : IsPositive c.chunk_size
    pub max_queue_size : IsPositive c.max_queue_size
    pub min_free_bytes : IsPositive c.min_free_bytes
    pub min_free_percent : IsPositive c.min_free_percent
    pub data_dir : is_empty c.data_dir ≡ false
    pub range_mode : is_empty c.range_mode ≡ false
    pub muxer : is_empty c.muxer ≡ false
    pub storage_backend : is_empty c.storage_backend ≡ false
