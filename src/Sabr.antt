-- ===== src/Sabr.antt =====
-- internal/sabr: downloads over the SABR protocol. This file has types.go; the children have the
-- stream of one part, the parts, the workers, the assembly of the tracks and the progress reporter.
pub mod Stream
pub mod Progress
pub mod Parts
pub mod PartLaws
pub mod Download
pub mod Workers
pub mod Attempts
pub mod Assembly
pub mod Assembled
pub mod Committed
pub mod Leftovers
pub mod Outcome
pub mod Fetching
pub mod Payloads
pub mod Stored
pub mod Delivered
use type_type_downloader.Prelude.{Bool, List, ℕ}
use type_type_downloader.Prelude.Int.{ℤ}
use type_type_downloader.Prelude.Text.{Str}

pub record SabrOptions : Type 0 where
  pub manifest_url : Str
  pub authorization : Str
  pub video_itag : ℤ
  pub audio_itag : ℤ
  pub audio_track_id : Str
  pub audio_only : Bool
  pub video_path : Str
  pub audio_path : Str
  pub expected_bytes : ℤ
  pub parts : ℤ
  pub idle_timeout : ℤ

-- An open file: what was written to it, and how many more bytes the disk takes.
pub record File : Type 0 where
  pub written : List ℕ
  pub room : ℕ

pub record StreamTrack : Type 0 where
  pub kind : Str
  pub itag : ℤ
  pub path : Str
  pub output : File
  pub next_sequence : ℤ
  pub initialized : Bool
  pub media_written : Bool
