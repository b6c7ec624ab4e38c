-- ===== src/Typetype.antt =====
-- internal/typetype/models.go: what the streams endpoint answers.
pub mod Client
pub mod Urls
pub mod Watch
use type_type_downloader.Prelude.{Bool, List, Option}
use type_type_downloader.Prelude.Int.{ℤ}
use type_type_downloader.Prelude.Text.{Str}

pub record VideoStreamItem : Type 0 where
  pub url : Str
  pub mime_type : Str
  pub format : Str
  pub resolution : Str
  pub bitrate : Option ℤ
  pub codec : Option Str
  pub is_video_only : Bool
  pub itag : ℤ
  pub width : ℤ
  pub height : ℤ
  pub fps : ℤ
  pub content_length : ℤ
  pub init_start : ℤ
  pub init_end : ℤ
  pub index_start : ℤ
  pub index_end : ℤ
  pub delivery_method : Str
  pub manifest_url : Str
  pub sabr_session_url : Str

pub record AudioStreamItem : Type 0 where
  pub url : Str
  pub mime_type : Str
  pub format : Str
  pub bitrate : Option ℤ
  pub codec : Option Str
  pub quality : Option Str
  pub itag : ℤ
  pub content_length : ℤ
  pub init_start : ℤ
  pub init_end : ℤ
  pub index_start : ℤ
  pub index_end : ℤ
  pub audio_track_id : Option Str
  pub audio_track_name : Option Str
  pub audio_locale : Option Str
  pub is_original : Bool
  pub delivery_method : Str
  pub manifest_url : Str
  pub sabr_session_url : Str

pub record StreamResponse : Type 0 where
  pub id : Str
  pub title : Str
  pub duration : ℤ
  pub video_streams : List VideoStreamItem
  pub video_only_streams : List VideoStreamItem
  pub audio_streams : List AudioStreamItem
  pub original_audio_track_id : Option Str
  pub preferred_default_audio_id : Option Str
  pub hls_url : Str
  pub dash_mpd_url : Str
