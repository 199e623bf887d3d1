-- ===== src/Session.antt =====
-- The single upload session slot: packages/core/src/http/server/common/session.rs.
-- `tokio::time::Instant` is a number of milliseconds.
use aika.Common.{ℕ, ◌-◌, String, Bool, true, false, not, ◌&&◌, leb, all, any}
use aika.Common.HashMap.{HashMap, values}
use aika.Model.{IpAddr, FileDto}

-- 60 s
abbrev pub abandoned_session_after : ℕ
abandoned_session_after = 60000

pub data FileStatusV2 : Type 0 where
  pending in_progress finished failed : FileStatusV2

pub record SessionFileV2 : Type 0 where
  pub dto : FileDto
  pub token : String
  pub status : FileStatusV2

pub record UploadSessionV2 : Type 0 where
  pub session_id : String
  pub sender_ip : IpAddr
  pub files : HashMap String SessionFileV2
  pub last_activity : ℕ

pub data SessionStateV2 : Type 0 where
  pending : SessionStateV2
  active : UploadSessionV2 → SessionStateV2

abbrev pub is_final : FileStatusV2 → Bool
is_final FileStatusV2.pending = false
is_final in_progress = false
is_final finished = true
is_final failed = true

abbrev pub is_in_progress : FileStatusV2 → Bool
is_in_progress in_progress = true
is_in_progress _ = false

abbrev pub is_pending : FileStatusV2 → Bool
is_pending FileStatusV2.pending = true
is_pending _ = false

unfoldable pub is_complete : UploadSessionV2 → Bool
is_complete s = all (λ file. is_final file.status) (values s.files)

-- Subtraction stops at 0, as `saturating_duration_since` does.
unfoldable pub is_abandoned : UploadSessionV2 → ℕ → Bool
is_abandoned s now =
    let receiving = any (λ file. is_in_progress file.status) (values s.files) in
    not receiving && leb abandoned_session_after (now - s.last_activity)

unfoldable pub touch : ℕ → UploadSessionV2 → UploadSessionV2
touch now s = record s { last_activity = now }
