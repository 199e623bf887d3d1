-- ===== src/V2/Admission.antt =====
-- packages/core/src/http/server/v2.rs:
-- When `upload` accepts a request, and what it then does to the session.
use aika.Common.{
  ℕ, ◌≡◌, ◌↔◌, refl, inl, inr, String, true, Option, none, some, arith, string_Eq, Option-cases,
}
use aika.Common.HashMap.{get, modify}
use aika.Model.{FileDto, ip_Eq, ip_eq_iff}
use aika.Session.{
  SessionStateV2, active, UploadSessionV2, SessionFileV2, FileStatusV2, in_progress, is_pending,
}
use aika.V2.Transfer.{UploadRequest, admit, set_status}
use text.Mathlib.TextEquality.{eq_iff}

abbrev pub marked : ℕ → String → UploadSessionV2 → UploadSessionV2
marked now file_id s = record s {
  files = modify (set_status in_progress) file_id s.files;
  last_activity = now;
}

-- The request names the session, its sender, a file that waits for its content, and its token.
pub record Matches (req : UploadRequest) (old : UploadSessionV2) (file : SessionFileV2)
    : Type 0 where
  pub session : old.session_id ≡ req.session_id
  pub sender : old.sender_ip ≡ req.ip
  pub found : get req.file_id old.files ≡ some file
  pub token : file.token ≡ req.token
  pub waits : file.status ≡ FileStatusV2.pending

is_pending_sound : (s : FileStatusV2) → is_pending s ≡ true → s ≡ FileStatusV2.pending
is_pending_sound s h = ground arith

-- When upload's validation accepts a request, the slot holds a session with the request's ID and
-- sender address in which the file waits with the request's token, and the session is only changed
-- by marking that file as in progress and by the time.
pub admit_sound :
    (now : ℕ) (req : UploadRequest) (slot : Option SessionStateV2) (s : UploadSessionV2)
    (dto : FileDto)
    → admit now req slot ≡ some (s, dto)
    → (old : UploadSessionV2) × (file : SessionFileV2) × (slot ≡ some (active old))
      × Matches req old file
      × (s ≡ marked now req.file_id old)
      × (dto ≡ file.dto)
unfolding admit
admit_sound now req none s dto e = absurd (ground arith)
admit_sound now req (some SessionStateV2.pending) s dto e = absurd (ground arith)
admit_sound now req (some (active old)) s dto e = elim (Option-cases (get req.file_id old.files)) [
  | inl h ↦ absurd (ground arith)
  | inr (file, h) ↦ (
    old,
    file,
    refl,
    record {
      session = ground (arith, eq_iff old.session_id req.session_id);
      sender = ground (arith, ip_eq_iff old.sender_ip req.ip);
      found = h;
      token = ground (arith, eq_iff file.token req.token);
      waits = ground (arith, is_pending_sound file.status);
    },
    ground arith,
    ground arith,
  )
]

-- Upload's validation accepts every request that names the session, its sender, a file that waits
-- for its content, and that file's token.
admit_complete :
    (now : ℕ) (req : UploadRequest) (old : UploadSessionV2) (file : SessionFileV2)
    → Matches req old file
    → admit now req (some (active old)) ≡ some (marked now req.file_id old, file.dto)
unfolding admit
admit_complete now req old file m = ground (
  arith,
  m.session,
  m.sender,
  m.found,
  m.token,
  m.waits,
  eq_iff old.session_id req.session_id,
  ip_eq_iff old.sender_ip req.ip,
  eq_iff file.token req.token,
)

-- Upload's validation accepts a request exactly when the slot holds a session with the request's
-- ID and sender address in which the file waits with the request's token. It then gives the file's
-- metadata and the session, changed only by marking that file as in progress and by the time.
pub admit_iff :
    (now : ℕ) (req : UploadRequest) (slot : Option SessionStateV2) (s : UploadSessionV2)
    (dto : FileDto)
    → (admit now req slot ≡ some (s, dto)) ↔ (
        (old : UploadSessionV2) × (file : SessionFileV2) × (slot ≡ some (active old))
        × Matches req old file
        × (s ≡ marked now req.file_id old)
        × (dto ≡ file.dto))
admit_iff now req slot s dto = (
  admit_sound now req slot s dto,
  λ (old, file, at, m, s_eq, dto_eq). rw (at, s_eq, dto_eq) (admit_complete now req old file m),
)
