-- ===== src/V2/World/Invariant.antt =====
-- packages/core/src/http/server/v2.rs:
-- The invariant of the interleaved server, over the slot and the tasks, and how the three ways to
-- change the slot keep it: a transfer begins, a transfer ends, a session is opened.
use aika.Common.{
  ℕ, ◌≤◌, ◌≡◌, subst, inl, inr, String, Bool, false, ◌&&◌, Option, none, some, List, [], ◌∷◌, arith,
  All, if◌then◌else◌, ◌==◌, string_Eq, Bool-cases, ==_refl, ==→≡,
}
use aika.Model.{FileDto}
use aika.Session.{SessionStateV2, active, UploadSessionV2, SessionFileV2, in_progress, is_complete}
use aika.V2.Admission.{Matches, marked, admit_sound}
use aika.V2.Transfer.{UploadRequest, admit, end_transfer, end_file, set_status}
use aika.V2.World.{
  Task, notifying, deciding, aborting, receiving, failing, leaked, stuck, take_task,
}
use aika.V2.World.Counting.{holds, transfers, total, total-take_task, All-take_task, All-mono}
use aika.V2.World.Files.{
  running, running-le-one, Distinct, running-end_file, running-mark, unfinished-mark,
  modify-Distinct,
}
use text.Mathlib.TextEquality.{eq_iff}

-- How many requests the slot belongs to while it waits for a decision.
abbrev pub holders : Option SessionStateV2 → ℕ
holders none = 0
holders (some SessionStateV2.pending) = 1
holders (some (active _)) = 0

-- An accepted session: its files are being received by one task each, it is not complete, and no
-- file stands in it twice.
pub record IsSound (s : UploadSessionV2) (ts : List Task) : Type 0 where
  pub tracked : (f : String) → total (transfers s.session_id f) ts ≡ running f s.files
  pub unfinished : is_complete s ≡ false
  pub distinct : Distinct s.files

abbrev pub SlotIsSound : Option SessionStateV2 → List Task → Type 0
SlotIsSound none ts = Unit
SlotIsSound (some SessionStateV2.pending) ts = Unit
SlotIsSound (some (active s)) ts = IsSound s ts

-- The session that a waiting request may open is nobody's yet, and has no file twice.
abbrev pub IsQuiet : List Task → Task → Type 0
IsQuiet ts (notifying _ req) = Distinct req.offered_files
IsQuiet ts leaked = Unit
IsQuiet ts (stuck _ _) = Unit
IsQuiet ts (deciding s req) =
    ((f : String) → total (transfers s f) ts ≡ 0) × Distinct req.offered_files
IsQuiet ts (aborting _) = Unit
IsQuiet ts (receiving _ _) = Unit
IsQuiet ts (failing _ _) = Unit

pub record Inv (slot : Option SessionStateV2) (ts : List Task) : Type 0 where
  pub owned : total holds ts ≡ holders slot
  pub sound : SlotIsSound slot ts
  pub quiet : All (IsQuiet ts) ts

abbrev Fewer : List Task → List Task → Type 0
Fewer us ts = (s f : String) → total (transfers s f) us ≤ total (transfers s f) ts

pub IsQuiet-mono : (us ts : List Task) (t : Task) → Fewer us ts → IsQuiet ts t → IsQuiet us t
IsQuiet-mono us ts (notifying old req) le q = q
IsQuiet-mono us ts leaked le q = tt
IsQuiet-mono us ts (stuck _ _) le q = tt
IsQuiet-mono us ts (deciding s req) le q = ((λ f. omega (arith, le s f, q.0 f)), q.1)
IsQuiet-mono us ts (aborting _) le q = tt
IsQuiet-mono us ts (receiving _ _) le q = tt
IsQuiet-mono us ts (failing _ _) le q = tt

-- Without a waiting request every list of tasks is quiet.
IsQuiet-of_free : (us ts : List Task) → total holds ts ≡ 0 → All (IsQuiet us) ts
IsQuiet-of_free us [] h = tt
IsQuiet-of_free us (notifying old req ∷ ts) h = absurd (omega arith)
IsQuiet-of_free us (leaked ∷ ts) h = absurd (omega arith)
IsQuiet-of_free us (stuck _ _ ∷ ts) h = (tt, IsQuiet-of_free us ts (omega arith))
IsQuiet-of_free us (deciding s req ∷ ts) h = absurd (omega arith)
IsQuiet-of_free us (aborting s ∷ ts) h = absurd (omega arith)
IsQuiet-of_free us (receiving _ _ ∷ ts) h = (tt, IsQuiet-of_free us ts (omega arith))
IsQuiet-of_free us (failing _ _ ∷ ts) h = (tt, IsQuiet-of_free us ts (omega arith))

-- The tasks that stay when one is taken away.
pub IsQuiet-take_task :
    (i : ℕ) (ts : List Task) (t : Task) (rest : List Task)
    → take_task i ts ≡ some (t, rest)
    → All (IsQuiet ts) ts
    → IsQuiet ts t × All (IsQuiet rest) rest
IsQuiet-take_task i ts t rest e q =
    let (here, there) = All-take_task (IsQuiet ts) i ts t rest e q in
    (here, All-mono rest (λ u. IsQuiet-mono rest ts u fewer) there)
  where
    fewer : Fewer rest ts
    fewer s f = omega (arith, total-take_task (transfers s f) i ts t rest e)

-- A transfer begins.
marked-Inv :
    (now : ℕ) (req : UploadRequest) (old : UploadSessionV2) (file : SessionFileV2) (ts : List Task)
    → Matches req old file
    → Inv (some (active old)) ts
    → Inv (some (active (marked now req.file_id old))) (receiving req.session_id req.file_id ∷ ts)
unfolding is_complete
marked-Inv now req old file ts m v = record {
  owned = omega (arith, v.owned);
  sound = record {
    tracked = λ g. ground (
      arith,
      v.sound.tracked g,
      m.session,
      m.waits,
      m.found,
      running-mark req.file_id g old.files file m.found,
      eq_iff g req.file_id,
      eq_iff req.file_id g,
      ==_refl old.session_id,
    );
    unfinished = unfinished-mark req.file_id old.files file m.found;
    distinct = modify-Distinct (set_status in_progress) req.file_id old.files v.sound.distinct;
  };
  quiet = (tt, IsQuiet-of_free (receiving req.session_id req.file_id ∷ ts) ts v.owned);
}

pub admit-Inv :
    (now : ℕ) (req : UploadRequest) (ts : List Task) (slot : Option SessionStateV2)
    (s : UploadSessionV2) (dto : FileDto)
    → admit now req slot ≡ some (s, dto)
    → Inv slot ts
    → Inv (some (active s)) (receiving req.session_id req.file_id ∷ ts)
admit-Inv now req ts slot s dto e v =
    let (old, file, at, m, s_eq, _) = admit_sound now req slot s dto e in
    rw s_eq (marked-Inv now req old file ts m (subst (λ o. Inv o ts) at v))

-- What `finalize_file` leaves in the slot.
abbrev pub ended_slot : UploadSessionV2 → Option SessionStateV2
ended_slot s = if is_complete s then none else some (active s)

abbrev pub end_slot : ℕ → String → String → Bool → Option SessionStateV2 → Option SessionStateV2
end_slot now session_id file_id b none = none
end_slot now session_id file_id b (some SessionStateV2.pending) = some SessionStateV2.pending
end_slot now session_id file_id b (some (active s)) =
    if s.session_id == session_id
    then ended_slot (end_transfer now file_id b s)
    else some (active s)

-- A transfer ends, with its task.
abbrev pub IsTransfer : String → String → Task → Type 0
IsTransfer session_id file_id t =
    (holds t ≡ 0)
    × ((s f : String) → transfers s f t ≡ (if s == session_id && f == file_id then 1 else 0))

module _ (now : ℕ) (session_id file_id : String) (b : Bool) (i : ℕ) (ts : List Task) (t : Task)
    (rest : List Task) (picked : take_task i ts ≡ some (t, rest))
    (is : IsTransfer session_id file_id t) where
  ended-IsSound :
      (s : UploadSessionV2)
      → s.session_id ≡ session_id
      → is_complete (end_transfer now file_id b s) ≡ false
      → IsSound s ts
      → IsSound (end_transfer now file_id b s) rest
  unfolding end_transfer
  ended-IsSound s e more v = record {
    tracked = λ g. ground (
      arith,
      e,
      v.tracked g,
      running-le-one g s.files,
      total-take_task (transfers s.session_id g) i ts t rest picked,
      is.1 s.session_id g,
      running-end_file b file_id g s.files,
      eq_iff g file_id,
      eq_iff file_id g,
      eq_iff s.session_id session_id,
    );
    unfinished = more;
    distinct = modify-Distinct (end_file b) file_id s.files v.distinct;
  }

  other-IsSound :
      (s : UploadSessionV2) → (s.session_id == session_id) ≡ false → IsSound s ts → IsSound s rest
  other-IsSound s e v = record {
    tracked = λ g. ground (
      arith,
      v.tracked g,
      total-take_task (transfers s.session_id g) i ts t rest picked,
      is.1 s.session_id g,
    );
    unfinished = v.unfinished;
    distinct = v.distinct;
  }

  end_slot-owned :
      (slot : Option SessionStateV2)
      → total holds ts ≡ holders slot
      → total holds rest ≡ holders (end_slot now session_id file_id b slot)
  end_slot-owned none h = omega (arith, total-take_task holds i ts t rest picked, is.0)
  end_slot-owned (some SessionStateV2.pending) h =
      omega (arith, total-take_task holds i ts t rest picked, is.0)
  end_slot-owned (some (active s)) h =
      ground (arith, total-take_task holds i ts t rest picked, is.0)

  end_slot_sound :
      (slot : Option SessionStateV2)
      → SlotIsSound slot ts
      → SlotIsSound (end_slot now session_id file_id b slot) rest
  end_slot_sound none v = tt
  end_slot_sound (some SessionStateV2.pending) v = tt
  end_slot_sound (some (active s)) v = elim (Bool-cases (s.session_id == session_id)) [
    | inr other ↦ rw other (other-IsSound s other v)
    | inl same ↦ elim (Bool-cases (is_complete (end_transfer now file_id b s))) [
      | inl done ↦ rw (same, done) tt
      | inr more ↦ rw (same, more) (ended-IsSound s (==→≡ s.session_id session_id same) more v)
    ]
  ]

  pub end_slot-Inv :
      (slot : Option SessionStateV2)
      → Inv slot ts
      → Inv (end_slot now session_id file_id b slot) rest
  end_slot-Inv slot v = record {
    owned = end_slot-owned slot v.owned;
    sound = end_slot_sound slot v.sound;
    quiet = (IsQuiet-take_task i ts t rest picked v.quiet).1;
  }
