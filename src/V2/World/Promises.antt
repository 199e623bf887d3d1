-- ===== src/V2/World/Promises.antt =====
-- What the slot and the guards of v2.rs promise, whatever the order in which requests, answers,
-- disconnects and cleanups come.
use aika.Common.{
  ◌≢◌, All, ℕ, ◌+◌, ◌≤◌, ◌≡◌, refl, sym, ◌∙◌, subst, String, true, false, Option, none, some, List,
  [], ◌∷◌, arith, any, is_empty, if◌then◌else◌, string_Eq, ==_refl,
}
use text.Mathlib.TextEquality.{eq_iff}
use aika.Common.HashMap.{HashMap, values, get}
use aika.Http.{message}
use aika.Session.{
  SessionStateV2, active, UploadSessionV2, SessionFileV2, is_abandoned, is_in_progress, in_progress,
  abandoned_session_after,
}
use aika.V2.{V2State}
use aika.V2.Prepare.{PrepareRequest, refused, waiting, claim, claim_slot, claim_session}
use aika.V2.Replaceable.{MayBeTaken, IsOver, claim_slot_iff, given_up, not_over}
use aika.V2.World.{World, Task, leaked, take_task}
use aika.V2.World.Counting.{holds, transfers, total}
use aika.V2.World.Files.{running, running-le-one, Distinct}
use aika.V2.World.Invariant.{IsSound, Inv}
use aika.V2.World.Opening.{slot_waits, freed-Inv}
use aika.V2.World.Reachable.{Reachable, Reachable-Inv}

idle_of_given_up :
    (f : String) (files : HashMap String SessionFileV2)
    → All (λ entry. entry.1.status ≢ in_progress) files
    → running f files ≡ 0
unfolding get
idle_of_given_up f [] h = refl
idle_of_given_up f ((k, v) ∷ m) (h, rest) = ground (arith, h, idle_of_given_up f m rest)

running-here :
    (k : String) (v : SessionFileV2) (m : HashMap String SessionFileV2)
    → running k ((k, v) ∷ m) ≡ (if is_in_progress v.status then 1 else 0)
unfolding get
running-here k v m = rw (==_refl k) refl

running-there :
    (k f : String) (v : SessionFileV2) (m : HashMap String SessionFileV2)
    → get k m ≡ none
    → running f ((k, v) ∷ m) ≡ 0
    → running f m ≡ 0
unfolding get
running-there k f v m fresh h = ground (arith, eq_iff k f)

none_running_of_idle :
    (files : HashMap String SessionFileV2)
    → Distinct files
    → ((f : String) → running f files ≡ 0)
    → any (λ file. is_in_progress file.status) (values files) ≡ false
none_running_of_idle [] d h = refl
none_running_of_idle ((k, v) ∷ m) d h = ground (
  arith,
  h k,
  running-here k v m,
  none_running_of_idle m d.1 (λ f. running-there k f v m d.0 (h f)),
)

active-IsSound :
    {slot : Option SessionStateV2} {ts : List Task} (s : UploadSessionV2)
    → slot ≡ some (active s)
    → Inv slot ts
    → IsSound s ts
active-IsSound {ts} s e v = (subst (λ o. Inv o ts) e v).sound

abandoned_of_silent :
    (s : UploadSessionV2) (now : ℕ)
    → ((f : String) → running f s.files ≡ 0)
    → Distinct s.files
    → s.last_activity + abandoned_session_after ≤ now
    → is_abandoned s now ≡ true
unfolding is_abandoned
abandoned_of_silent s now idle distinct h =
    rw (none_running_of_idle s.files distinct idle) (ground arith)

-- A session without a transfer in these tasks, and without a sign of its sender for a minute.
abbrev pub IsSilent : ℕ → List Task → UploadSessionV2 → Type 0
IsSilent now ts s =
    ((f : String) → total (transfers s.session_id f) ts ≡ 0)
    × (s.last_activity + abandoned_session_after ≤ now)

claimable :
    (slot : Option SessionStateV2) (now : ℕ) (ts : List Task)
    → Inv slot ts
    → total holds ts ≡ 0
    → ((s : UploadSessionV2) → slot ≡ some (active s) → IsSilent now ts s)
    → (a : Option String) × (claim_slot now slot ≡ some a)
unfolding claim_slot
claimable none now ts v free h = (none, refl)
claimable (some SessionStateV2.pending) now ts v free h = absurd (omega (arith, free, v.owned))
claimable (some (active s)) now ts v free h =
    let (idle, silent) = h s refl in
    let none_running = abandoned_of_silent s now (λ f. sym (v.sound.tracked f) ∙ idle f) in
    (some s.session_id, rw (none_running v.sound.distinct silent) refl)

claim_heard :
    {Cache : Type 0} (session_id : String) (req : PrepareRequest) (a : Option String)
    (v2 : V2State Cache)
    → v2.listening ≡ true
    → (claim session_id req (some a) v2).0 ≡ waiting
claim_heard session_id req none v2 l = ground arith
claim_heard session_id req (some old) v2 l = ground arith

module _ {Cache : Type 0} {w : World Cache} (r : Reachable w) where
  -- In every reachable world (new session IDs are fresh and the IDs of offered files distinct), a
  -- request that has claimed the slot and waits for the application, whose dropped guard is still
  -- to be cleaned up, or that was dropped while no guard of it was armed, holds the slot alone:
  -- the slot is Pending and no other task holds it.
  pub holder_owns_slot :
      (i : ℕ) (t : Task) (rest : List Task)
      → take_task i w.tasks ≡ some (t, rest)
      → holds t ≡ 1
      → (w.v2.session ≡ some SessionStateV2.pending) × (total holds rest ≡ 0)
  holder_owns_slot i t rest e h = (
    slot_waits i w.tasks t rest e h w.v2.session (Reachable-Inv r),
    (freed-Inv i w.tasks t rest e h w.v2.session (Reachable-Inv r)).owned,
  )

  -- In every world that the server can reach, whatever the order of requests, answers,
  -- disconnects, interruptions and cleanups, as long as new session IDs are fresh and the IDs of
  -- offered files distinct, the number of tasks that receive a file of the session in the slot,
  -- with the uploads among them that were dropped behind a disarmed guard, is the one that the
  -- file's status says, and at most one.
  pub one_transfer_per_file :
      (s : UploadSessionV2) (f : String)
      → w.v2.session ≡ some (active s)
      → (total (transfers s.session_id f) w.tasks ≡ running f s.files)
        × (total (transfers s.session_id f) w.tasks ≤ 1)
  one_transfer_per_file s f e =
      let tracked = (active-IsSound s e (Reachable-Inv r)).tracked f in
      (tracked, omega (arith, tracked, running-le-one f s.files))

  -- In every reachable world, a session whose files are all finished or failed does not stay in
  -- the slot.
  pub no_complete_session : (s : UploadSessionV2) → w.v2.session ≡ some (active s) → ¬ IsOver s
  no_complete_session s e = not_over s (active-IsSound s e (Reachable-Inv r)).unfinished

  -- In every reachable world, a session in the slot that a new request may replace has no transfer
  -- under way.
  pub abandoned_idle :
      (s : UploadSessionV2) (now : ℕ) (abandoned : Option String) (f : String)
      → w.v2.session ≡ some (active s)
      → claim_slot now w.v2.session ≡ some abandoned
      → total (transfers s.session_id f) w.tasks ≡ 0
  abandoned_idle s now abandoned f e h =
      let gone =
        given_up now s
          (subst (MayBeTaken now) e ((claim_slot_iff now w.v2.session).0 (abandoned, h))) in
      (active-IsSound s e (Reachable-Inv r)).tracked f ∙ idle_of_given_up f s.files gone.0

  -- In a reachable world in which no request holds the slot (none that has claimed it waits for
  -- the application, awaits the cleanup of its guard, or was dropped while no guard of it was
  -- armed), and in which an accepted session, if there is one, has no transfer left, also none
  -- dropped behind a disarmed guard, and has been silent for a minute, a request with files is
  -- passed on to the listening application.
  pub unblocked :
      (now : ℕ) (session_id : String) (req : PrepareRequest)
      → total holds w.tasks ≡ 0
      → ((s : UploadSessionV2) → w.v2.session ≡ some (active s) → IsSilent now w.tasks s)
      → w.v2.listening ≡ true
      → is_empty req.offered_files ≡ false
      → (claim_session now session_id req w.v2).0 ≡ waiting
  unfolding claim_session
  unblocked now session_id req free silent l ne =
      let (a, h) = claimable w.v2.session now w.tasks (Reachable-Inv r) free silent in
      rw (ne, h) (claim_heard session_id req a w.v2 l)

  -- A request that was dropped while no guard of its claim was armed blocks every other one.
  pub leak_blocks :
      (i now : ℕ) (rest : List Task) (session_id : String) (req : PrepareRequest)
      → take_task i w.tasks ≡ some (leaked, rest)
      → is_empty req.offered_files ≡ false
      → (claim_session now session_id req w.v2).0
        ≡ refused (message 409 "Blocked by another session")
  unfolding claim_session claim_slot
  leak_blocks i now rest session_id req e ne =
      rw (ne, (holder_owns_slot i leaked rest e refl).0) refl
