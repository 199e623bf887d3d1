-- ===== src/V2/World/Opening.antt =====
-- packages/core/src/http/server/v2.rs:
-- How the slot is claimed, given back, and turned into a session: each keeps the invariant.
use aika.Common.{
  ℕ, ◌<◌, ◌≡◌, refl, sym, ◌∙◌, subst, String, false, Option, none, some, List, ◌∷◌, arith, All,
}
use aika.Session.{SessionStateV2, active, UploadSessionV2, FileStatusV2, is_complete}
use aika.V2.Prepare.{PrepareRequest}
use aika.V2.World.{
  Task, notifying, deciding, aborting, receiving, failing, leaked, stuck, take_task,
}
use aika.V2.World.Counting.{holds, transfers, total, total-take_task, All-take_task, All-mono}
use aika.V2.World.Files.{Distinct, running_of_pending}
use aika.V2.World.Invariant.{holders, SlotIsSound, IsQuiet, IsQuiet-mono, Inv, IsQuiet-take_task}

pub pending_of_claims :
    (slot : Option SessionStateV2) → 0 < holders slot → slot ≡ some SessionStateV2.pending
pending_of_claims none h = absurd (omega arith)
pending_of_claims (some SessionStateV2.pending) h = refl
pending_of_claims (some (active s)) h = absurd (omega arith)

-- A new task that transfers nothing.
IsQuiet-cons :
    (t : Task) (ts : List Task)
    → ((s f : String) → transfers s f t ≡ 0)
    → IsQuiet ts t
    → All (IsQuiet ts) ts
    → All (IsQuiet (t ∷ ts)) (t ∷ ts)
IsQuiet-cons t ts h q all = (
  IsQuiet-mono (t ∷ ts) ts t (λ s f. omega (arith, h s f)) q,
  All-mono ts (λ u. IsQuiet-mono (t ∷ ts) ts u (λ s f. omega (arith, h s f))) all,
)

-- A request holders a slot that nobody holds, and waits.
pub claimed-Inv :
    (slot : Option SessionStateV2) (ts : List Task) (session_id : String) (req : PrepareRequest)
    → holders slot ≡ 0
    → ((f : String) → total (transfers session_id f) ts ≡ 0)
    → Distinct req.offered_files
    → Inv slot ts
    → Inv (some SessionStateV2.pending) (deciding session_id req ∷ ts)
claimed-Inv slot ts session_id req free fresh distinct v = record {
  owned = omega (arith, v.owned, free);
  sound = tt;
  quiet = IsQuiet-cons (deciding session_id req) ts (λ s f. refl) (fresh, distinct) v.quiet;
}

-- A request holders the slot of an abandoned session, and no guard is armed yet.
pub notifying-Inv :
    (slot : Option SessionStateV2) (ts : List Task) (old : String) (req : PrepareRequest)
    → holders slot ≡ 0
    → Distinct req.offered_files
    → Inv slot ts
    → Inv (some SessionStateV2.pending) (notifying old req ∷ ts)
notifying-Inv slot ts old req free distinct v = record {
  owned = omega (arith, v.owned, free);
  sound = tt;
  quiet = IsQuiet-cons (notifying old req) ts (λ s f. refl) distinct v.quiet;
}

-- A request holders the slot, and its guard is dropped.
pub unheard-Inv :
    (slot : Option SessionStateV2) (ts : List Task) (session_id : String)
    → holders slot ≡ 0
    → Inv slot ts
    → Inv (some SessionStateV2.pending) (aborting session_id ∷ ts)
unheard-Inv slot ts session_id free v = record {
  owned = omega (arith, v.owned, free);
  sound = tt;
  quiet = IsQuiet-cons (aborting session_id) ts (λ s f. refl) tt v.quiet;
}

module _ (i : ℕ) (ts : List Task) (t : Task) (rest : List Task)
    (picked : take_task i ts ≡ some (t, rest)) (holder : holds t ≡ 1) (slot : Option SessionStateV2)
    (v : Inv slot ts) where
  -- While a task holds the slot, the slot waits.
  pub slot_waits : slot ≡ some SessionStateV2.pending
  slot_waits =
      pending_of_claims slot (omega (arith, v.owned, total-take_task holds i ts t rest picked))

  free_rest : total holds rest ≡ 0
  free_rest =
      let owned : total holds ts ≡ 1 = subst (λ o. total holds ts ≡ holders o) slot_waits v.owned in
      omega (arith, total-take_task holds i ts t rest picked)

  -- The slot is given back.
  pub freed-Inv : Inv none rest
  freed-Inv = record {
    owned = free_rest;
    sound = tt;
    quiet = (IsQuiet-take_task i ts t rest picked v.quiet).1;
  }

  -- Another task holds the slot now.
  passed_on-Inv :
      (u : Task)
      → holds u ≡ 1
      → ((s f : String) → transfers s f u ≡ 0)
      → IsQuiet rest u
      → Inv slot (u ∷ rest)
  passed_on-Inv u takes_over idle q =
      subst (λ o. Inv o (u ∷ rest)) (sym slot_waits)
        (record {
          owned = omega (arith, free_rest, takes_over);
          sound = tt;
          quiet = IsQuiet-cons u rest idle q (IsQuiet-take_task i ts t rest picked v.quiet).1;
        })

  -- The guard is dropped: its cleanup holds the slot now.
  pub dropped-Inv : (session_id : String) → Inv slot (aborting session_id ∷ rest)
  dropped-Inv session_id = passed_on-Inv (aborting session_id) refl (λ s f. refl) tt

  -- The request is dropped without a guard.
  pub leaked-Inv : Inv slot (leaked ∷ rest)
  leaked-Inv = passed_on-Inv leaked refl (λ s f. refl) tt

  -- The request draws a fresh session ID and waits for the decision.
  pub announced-Inv :
      (session_id : String) (req : PrepareRequest)
      → ((f : String) → total (transfers session_id f) ts ≡ 0)
      → Distinct req.offered_files
      → Inv slot (deciding session_id req ∷ rest)
  announced-Inv session_id req fresh distinct =
      passed_on-Inv (deciding session_id req) refl (λ s f. refl)
        (
          λ f. omega (arith, fresh f, total-take_task (transfers session_id f) i ts t rest picked),
          distinct,
        )

  -- The slot becomes a session, none of whose files is being received yet.
  pub opened-Inv :
      (s : UploadSessionV2)
      → ((f : String) → total (transfers s.session_id f) ts ≡ 0)
      → All (λ x. x.1.status ≡ FileStatusV2.pending) s.files
      → is_complete s ≡ false
      → Distinct s.files
      → Inv (some (active s)) rest
  opened-Inv s fresh waiting more distinct = record {
    owned = free_rest;
    sound = record {
      tracked = λ f. omega (
        arith,
        fresh f,
        total-take_task (transfers s.session_id f) i ts t rest picked,
        running_of_pending f s.files waiting,
      );
      unfinished = more;
      distinct = distinct;
    };
    quiet = (IsQuiet-take_task i ts t rest picked v.quiet).1;
  }

SlotIsSound-same :
    (slot : Option SessionStateV2) (ts us : List Task)
    → ((s f : String) → total (transfers s f) us ≡ total (transfers s f) ts)
    → SlotIsSound slot ts
    → SlotIsSound slot us
SlotIsSound-same none ts us h v = tt
SlotIsSound-same (some SessionStateV2.pending) ts us h v = tt
SlotIsSound-same (some (active s)) ts us h v = record {
  tracked = λ f. h s.session_id f ∙ v.tracked f;
  unfinished = v.unfinished;
  distinct = v.distinct;
}

-- Another task stands for a transfer.
module _ (i : ℕ) (ts : List Task) (session_id file_id : String) (rest : List Task)
    (slot : Option SessionStateV2)
    (picked : take_task i ts ≡ some (receiving session_id file_id, rest)) (v : Inv slot ts) where
  handed_to-Inv :
      (u : Task)
      → holds u ≡ 0
      → ((s f : String) → transfers s f u ≡ transfers s f (receiving session_id file_id))
      → IsQuiet (u ∷ rest) u
      → Inv slot (u ∷ rest)
  handed_to-Inv u free like q = record {
    owned = omega (
      arith,
      v.owned,
      free,
      total-take_task holds i ts (receiving session_id file_id) rest picked,
    );
    sound = SlotIsSound-same slot ts (u ∷ rest) same v.sound;
    quiet = (q, All-mono rest kept (All-take_task (IsQuiet ts) i ts _ rest picked v.quiet).1);
  }
    where
      same : (s f : String) → total (transfers s f) (u ∷ rest) ≡ total (transfers s f) ts
      same s f = omega (
        arith,
        like s f,
        total-take_task (transfers s f) i ts (receiving session_id file_id) rest picked,
      )

      kept : (x : Task) → IsQuiet ts x → IsQuiet (u ∷ rest) x
      kept x = IsQuiet-mono (u ∷ rest) ts x (λ s f. omega (arith, same s f))

  -- A transfer is handed over to the cleanup of its dropped guard.
  pub handed-Inv : Inv slot (failing session_id file_id ∷ rest)
  handed-Inv = handed_to-Inv (failing session_id file_id) refl (λ s f. refl) tt

  -- A transfer is dropped without a guard.
  pub stuck-Inv : Inv slot (stuck session_id file_id ∷ rest)
  stuck-Inv = handed_to-Inv (stuck session_id file_id) refl (λ s f. refl) tt
