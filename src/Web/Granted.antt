-- ===== src/Web/Granted.antt =====
-- What an accepted web session stands for:
-- packages/core/src/http/server/web.rs.
use aika.Common.{
  ◌≡◌, ◌∙◌, refl, sym, ap, subst, inl, inr, String, Bool, true, false, Option, none, some, List, [],
  ◌∷◌, any, ◌==◌, ==→≡, string_Eq, arith, Bool-cases, Option-cases, map-some, ◌⊎◌,
}
use aika.Common.HashMap.{HashMap, get, insert, remove, modify, get-insert, get-remove, get-modify}
use aika.Model.{IpAddr, ip_Eq, FileDto}
use aika.Http.{Result, ok, err}
use aika.Pin.{LruCache, check_pin}
use aika.Web.{
  WebSendSession, WebPageState, set_accepted, clear_if_pending, has_session, knows,
  clear_pending_session, set_files, ask, behind_pin, visit_new, visit, settle, download,
  download_session, download_file,
}
use aika.Web.Access.{is_valid_iff}
use aika.Web.World.{
  WebTask, deciding, clearing, WebWorld, WebAction, visits, decide, disconnect, cleanup,
  replace_files, app_leaves, take_task, remember, decide_task, disconnect_task, cleanup_task, step,
}

abbrev pub is_granted : String → List String → Bool
is_granted k granted = any (λ g. g == k) granted

abbrev Sessions : Type 0
Sessions = HashMap String WebSendSession

abbrev or_else : WebSendSession → Option WebSendSession → WebSendSession
or_else a none = a
or_else a (some b) = b

some_injective : (a b : WebSendSession) → some a ≡ some b → a ≡ b
some_injective a b e = ap (or_else a) e

earned_accepted :
    (k : String) (s : WebSendSession) (granted : List String)
    → s.accepted ≡ true
    → (s.accepted ≡ false) ⊎ (is_granted k granted ≡ true)
    → is_granted k granted ≡ true
earned_accepted k s granted accepted (inl pending) = absurd (ground (arith, accepted, pending))
earned_accepted k s granted accepted (inr was) = was

session_of_download :
    {Cache : Type 0} (o : Option String) (ip : IpAddr) (file_id : Option String)
    (web : WebPageState Cache) (dto : FileDto)
    → (download_session o ip file_id web).0 ≡ ok dto
    → (session_id : String) × (o ≡ some session_id)
      × (has_session session_id ip web ≡ true)
      × ((download_file session_id file_id web).0 ≡ ok dto)
session_of_download none ip file_id web dto e = absurd (ground (arith, e))
session_of_download (some session_id) ip file_id web dto e =
    elim (Bool-cases (has_session session_id ip web)) [
      | inl valid ↦ (session_id, refl, valid, sym (rw valid refl) ∙ e)
      | inr invalid ↦ absurd (ground (arith, invalid, e))
    ]

file_of_download :
    {Cache : Type 0} (session_id : String) (o : Option String) (web : WebPageState Cache)
    (dto : FileDto)
    → (download_file session_id o web).0 ≡ ok dto
    → (file_id : String) × (o ≡ some file_id) × (get file_id web.files ≡ some dto)
file_of_download session_id none web dto e = absurd (ground (arith, e))
file_of_download session_id (some file_id) web dto e = elim (Option-cases (get file_id web.files)) [
  | inl missing ↦ absurd (ground (arith, missing, e))
  | inr (file, found) ↦ (file_id, refl, ground (arith, found, e))
]

module _ (to_string : IpAddr → String) where
  -- A session stands at the text of its address, and is accepted only if it was granted.
  abbrev IsEarned : String → WebSendSession → List String → Type 0
  IsEarned k s granted =
      (to_string s.ip ≡ k) × ((s.accepted ≡ false) ⊎ (is_granted k granted ≡ true))

  abbrev AllEarned : Sessions → List String → Type 0
  AllEarned sessions granted =
      (k : String) (s : WebSendSession) → get k sessions ≡ some s → IsEarned k s granted

  insert_earned :
      (ip : IpAddr) (sessions : Sessions) (granted : List String)
      → AllEarned sessions granted
      → AllEarned (insert (to_string ip) (record { ip = ip; accepted = false }) sessions) granted
  insert_earned ip sessions granted v k s e = elim (Bool-cases (to_string ip == k)) [
    | inl same ↦
        let here : some (record { ip = ip; accepted = false }) ≡ some s =
          sym (get-insert (to_string ip) k _ sessions ∙ rw same refl) ∙ e in
        let fresh : record { ip = ip; accepted = false } ≡ s = some_injective _ s here in
        subst (λ t. IsEarned k t granted) fresh (==→≡ (to_string ip) k same, inl refl)
    | inr other ↦ v k s (sym (get-insert (to_string ip) k _ sessions ∙ rw other refl) ∙ e)
  ]

  remove_earned :
      (session_id : String) (sessions : Sessions) (granted : List String)
      → AllEarned sessions granted
      → AllEarned (remove session_id sessions) granted
  remove_earned session_id sessions granted v k s e = elim (Bool-cases (session_id == k)) [
    | inl same ↦ absurd (ground (arith, get-remove session_id k sessions, same, e))
    | inr other ↦ v k s (sym (get-remove session_id k sessions ∙ rw other refl) ∙ e)
  ]

  clear_earned :
      (session_id : String) (o : Option WebSendSession) (sessions : Sessions)
      (granted : List String)
      → AllEarned sessions granted
      → AllEarned (clear_if_pending session_id o sessions) granted
  clear_earned session_id none sessions granted v = v
  clear_earned session_id (some session) sessions granted v = elim (Bool-cases session.accepted) [
    | inl kept ↦ rw kept v
    | inr dropped ↦ rw dropped (remove_earned session_id sessions granted v)
  ]

  more-IsEarned :
      (id k : String) (s : WebSendSession) (granted : List String)
      → IsEarned k s granted
      → IsEarned k s (id ∷ granted)
  more-IsEarned id k s granted (at, inl pending) = (at, inl pending)
  more-IsEarned id k s granted (at, inr was) = (at, inr (ground (arith, was)))

  grant_earned :
      (session_id : String) (sessions : Sessions) (granted : List String)
      → AllEarned sessions granted
      → AllEarned (modify set_accepted session_id sessions) (session_id ∷ granted)
  grant_earned session_id sessions granted v k s e = elim (Bool-cases (session_id == k)) [
    | inl same ↦
        let (old, was, becomes) =
          map-some set_accepted (get k sessions) s
            (sym (get-modify set_accepted session_id k sessions ∙ rw same refl) ∙ e) in
        (ap (λ t. to_string t.ip) (sym becomes) ∙ (v k old was).0, inr (ground (arith, same)))
    | inr other ↦
        more-IsEarned session_id k s granted
          (v k s (sym (get-modify set_accepted session_id k sessions ∙ rw other refl) ∙ e))
  ]

  module _ {Cache : Type 0} where
    abbrev WorldEarned : WebWorld Cache → Type 0
    WorldEarned w = AllEarned w.web.sessions w.granted

    visit_new_earned :
        ⦃lru : LruCache Cache⦄
        → (known : Option String) (ip : IpAddr) (user_agent : Option String)
          (query : HashMap String String) (web : WebPageState Cache) (granted : List String)
        → AllEarned web.sessions granted
        → AllEarned (visit_new known (to_string ip) ip user_agent query web).1.sessions granted
    visit_new_earned (some k) ip user_agent query web granted v = v
    visit_new_earned none ip user_agent query web granted v =
        behind (check_pin web.pin web.pin_attempts query ip).0 _ v
      where
        behind :
            (answer : Result {0} Unit) (w : WebPageState Cache)
            → AllEarned w.sessions granted
            → AllEarned (behind_pin answer (ask (to_string ip) ip user_agent) w).1.sessions granted
        behind (ok u) w v = elim (Bool-cases w.listening) [
          | inl heard ↦ rw heard (insert_earned ip w.sessions granted v)
          | inr gone ↦ rw gone (insert_earned ip w.sessions granted v)
        ]
        behind (err e) w v = v

    settle_earned :
        (decision : Option Bool) (session_id : String) (web : WebPageState Cache)
        (granted : List String)
        → AllEarned web.sessions granted
        → AllEarned
            (settle decision session_id web).2.sessions
            (remember decision session_id granted)
    unfolding settle clear_pending_session
    settle_earned none session_id web granted v = v
    settle_earned (some false) session_id web granted v =
        clear_earned session_id (get session_id web.sessions) web.sessions granted v
    settle_earned (some true) session_id web granted v =
        grant_earned session_id web.sessions granted v

    decide_earned :
        (decision : Option Bool) (o : Option (WebTask × List WebTask)) (w : WebWorld Cache)
        → WorldEarned w
        → WorldEarned (decide_task decision o w)
    decide_earned decision none w v = v
    decide_earned decision (some (clearing _, rest)) w v = v
    decide_earned decision (some (deciding session_id, rest)) w v =
        settle_earned decision session_id w.web w.granted v

    disconnect_earned :
        (o : Option (WebTask × List WebTask)) (w : WebWorld Cache)
        → WorldEarned w
        → WorldEarned (disconnect_task o w)
    disconnect_earned none w v = v
    disconnect_earned (some (clearing _, rest)) w v = v
    disconnect_earned (some (deciding _, rest)) w v = v

    cleanup_earned :
        (o : Option (WebTask × List WebTask)) (w : WebWorld Cache)
        → WorldEarned w
        → WorldEarned (cleanup_task o w)
    unfolding clear_pending_session
    cleanup_earned none w v = v
    cleanup_earned (some (deciding _, rest)) w v = v
    cleanup_earned (some (clearing session_id, rest)) w v =
        clear_earned session_id (get session_id w.web.sessions) w.web.sessions w.granted v

    step_earned :
        ⦃lru : LruCache Cache⦄
        → (a : WebAction) (w : WebWorld Cache) → WorldEarned w
        → WorldEarned (step to_string a w)
    unfolding step visit set_files
    step_earned (visits ip user_agent query) w v =
        visit_new_earned (knows (get "sessionId" query) ip w.web) ip user_agent query w.web
          w.granted v
    step_earned (decide i decision) w v = decide_earned decision (take_task i w.tasks) w v
    step_earned (disconnect i) w v = disconnect_earned (take_task i w.tasks) w v
    step_earned (cleanup i) w v = cleanup_earned (take_task i w.tasks) w v
    step_earned (replace_files files) w v = v
    step_earned app_leaves w v = v

    -- What the server can come to from a start without sessions.
    pub data Reachable ⦃lru : LruCache Cache⦄ : WebWorld Cache → Type 0 where
      starts : (w : WebWorld Cache) → w.web.sessions ≡ [] → Reachable w
      acts : (a : WebAction) (w : WebWorld Cache) → Reachable w → Reachable (step to_string a w)

    Reachable_earned : ⦃lru : LruCache Cache⦄ → {w : WebWorld Cache} → Reachable w → WorldEarned w
    unfolding get
    Reachable_earned (starts w e) k s h = absurd (ground (arith, ap (get k) e, h))
    Reachable_earned (acts a w r) k s h = step_earned a w (Reachable_earned r) k s h

    granted_of_valid :
        ⦃lru : LruCache Cache⦄
        → {w : WebWorld Cache} (r : Reachable w) (session_id : String) (ip : IpAddr)
        → has_session session_id ip w.web ≡ true
        → (to_string ip ≡ session_id) × (is_granted session_id w.granted ≡ true)
    granted_of_valid {w} r session_id ip e =
        let (s, found, accepted, same) = (is_valid_iff ip (get session_id w.web.sessions)).0 e in
        let (at, earned) = Reachable_earned r session_id s found in
        (ap to_string (sym same) ∙ at, earned_accepted session_id s w.granted accepted earned)

    -- In every reachable world, a file is downloaded only by a client whose address is that of a
    -- session that the application has accepted, and only if it is among the files offered at that
    -- time.
    pub download_sound :
        ⦃lru : LruCache Cache⦄
        → (w : WebWorld Cache) (query : HashMap String String) (ip : IpAddr) (dto : FileDto)
        → Reachable w
        → (download query ip w.web).0 ≡ ok dto
        → (session_id : String) × (file_id : String) × (get "sessionId" query ≡ some session_id)
          × (get "fileId" query ≡ some file_id)
          × (to_string ip ≡ session_id)
          × (is_granted session_id w.granted ≡ true)
          × (get file_id w.web.files ≡ some dto)
    unfolding download
    download_sound w query ip dto r e =
        let (session_id, named, valid, served) =
          session_of_download (get "sessionId" query) ip (get "fileId" query) w.web dto e in
        let (file_id, asked, offered) =
          file_of_download session_id (get "fileId" query) w.web dto served in
        let (at, granted) = granted_of_valid r session_id ip valid in
        (session_id, file_id, named, asked, at, granted, offered)
