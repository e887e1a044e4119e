-- ===== src/Auth/Rotation.antt =====
-- What a refresh does: it rotates one active session, a spent token buys nothing, and a token of no
-- active session that is found revokes them all.
use task_scheduling_platform.Base.{
  ℕ, String, true, some, List, ◌≡◌, ◌≢◌, ◌⊎◌, inl, inr, sym, ap, ◌∙◌, subst, arith, Elem, ◌==◌,
}
use task_scheduling_platform.Platform.Entities.{UserSession}
use task_scheduling_platform.Platform.Io.{World, ok, err, forbidden, pair_eq}
use task_scheduling_platform.Platform.Drivers.{Platform, Claims}
use task_scheduling_platform.Platform.Laws.{Finds, Saves, Identifies, Updates}
use task_scheduling_platform.Auth.Defs.{TokenPair, is_active, revoked, alert_message, refresh}
use task_scheduling_platform.Auth.Steps.{
  rotated, Verifies, Answers, rotate-ok, refresh-ok, refresh_alert,
}

-- The database keeps the columns of a session but sets its id and dates.
abbrev pub StoredSession : UserSession → UserSession → Type 0
StoredSession e r = r ≡ record e { id = r.id; created_at = r.created_at; updated_at = r.updated_at }

abbrev pub session_id : UserSession → ℕ
session_id s = s.id

-- Every stored session has an id.
abbrev pub AllSaved : World → Type 0
AllSaved w = (x : UserSession) → Elem x w.sessions → x.id ≢ 0

-- One session at most has this hash.
abbrev pub OneHash : String → World → Type 0
OneHash hash w =
    (x y : UserSession)
    → Elem x w.sessions
    → Elem y w.sessions
    → x.token_hash ≡ hash
    → y.token_hash ≡ hash
    → x.id ≡ y.id

-- No session of the user with this hash is active.
abbrev pub IsSpent : String → ℕ → World → Type 0
IsSpent hash user_id w =
    (x : UserSession)
    → Elem x w.sessions
    → x.token_hash ≡ hash
    → x.user_id ≡ user_id
    → x.is_revoked ≡ true

-- The session `r` stands in place of the one with its id, and every other session is as before.
pub record Replaces (r : UserSession) (w w' : World) : Type 0 where
  pub stored : Elem r w'.sessions
  pub others_stay : (x : UserSession) → x.id ≢ r.id → Elem x w.sessions → Elem x w'.sessions
  pub others_only :
      (x : UserSession) → Elem x w'.sessions → (x ≡ r) ⊎ (Elem x w.sessions × (x.id ≢ r.id))

module _ (p : Platform) (saves : Saves session_id StoredSession p.sessions) where
  pub save-Replaces :
      (e r : UserSession) (ss : List UserSession) (w w' : World)
      → p.sessions.save e w.sessions ≡ ok (r, ss)
      → w'.sessions ≡ ss
      → Replaces r w w'
  save-Replaces e r ss w w' h same = record {
    stored = subst (Elem r) (sym same) (saves.saved_elem e r w.sessions ss h);
    others_stay =
        λ x ne k. subst (Elem x) (sym same) (saves.saved_others e r w.sessions ss h x k ne);
    others_only = λ x k. saves.saved_only e r w.sessions ss h x (subst (Elem x) same k);
  }

-- What a refresh that returns has done.
pub record Rotated (p : Platform) (token : String) (pair : TokenPair) (w w' : World) : Type 0 where
  pub claims : Claims
  pub verifies : Verifies p token claims w
  pub old : UserSession
  pub was_listed : Elem old w.sessions
  pub was_active : is_active claims.user_id old ≡ true
  pub had_token : old.token_hash ≡ p.sha256 token
  pub new : UserSession
  pub replaces : Replaces new w w'
  pub same_id : new.id ≡ old.id
  pub rotates : StoredSession (rotated p old pair.refresh_token) new

module _ (p : Platform) (finds : Finds p.sessions) where
  -- A spent token buys nothing: if no session of the user of a refresh token has its hash and is
  -- active, a refresh with the token never returns.
  pub refresh_spent :
      (token : String) (claims : Claims) (pair : TokenPair) (w : World)
      → Verifies p token claims w
      → IsSpent (p.sha256 token) claims.user_id w
      → (refresh p token w).0 ≢ ok pair
  refresh_spent token claims pair w verifies spent h =
      let (c, s, v, found, hash, _) =
        refresh-ok p token pair w (refresh p token w).1 (pair_eq _ h) in
      let active = finds.found_holds (is_active c.user_id) w.sessions s found in
      let listed = finds.found_elem (is_active c.user_id) w.sessions s found in
      let same : c ≡ claims = cc in
      let user : s.user_id ≡ claims.user_id = ground arith in
      let gone = spent s listed hash user in ground arith

  module _ (saves : Saves session_id StoredSession p.sessions)
      (ids : Identifies session_id p.sessions) where
    -- A refresh that returns was given a token that verifies and that an active session of the token's
    -- user has the hash of; that session now has the hash and the expiry of the new refresh token, and
    -- every other session is as before.
    pub refresh-Rotated :
        (token : String) (pair : TokenPair) (w w' : World)
        → AllSaved w
        → refresh p token w ≡ (ok pair, w')
        → Rotated p token pair w w'
    refresh-Rotated token pair w w' saved h =
        let (c, s, v, found, hash, run) = refresh-ok p token pair w w' h in
        let (r, ss, stored, after) = rotate-ok p c s pair w w' run in
        let listed = finds.found_elem (is_active c.user_id) w.sessions s found in
        record {
          claims = c;
          verifies = v;
          old = s;
          was_listed = listed;
          was_active = finds.found_holds (is_active c.user_id) w.sessions s found;
          had_token = hash;
          new = r;
          replaces = save-Replaces p saves _ r ss w w' stored (ap (λ z. z.sessions) after);
          same_id = ids.kept_id _ r w.sessions ss stored (saved s listed);
          rotates = saves.saved_columns _ r w.sessions ss stored;
        }

    -- A refresh token is good for one refresh: where one session at most has the hash of a token, and
    -- the new token has another hash, then after a refresh that returns no refresh with the old token
    -- returns, as long as the sessions are as that refresh left them.
    pub refresh_replay :
        (token : String) (claims : Claims) (pair again : TokenPair) (w w' later : World)
        → AllSaved w
        → OneHash (p.sha256 token) w
        → p.sha256 pair.refresh_token ≢ p.sha256 token
        → refresh p token w ≡ (ok pair, w')
        → later.sessions ≡ w'.sessions
        → Verifies p token claims later
        → (refresh p token later).0 ≢ ok again
    refresh_replay token claims pair again w w' later saved one differs h same v =
        let d = refresh-Rotated token pair w w' saved h in
        refresh_spent token claims again later v (λ x k hash user.
          elim (d.replaces.others_only x (subst (Elem x) same k)) [
            | inl e ↦ absurd (
                differs
                  (sym (ap (λ z. z.token_hash) d.rotates) ∙ ap (λ z. z.token_hash) (sym e) ∙ hash))
            | inr (old, ne) ↦
                absurd (ne (one x d.old old d.was_listed hash d.had_token ∙ sym d.same_id))
          ])

  module _ (updates : Updates p.sessions) where
    -- A refresh whose token verifies but is not the one of the active session that is found fails, and
    -- where the database takes the update every session of the user is revoked after it, and those of
    -- other users are as before.
    pub refresh_reuse :
        (token : String) (claims : Claims) (s : UserSession) (ss : List UserSession) (w : World)
        → Verifies p token claims w
        → Answers p claims.user_id (some s) w
        → s.token_hash ≢ p.sha256 token
        → p.sessions.update (λ x. x.user_id == claims.user_id) revoked w.sessions ≡ ok ss
        → let run = refresh p token w in
          (run.0 ≡ err (forbidden alert_message))
          × ((x : UserSession)
              → Elem x run.1.sessions
              → x.user_id ≡ claims.user_id
              → x.is_revoked ≡ true)
          × ((x : UserSession)
              → x.user_id ≢ claims.user_id
              → Elem x w.sessions
              → Elem x run.1.sessions)
    refresh_reuse token claims s ss w verifies found differs patched =
        let (js, e) = refresh_alert p token claims s ss w verifies found differs patched in
        (
          ap (λ z. z.0) e,
          λ x k user.
              let (y, old, which) =
                updates.updated_only _ revoked w.sessions ss patched x
                  (subst (Elem x) (ap (λ z. z.1.sessions) e) k) in
              elim which [
                | inl (_, same) ↦ ap (λ z. z.is_revoked) same
                | inr (other, same) ↦ absurd (ground arith)
              ],
          λ x ne k.
              subst (Elem x) (sym (ap (λ z. z.1.sessions) e))
                (updates.untouched _ revoked w.sessions ss patched x k (ground arith)),
        )
