-- ===== src/Auth/Sessions.antt =====
-- Closing sessions: `logout` and `revokeSession`.
use task_scheduling_platform.Base.{
  ℕ, String, Option, none, some, List, ◌≡◌, ◌≢◌, ◌⊎◌, inl, inr, refl, sym, ap, ◌∙◌, subst, arith,
  eq_iff, Elem,
}
use task_scheduling_platform.Platform.Entities.{UserSession, obj, field, end, text, number}
use task_scheduling_platform.Platform.Io.{World, Result-cases, ok, pair_eq}
use task_scheduling_platform.Platform.Drivers.{Platform, Claims}
use task_scheduling_platform.Platform.Laws.{Finds, Saves, Identifies}
use task_scheduling_platform.Queue.Laws.{audit_log_sound}
use task_scheduling_platform.Auth.Defs.{
  TokenPair, has_hash, is_session_of, put_sessions, revoked, revoke_found, logout, revoke_session,
  refresh,
}
use task_scheduling_platform.Auth.Steps.{Verifies}
use task_scheduling_platform.Auth.Rotation.{
  StoredSession, session_id, AllSaved, OneHash, IsSpent, Replaces, save-Replaces, refresh_spent,
}

module _ (p : Platform) where
  revoke_found-ok :
      (o : Option UserSession) (w w' : World)
      → revoke_found p o w ≡ (ok tt, w')
      → ((o ≡ none) × (w' ≡ w))
        ⊎ ((s r : UserSession) × (ss : List UserSession) × (o ≡ some s)
            × (p.sessions.save (revoked s) w.sessions ≡ ok (r, ss))
            × (w' ≡ put_sessions ss w))
  unfolding revoke_found
  revoke_found-ok none w w' h = inl (refl, cc)
  revoke_found-ok (some s) w w' h = elim (Result-cases (p.sessions.save (revoked s) w.sessions)) [
    | inl ((r, ss), g) ↦ inr (s, r, ss, refl, ground arith, ground arith)
    | inr (x, g) ↦ absurd (ground arith)
  ]

  logout-ok :
      (token : String) (user_id : ℕ) (w w' : World)
      → logout p token user_id w ≡ (ok tt, w')
      → (o : Option UserSession) × (p.sessions.find_one
            (has_hash (p.sha256 token) user_id)
            w.sessions
          ≡ ok o)
        × (((o ≡ none) × (w'.sessions ≡ w.sessions))
            ⊎ ((s r : UserSession) × (ss : List UserSession) × (o ≡ some s)
                × (p.sessions.save (revoked s) w.sessions ≡ ok (r, ss))
                × (w'.sessions ≡ ss)))
  unfolding logout
  logout-ok token user_id w w' h =
      let payload = obj (field "tokenHash" (text (p.sha256 token)) end) in
      elim (Result-cases (p.sessions.find_one (has_hash (p.sha256 token) user_id) w.sessions)) [
        | inl (o, e) ↦ elim (Result-cases (revoke_found p o w).0) [
          | inl (_, f) ↦
              let w₁ = (revoke_found p o w).1 in
              let (js, k, _) = audit_log_sound p "LOGOUT" (some user_id) payload w₁ in
              elim (revoke_found-ok o w w₁ (pair_eq _ f)) [
                | inl (missing, same) ↦ (o, e, inl (missing, ground arith))
                | inr (s, r, ss, hit, stored, same) ↦
                    (o, e, inr (s, r, ss, hit, stored, ground arith))
              ]
          | inr (x, f) ↦ absurd (ground arith)
        ]
        | inr (x, e) ↦ absurd (ground arith)
      ]

  module _ (finds : Finds p.sessions) (saves : Saves session_id StoredSession p.sessions)
      (ids : Identifies session_id p.sessions) where
    logout_spends :
        (token : String) (user_id : ℕ) (w w' : World)
        → AllSaved w
        → OneHash (p.sha256 token) w
        → logout p token user_id w ≡ (ok tt, w')
        → IsSpent (p.sha256 token) user_id w'
    logout_spends token user_id w w' saved one h x k hash user =
        let (o, found, step) = logout-ok token user_id w w' h in
        elim step [
          | inl (missing, same) ↦
              let off =
                finds.none_found _ w.sessions x (found ∙ ap ok missing) (subst (Elem x) same k) in
              absurd (ground (arith, eq_iff x.token_hash (p.sha256 token)))
          | inr (s, r, ss, hit, stored, same) ↦
              let holds = finds.found_holds _ w.sessions s (found ∙ ap ok hit) in
              let listed = finds.found_elem _ w.sessions s (found ∙ ap ok hit) in
              let s_hash : s.token_hash ≡ p.sha256 token =
                ground (arith, eq_iff s.token_hash (p.sha256 token)) in
              elim ((save-Replaces p saves _ r ss w w' stored same).others_only x k) [
                | inl e ↦ ap (λ z. z.is_revoked) (e ∙ saves.saved_columns _ r w.sessions ss stored)
                | inr (old, ne) ↦ absurd (
                    ne (
                      one x s old listed hash s_hash
                      ∙ sym (ids.kept_id _ r w.sessions ss stored (saved s listed))))
              ]
        ]

    -- After a logout that returns, the refresh token is spent: where one session at most has its
    -- hash, no session of the user with that hash is active, so that no refresh with it returns.
    pub logout-IsSpent :
        (token : String) (user_id : ℕ) (w w' : World)
        → AllSaved w
        → OneHash (p.sha256 token) w
        → logout p token user_id w ≡ (ok tt, w')
        → IsSpent (p.sha256 token) user_id w'
          × ((claims : Claims) (again : TokenPair)
              → Verifies p token claims w'
              → claims.user_id ≡ user_id
              → (refresh p token w').0 ≢ ok again)
    logout-IsSpent token user_id w w' saved one h =
        let spent = logout_spends token user_id w w' saved one h in
        (
          spent,
          λ claims again v same.
              refresh_spent p finds token claims again w' v
                (subst (λ u. IsSpent (p.sha256 token) u w') (sym same) spent),
        )

  revoke_session-ok :
      (id user_id : ℕ) (w w' : World)
      → revoke_session p id user_id w ≡ (ok tt, w')
      → (s r : UserSession) × (ss : List UserSession) × (p.sessions.find_one
            (is_session_of id user_id)
            w.sessions
          ≡ ok (some s))
        × (p.sessions.save (revoked s) w.sessions ≡ ok (r, ss))
        × (w'.sessions ≡ ss)
  unfolding revoke_session
  revoke_session-ok id user_id w w' h =
      let payload = obj (field "sessionId" (number id) end) in
      elim (Result-cases (p.sessions.find_one (is_session_of id user_id) w.sessions)) [
        | inl (none, e) ↦ absurd (ground arith)
        | inl (some s, e) ↦ elim (Result-cases (p.sessions.save (revoked s) w.sessions)) [
          | inl ((r, ss), g) ↦
              let (js, k, _) =
                audit_log_sound p "SESSION_REVOKED" (some user_id) payload (put_sessions ss w) in
              (s, r, ss, e, g, ground arith)
          | inr (x, g) ↦ absurd (ground arith)
        ]
        | inr (x, e) ↦ absurd (ground arith)
      ]

  module _ (finds : Finds p.sessions) (saves : Saves session_id StoredSession p.sessions)
      (ids : Identifies session_id p.sessions) where
    -- A user revokes only own sessions: a revocation that returns has found a session with the id of
    -- this user, which is revoked after it, and every other session is as before.
    pub revoke_session-Replaces :
        (id user_id : ℕ) (w w' : World)
        → AllSaved w
        → revoke_session p id user_id w ≡ (ok tt, w')
        → (s r : UserSession) × Elem s w.sessions
          × (s.user_id ≡ user_id)
          × (r.id ≡ id)
          × StoredSession (revoked s) r
          × Replaces r w w'
    revoke_session-Replaces id user_id w w' saved h =
        let (s, r, ss, found, stored, same) = revoke_session-ok id user_id w w' h in
        let holds = finds.found_holds _ w.sessions s found in
        let listed = finds.found_elem _ w.sessions s found in
        (
          s,
          r,
          listed,
          ground arith,
          ids.kept_id _ r w.sessions ss stored (saved s listed) ∙ ground arith,
          saves.saved_columns _ r w.sessions ss stored,
          save-Replaces p saves _ r ss w w' stored same,
        )
