-- ===== src/Auth/Steps.antt =====
-- The ways through `refresh`, and what each step has done.
use task_scheduling_platform.Base.{
  ℕ, String, Option, some, List, ◌≡◌, inl, inr, arith, eq_iff, str_eq, ◌==◌, ◌≢◌, Bool-cases,
}
use task_scheduling_platform.Platform.Entities.{UserSession}
use task_scheduling_platform.Platform.Io.{World, Result-cases, ok, err, pair_eq, forbidden, Job}
use task_scheduling_platform.Platform.Drivers.{Platform, Claims}
use task_scheduling_platform.Queue.Laws.{put_jobs, audit_log_sound}
use task_scheduling_platform.Auth.Defs.{
  TokenPair, is_active, put_sessions, expires_at, revoked, alert_payload, alert_message, revoke_all,
  rotate, find_active, verify_refresh, refresh,
}

module _ (p : Platform) where
  -- The session of a user with the hash of a new refresh token.
  abbrev pub rotated : UserSession → String → UserSession
  rotated s token = record s { token_hash = p.sha256 token; expires_at = expires_at p token }

  -- The ways in which a token verifies, and an active session is found.
  abbrev pub Verifies : String → Claims → World → Type 0
  Verifies token claims w = p.jwt.verify p.config.refresh_secret token w.now ≡ ok claims

  abbrev pub Answers : ℕ → Option UserSession → World → Type 0
  Answers user_id o w = p.sessions.find_one (is_active user_id) w.sessions ≡ ok o

  pub verify_refresh-ok :
      (token : String) (claims : Claims) (w w' : World)
      → verify_refresh p token w ≡ (ok claims, w')
      → Verifies token claims w × (w' ≡ w)
  unfolding verify_refresh
  verify_refresh-ok token claims w w' h =
      elim (Result-cases (p.jwt.verify p.config.refresh_secret token w.now)) [
        | inl (c, e) ↦ ground arith
        | inr (x, e) ↦ absurd (ground arith)
      ]

  pub verify_refresh-eq :
      (token : String) (claims : Claims) (w : World)
      → Verifies token claims w
      → verify_refresh p token w ≡ (ok claims, w)
  unfolding verify_refresh
  verify_refresh-eq token claims w h = ground arith

  pub find_active-ok :
      (user_id : ℕ) (s : UserSession) (w w' : World)
      → find_active p user_id w ≡ (ok s, w')
      → Answers user_id (some s) w × (w' ≡ w)
  unfolding find_active
  find_active-ok user_id s w w' h = ground arith

  pub find_active-eq :
      (user_id : ℕ) (s : UserSession) (w : World)
      → Answers user_id (some s) w
      → find_active p user_id w ≡ (ok s, w)
  unfolding find_active
  find_active-eq user_id s w h = ground arith

  pub rotate-ok :
      (claims : Claims) (s : UserSession) (pair : TokenPair) (w w' : World)
      → rotate p claims s w ≡ (ok pair, w')
      → (r : UserSession) × (ss : List UserSession) × (p.sessions.save
            (rotated s pair.refresh_token)
            w.sessions
          ≡ ok (r, ss))
        × (w' ≡ put_sessions ss w)
  unfolding rotate
  rotate-ok claims s pair w w' h =
      elim (Result-cases
        (p.jwt.sign p.config.access_secret p.config.access_expiration claims w.now)) [
          | inl (access, e) ↦
              elim (Result-cases
                (p.jwt.sign p.config.refresh_secret p.config.refresh_expiration claims w.now)) [
                  | inl (fresh, f) ↦
                      elim (Result-cases (p.sessions.save (rotated s fresh) w.sessions)) [
                        | inl ((r, ss), g) ↦ (r, ss, ground arith, ground arith)
                        | inr (x, g) ↦ absurd (ground arith)
                      ]
                  | inr (x, f) ↦ absurd (ground arith)
                ]
          | inr (x, e) ↦ absurd (ground arith)
        ]

  pub revoke_all-fails :
      (claims : Claims) (hash : String) (pair : TokenPair) (w w' : World)
      → revoke_all p claims hash w ≡ (ok pair, w')
      → ⊥
  unfolding revoke_all
  revoke_all-fails claims hash pair w w' h = ground arith

  -- A refresh that returns has rotated the active session that was found.
  pub refresh-ok :
      (token : String) (pair : TokenPair) (w w' : World)
      → refresh p token w ≡ (ok pair, w')
      → (claims : Claims) × (s : UserSession) × Verifies token claims w
        × Answers claims.user_id (some s) w
        × (s.token_hash ≡ p.sha256 token)
        × (rotate p claims s w ≡ (ok pair, w'))
  unfolding refresh
  refresh-ok token pair w w' h = elim (Result-cases (verify_refresh p token w).0) [
    | inl (claims, e) ↦
        let w₁ = (verify_refresh p token w).1 in
        let (verified, same) = verify_refresh-ok token claims w w₁ (pair_eq _ e) in
        elim (Result-cases (find_active p claims.user_id w₁).0) [
          | inl (s, f) ↦
              let w₂ = (find_active p claims.user_id w₁).1 in
              let (found, same') = find_active-ok claims.user_id s w₁ w₂ (pair_eq _ f) in
              elim (Bool-cases (str_eq s.token_hash (p.sha256 token))) [
                | inl hit ↦ (
                  claims,
                  s,
                  verified,
                  ground arith,
                  (eq_iff s.token_hash (p.sha256 token)).0 hit,
                  ground arith,
                )
                | inr miss ↦
                    absurd (revoke_all-fails claims (p.sha256 token) pair w w' (ground arith))
              ]
          | inr (x, f) ↦ absurd (ground arith)
        ]
    | inr (x, e) ↦ absurd (ground arith)
  ]

  revoke_all-eq :
      (claims : Claims) (hash : String) (ss : List UserSession) (w : World)
      → p.sessions.update (λ x. x.user_id == claims.user_id) revoked w.sessions ≡ ok ss
      → (js : List Job) × (revoke_all p claims hash w
          ≡ (err (forbidden alert_message), put_jobs js (put_sessions ss w)))
  unfolding revoke_all
  revoke_all-eq claims hash ss w patched =
      let (js, e, _) =
        audit_log_sound p "SECURITY_ALERT" (some claims.user_id) (alert_payload hash)
          (put_sessions ss w) in
      (js, ground arith)

  -- A refresh whose token is not the one of the session found.
  pub refresh_alert :
      (token : String) (claims : Claims) (s : UserSession) (ss : List UserSession) (w : World)
      → Verifies token claims w
      → Answers claims.user_id (some s) w
      → s.token_hash ≢ p.sha256 token
      → p.sessions.update (λ x. x.user_id == claims.user_id) revoked w.sessions ≡ ok ss
      → (js : List Job) × (refresh p token w
          ≡ (err (forbidden alert_message), put_jobs js (put_sessions ss w)))
  unfolding refresh
  refresh_alert token claims s ss w verifies found differs patched =
      let (js, e) = revoke_all-eq claims (p.sha256 token) ss w patched in
      let v = verify_refresh-eq token claims w verifies in
      let f = find_active-eq claims.user_id s w found in
      (js, ground (arith, eq_iff s.token_hash (p.sha256 token)))

  -- A refresh whose token is the one of the session found.
  pub refresh-eq :
      (token : String) (claims : Claims) (s : UserSession) (w : World)
      → Verifies token claims w
      → Answers claims.user_id (some s) w
      → s.token_hash ≡ p.sha256 token
      → refresh p token w ≡ rotate p claims s w
  unfolding refresh
  refresh-eq token claims s w verifies found hit =
      let v = verify_refresh-eq token claims w verifies in
      let f = find_active-eq claims.user_id s w found in
      ground (arith, eq_iff s.token_hash (p.sha256 token))
