-- ===== src/Realtime/Rooms.antt =====
-- Who hears what: a socket is in a room only once its token has verified.
use task_scheduling_platform.Base.{
  ℕ, String, true, none, some, [], ◌≡◌, inl, inr, refl, sym, ap, ◌∙◌, subst, Elem, Elem-select,
  Bool-cases, Option-cases, not, truthy,
}
use task_scheduling_platform.Platform.Io.{Room, workspace_room, user_room, ok, err, Result-cases}
use task_scheduling_platform.Platform.Drivers.{Platform, Claims}
use task_scheduling_platform.Realtime.Sockets.{
  Handshake, Socket, room_eq, extract_token, verify_access, welcome, greet, handle_connection,
  handle_join_workspace, handle_leave_workspace,
}

-- A token of the handshake verified for these claims at some time.
abbrev pub Identified : Platform → Handshake → Claims → Type 0
Identified p h c =
    (token : String) × (now : ℕ) × (extract_token h ≡ some token)
    × (verify_access p token now ≡ ok c)

abbrev pub new_socket : Handshake → Socket
new_socket h = record { handshake = h; user = none; rooms = []; connected = true }

-- The states of a socket: it connects, and then its client sends messages in any order.
pub data Reached (p : Platform) (h : Handshake) : Socket → Type 0 where
  connected : (now : ℕ) → Reached p h (handle_connection p now (new_socket h))
  joined :
      (workspace_id : ℕ) (s : Socket)
      → Reached p h s
      → Reached p h (handle_join_workspace workspace_id s)
  left :
      (workspace_id : ℕ) (s : Socket)
      → Reached p h s
      → Reached p h (handle_leave_workspace workspace_id s)

-- The socket is in no room, or its user is identified and every personal room of it is the user's.
abbrev pub IsVerified : Platform → Handshake → Socket → Type 0
IsVerified p h s =
    (room : Room)
    → Elem room s.rooms
    → (c : Claims) × (s.user ≡ some c)
      × Identified p h c
      × ((u : ℕ) → room ≡ user_room u → u ≡ c.user_id)

module _ (p : Platform) (h : Handshake) where
  -- What keeps the user of a socket identified.
  abbrev HasUser : Socket → Type 0
  HasUser s = (c : Claims) → s.user ≡ some c → Identified p h c

  user_room-injective : (a b : ℕ) → user_room a ≡ user_room b → a ≡ b
  user_room-injective a b e = cc

  connected-keeps :
      (now : ℕ) → let s = handle_connection p now (new_socket h) in HasUser s × IsVerified p h s
  unfolding handle_connection
  connected-keeps now = elim (Option-cases (extract_token h)) [
    | inl missing ↦
        let out : greet p (extract_token h) now (new_socket h) ≡ greet p none now (new_socket h) =
          ap (λ o. greet p o now (new_socket h)) missing in
        subst (λ s. HasUser s × IsVerified p h s) (sym out)
          (λ c e. absurd (cc e), λ room k. absurd k)
    | inr (token, given) ↦
        let in_ : greet p (extract_token h) now (new_socket h)
            ≡ greet p (some token) now (new_socket h) =
          ap (λ o. greet p o now (new_socket h)) given in
        subst (λ s. HasUser s × IsVerified p h s) (sym in_)
          (elim (Result-cases (verify_access p token now)) [
            | inl (c, e) ↦
                let who : Identified p h c = (token, now, given, e) in
                let well : welcome p (verify_access p token now) (new_socket h)
                    ≡ welcome p (ok c) (new_socket h) =
                  ap (λ o. welcome p o (new_socket h)) e in
                subst (λ s. HasUser s × IsVerified p h s) (sym well)
                  (
                    λ d f. subst (Identified p h) (cc f) who,
                    λ room k. (
                      c,
                      refl,
                      who,
                      λ u g. elim k [
                        | inl same ↦ user_room-injective u c.user_id (sym g ∙ same)
                        | inr nothing ↦ absurd nothing
                      ],
                    ),
                  )
            | inr (x, e) ↦
                let ill : welcome p (verify_access p token now) (new_socket h)
                    ≡ welcome p (err x) (new_socket h) =
                  ap (λ o. welcome p o (new_socket h)) e in
                subst (λ s. HasUser s × IsVerified p h s) (sym ill)
                  (λ c f. absurd (cc f), λ room k. absurd k)
          ])
  ]

  joined-keeps :
      (workspace_id : ℕ) (s : Socket)
      → HasUser s × IsVerified p h s
      → let t = handle_join_workspace workspace_id s in HasUser t × IsVerified p h t
  unfolding handle_join_workspace
  joined-keeps workspace_id s (who, safe) = elim (Bool-cases (truthy workspace_id)) [
    | inr none_named ↦ rw none_named (who, safe)
    | inl named ↦ elim (Option-cases s.user) [
      | inl missing ↦ rw (named, missing) (λ c e. absurd (cc e), λ room k. absurd k)
      | inr (c, has) ↦ elim (Bool-cases (truthy c.user_id)) [
        | inl real ↦
            rw (named, has, real)
              (
                λ d f. subst (Identified p h) (cc f) (who c has),
                λ room k. elim k [
                  | inl same ↦ (c, refl, who c has, λ u g. absurd (cc (sym g ∙ same)))
                  | inr old ↦ let (d, e, is, own) = safe room old in (d, sym has ∙ e, is, own)
                ],
              )
        | inr empty ↦
            rw (named, has, empty)
              (λ d f. subst (Identified p h) (cc f) (who c has), λ room k. absurd k)
      ]
    ]
  ]

  left-keeps :
      (workspace_id : ℕ) (s : Socket)
      → HasUser s × IsVerified p h s
      → let t = handle_leave_workspace workspace_id s in HasUser t × IsVerified p h t
  unfolding handle_leave_workspace
  left-keeps workspace_id s (who, safe) = elim (Bool-cases (truthy workspace_id)) [
    | inr none_named ↦ rw none_named (who, safe)
    | inl named ↦ rw named (
      who,
      λ room k.
          safe room
            (Elem-select (λ r. not (room_eq r (workspace_room workspace_id))) room s.rooms k).0,
    )
  ]

  Reached-keeps : (s : Socket) → Reached p h s → HasUser s × IsVerified p h s
  Reached-keeps _ (connected now) = connected-keeps now
  Reached-keeps _ (joined workspace_id s reached) =
      joined-keeps workspace_id s (Reached-keeps s reached)
  Reached-keeps _ (left workspace_id s reached) =
      left-keeps workspace_id s (Reached-keeps s reached)

  -- Whatever its client sends, in any order: a socket is in a room only if a token of its handshake
  -- has verified for its user, and the only personal room that it can be in is that user's. Of the
  -- rooms of workspaces nothing more is asked: the user need not be a member.
  pub Reached-IsVerified : (s : Socket) → Reached p h s → IsVerified p h s
  Reached-IsVerified s reached = (Reached-keeps s reached).1
