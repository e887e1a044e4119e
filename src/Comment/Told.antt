-- ===== src/Comment/Told.antt =====
-- Who hears of a comment: the personal rooms that its notifications go to.
use task_scheduling_platform.Base.{
  ℕ, String, some, List, [], ◌∷◌, ◌++◌, ◌≡◌, ◌≢◌, ◌⊎◌, ◌↔◌, inl, inr, refl, sym, ap, ◌∙◌, subst,
  arith, Elem, ◌==◌,
}
use task_scheduling_platform.Platform.Entities.{
  Task, Comment, Notification, number, obj, field, end,
}
use task_scheduling_platform.Platform.Io.{
  notification_message, comment_message, World, Room, user_room, workspace_room, Emission,
  Result-cases, ok, pair_eq,
}
use task_scheduling_platform.Platform.Drivers.{Platform}
use task_scheduling_platform.Platform.Laws.{Finds}
use task_scheduling_platform.Platform.Loops.{for_each}
use task_scheduling_platform.Queue.Laws.{put_jobs, audit_log_sound, activity_log_sound}
use task_scheduling_platform.Realtime.{put_emission, send_comment_created}
use task_scheduling_platform.Notification.{new_notification, create_and_send_notification}
use task_scheduling_platform.Task.Coherence.{IsTaskOf, is_task_of-IsTaskOf}
use task_scheduling_platform.Task.Create.{quoted}
use Prim.Native.String
use task_scheduling_platform.Comment.{
  excerpt, targets, notify_target, announce_comment, add_comment, put_comments,
}
use task_scheduling_platform.Comment.Added.{add_comment-ok}
use task_scheduling_platform.Comment.Targets.{AllDifferent, targets_iff}

-- A user whose room is sent to, before the users that are sent to later.
abbrev hear : Room → List ℕ → List ℕ
hear (user_room u) us = u ∷ us
hear (workspace_room _) us = us

-- The users to whose rooms something was sent, oldest first.
abbrev pub told : List Emission → List ℕ
told [] = []
told (e ∷ es) = hear e.room (told es)

hear-append : (r : Room) (us vs : List ℕ) → hear r (us ++ vs) ≡ hear r us ++ vs
hear-append (user_room u) us vs = refl
hear-append (workspace_room _) us vs = refl

told-append : (xs ys : List Emission) → told (xs ++ ys) ≡ told xs ++ told ys
told-append [] ys = refl
told-append (e ∷ es) ys =
    ap (hear e.room) (told-append es ys) ∙ hear-append e.room (told es) (told ys)

append_nothing : (us : List ℕ) → us ++ [] ≡ us
append_nothing [] = refl
append_nothing (u ∷ us) = ap (λ z. u ∷ z) (append_nothing us)

append_one : (us : List ℕ) (u : ℕ) (vs : List ℕ) → (us ++ u ∷ []) ++ vs ≡ us ++ u ∷ vs
append_one [] u vs = refl
append_one (v ∷ us) u vs = ap (λ z. v ∷ z) (append_one us u vs)

module _ (p : Platform) where
  create_and_send_notification-told :
      (u : ℕ) (type title message : String) (w : World) (n : Notification) (v : World)
      → create_and_send_notification p u type title message w ≡ (ok n, v)
      → told v.emitted ≡ told w.emitted ++ u ∷ []
  unfolding create_and_send_notification
  create_and_send_notification-told u type title message w n v h =
      elim (Result-cases
        (p.notifications.save (new_notification u type title message) w.notifications)) [
          | inl ((s, ns), e) ↦
              let sent : Emission = record {
                room = user_room u;
                event = "notification.created";
                message = notification_message s;
              } in
              let last : v.emitted ≡ w.emitted ++ sent ∷ [] = ground arith in
              ap told last ∙ told-append w.emitted (sent ∷ [])
          | inr (x, e) ↦ absurd (ground arith)
        ]

  notify_target-told :
      (t : Task) (message : String) (u : ℕ) (w v : World)
      → notify_target p t message u w ≡ (ok tt, v)
      → told v.emitted ≡ told w.emitted ++ u ∷ []
  unfolding notify_target
  notify_target-told t message u w v h =
      let title = String.◌++◌ "New Comment on: " t.title in
      let body =
        quoted "A new comment was added to the task \"" t.title
          (quoted "\": \"" (excerpt message) "\"") in
      let run = create_and_send_notification p u "COMMENT_ADDED" title body w in
      elim (Result-cases run.0) [
        | inl (n, e) ↦
            let after : run.1 ≡ v = ground arith in
            subst (λ (z : World). told z.emitted ≡ told w.emitted ++ u ∷ []) after
              (create_and_send_notification-told u "COMMENT_ADDED" title body w n run.1
                (pair_eq run e))
        | inr (x, e) ↦ absurd (ground arith)
      ]

  for_each-told :
      (t : Task) (message : String) (us : List ℕ) (w v : World)
      → for_each us (notify_target p t message) w ≡ (ok tt, v)
      → told v.emitted ≡ told w.emitted ++ us
  unfolding for_each
  for_each-told t message [] w v h =
      let same : w ≡ v = ground arith in
      subst (λ (z : World). told z.emitted ≡ told w.emitted ++ []) same
        (sym (append_nothing (told w.emitted)))
  for_each-told t message (u ∷ us) w v h =
      let run = notify_target p t message u w in
      elim (Result-cases run.0) [
        | inl (_, e) ↦
            let rest : for_each us (notify_target p t message) run.1 ≡ (ok tt, v) = ground arith in
            for_each-told t message us run.1 v rest
            ∙ ap (λ z. z ++ us) (notify_target-told t message u w run.1 (pair_eq run e))
            ∙ append_one (told w.emitted) u us
        | inr (x, e) ↦ absurd (ground arith)
      ]

  announce_comment-told :
      (workspace_id task_id user_id : ℕ) (message : String) (t : Task) (s r : Comment) (w v : World)
      → announce_comment p workspace_id task_id user_id message t s w ≡ (ok r, v)
      → told v.emitted ≡ told w.emitted ++ targets t user_id
  unfolding announce_comment send_comment_created
  announce_comment-told workspace_id task_id user_id message t s r w v h =
      elim (Result-cases (p.comments.find_one (λ c. c.id == s.id) w.comments)) [
        | inl (c, e) ↦
            let sent : Emission = record {
              room = workspace_room workspace_id;
              event = "comment.created";
              message = comment_message c;
            } in
            let w₁ = put_emission sent w in
            let payload = obj (
              field "commentId" (number s.id) (
                field "taskId" (number task_id) (field "workspaceId" (number workspace_id) end))) in
            let (js, k, _) = audit_log_sound p "COMMENT_CREATE" (some user_id) payload w₁ in
            let w₂ = put_jobs js w₁ in
            let (ks, l, _) =
              activity_log_sound p workspace_id "TASK" task_id "COMMENT_ADDED" user_id w₂ in
            let w₃ = put_jobs ks w₂ in
            let loop = for_each (targets t user_id) (notify_target p t message) w₃ in
            elim (Result-cases loop.0) [
              | inl (_, f) ↦
                  let last : loop.1 ≡ v = ground arith in
                  let before : told w₃.emitted ≡ told w.emitted =
                    told-append w.emitted (sent ∷ []) ∙ append_nothing (told w.emitted) in
                  subst (λ (z : World). told z.emitted ≡ told w.emitted ++ targets t user_id) last
                    (for_each-told t message (targets t user_id) w₃ loop.1 (pair_eq loop f)
                      ∙ ap (λ z. z ++ targets t user_id) before)
              | inr (x, f) ↦ absurd (ground arith)
            ]
        | inr (x, e) ↦ absurd (ground arith)
      ]

  -- An addition that returns has found a live task with the id in the workspace, and has sent to the
  -- personal rooms of these users and of no others, to each once: the assignee of the task and its
  -- creator, but not the author of the comment.
  pub add_comment-told :
      (finds : Finds p.tasks) (workspace_id task_id user_id : ℕ) (message : String) (r : Comment)
      (w w' : World)
      → add_comment p workspace_id task_id user_id message w ≡ (ok r, w')
      → (t : Task) × Elem t w.tasks
        × IsTaskOf task_id workspace_id t
        × (us : List ℕ) × (told w'.emitted ≡ told w.emitted ++ us)
        × ((u : ℕ)
            → Elem u us
              ↔ ((u ≢ user_id) × (((t.assigned_to ≡ some u) × (u ≢ 0)) ⊎ (t.created_by ≡ u))))
        × AllDifferent us
  add_comment-told finds workspace_id task_id user_id message r w w' h =
      let (t, s, cs, found, stored, rest) =
        add_comment-ok p workspace_id task_id user_id message r w w' h in
      let (who, once) = targets_iff t user_id in
      (
        t,
        finds.found_elem _ w.tasks t found,
        is_task_of-IsTaskOf task_id workspace_id t (finds.found_holds _ w.tasks t found),
        targets t user_id,
        announce_comment-told workspace_id task_id user_id message t s r (put_comments cs w) w'
            rest,
        who,
        once,
      )
