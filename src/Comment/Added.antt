-- ===== src/Comment/Added.antt =====
-- What a comment that is added leaves behind.
use task_scheduling_platform.Base.{
  ℕ, String, true, none, some, List, ◌≡◌, ◌≢◌, ◌⊎◌, inl, inr, refl, sym, subst, arith, Elem,
}
use task_scheduling_platform.Platform.Entities.{Task, Comment}
use task_scheduling_platform.Platform.Io.{World, Io, Result, Result-cases, reads, ok}
use task_scheduling_platform.Platform.Drivers.{Platform}
use task_scheduling_platform.Platform.Laws.{Finds, Saves, Identifies}
use task_scheduling_platform.Platform.Loops.{for_each, for_each-keeps}
use task_scheduling_platform.Realtime.{send_comment_created}
use task_scheduling_platform.Notification.Frame.{Framed, framed, Notifies, Notifies-trans}
use task_scheduling_platform.Task.Find.{is_task_of}
use task_scheduling_platform.Comment.{
  new_comment, put_comments, notify_target, announce_comment, add_comment,
}

abbrev pub StoredComment : Comment → Comment → Type 0
StoredComment e r = r ≡ record e { id = r.id; created_at = r.created_at; updated_at = r.updated_at }

abbrev pub comment_id : Comment → ℕ
comment_id c = c.id

-- What an addition that returns `r` has done.
pub record Added (workspace_id task_id user_id : ℕ) (message : String) (r : Comment) (w w' : World)
    : Type 0 where
  pub task : Task
  pub listed : Elem task w.tasks
  pub live : is_task_of task_id workspace_id task ≡ true
  pub stored : Elem r w'.comments
  pub columns : StoredComment (new_comment task_id user_id message) r
  pub fresh : (x : Comment) → Elem x w.comments → x.id ≢ r.id
  pub others_stay : (x : Comment) → Elem x w.comments → Elem x w'.comments
  pub others_only : (x : Comment) → Elem x w'.comments → (x ≡ r) ⊎ Elem x w.comments
  pub same_tasks : w'.tasks ≡ w.tasks

reads-Framed : {A : Type 0} (f : World → Result A) → Framed (reads f)
reads-Framed f w = refl

for_each-Framed :
    {A : Type 0} (xs : List A) (f : A → Io (Unit {0}))
    → ((x : A) → Framed (f x))
    → Framed (for_each xs f)
for_each-Framed xs f h w =
    for_each-keeps (Notifies w) f xs w (λ x k v g. Notifies-trans w v _ g (h x v)) refl

module _ (p : Platform) where
  notify_target-Framed :
      (t : Task) (message : String) (target : ℕ) → Framed (notify_target p t message target)
  unfolding notify_target
  notify_target-Framed t message target = search framed depth 8

  announce_comment-Framed :
      (workspace_id task_id user_id : ℕ) (message : String) (t : Task) (saved : Comment)
      → Framed (announce_comment p workspace_id task_id user_id message t saved)
  unfolding announce_comment send_comment_created
  announce_comment-Framed workspace_id task_id user_id message t saved =
      search (framed, reads-Framed, for_each-Framed, notify_target-Framed) depth 12

  pub add_comment-ok :
      (workspace_id task_id user_id : ℕ) (message : String) (r : Comment) (w w' : World)
      → add_comment p workspace_id task_id user_id message w ≡ (ok r, w')
      → (t : Task) × (s : Comment) × (cs : List Comment) × (p.tasks.find_one
            (is_task_of task_id workspace_id)
            w.tasks
          ≡ ok (some t))
        × (p.comments.save (new_comment task_id user_id message) w.comments ≡ ok (s, cs))
        × (announce_comment p workspace_id task_id user_id message t s (put_comments cs w)
            ≡ (ok r, w'))
  unfolding add_comment
  add_comment-ok workspace_id task_id user_id message r w w' h =
      elim (Result-cases (p.tasks.find_one (is_task_of task_id workspace_id) w.tasks)) [
        | inl (none, e) ↦ absurd (ground arith)
        | inl (some t, e) ↦
            elim (Result-cases (p.comments.save (new_comment task_id user_id message) w.comments)) [
              | inl ((s, cs), f) ↦ (t, s, cs, e, f, ground arith)
              | inr (x, f) ↦ absurd (ground arith)
            ]
        | inr (x, e) ↦ absurd (ground arith)
      ]

  announce_comment-eq :
      (workspace_id task_id user_id : ℕ) (message : String) (t : Task) (s r : Comment)
      (w w' : World)
      → announce_comment p workspace_id task_id user_id message t s w ≡ (ok r, w')
      → r ≡ s
  unfolding announce_comment
  announce_comment-eq workspace_id task_id user_id message t s r w w' h = ground arith

  module _ (tasks : Finds p.tasks) (saves : Saves comment_id StoredComment p.comments)
      (ids : Identifies comment_id p.comments) where
    -- An addition that returns has found a live task with the id in the workspace, and has stored one
    -- new comment of the user on it with the message; the other comments, and the tasks, are as before.
    pub add_comment-Added :
        (workspace_id task_id user_id : ℕ) (message : String) (r : Comment) (w w' : World)
        → add_comment p workspace_id task_id user_id message w ≡ (ok r, w')
        → Added workspace_id task_id user_id message r w w'
    add_comment-Added workspace_id task_id user_id message r w w' h =
        let (t, s, cs, found, stored, rest) =
          add_comment-ok workspace_id task_id user_id message r w w' h in
        let v = put_comments cs w in
        let same : r ≡ s =
          announce_comment-eq workspace_id task_id user_id message t s r v w' rest in
        let notifies =
          subst (λ z. Notifies v z.1) rest
            (announce_comment-Framed workspace_id task_id user_id message t s v) in
        let rows : w'.comments ≡ cs = cc notifies in
        let saved : p.comments.save (new_comment task_id user_id message) w.comments ≡ ok (r, cs) =
          subst (λ z. p.comments.save (new_comment task_id user_id message) w.comments ≡ ok (z, cs))
            (sym same) stored in
        let apart = (ids.fresh_id _ r w.comments cs saved refl).1 in
        record {
          task = t;
          listed = tasks.found_elem _ w.tasks t found;
          live = tasks.found_holds _ w.tasks t found;
          stored = subst (Elem r) (sym rows) (saves.saved_elem _ r w.comments cs saved);
          columns = saves.saved_columns _ r w.comments cs saved;
          fresh = apart;
          others_stay = λ x k.
              subst (Elem x) (sym rows)
                (saves.saved_others _ r w.comments cs saved x k (apart x k));
          others_only = λ x k.
              elim (saves.saved_only _ r w.comments cs saved x (subst (Elem x) rows k)) [
                | inl new ↦ inl new
                | inr (old, _) ↦ inr old
              ];
          same_tasks = cc notifies;
        }
