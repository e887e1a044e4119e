-- ===== src/Workspace/Tests.antt =====
-- Runs of the workspace service, and its theorems at concrete inputs.
use task_scheduling_platform.Base.{ℕ, ◌+◌, ◌*◌, ◌≡◌, ◌⊎◌, refl, none, [], ◌∷◌, Elem}
use task_scheduling_platform.Platform.Entities.{User, Workspace, WorkspaceMember}
use task_scheduling_platform.Platform.Io.{World, ok, err, conflict, pair_eq, cached, key_eq}
use task_scheduling_platform.Platform.Laws.{Finds, Saves, Identifies}
use task_scheduling_platform.Cache.{get, set}
use task_scheduling_platform.Queue.{audit_log}
use task_scheduling_platform.Realtime.{send_member_joined}
use task_scheduling_platform.Notification.{create_and_send_notification}
use task_scheduling_platform.Users.{find_by_email, find_user}
use task_scheduling_platform.Workspace.Slug.{slugify, lower_text, dash_runs, drop_last_dash}
use task_scheduling_platform.Workspace.Defs.{
  store_workspace, create_workspace, load_workspace, find_workspace, announce_member, invite_member,
  slug_taken,
}
use task_scheduling_platform.Workspace.Creation.{
  StoredWorkspace, StoredMember, workspace_id, Founded, SlugAs, create_workspace_atomic,
  create_workspace-Founded,
}
use task_scheduling_platform.Workspace.Members.{JoinsOnce, Names, invite_member-JoinsOnce}
use task_scheduling_platform.Sample.Table.{
  table-Finds, table-Identifies, table-Saves, table-Saves_keyed,
}
use task_scheduling_platform.Sample.World.{sample, home}

runs : Unit {0}
unfolding get set audit_log send_member_joined create_and_send_notification find_by_email find_user
    lower_text dash_runs drop_last_dash store_workspace create_workspace load_workspace
    find_workspace announce_member invite_member cached key_eq
runs = tt

slug_of_name : slugify "  My Team's 2nd -- Workspace! " ≡ "my-team-s-2nd-workspace"
unfolding runs
slug_of_name = refl

-- A name without a Latin letter or a digit has the empty slug.
slug_of_foreign_name : slugify "Проект" ≡ ""
unfolding runs
slug_of_foreign_name = refl

abbrev member_key : WorkspaceMember → ℕ
member_key m = m.workspace_id * 1000 + m.user_id

abbrev member_saves : Saves member_key StoredMember sample.members
member_saves =
    table-Saves_keyed (λ (r : WorkspaceMember). r.workspace_id * 1000 + r.user_id) (λ n r. r)
      StoredMember (λ e. refl) (λ n e. refl)

abbrev member_finds : Finds sample.members
member_finds = table-Finds (λ (r : WorkspaceMember). r.workspace_id * 1000 + r.user_id) (λ n r. r)

abbrev user_finds : Finds sample.users
user_finds = table-Finds (λ (r : User). r.id) (λ n r. record r { id = n })

abbrev workspace_finds : Finds sample.workspaces
workspace_finds = table-Finds (λ (r : Workspace). r.id) (λ n r. record r { id = n })

abbrev workspace_ids : Identifies workspace_id sample.workspaces
workspace_ids =
    table-Identifies (λ (r : Workspace). r.id) (λ n r. record r { id = n }) (λ n r. refl)

abbrev workspace_saves : Saves workspace_id StoredWorkspace sample.workspaces
workspace_saves =
    table-Saves (λ (r : Workspace). r.id) (λ n r. record r { id = n }) (λ n r. refl) StoredWorkspace
      (λ e. refl) (λ n e. refl)

abbrev first_workspace : Workspace
first_workspace = record {
  id = 1;
  name = "My Team";
  slug = "my-team";
  owner_id = 1;
  created_at = 0;
  updated_at = 0;
}

abbrev founded : World
founded = (create_workspace sample 1 "My Team" none home).1

founds : (create_workspace sample 1 "My Team" none home).0 ≡ ok first_workspace
unfolding runs
founds = refl

create_workspace-Founded_example :
    Founded 1 "My Team" "my-team" first_workspace home founded × SlugAs none "My Team" "my-team"
create_workspace-Founded_example =
    create_workspace-Founded sample member_key workspace_finds workspace_saves workspace_ids
      member_saves 1 "My Team" none first_workspace home founded (pair_eq _ founds)

refused : (create_workspace sample 1 "My team!" none founded).0 ≡ err (conflict slug_taken)
unfolding runs
refused = refl

create_workspace_atomic_example :
    let w = (create_workspace sample 1 "My team!" none founded).1 in
    (w.workspaces ≡ founded.workspaces) × (w.members ≡ founded.members)
create_workspace_atomic_example =
    create_workspace_atomic sample 1 "My team!" none (conflict slug_taken) founded
      (create_workspace sample 1 "My team!" none founded).1 (pair_eq _ refused)

abbrev invited : World
invited = (invite_member sample 1 1 "ann@x.io" "MEMBER" (record founded { members = [] })).1

invites :
    invited.members
    ≡ record { workspace_id = 1; user_id = 1; role = "MEMBER"; created_at = 0; updated_at = 0 } ∷ []
unfolding runs
invites = refl

invite_member-JoinsOnce_example :
    JoinsOnce invited
    × ((x : WorkspaceMember)
        → Elem x invited.members
        → Elem x []
          ⊎ ((x.workspace_id ≡ 1)
              × (x.role ≡ "MEMBER")
              × Names "ann@x.io" x.user_id (record founded { members = [] })))
invite_member-JoinsOnce_example =
    invite_member-JoinsOnce sample member_key member_finds user_finds member_saves 1 1 "ann@x.io"
      "MEMBER" (record founded { members = [] }) (λ x y k l e f. absurd k)
