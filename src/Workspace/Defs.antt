-- ===== src/Workspace/Defs.antt =====
-- The methods of src/modules/workspace/workspace.service.ts.
use task_scheduling_platform.Base.{
  ℕ, String, Bool, Option, none, some, List, [], ◌∷◌, ◌==◌, is_some, text_or,
}
use Prim.Native.String
use task_scheduling_platform.Platform.Entities.{
  Workspace, WorkspaceMember, User, Json, text, number, obj, field, end,
}
use task_scheduling_platform.Platform.Io.{
  World, Io, Cached, workspace, Key, word, number as number_part, not_found, conflict, Error, throw,
  catching, writes, pure, reads, commits, or_throw, throw_if, ◌>>=◌, ◌>>◌,
}
use task_scheduling_platform.Platform.Drivers.{Platform}
use task_scheduling_platform.Cache
use task_scheduling_platform.Queue.{audit_log}
use task_scheduling_platform.Realtime.{send_member_joined}
use task_scheduling_platform.Notification.{create_and_send_notification}
use task_scheduling_platform.Users.{find_by_email, find_user}
use task_scheduling_platform.Task.Create.{quoted}
use task_scheduling_platform.Task.Find.{or_load}
use task_scheduling_platform.Guards.Defs.{is_member, has_slug}
use task_scheduling_platform.Workspace.Slug.{slugify}

abbrev pub workspace_key : ℕ → Key
workspace_key id = word "workspace" ∷ word "id" ∷ number_part id ∷ []

abbrev pub slug_key : String → Key
slug_key slug = word "workspace" ∷ word "slug" ∷ word slug ∷ []

abbrev pub put_workspaces : List Workspace → World → World
put_workspaces ws w = record w { workspaces = ws }

abbrev pub put_members : List WorkspaceMember → World → World
put_members ms w = record w { members = ms }

abbrev pub new_workspace : (name slug : String) (owner_id : ℕ) → Workspace
new_workspace name slug owner_id = record {
  id = 0;
  name = name;
  slug = slug;
  owner_id = owner_id;
  created_at = 0;
  updated_at = 0;
}

abbrev pub new_member : (workspace_id user_id : ℕ) → String → WorkspaceMember
new_member workspace_id user_id role = record {
  workspace_id = workspace_id;
  user_id = user_id;
  role = role;
  created_at = 0;
  updated_at = 0;
}

abbrev pub put_both : List Workspace → List WorkspaceMember → World → World
put_both ws ms w = record w { workspaces = ws; members = ms }

abbrev pub cached_workspace : Option Cached → Option Workspace
cached_workspace (some (workspace ws)) = some ws
cached_workspace _ = none

abbrev pub create_payload : ℕ → String → Json
create_payload id slug = obj (field "workspaceId" (number id) (field "slug" (text slug) end))

abbrev pub slug_taken : String
slug_taken = "A workspace with this slug already exists. Please choose a different slug or name."

module _ (p : Platform) where
  -- The `try` block. The writes of the query runner are the transaction's own until it commits
  -- them; the audit follows the commit.
  unfoldable pub store_workspace : (owner_id : ℕ) (name slug : String) → Io Workspace
  store_workspace owner_id name slug = do
    (saved, ws) ← reads (λ w. p.workspaces.save (new_workspace name slug owner_id) w.workspaces)
    (_, ms) ← reads (λ w. p.members.save (new_member saved.id owner_id "ADMIN") w.members)
    writes (λ w. p.commit ws ms) (λ _. put_both ws ms)
    audit_log p "WORKSPACE_CREATE" (some owner_id) (create_payload saved.id slug)
    pure saved

  -- The `catch`: where the rollback rejects, that is what is thrown. `release` gives the connection
  -- back to the pool.
  abbrev pub roll_back : {A : Type 0} → Error → Io A
  roll_back e = do reads (λ w. p.rollback); throw e

  unfoldable pub create_workspace : (owner_id : ℕ) (name : String) → Option String → Io Workspace
  create_workspace owner_id name given_slug = do
    let slug = text_or given_slug (slugify name)
    existing ← reads (λ w. p.workspaces.find_one (has_slug slug) w.workspaces)
    throw_if (is_some existing) (conflict slug_taken)
    reads (λ w. p.begin)
    catching (store_workspace owner_id name slug) roll_back

  -- What both finders do on a miss of the cache.
  unfoldable pub load_workspace : (Workspace → Bool) → Key → Io Workspace
  load_workspace test key = do
    found ← reads (λ w. p.workspaces.find_one test w.workspaces)
    ws ← or_throw found (not_found "Workspace not found")
    Cache.set p key (workspace ws) 3600
    pure ws

  unfoldable pub find_workspace : ℕ → Io Workspace
  find_workspace id = do
    cached ← Cache.get p (workspace_key id)
    or_load (cached_workspace cached) (load_workspace (λ ws. ws.id == id) (workspace_key id))

  unfoldable pub find_workspace_by_slug : String → Io Workspace
  find_workspace_by_slug slug = do
    cached ← Cache.get p (slug_key slug)
    or_load (cached_workspace cached) (load_workspace (has_slug slug) (slug_key slug))

  unfoldable pub update_workspace : (id user_id : ℕ) → String → Io Workspace
  update_workspace id user_id name = do
    ws ← find_workspace id
    saved ← commits (λ w. p.workspaces.save (record ws { name = name }) w.workspaces) put_workspaces
    Cache.del p (workspace_key id)
    Cache.del p (slug_key ws.slug)
    audit_log p "WORKSPACE_UPDATE" (some user_id) (
        obj (
          field "workspaceId" (number id) (
            field "previous" (obj (field "name" (text ws.name) end))
              (field "new" (obj (field "name" (text name) end)) end))))
    pure saved

  unfoldable pub delete_workspace : (id user_id : ℕ) → Io (Unit {0})
  delete_workspace id user_id = do
    ws ← find_workspace id
    _ ← commits (λ w. p.workspaces.remove ws w.workspaces) put_workspaces
    Cache.del p (workspace_key id)
    Cache.del p (slug_key ws.slug)
    audit_log p "WORKSPACE_DELETE" (some user_id) (create_payload id ws.slug)

  -- What follows the new membership.
  unfoldable pub announce_member :
      (workspace_id performer_id : ℕ) (email role : String)
      → Workspace
      → User
      → WorkspaceMember
      → Io WorkspaceMember
  announce_member workspace_id performer_id email role ws user saved = do
    invited ← find_user p user.id
    send_member_joined workspace_id (record {
      workspace_id = workspace_id;
      role = role;
      user_id = invited.id;
      name = invited.name;
      email = invited.email;
      avatar = invited.avatar;
    })
    _ ←
        create_and_send_notification p user.id "WORKSPACE_MEMBER_JOINED"
          (String.◌++◌ "Joined Workspace: " ws.name)
          (quoted "You have been added to the workspace \"" ws.name (quoted "\" as a " role "."))
    audit_log p "WORKSPACE_INVITE" (some performer_id) (
        obj (
          field "workspaceId" (number workspace_id) (
            field "invitedUserId" (number user.id)
              (field "invitedUserEmail" (text email) (field "role" (text role) end)))))
    pure saved

  unfoldable pub invite_member :
      (workspace_id performer_id : ℕ) (email role : String) → Io WorkspaceMember
  invite_member workspace_id performer_id email role = do
    ws ← find_workspace workspace_id
    found ← find_by_email p email
    user ← or_throw found (not_found "User with this email not found. They must register first.")
    existing ← reads (λ w. p.members.find_one (is_member workspace_id user.id) w.members)
    throw_if (is_some existing) (conflict "User is already a member of this workspace")
    saved ←
        commits (λ w. p.members.save (new_member workspace_id user.id role) w.members) put_members
    announce_member workspace_id performer_id email role ws user saved

  unfoldable pub get_members : ℕ → Io (List WorkspaceMember)
  get_members workspace_id =
      reads (λ w. p.members.find (λ m. m.workspace_id == workspace_id) w.members)

  -- The memberships, whose workspaces `getUserWorkspaces` answers with.
  unfoldable pub get_memberships : ℕ → Io (List WorkspaceMember)
  get_memberships user_id = reads (λ w. p.members.find (λ m. m.user_id == user_id) w.members)
