-- ===== src/Guards/Request.antt =====
-- What the guards read of a request, and what they write to it.
use task_scheduling_platform.Base.{ℕ, String, Option, none, some, ◌==◌, str_eq, if◌then◌else◌}
use task_scheduling_platform.Platform.Entities.{WorkspaceMember}
use task_scheduling_platform.Platform.Drivers.{Claims}

-- The places where a workspace id or a slug may stand: path, query, header and body.
pub record Places (A : Type 0) : Type 0 where
  pub params : Option A
  pub query : Option A
  pub header : Option A
  pub body : Option A

-- `authorization` is the header's text split at its spaces: its first and second part.
pub record Request : Type 0 where
  pub authorization : Option (String × Option String)
  pub workspace_ids : Places ℕ
  pub slugs : Places String
  pub user : Option Claims
  pub workspace_id : Option ℕ
  pub workspace_member : Option WorkspaceMember

-- `a || b` where both may be missing or falsy
abbrev pub either_number : Option ℕ → Option ℕ → Option ℕ
either_number none b = b
either_number (some a) b = if a == 0 then b else some a

abbrev pub either_text : Option String → Option String → Option String
either_text none b = b
either_text (some a) b = if str_eq a "" then b else some a

-- The workspace id of a request, if one of the four places has one.
abbrev pub given_workspace_id : Places ℕ → Option ℕ
given_workspace_id ids =
    either_number ids.params
      (either_number ids.query (either_number ids.header (either_number ids.body none)))

abbrev pub given_slug : Places String → Option String
given_slug slugs =
    either_text slugs.params
      (either_text slugs.query (either_text slugs.header (either_text slugs.body none)))
