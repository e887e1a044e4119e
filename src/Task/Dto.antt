-- ===== src/Task/Dto.antt =====
-- The bodies and queries of task requests (src/modules/task/dto and the parameter types of
-- src/modules/task/task.service.ts), and the JSON that the audit log is given of them.
use task_scheduling_platform.Base.{ℕ, String, Option, none, some, List, [], ◌∷◌}
use task_scheduling_platform.Platform.Entities.{
  Task, Attachment, Json, null, text, number, arr, obj, nil, item, Fields, end, field, Items,
}

pub record CreateTaskDto : Type 0 where
  pub title : String
  pub description : Option String
  pub parent_task_id : Option ℕ
  pub priority : Option String
  pub assigned_to : Option ℕ
  pub due_date : Option String
  pub labels : Option (List String)
  pub attachments : Option (List Attachment)

pub record UpdateTaskDto : Type 0 where
  pub title : Option String
  pub description : Option String
  pub status : Option String
  pub priority : Option String
  pub assigned_to : Option ℕ
  pub due_date : Option String
  pub labels : Option (List String)
  pub attachments : Option (List Attachment)
  pub version : Option ℕ

pub record QueryTaskDto : Type 0 where
  pub page : Option ℕ
  pub limit : Option ℕ
  pub status : Option String
  pub priority : Option String
  pub assigned_to : Option ℕ
  pub search : Option String
  pub sort_by : Option String
  pub sort_order : Option String

-- A field that JSON leaves out if it is undefined, and one that it keeps as null.
abbrev pub opt_field : String → Option Json → Fields → Fields
opt_field name none fs = fs
opt_field name (some j) fs = field name j fs

abbrev pub null_field : String → Option Json → Fields → Fields
null_field name none fs = field name null fs
null_field name (some j) fs = field name j fs

abbrev pub opt_text : Option String → Option Json
opt_text none = none
opt_text (some s) = some (text s)

abbrev pub opt_number : Option ℕ → Option Json
opt_number none = none
opt_number (some n) = some (number n)

label_items : List String → Items
label_items [] = nil
label_items (s ∷ ss) = item (text s) (label_items ss)

attachment_items : List Attachment → Items
attachment_items [] = nil
attachment_items (a ∷ as') =
    item
      (obj (
        field "name" (text a.name) (
          field "url" (text a.url)
            (field "size" (number a.size) (field "mimeType" (text a.mime_type) end)))))
      (attachment_items as')

abbrev opt_labels : Option (List String) → Option Json
opt_labels none = none
opt_labels (some ss) = some (arr (label_items ss))

abbrev opt_attachments : Option (List Attachment) → Option Json
opt_attachments none = none
opt_attachments (some as') = some (arr (attachment_items as'))

-- `oldVal` of `updateTask`
pub old_val : Task → Json
old_val t = obj (
    field "title" (text t.title) (
      null_field "description" (opt_text t.description) (
        field "status" (text t.status) (
          field "priority" (text t.priority) (
            null_field "assignedTo" (opt_number t.assigned_to) (
              null_field "dueDate" (opt_number t.due_date)
                (field "version" (number t.version) end)))))))

pub dto_json : UpdateTaskDto → Json
dto_json dto = obj (
    opt_field "title" (opt_text dto.title) (
      opt_field "description" (opt_text dto.description) (
        opt_field "status" (opt_text dto.status) (
          opt_field "priority" (opt_text dto.priority) (
            opt_field "assignedTo" (opt_number dto.assigned_to) (
              opt_field "dueDate" (opt_text dto.due_date) (
                opt_field "labels" (opt_labels dto.labels) (
                  opt_field "attachments" (opt_attachments dto.attachments)
                    (opt_field "version" (opt_number dto.version) end)))))))))
