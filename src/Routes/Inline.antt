-- ===== src/Routes/Inline.antt =====
-- The methods of controllers that do more than call a service: getAuditLogs of audit.controller.ts
-- and getAttachmentPresign of task.controller.ts, with files.service.ts, which it calls.
use Prim.Native.String
use task_scheduling_platform.Base.{
  ℕ, zero, suc, ◌*◌, String, Option, none, some, List, str_eq, text_or, if◌then◌else◌,
}
use task_scheduling_platform.Platform.Entities.{AuditLog}
use task_scheduling_platform.Platform.Io.{Io, ◌>>=◌, Result, pure, throw, reads, forbidden}

-- `(page - 1) * limit`, which is below zero for page 0.
pub data Offset : Type 0 where
  plus minus : ℕ → Offset

unfoldable pub offset : (page limit : ℕ) → Offset
offset zero limit = minus limit
offset (suc n) limit = plus (n * limit)

abbrev number_or : ℕ → Option ℕ → ℕ
number_or d none = d
number_or d (some n) = n

module _
    (logs_and_count : (take : ℕ)
      → (skip : Offset) → List AuditLog
      → Result (List AuditLog × ℕ)) where
  -- The page and the limit of the query are numerals, or missing; the logs come newest first.
  unfoldable pub get_audit_logs : (email : String) (page limit : Option ℕ) → Io (List AuditLog × ℕ)
  unfolding offset
  get_audit_logs email page limit =
      let take = number_or 50 limit in
      if str_eq email "admin@gmail.com"
      then reads (λ w. logs_and_count take (offset (number_or 1 page) take) w.audit_logs)
      else throw (forbidden "Only system administrators can access global security audit logs.")

-- `getSignedUrl` of the S3 client for a PutObjectCommand and for a GetObjectCommand.
pub record Signer : Type 0 where
  pub sign_put :
      (bucket key : String) (content_type : Option String) (expires_in : ℕ) → Result String
  pub sign_get : (bucket key : String) (expires_in : ℕ) → Result String

abbrev pub bucket_name : (configured : Option String) → String
bucket_name configured = text_or configured "task-attachments"

pub record Presigned : Type 0 where
  pub upload_url : String
  pub download_url : String
  pub key : String

-- A text in a template, where a missing one reads `undefined`.
abbrev template : Option String → String
template none = "undefined"
template (some s) = s

abbrev pub attachment_key : (workspace task uuid : String) (filename : Option String) → String
attachment_key workspace task uuid filename = String.◌++◌ "workspaces/" (
    String.◌++◌ workspace (
      String.◌++◌ "/tasks/" (
        String.◌++◌ task
          (String.◌++◌ "/" (String.◌++◌ uuid (String.◌++◌ "-" (template filename)))))))

module _ (signer : Signer) (bucket : String) where
  -- Both methods log an error and throw it again.
  abbrev pub get_upload_presigned_url :
      (key : String) (content_type : Option String) (expires_in : ℕ) → Io String
  get_upload_presigned_url key content_type expires_in =
      reads (λ w. signer.sign_put bucket key content_type expires_in)

  abbrev pub get_download_presigned_url : (key : String) (expires_in : ℕ) → Io String
  get_download_presigned_url key expires_in = reads (λ w. signer.sign_get bucket key expires_in)

  -- `uuid` is what `uuidv4()` gives.
  unfoldable pub get_attachment_presign :
      (workspace task uuid : String) (filename content_type : Option String) → Io Presigned
  get_attachment_presign workspace task uuid filename content_type =
      let key = attachment_key workspace task uuid filename in
      do
        upload ← get_upload_presigned_url key content_type 3600
        download ← get_download_presigned_url key 3600
        pure (record { upload_url = upload; download_url = download; key = key })
