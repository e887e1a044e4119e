-- ===== src/Http/Tests.antt =====
-- Replies and exceptions at concrete values.
use task_scheduling_platform.Base.{
  ℕ, ◌≡◌, ◌≤◌, ◌<◌, refl, true, false, ◌&&◌, Option, some, ltb, leb, arith, if◌then◌else◌, String,
}
use task_scheduling_platform.Platform.Entities.{Json, text, number, boolean, obj, field, end}
use task_scheduling_platform.Client.Query.{Reply, resolved, rejected, query_result, answer, failure}
use task_scheduling_platform.Http.Json.{member}
use task_scheduling_platform.Http.Envelope.{
  Js, Exception, http_exception, bypasses, intercept, catch_exception,
}
use task_scheduling_platform.Http.Replies.{
  Settles, Masks, query_result-intercept, query_result-catch_exception,
}

health_bypasses : bypasses "/api/v1/health/db" ≡ true
unfolding bypasses
health_bypasses = refl

abbrev js : Js
js = record { iso = λ n. "2026-01-01"; show = λ v. "[object Object]" }

abbrev settle_reply : ℕ → Json → Reply
settle_reply status value =
    if leb 200 status && ltb status 300
    then resolved value
    else rejected (some (status, value)) "Request failed"

settle_resolves :
    (status : ℕ) (value : Json)
    → 200 ≤ status
    → status < 300
    → settle_reply status value ≡ resolved value
settle_resolves status value lo hi = ground arith

settle_rejects :
    (status : ℕ) (value : Json)
    → 300 ≤ status
    → (m : String) × (settle_reply status value ≡ rejected (some (status, value)) m)
settle_rejects status value h = ("Request failed", ground arith)

abbrev settles : Settles settle_reply
settles = record { resolves = settle_resolves; rejects = settle_rejects }

abbrev tasks_path : String
tasks_path = "/api/v1/workspaces/5/tasks/7"

tasks_wrapped : bypasses tasks_path ≡ false
unfolding bypasses
tasks_wrapped = refl

abbrev a_task : Option Json
a_task = some (obj (field "title" (text "Write tests") end))

query_result-intercept_example :
    (body : Json) × (intercept js tasks_path 200 "c1" 5 a_task ≡ some body)
    × (query_result (settle_reply 200 body) ≡ answer (obj (field "title" (text "Write tests") end)))
query_result-intercept_example =
    query_result-intercept js settle_reply settles tasks_path "c1" 200 5 a_task tasks_wrapped refl
      (omega arith) (omega arith)

abbrev not_found_task : Exception
not_found_task =
    http_exception 404 (obj (field "message" (text "Task not found") end)) "Task not found"
      "NotFoundException"

query_result-catch_exception_example :
    let (status, body) = catch_exception js not_found_task tasks_path "c1" 5 in
    (query_result (settle_reply status body) ≡ failure 404 body)
    × (member "success" body ≡ some (boolean false))
    × (member "statusCode" body ≡ some (number 404))
    × (member "path" body ≡ some (text tasks_path))
    × (member "correlationId" body ≡ some (text "c1"))
    × Masks not_found_task body
query_result-catch_exception_example =
    query_result-catch_exception js settle_reply settles not_found_task tasks_path "c1" 5
      (omega arith)
