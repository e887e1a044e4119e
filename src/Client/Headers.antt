-- ===== src/Client/Headers.antt =====
-- Which headers a request carries.
use Prim.Native.String
use task_scheduling_platform.Base.{
  ◌≡◌, refl, String, true, false, Option, none, some, [], ◌∷◌, str_eq, eq_iff, arith, if◌then◌else◌,
  Bool-cases, inl, inr, subst,
}
use task_scheduling_platform.Client.State.{App, has_text}
use task_scheduling_platform.Client.Query.{
  Headers, assign, assign_all, assign_text, header, request_headers,
}

pub header-assign :
    (name j value : String) (headers : Headers)
    → header j (assign name value headers)
      ≡ (if str_eq name j then some value else header j headers)
unfolding header assign
header-assign name j value [] = refl
header-assign name j value ((k, v) ∷ rest) =
    ground (arith, eq_iff k name, eq_iff name j, eq_iff k j, header-assign name j value rest)

-- The value that is given last, or else the default.
abbrev pub last_given : String → Headers → Option String → Option String
last_given name [] d = d
last_given name ((k, v) ∷ rest) d = last_given name rest (if str_eq k name then some v else d)

header-assign_all :
    (given headers : Headers) (j : String)
    → header j (assign_all given headers) ≡ last_given j given (header j headers)
unfolding assign_all
header-assign_all [] headers j = refl
header-assign_all ((k, v) ∷ rest) headers j =
    rw (header-assign_all rest (assign k v headers) j, header-assign k j v headers)

-- The text with a prefix, where there is one that is not empty, or else the default.
abbrev pub text_given : (String → String) → Option String → Option String → Option String
text_given format none d = d
text_given format (some t) d = if has_text (some t) then some (format t) else d

header-assign_text :
    (name j : String) (format : String → String) (t : Option String) (headers : Headers)
    → header j (assign_text name format t headers)
      ≡ (if str_eq name j then text_given format t (header j headers) else header j headers)
header-assign_text name j format none headers = ground arith
header-assign_text name j format (some t) headers = elim (Bool-cases (has_text (some t))) [
  | inl e ↦ rw (e, header-assign name j (format t) headers)
  | inr e ↦ ground arith
]

not_authorization :
    (name : String) → str_eq "x-workspace-id" name ≡ true → str_eq "Authorization" name ≡ false
not_authorization name e =
    let same : "x-workspace-id" ≡ name = (eq_iff "x-workspace-id" name).0 e in
    subst (λ n. str_eq "Authorization" n ≡ false) same refl

-- Every request, whatever headers its caller gives: it carries the token of the store as a Bearer
-- token and the active workspace as x-workspace-id, in place of what the caller gives under these
-- names, where the store has one that is not empty; any other header, and these where the store has
-- none, has the value that the caller gives it last.
pub header-request_headers :
    (app : App) (given : Headers) (name : String)
    → header name (request_headers app given) ≡ (
        if str_eq "x-workspace-id" name
        then text_given (λ id. id) app.workspace.active_workspace_id (last_given name given none)
        else if str_eq "Authorization" name
        then text_given (λ t. String.◌++◌ "Bearer " t) app.auth.token (last_given name given none)
        else last_given name given none)
unfolding request_headers
header-request_headers app given name =
    rw
      (
        header-assign_text "x-workspace-id" name (λ id. id) app.workspace.active_workspace_id
            (assign_text "Authorization" (λ t. String.◌++◌ "Bearer " t) app.auth.token
              (assign_all given [])),
        header-assign_text "Authorization" name (λ t. String.◌++◌ "Bearer " t) app.auth.token
            (assign_all given []),
        header-assign_all given [] name,
      )
      (elim (Bool-cases (str_eq "x-workspace-id" name)) [
        | inl e ↦ rw (e, not_authorization name e) (unfold header in refl)
        | inr e ↦ rw e (unfold header in refl)
      ])
