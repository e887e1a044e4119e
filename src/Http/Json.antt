-- ===== src/Http/Json.antt =====
-- JSON values as JavaScript reads them.
use task_scheduling_platform.Base.{
  String, Bool, true, false, Option, none, some, str_eq, truthy, nonempty, if◌then◌else◌,
}
use task_scheduling_platform.Platform.Entities.{
  Json, null, text, number, boolean, arr, obj, Fields, end, field,
}

-- `if (value)`
abbrev pub is_truthy : Json → Bool
is_truthy null = false
is_truthy (text s) = nonempty s
is_truthy (number n) = truthy n
is_truthy (boolean b) = b
is_truthy (arr _) = true
is_truthy (obj _) = true

-- A member of an object: `none` where it has none of that name.
abbrev pub member_of : String → Fields → Option Json
member_of name end = none
member_of name (field k v rest) = if str_eq k name then some v else member_of name rest

abbrev pub member : String → Json → Option Json
member name (obj fields) = member_of name fields
member name _ = none

-- `typeof value === 'object' && name in value`, for a value that is not null
abbrev pub has_member : String → Json → Bool
has_member name value = elim (member name value) [ none ↦ false | some _ ↦ true ]

-- `typeof value === 'object' && value[name] ? value[name] : d`
abbrev pub truthy_or : Option Json → Json → Json
truthy_or none d = d
truthy_or (some v) d = if is_truthy v then v else d
