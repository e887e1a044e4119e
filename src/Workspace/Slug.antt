-- ===== src/Workspace/Slug.antt =====
-- The slug that `createWorkspace` makes of a name: `toLowerCase`, runs of other characters to one
-- dash, and no dash at either end.
use Prim.Native.Char.{Char, char, code}
use Prim.Native.String
use Prim.Native.String.{String}
use task_scheduling_platform.Base.{Bool, false, ◌&&◌, ◌||◌, ◌==◌, ◌-◌, leb, if◌then◌else◌}

-- `toLowerCase`, as far as the next step can tell: A to Z, and the two other characters whose lower
-- case has a letter of a to z, the Kelvin sign and the capital I with a dot above.
abbrev pub lower : Char → String
lower c =
    if leb 65 (code c) && leb (code c) 90
    then String.◌∷◌ (String.char_at "abcdefghijklmnopqrstuvwxyz" (code c - 65)) ""
    else if code c == 8490
    then "k"
    else if code c == 304
    then "i̇"
    else String.◌∷◌ c ""

unfoldable pub lower_text : String → String
lower_text String.[] = ""
lower_text (String.◌∷◌ c s) = String.◌++◌ (lower c) (lower_text s)

-- `[a-z0-9]`
abbrev pub is_slug_char : Char → Bool
is_slug_char c = leb 97 (code c) && leb (code c) 122 || leb 48 (code c) && leb (code c) 57

abbrev pub is_dash : Char → Bool
is_dash c = code c == 45

abbrev pub starts_with_dash : String → Bool
starts_with_dash String.[] = false
starts_with_dash (String.◌∷◌ c s) = is_dash c

abbrev pub dash_char : Char
dash_char = char 45 tt

abbrev pub dash : String → String
dash rest = if starts_with_dash rest then rest else String.◌∷◌ dash_char rest

-- `.replace(/[^a-z0-9]+/g, '-')`
unfoldable pub dash_runs : String → String
dash_runs String.[] = ""
dash_runs (String.◌∷◌ c s) =
    let rest = dash_runs s in if is_slug_char c then String.◌∷◌ c rest else dash rest

abbrev pub drop_first_dash : String → String
drop_first_dash String.[] = ""
drop_first_dash (String.◌∷◌ c s) = if is_dash c then s else String.◌∷◌ c s

unfoldable pub drop_last_dash : String → String
drop_last_dash String.[] = ""
drop_last_dash (String.◌∷◌ c String.[]) = if is_dash c then "" else String.◌∷◌ c ""
drop_last_dash (String.◌∷◌ c (String.◌∷◌ d s)) = String.◌∷◌ c (drop_last_dash (String.◌∷◌ d s))

abbrev pub slugify : String → String
slugify name = drop_last_dash (drop_first_dash (dash_runs (lower_text name)))
