-- ===== src/Base/Texts.antt =====
-- Texts as JavaScript counts them: a character above 65535 takes two code units.
use Prim.Native.Nat.{ℕ, ◌+◌, ◌-◌}
use Prim.Native.Char.{Char, code}
use Prim.Native.String.{String}
use task_scheduling_platform.Base.Tests.{leb, if◌then◌else◌}

abbrev pub units : Char → ℕ
units c = if leb (code c) 65535 then 1 else 2

-- `text.length`
unfoldable pub text_length : String → ℕ
text_length String.[] = 0
text_length (String.◌∷◌ c s) = units c + text_length s

-- `text.substring(0, n)`. Where the cut falls inside a character of two units, JavaScript keeps its
-- first half, which is no character; here it is left out.
unfoldable pub first_units : ℕ → String → String
first_units n String.[] = String.[]
first_units n (String.◌∷◌ c s) =
    let rest = first_units (n - units c) s in
    if leb (units c) n then String.◌∷◌ c rest else String.[]
