-- ===== src/Workspace/SlugForm.antt =====
-- What every slug made of a name looks like.
use Prim.Native.Char.{Char}
use Prim.Native.String.{String}
use task_scheduling_platform.Base.{
  Bool, true, false, ◌≡◌, ◌≢◌, ◌⊎◌, ◌&&◌, not, if◌then◌else◌, arith, inl, inr, refl, Bool-cases,
}
use task_scheduling_platform.Workspace.Slug.{
  is_slug_char, is_dash, starts_with_dash, dash, dash_runs, lower_text, drop_first_dash,
  drop_last_dash, slugify,
}

-- Letters, digits and single dashes; `after_dash` tells whether a dash came before.
abbrev pub runs_ok : Bool → String → Bool
runs_ok after_dash String.[] = true
runs_ok after_dash (String.◌∷◌ c s) =
    if is_slug_char c then runs_ok false s else is_dash c && (not after_dash && runs_ok true s)

-- The same, and the last of them is no dash.
abbrev pub tail_ok : Bool → String → Bool
tail_ok after_dash String.[] = not after_dash
tail_ok after_dash (String.◌∷◌ c s) =
    if is_slug_char c then tail_ok false s else is_dash c && (not after_dash && tail_ok true s)

dash-not-slug_char : (c : Char) → is_dash c ≡ true → is_slug_char c ≡ false
dash-not-slug_char c h = ground arith

runs_ok-starts :
    (s : String) → starts_with_dash s ≡ false → runs_ok false s ≡ true → runs_ok true s ≡ true
runs_ok-starts String.[] h k = refl
runs_ok-starts (String.◌∷◌ c s) h k = ground arith

runs_ok-dash : (s : String) → runs_ok false s ≡ true → runs_ok false (dash s) ≡ true
runs_ok-dash s h = elim (Bool-cases (starts_with_dash s)) [
  | inl starts ↦ rw starts h
  | inr other ↦ rw other (runs_ok-starts s other h)
]

runs_ok-dash_runs : (s : String) → runs_ok false (dash_runs s) ≡ true
unfolding dash_runs
runs_ok-dash_runs String.[] = refl
runs_ok-dash_runs (String.◌∷◌ c s) = elim (Bool-cases (is_slug_char c)) [
  | inl yes_char ↦ ground (arith, runs_ok-dash_runs s)
  | inr no_char ↦ let rest = runs_ok-dash (dash_runs s) (runs_ok-dash_runs s) in ground arith
]

runs_ok-drop_first : (s : String) → runs_ok false s ≡ true → runs_ok true (drop_first_dash s) ≡ true
runs_ok-drop_first String.[] h = refl
runs_ok-drop_first (String.◌∷◌ c s) h = elim (Bool-cases (is_dash c)) [
  | inl starts ↦ let no_char = dash-not-slug_char c starts in ground arith
  | inr other ↦ ground arith
]

drop_last_dash-slug_char :
    (c : Char) (s : String) → is_slug_char c ≡ true → drop_last_dash (String.◌∷◌ c s) ≢ String.[]
unfolding drop_last_dash
drop_last_dash-slug_char c String.[] h e = elim (Bool-cases (is_dash c)) [
  | inl dash_here ↦ let clash = dash-not-slug_char c dash_here in cc
  | inr kept ↦ let left : String.◌∷◌ c String.[] ≡ String.[] = rw kept at e in cc
]
drop_last_dash-slug_char c (String.◌∷◌ d s) h e = cc

drop_last_dash-ok :
    (after_dash : Bool) (s : String)
    → runs_ok after_dash s ≡ true
    → (drop_last_dash s ≡ String.[]) ⊎ (tail_ok after_dash (drop_last_dash s) ≡ true)
unfolding drop_last_dash
drop_last_dash-ok b String.[] h = inl refl
drop_last_dash-ok b (String.◌∷◌ c String.[]) h = elim (Bool-cases (is_dash c)) [
  | inl last ↦ inl (ground arith)
  | inr kept ↦ inr (ground arith)
]
drop_last_dash-ok b (String.◌∷◌ c (String.◌∷◌ d s)) h = elim (Bool-cases (is_slug_char c)) [
  | inl here ↦ elim (drop_last_dash-ok false (String.◌∷◌ d s) (ground arith)) [
    | inl gone ↦ inr (rw here (rw gone refl))
    | inr ok ↦ inr (rw here ok)
  ]
  | inr there ↦ elim (drop_last_dash-ok true (String.◌∷◌ d s) (ground arith)) [
    | inl gone ↦ absurd (drop_last_dash-slug_char d s (ground arith) gone)
    | inr ok ↦ inr (ground arith)
  ]
]

-- A slug made of a name is empty, or it is made of the letters a to z, digits and dashes, with no dash
-- at either end and no two dashes in a row.
pub slugify-IsSlug :
    (name : String) → (slugify name ≡ String.[]) ⊎ (tail_ok true (slugify name) ≡ true)
slugify-IsSlug name =
    drop_last_dash-ok true (drop_first_dash (dash_runs (lower_text name)))
      (runs_ok-drop_first (dash_runs (lower_text name)) (runs_ok-dash_runs (lower_text name)))
