-- ===== src/Prelude/Text.antt =====
-- Strings as the source tests them: equality, `trim()`, and `length` in UTF-16 code units.
use Prim.Native.Nat.{ℕ, ◌+◌}
use Prim.Native.Char.{code}
use Prim.Native.String.{String, ◌++◌ as text_append}
use mathlib.Core.Path.{◌≡◌, refl, sym, ap, ◌∙◌}
use mathlib.Core.Bool.{Bool, true, false, ◌&&◌, ◌||◌}
use mathlib.Core.Option.{Option, none, some}
use mathlib.Core.List.{List, [], ◌∷◌}
use text.Mathlib.Text.{◌==◌ as text_eq}
use text.Mathlib.TextEquality.{eq_iff}
use postral_core.Prelude.Tests.{leb, ltb, ◌==◌, if◌then◌else◌}

-- `===` on strings
abbrev pub str_eq : String → String → Bool
str_eq = text_eq

pub str_eq→eq : (s t : String) → str_eq s t ≡ true → s ≡ t
str_eq→eq s t = (eq_iff s t).0

pub str_eq_refl : (s : String) → str_eq s s ≡ true
str_eq_refl s = (eq_iff s s).1 (λ i. s)

-- The white space that `trim()` removes.
abbrev is_space : ℕ → Bool
is_space c =
    (leb 9 c && leb c 13)
    || c == 32
    || c == 160
    || c == 5760
    || (leb 8192 c && leb c 8202)
    || c == 8232
    || c == 8233
    || c == 8239
    || c == 8287
    || c == 12288
    || c == 65279

-- `!s.trim()`
unfoldable pub is_blank : String → Bool
is_blank String.[] = true
is_blank (String.◌∷◌ c s) = is_space (code c) && is_blank s

abbrev trim_start : String → String
trim_start String.[] = String.[]
trim_start (String.◌∷◌ c s) = if is_space (code c) then trim_start s else String.◌∷◌ c s

abbrev trim_end : String → String
trim_end String.[] = String.[]
trim_end (String.◌∷◌ c s) =
    if is_blank (String.◌∷◌ c s) then String.[] else String.◌∷◌ c (trim_end s)

-- `s.trim()`
unfoldable pub trim : String → String
trim s = trim_end (trim_start s)

-- `s.length`
unfoldable pub utf16_length : String → ℕ
utf16_length String.[] = 0
utf16_length (String.◌∷◌ c s) = (if ltb (code c) 65536 then 1 else 2) + utf16_length s

-- `Array.includes`, `Set.has`
abbrev pub includes : List String → String → Bool
includes [] s = false
includes (t ∷ ts) s = str_eq t s || includes ts s

-- `===` where either side may be missing
abbrev pub opt_eq : Option String → Option String → Bool
opt_eq none none = true
opt_eq (some s) (some t) = str_eq s t
opt_eq _ _ = false

-- A text that may be `undefined` or `null`.
pub data Field : Type 0 where
  undefined null : Field
  value : String → Field

-- A text that may be missing, as an `undefined`.
abbrev pub field_of : Option String → Field
field_of none = undefined
field_of (some s) = value s

-- `===`, and membership in a `Set`
abbrev pub field_eq : Field → Field → Bool
field_eq undefined undefined = true
field_eq null null = true
field_eq (value s) (value t) = str_eq s t
field_eq _ _ = false

-- `!text`
abbrev pub is_falsy : Field → Bool
is_falsy (value s) = str_eq s ""
is_falsy _ = true

-- `!text`, where `none` is undefined and null alike
abbrev pub is_empty : Option String → Bool
is_empty (some s) = str_eq s ""
is_empty none = true

pub field_eq→eq : (f g : Field) → field_eq f g ≡ true → f ≡ g
field_eq→eq undefined undefined h = refl
field_eq→eq undefined null h = cc
field_eq→eq undefined (value t) h = cc
field_eq→eq null undefined h = cc
field_eq→eq null null h = refl
field_eq→eq null (value t) h = cc
field_eq→eq (value s) undefined h = cc
field_eq→eq (value s) null h = cc
field_eq→eq (value s) (value t) h = ap value (str_eq→eq s t h)

pub field_eq_refl : (f : Field) → field_eq f f ≡ true
field_eq_refl undefined = refl
field_eq_refl null = refl
field_eq_refl (value s) = str_eq_refl s

pub field_eq_comm : (f g : Field) → field_eq f g ≡ field_eq g f
field_eq_comm f g = eq_of_true (field_eq f g) (field_eq g f) (swapped f g) (swapped g f)
  where
    swapped : (f g : Field) → field_eq f g ≡ true → field_eq g f ≡ true
    swapped f g h = ap (λ k. field_eq k f) (sym (field_eq→eq f g h)) ∙ field_eq_refl f

    eq_of_true : (a b : Bool) → (a ≡ true → b ≡ true) → (b ≡ true → a ≡ true) → a ≡ b
    eq_of_true true b to from = sym (to refl)
    eq_of_true false true to from = from refl
    eq_of_true false false to from = refl

-- A text as `+` reads it.
abbrev pub text_of : Field → String
text_of undefined = "undefined"
text_of null = "null"
text_of (value s) = s

-- `Array.join`
unfoldable pub join : String → List String → String
join separator [] = ""
join separator (s ∷ []) = s
join separator (s ∷ ss) = text_append (text_append s separator) (join separator ss)

-- A search by a field that is undefined or null leaves the column free.
abbrev pub where_text : Field → String → Bool
where_text undefined column = true
where_text null column = true
where_text (value s) column = str_eq column s

-- A hexadecimal digit or a dash.
abbrev is_id_char : ℕ → Bool
is_id_char c =
    (leb 48 c && leb c 57) || (leb 97 c && leb c 102) || (leb 65 c && leb c 70) || c == 45

abbrev all_id_chars : String → Bool
all_id_chars String.[] = true
all_id_chars (String.◌∷◌ c s) = is_id_char (code c) && all_id_chars s

-- The test `/^[0-9a-f-]{36}$/i`
unfoldable pub is_archive_id : String → Bool
is_archive_id s = utf16_length s == 36 && all_id_chars s
