-- ===== src/Orgs/Slugs.antt =====
-- `generate_unique_slug` of core/apps/orgs/services.py.
pub mod Decimal
pub mod Unique
use Prim.Native.Char.{Char, code, nul}
use Prim.Native.String.{◌++◌ as join}
use text.Mathlib.Text.{◌==◌ as str_eq}
use saasmint.Base.{
  ℕ, zero, suc, ◌/◌, ◌%◌, Bool, true, false, ◌&&◌, ◌||◌, Option, none, some, List, [], ◌∷◌, String,
  ◌==◌, ltb, leb, if◌then◌else◌, any, keep, length, map,
}
use saasmint.Domain.{Org}
use saasmint.Database.{Db}

abbrev pub is_digit : Char → Bool
is_digit c = leb 48 (code c) && leb (code c) 57

-- `[a-z0-9-]`
abbrev pub is_slug_char : Char → Bool
is_slug_char c = (leb 97 (code c) && leb (code c) 122) || (is_digit c || code c == 45)

-- `re.sub(r"[^a-z0-9-]", "", base)`
unfoldable pub keep_slug_chars : String → String
keep_slug_chars String.[] = String.[]
keep_slug_chars (String.◌∷◌ c s) =
    if is_slug_char c then String.◌∷◌ c (keep_slug_chars s) else keep_slug_chars s

-- `base.strip("-")`: first the hyphens in front, then those at the end.
unfoldable pub strip_front : String → String
strip_front String.[] = String.[]
strip_front (String.◌∷◌ c s) = if code c == 45 then strip_front s else String.◌∷◌ c s

abbrev unless_hyphen : Char → String → String
unless_hyphen c String.[] = if code c == 45 then String.[] else String.◌∷◌ c String.[]
unless_hyphen c (String.◌∷◌ d s) = String.◌∷◌ c (String.◌∷◌ d s)

unfoldable pub strip_end : String → String
strip_end String.[] = String.[]
strip_end (String.◌∷◌ c s) = unless_hyphen c (strip_end s)

-- A base of less than two characters becomes "org".
abbrev pub at_least_two : String → String
at_least_two String.[] = "org"
at_least_two (String.◌∷◌ c String.[]) = "org"
at_least_two (String.◌∷◌ c (String.◌∷◌ d s)) = String.◌∷◌ c (String.◌∷◌ d s)

-- The base of the slugs of a name; `slugify` is Django's.
unfoldable pub base_of : (slugify : String → String) → String → String
unfolding keep_slug_chars strip_front strip_end
base_of slugify name = at_least_two (strip_end (strip_front (keep_slug_chars (slugify name))))

abbrev nth_char : String → ℕ → Char
nth_char String.[] n = nul
nth_char (String.◌∷◌ c s) zero = c
nth_char (String.◌∷◌ c s) (suc n) = nth_char s n

abbrev pub digit : ℕ → Char
digit n = nth_char "0123456789" n

-- The digits of a number in front of a text; a number below the fuel has enough.
unfoldable pub show_digits : (fuel n : ℕ) → String → String
show_digits zero n s = s
show_digits (suc fuel) n s =
    if ltb n 10
    then String.◌∷◌ (digit n) s
    else show_digits fuel (n / 10) (String.◌∷◌ (digit (n % 10)) s)

-- `str(n)`
unfoldable pub decimal : ℕ → String
unfolding show_digits
decimal n = show_digits (suc n) n ""

-- `f"{base}-{suffix}"`
unfoldable pub candidate : String → ℕ → String
unfolding decimal
candidate base n = join base (String.◌∷◌ "-" (decimal n))

-- What is left of a text after a prefix.
unfoldable pub strip_prefix : String → String → Option String
strip_prefix String.[] s = some s
strip_prefix (String.◌∷◌ c p) String.[] = none
strip_prefix (String.◌∷◌ c p) (String.◌∷◌ d s) = if code c == code d then strip_prefix p s else none

unfoldable pub all_digits : String → Bool
all_digits String.[] = true
all_digits (String.◌∷◌ c s) = is_digit c && all_digits s

abbrev pub some_digits : String → Bool
some_digits String.[] = false
some_digits (String.◌∷◌ c s) = all_digits (String.◌∷◌ c s)

-- `(?:-\d+)?$`; the digits of a slug are ASCII digits.
abbrev pub is_suffix : Option String → Bool
is_suffix none = false
is_suffix (some String.[]) = true
is_suffix (some (String.◌∷◌ c s)) = code c == 45 && some_digits s

-- `_suffix_re.match(slug)`
unfoldable pub matches : String → String → Bool
unfolding strip_prefix all_digits
matches base slug = is_suffix (strip_prefix base slug)

-- `existing`
unfoldable pub existing_slugs : String → Db → List String
existing_slugs base db = keep (matches base) (map (λ (o : Org). o.slug) db.orgs)

abbrev pub is_in : List String → String → Bool
is_in taken slug = any (str_eq slug) taken

-- `while f"{base}-{suffix}" in existing: suffix += 1`, with fuel.
unfoldable pub next_free : (fuel : ℕ) → List String → String → ℕ → Option String
next_free zero taken base n = none
next_free (suc fuel) taken base n =
    let rest = next_free fuel taken base (suc n) in
    if is_in taken (candidate base n) then rest else some (candidate base n)

-- `generate_unique_slug`; the loop makes at most one round more than there are slugs to avoid.
unfoldable pub generate_unique_slug : (slugify : String → String) → String → Db → Option String
unfolding base_of existing_slugs next_free
generate_unique_slug slugify name db =
    let base = base_of slugify name in
    let taken = existing_slugs base db in
    if is_in taken base then next_free (suc (length taken)) taken base 2 else some base
