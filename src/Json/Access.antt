-- ===== src/Json/Access.antt =====
-- Subscripts, `.get` and truth tests on a payload.
use text.Mathlib.Text.{◌==◌ as str_eq}
use saasmint.Base.{ℕ, suc, Bool, true, false, not, Option, none, some, String, ◌==◌, if◌then◌else◌}
use saasmint.Json.Values.{
  Value, null, bool, num, real, str, arr, obj, Items, nil, cons, Entries, end, entry,
}
use saasmint.Database.Result.{Result, ok, err, Error}

-- The last of equal keys wins in `json.loads`; a Stripe object has each key once, so the first is read.
unfoldable pub lookup : String → Entries → Option Value
lookup k end = none
lookup k (entry j v r) = if str_eq j k then some v else lookup k r

-- `value.get(key, default)`
unfoldable pub get_default : String → Value → Value → Result Value
unfolding lookup
get_default k d (obj r) = elim (lookup k r) [ none ↦ ok d | some v ↦ ok v ]
get_default k d _ = err Error.attribute_error

-- `value.get(key)`
unfoldable pub get : String → Value → Result Value
unfolding get_default
get k v = get_default k null v

-- `value[key]` at a key that is a text
unfoldable pub index : String → Value → Result Value
unfolding lookup
index k (obj r) = elim (lookup k r) [ none ↦ err Error.key_error | some v ↦ ok v ]
index k _ = err Error.type_error

-- `value[i]` for i = 0 or 1. A dict has no such key, since the keys of a payload are texts.
unfoldable pub item_at : ℕ → Items → Result Value
item_at i nil = err Error.index_error
item_at i (cons v r) =
    if i == 0 then ok v else elim r [ nil ↦ err Error.index_error | cons w _ ↦ ok w ]

first_char : String → Result Value
first_char String.[] = err Error.index_error
first_char (String.◌∷◌ c s) = ok (str (String.◌∷◌ c String.[]))

char_item : ℕ → String → Result Value
unfolding first_char
char_item i String.[] = err Error.index_error
char_item i (String.◌∷◌ c s) = if i == 0 then ok (str (String.◌∷◌ c String.[])) else first_char s

unfoldable pub item : ℕ → Value → Result Value
unfolding item_at char_item
item i (arr xs) = item_at i xs
item i (str s) = char_item i s
item i (obj r) = err Error.key_error
item i _ = err Error.type_error

abbrev pub count_items : Items → ℕ
count_items nil = 0
count_items (cons v r) = suc (count_items r)

abbrev count_entries : Entries → ℕ
count_entries end = 0
count_entries (entry k v r) = suc (count_entries r)

abbrev count_chars : String → ℕ
count_chars String.[] = 0
count_chars (String.◌∷◌ c s) = suc (count_chars s)

-- `len(value)`
unfoldable pub len : Value → Result ℕ
len (arr xs) = ok (count_items xs)
len (obj r) = ok (count_entries r)
len (str s) = ok (count_chars s)
len _ = err Error.type_error

-- `bool(value)`
unfoldable pub truthy : Value → Bool
truthy null = false
truthy (bool b) = b
truthy (num n) = not (n == 0)
truthy (real n) = true
truthy (str String.[]) = false
truthy (str (String.◌∷◌ c s)) = true
truthy (arr nil) = false
truthy (arr (cons v r)) = true
truthy (obj end) = false
truthy (obj (entry k v r)) = true

-- `a or b`
unfoldable pub or_else : Value → Value → Value
unfolding truthy
or_else a b = if truthy a then a else b

-- `value == text`
unfoldable pub equals_text : String → Value → Bool
equals_text t (str s) = str_eq s t
equals_text t _ = false

-- `isinstance(value, int)` with the int that it is: a bool is an int.
unfoldable pub as_int : Value → Option ℕ
as_int (num n) = some n
as_int (bool b) = some (if b then 1 else 0)
as_int _ = none

abbrev pub empty_object : Value
empty_object = obj end
