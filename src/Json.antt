-- ===== src/Json.antt =====
-- The JSON values of event payloads, as Python sees them (dict[str, object] in schemas.py and
-- persistence/repositories.py), with the operations on them that the code uses.
use z_apply_backend.Base.Int.{ℤ, pos}
use z_apply_backend.Base.{
  ℕ, ◌^◌, ◌≡◌, String, Bool, true, false, not, ◌||◌, Option, none, some, ◌==◌, str_eq,
  if◌then◌else◌,
}

-- `float` holds the bit pattern of an IEEE double.
mutual
  pub data Value : Type 0 where
    null : Value
    bool : Bool → Value
    int : ℤ → Value
    float : ℕ → Value
    str : String → Value
    arr : Elements → Value
    obj : Fields → Value

  pub data Fields : Type 0 where
    end : Fields
    field : String → Value → Fields → Fields

  pub data Elements : Type 0 where
    no_elements : Elements
    element : Value → Elements → Elements

-- `payload.get(key)`: the entries of a dict have distinct keys, the first one counts.
unfoldable pub get : String → Fields → Option Value
get k end = none
get k (field j v fs) = if str_eq j k then some v else get k fs

-- `payload.get(key)` read as a value: a missing key is None.
unfoldable pub get_or_null : String → Fields → Value
unfolding get
get_or_null k fs = elim (get k fs) [ none ↦ null | some v ↦ v ]

is_zero : ℤ → Bool
is_zero (pos n) = n == 0
is_zero _ = false

-- Python's truth value: both signed zeros of a float are false.
unfoldable pub truthy : Value → Bool
unfolding is_zero
truthy null = false
truthy (bool b) = b
truthy (int n) = not (is_zero n)
truthy (float bits) = not (bits == 0 || bits == 2 ^ 63)
truthy (str s) = not (str_eq s "")
truthy (arr no_elements) = false
truthy (arr (element v vs)) = true
truthy (obj end) = false
truthy (obj (field k v fs)) = true

-- `a or b`
unfoldable pub or_else : Value → Value → Value
unfolding truthy
or_else a b = if truthy a then a else b

-- None for a missing text, as it goes into a dict.
abbrev pub opt_str : Option String → Value
opt_str none = null
opt_str (some s) = str s

-- What the code uses of Python's standard library on texts, numbers and times: `UUID(text)`, which
-- raises ValueError on `none`; `str(uuid)`; `datetime.isoformat()`; `str(value)`; `int(value)`,
-- which raises on `none`. A UUID is its 128-bit number and a datetime its number of microseconds.
pub record Python : Type 0 where
  pub parse_uuid : String → Option ℕ
  pub print_uuid : ℕ → String
  pub parse-print : (u : ℕ) → parse_uuid (print_uuid u) ≡ some u
  pub isoformat : ℕ → String
  pub str_of : Value → String
  pub str_of-str : (s : String) → str_of (str s) ≡ s
  pub int_of : Value → Option ℤ
  pub int_of-int : (n : ℤ) → int_of (int n) ≡ some n
