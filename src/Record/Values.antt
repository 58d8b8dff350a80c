-- ===== src/Record/Values.antt =====
-- The Python values that json.loads and plistlib.loads give, and what the code asks of them.
use arq_backup_tui.Common.{
  ℕ, zero, suc, Bool, true, false, Option, some, List, [], ◌∷◌, list_eq, if◌then◌else◌,
}
use arq_backup_tui.Common.Int.{ℤ, pos, negsuc}
use arq_backup_tui.Wire.Types.{Text}

-- `opaque` is any value of another kind: a float, a date or bytes, by a number that tells them apart.
mutual
  pub data Value : Type 0 where
    null : Value
    bool : Bool → Value
    int : ℤ → Value
    text : Text → Value
    list : Values → Value
    dict : Fields → Value
    opaque : ℕ → Value

  pub data Values : Type 0 where
    nil : Values
    cons : Value → Values → Values

  -- The items of a dict, each key once.
  pub data Fields : Type 0 where
    nil_field : Fields
    cons_field : Text → Value → Fields → Fields

-- `d.get(key)`, for which a missing key and a null are one.
unfoldable pub get_field : Fields → Text → Value
get_field nil_field key = null
get_field (cons_field k v fields) key = if list_eq k key then v else get_field fields key

-- Python functions that the code calls; `none` for a call that raises.
pub record Python : Type 0 where
  -- plistlib.loads, where `some none` is its InvalidFileException; and bytes.decode with json.loads
  pub plist_loads : List ℕ → Option (Option Value)
  pub json_loads : List ℕ → Option Value
  -- str and int of a value that is no text or integer; int of a text
  pub str_of : Value → Text
  pub int_of : Value → Option ℤ
  pub int_of_text : Text → Option ℤ
  pub lower : Text → Text
  pub isdigit : Text → Bool
  -- the truth of an `opaque` value, and whether its `int` is an OverflowError
  pub truth_of : ℕ → Bool
  pub overflows : ℕ → Bool

abbrev is_zero : ℤ → Bool
is_zero (pos zero) = true
is_zero (pos (suc n)) = false
is_zero (negsuc n) = false

module _ (py : Python) where
  -- `bool(value)`
  unfoldable pub truth : Value → Bool
  truth null = false
  truth (bool b) = b
  truth (int z) = if is_zero z then false else true
  truth (text []) = false
  truth (text (c ∷ cs)) = true
  truth (list nil) = false
  truth (list (cons v vs)) = true
  truth (dict nil_field) = false
  truth (dict (cons_field k v fs)) = true
  truth (opaque n) = py.truth_of n

  -- `str(value or "")`
  unfoldable pub text_or_empty : Value → Text
  text_or_empty (text t) = t
  text_or_empty value = if truth value then py.str_of value else []

  -- `int(value)`
  unfoldable pub to_int : Value → Option ℤ
  to_int (int z) = some z
  to_int (bool b) = some (pos (if b then 1 else 0))
  to_int (text t) = py.int_of_text t
  to_int value = py.int_of value

  -- `int(value or default)`
  unfoldable pub int_or : Value → ℕ → Option ℤ
  int_or value default = if truth value then to_int value else some (pos default)
