-- ===== src/Runtime/Values.antt =====
-- The values of YAML, as JavaScript sees them.
use ob2_turbo_quant.Common.{
  ℕ, zero, suc, ◌==◌, not, is_empty, Bool, true, false, Option, none, some, if◌then◌else◌, Text,
  text_eq,
}

-- A number: an integer, another finite number by its sign and its decimal digits, or what is neither.
pub data Number : Type 0 where
  integer : (is_negative : Bool) → (digits : ℕ) → Number
  decimal : (is_negative : Bool) → (digits scale : ℕ) → Number
  not_a_number infinity minus_infinity : Number

-- An array is an object whose keys are its indices.
mutual
  pub data Value : Type 0 where
    null : Value
    bool : Bool → Value
    num : Number → Value
    str : Text → Value
    obj arr : Fields → Value

  pub data Fields : Type 0 where
    nothing : Fields
    entry : Text → Value → Fields → Fields

unfoldable pub get : Text → Fields → Option Value
get k nothing = none
get k (entry j v fs) = if text_eq j k then some v else get k fs

-- `target[k] = v`
unfoldable pub put : Text → Value → Fields → Fields
put k v nothing = entry k v nothing
put k v (entry j w fs) =
    let later = put k v fs in if text_eq j k then entry j v fs else entry j w later

-- `_deepMerge`
unfoldable mutual
  pub deep_merge : Fields → Fields → Fields
  deep_merge target nothing = target
  deep_merge target (entry k v patch) = deep_merge (put k (merged (get k target) v) target) patch

  -- The new value of a key: an object goes into an object or an array, anything else in its place.
  pub merged : Option Value → Value → Value
  merged (some (obj old)) (obj patch) = obj (deep_merge old patch)
  merged (some (arr old)) (obj patch) = arr (deep_merge old patch)
  merged none (obj patch) = obj patch
  merged (some null) (obj patch) = obj patch
  merged (some (bool b)) (obj patch) = obj patch
  merged (some (num n)) (obj patch) = obj patch
  merged (some (str t)) (obj patch) = obj patch
  merged old null = null
  merged old (bool b) = bool b
  merged old (num n) = num n
  merged old (str t) = str t
  merged old (arr items) = arr items

-- A value that JavaScript takes for true.
unfoldable pub is_truthy : Value → Bool
is_truthy null = false
is_truthy (bool b) = b
is_truthy (num (integer sign zero)) = false
is_truthy (num (integer sign (suc n))) = true
is_truthy (num (decimal sign digits scale)) = not (digits == 0)
is_truthy (num not_a_number) = false
is_truthy (num infinity) = true
is_truthy (num minus_infinity) = true
is_truthy (str t) = not (is_empty t)
is_truthy (obj fs) = true
is_truthy (arr fs) = true
