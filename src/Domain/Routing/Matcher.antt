-- ===== src/Domain/Routing/Matcher.antt =====
-- `LabelMatcher` and `parse_matcher`.
use alert_hub.Prelude.{
  ◌≤◌, ◌≡◌, Bool, true, false, not, ◌&&◌, ◌||◌, Option, none, some, [], Text, codes, ◌==◌, text_eq,
  Result, ok, raise, ◌>>=◌, ◌>>◌, raise_if, value_error, length, ltb, leb, arith, nonempty,
  if◌then◌else◌,
}
use alert_hub.Prelude.Texts.{strip}
use alert_hub.Runtime.{Fields, Runtime, get, has, py_str, truthy, or_value, str_or_empty}

pub data Operator : Type 0 where
  equals not_equals regex not_regex exists not_exists : Operator

-- `_OPERATORS.get(name)`
unfoldable pub operators : Text → Option Operator
operators s =
    if s == codes "=" || s == codes "==" || s == codes "equals"
    then some equals
    else if s == codes "!=" || s == codes "not_equals"
    then some not_equals
    else if s == codes "=~" || s == codes "regex"
    then some regex
    else if s == codes "!~" || s == codes "not_regex"
    then some not_regex
    else if s == codes "exists"
    then some exists
    else if s == codes "not_exists"
    then some not_exists
    else none

pub record LabelMatcher : Type 0 where
  pub name : Text
  pub operator : Operator
  pub value : Text

abbrev pub is_pattern : Operator → Bool
is_pattern regex = true
is_pattern not_regex = true
is_pattern _ = false

abbrev pub or_value_error : Option Operator → Result Operator
or_value_error none = raise value_error
or_value_error (some o) = ok o

-- The constructor with its `__post_init__`.
unfoldable pub label_matcher : Runtime → Text → Text → Text → Result LabelMatcher
unfolding operators strip
label_matcher rt name operator value = do
  let stripped = strip name
  raise_if (not (nonempty stripped) || ltb 255 (length stripped)) value_error
  o ← or_value_error (operators (rt.lower (strip operator)))
  raise_if (ltb 1024 (length value)) value_error
  raise_if (is_pattern o && (ltb 256 (length value) || not (rt.re_compiles value))) value_error
  ok (record { name = stripped; operator = o; value = value })

-- What the operators test, of a label that may be absent.
abbrev pub test_label : Runtime → Operator → Text → Bool → Text → Bool
test_label rt exists value present actual = present
test_label rt not_exists value present actual = not present
test_label rt equals value present actual = present && actual == value
test_label rt not_equals value present actual = not present || not (actual == value)
test_label rt regex value present actual = present && rt.re_fullmatch value actual
test_label rt not_regex value present actual = not present || not (rt.re_fullmatch value actual)

-- `LabelMatcher.matches`
unfoldable pub matcher_matches : Runtime → LabelMatcher → Fields → Bool
unfolding py_str
matcher_matches rt m labels =
    let present = has m.name labels in
    test_label rt m.operator m.value present (if present then py_str rt (get m.name labels) else [])

unfoldable pub parse_matcher : Runtime → Fields → Result LabelMatcher
unfolding label_matcher str_or_empty truthy py_str
parse_matcher rt v =
    label_matcher rt (str_or_empty rt (or_value (get (codes "name") v) (get (codes "key") v)))
      (let o = get (codes "operator") v in if truthy o then py_str rt o else codes "equals")
      (str_or_empty rt (get (codes "value") v))

-- The operator that asks the opposite.
abbrev pub opposite : Operator → Operator
opposite equals = not_equals
opposite not_equals = equals
opposite regex = not_regex
opposite not_regex = regex
opposite exists = not_exists
opposite not_exists = exists

-- Each operator and its negated form answer oppositely on every set of labels, also where the label
-- is absent.
pub matcher_matches-opposite :
    (rt : Runtime) (m : LabelMatcher) (labels : Fields)
    → matcher_matches rt (record m { operator = opposite m.operator }) labels
      ≡ not (matcher_matches rt m labels)
unfolding matcher_matches
matcher_matches-opposite rt m labels = ground arith

-- Every accepted matcher has a name of 1 to 255 characters, a value of at most 1024 characters, and
-- a pattern operator has a value of at most 256 characters that compiles.
pub label_matcher_bounds :
    (rt : Runtime) (name operator value : Text) {m : LabelMatcher}
    → label_matcher rt name operator value ≡ ok m
    → (nonempty m.name ≡ true)
      × (length m.name ≤ 255)
      × (length m.value ≤ 1024)
      × ((if is_pattern m.operator
            then leb (length m.value) 256 && rt.re_compiles m.value
            else true)
          ≡ true)
unfolding label_matcher
label_matcher_bounds rt name operator value h = ground arith
