-- ===== src/Runtime.antt =====
-- The Python values that payloads carry, and what the program takes from Python's library without
-- implementing it: parsing and printing of datetimes, `str`, `lower`, hashing, regular expressions.
-- An aware datetime is its instant in microseconds; a naive one is its wall clock reading.
use alert_hub.Prelude.{
  none, some, Result, ok, raise, value_error, type_error, ℕ, List, Bool, true, false, Option, [],
  ◌∷◌, Text, ◌==◌, text_eq, nat_eq, if◌then◌else◌,
}

pub data DateTime : Type 0 where
  naive : ℕ → DateTime
  aware : ℕ → DateTime

-- A missing key and `None` are both `null`: the program reads payloads by `get`.
mutual
  pub data Value : Type 0 where
    null : Value
    boolean : Bool → Value
    number : ℕ → Value
    text : Text → Value
    datetime : DateTime → Value
    array : Values → Value
    object : Fields → Value

  pub data Values : Type 0 where
    nil : Values
    cons : Value → Values → Values

  pub data Fields : Type 0 where
    end : Fields
    field : Text → Value → Fields → Fields

-- `payload.get(name)`
unfoldable pub get : Text → Fields → Value
get k end = null
get k (field j v fs) = if k == j then v else get k fs

-- `name in payload`
unfoldable pub has : Text → Fields → Bool
has k end = false
has k (field j v fs) = if k == j then true else has k fs

abbrev pub is_null : Value → Bool
is_null null = true
is_null _ = false

-- `bool(value)`; a datetime is always true.
unfoldable pub truthy : Value → Bool
truthy null = false
truthy (boolean b) = b
truthy (number n) = if n == 0 then false else true
truthy (text []) = false
truthy (text (c ∷ s)) = true
truthy (datetime d) = true
truthy (array nil) = false
truthy (array (cons v vs)) = true
truthy (object end) = false
truthy (object (field k v fs)) = true

-- `a or b`
abbrev pub or_value : Value → Value → Value
or_value a b = if truthy a then a else b

-- What `urllib.parse.urlsplit` finds; a missing part is `none`, or empty where Python has it so.
pub record SplitUrl : Type 0 where
  pub scheme : Text
  pub hostname : Option Text
  pub port : Option (Option ℕ)  -- `none` is the `ValueError` of reading it
  pub username : Option Text
  pub password : Option Text
  pub path : Text
  pub query : Text
  pub fragment : Text

pub record Runtime : Type 0 where
  pub from_iso : Text → Option DateTime  -- `datetime.fromisoformat`; `none` is its `ValueError`
  pub iso_format : ℕ → Text  -- `isoformat` of an instant in UTC
  pub show : Value → Text  -- `str` of a value that is no `str`
  pub lower : Text → Text  -- `str.lower`
  pub sha256 : Text → Text  -- `hashlib.sha256(....encode()).hexdigest()`
  pub canonical_json : Value → Text  -- `json.dumps` with sorted keys
  pub uuid5 : Text → Text  -- `str(uuid5(NAMESPACE_URL, ...))`
  pub re_compiles : Text → Bool  -- `re.compile` does not raise
  pub parse_int : Text → Option ℕ  -- `int(text)`, of the text of a natural number; `none` is its `ValueError`
  pub b64decode : Text → Option (List ℕ)  -- `base64.b64decode(..., validate=True)`; `none` is its error
  pub b64encode : List ℕ → Text  -- `base64.b64encode(...).decode()`
  pub ip_network : Text → Option Text  -- `str(ipaddress.ip_network(..., strict=False))`; `none` is its `ValueError`
  pub urlsplit : Text → Option SplitUrl  -- `none` is its `ValueError`
  pub urlunsplit : Text → Text → Text → Text → Text → Text
  pub unquote : Text → Text
  pub re_fullmatch : Text → Text → Bool  -- `re.fullmatch(pattern, text) is not None`

-- `str(value)`
unfoldable pub py_str : Runtime → Value → Text
py_str rt (text s) = s
py_str rt v = rt.show v

-- `str(value or "")`
unfoldable pub str_or_empty : Runtime → Value → Text
unfolding py_str truthy
str_or_empty rt v = if truthy v then py_str rt v else []

-- `payload[name] = value`: in its place, or at the end.
unfoldable pub set : Text → Value → Fields → Fields
set k v end = field k v end
set k v (field j w fs) = if k == j then field j v fs else field j w (set k v fs)

-- `{**payload, **other}`
unfoldable pub update : Fields → Fields → Fields
unfolding set
update fs end = fs
update fs (field k v gs) = update (set k v fs) gs

-- `payload.setdefault(name, value)`
abbrev pub set_default : Text → Value → Fields → Fields
set_default k v fs = if has k fs then fs else set k v fs

-- `str(a or b)`, where `b` is a text.
abbrev pub str_or : Runtime → Value → Text → Text
str_or rt v default = if truthy v then py_str rt v else default

-- `str(a) if a else None`
abbrev pub str_or_none : Runtime → Value → Option Text
str_or_none rt v = if truthy v then some (py_str rt v) else none

abbrev pub or_value_error : Option ℕ → Result ℕ
or_value_error none = raise value_error
or_value_error (some n) = ok n

-- `int(value)`
abbrev pub to_int : Runtime → Value → Result ℕ
to_int rt (number n) = ok n
to_int rt (boolean true) = ok 1
to_int rt (boolean false) = ok 0
to_int rt (text s) = or_value_error (rt.parse_int s)
to_int rt _ = raise type_error

-- `dict(value) if isinstance(value, dict) else {}`
abbrev pub dict_or_empty : Value → Fields
dict_or_empty (object fs) = fs
dict_or_empty _ = end

-- A list of texts as a value.
unfoldable pub text_values : List Text → Values
text_values [] = nil
text_values (a ∷ rest) = cons (text a) (text_values rest)

abbrev pub text_array : List Text → Value
text_array xs = array (text_values xs)

-- `[str(item) for item in values]`
unfoldable pub str_values : Runtime → Values → List Text
unfolding py_str
str_values rt nil = []
str_values rt (cons v vs) = py_str rt v ∷ str_values rt vs

-- The same of a value, or the empty list where it is no list.
abbrev pub str_list : Runtime → Value → List Text
str_list rt (array vs) = str_values rt vs
str_list rt _ = []

-- `payload.get(name, default)` as a truth value
abbrev pub flag : Text → Bool → Fields → Bool
flag k default fs = if has k fs then truthy (get k fs) else default

abbrev pub text_or_null : Option Text → Value
text_or_null none = null
text_or_null (some s) = text s

abbrev pub iso_or_null : Runtime → Option ℕ → Value
iso_or_null rt none = null
iso_or_null rt (some t) = text (rt.iso_format t)
