-- ===== src/Domain/Monitoring.antt =====
-- backend/alert_hub/domain/monitoring.py.
use alert_hub.Prelude.{
  ℕ, suc, Bool, true, false, not, ◌&&◌, ◌||◌, Option, none, some, is_some, List, [], ◌∷◌, ◌++◌,
  Text, codes, ◌==◌, text_eq, nat_eq, any, contains, length, nonempty, ltb, leb, Result, ok, raise,
  value_error, ◌>>=◌, ◌>>◌, raise_if, if◌then◌else◌,
}
use alert_hub.Prelude.Sets.{add_new}
use alert_hub.Prelude.Texts.{strip, is_space}
use alert_hub.Runtime.{Value, Values, Runtime, py_str}
use alert_hub.Runtime.Value.{null, number, text, array}
use alert_hub.Runtime.Values.{nil, cons}

-- `unicodedata.category(character) == "Cc"`
abbrev pub is_control : ℕ → Bool
is_control c = ltb c 32 || (leb 127 c && leb c 159)

-- `s.split(separator)` with the empty parts dropped; the first argument is the part that is read.
unfoldable pub split_parts : Text → ℕ → Text → List Text
split_parts part sep [] = if nonempty part then part ∷ [] else []
split_parts part sep (c ∷ s) =
    let rest = split_parts [] sep s in
    let on = split_parts (part ++ c ∷ []) sep s in
    if c == sep then (if nonempty part then part ∷ rest else rest) else on

abbrev pub segments_of : Text → List Text
segments_of path = split_parts [] (b'/') path

abbrev pub dashboard_uid : Text
dashboard_uid = codes "[A-Za-z0-9_-]{1,128}"

abbrev pub is_dots : Text → Bool
is_dots s = s == codes "." || s == codes ".."

-- A segment `d` or `d-solo` that an identifier follows.
unfoldable pub has_dashboard : Runtime → List Text → Bool
has_dashboard rt [] = false
has_dashboard rt (s ∷ []) = false
has_dashboard rt (s ∷ t ∷ rest) =
    let later = has_dashboard rt (t ∷ rest) in
    ((s == codes "d" || s == codes "d-solo") && rt.re_fullmatch dashboard_uid t) || later

abbrev pub is_dashboard_path : Runtime → Text → Bool
is_dashboard_path rt path =
    let decoded = rt.unquote path in
    if contains (b'\\') path || contains (b'\\') decoded
    then false
    else if any is_dots (segments_of path ++ segments_of decoded)
    then false
    else has_dashboard rt (segments_of path)

unfoldable pub is_grafana_dashboard_url : Runtime → Text → Bool
unfolding split_parts has_dashboard
is_grafana_dashboard_url rt value = elim (rt.urlsplit value) [
  | none ↦ false
  | some parsed ↦ is_dashboard_path rt parsed.path
]

abbrev pub or_invalid {ℓ} : {A : Type ℓ} → Option A → Result A
or_invalid none = raise value_error
or_invalid (some a) = ok a

abbrev pub is_allowed_scheme : Bool → Text → Bool
is_allowed_scheme https_only scheme =
    scheme == codes "https" || (not https_only && scheme == codes "http")

abbrev pub with_port : Runtime → Text → Option ℕ → Text
with_port rt host none = host
with_port rt host (some p) = host ++ (codes ":" ++ py_str rt (number p))

-- The host in brackets where it is an IPv6 address.
abbrev pub bracketed : Text → Text
bracketed host = if contains (b':') host then codes "[" ++ (host ++ codes "]") else host

unfoldable pub normalize_url : Runtime → Bool → Bool → Text → Result Text
unfolding py_str
normalize_url rt https_only require_dashboard candidate = do
  raise_if (ltb 2048 (length candidate)) value_error
  raise_if
      (contains (b'*') candidate
        || contains (b'\\') candidate
        || any (λ c. is_space c || is_control c) candidate)
      value_error
  parsed ← or_invalid (rt.urlsplit candidate)
  port ← or_invalid parsed.port
  hostname ← or_invalid parsed.hostname
  raise_if (not (is_allowed_scheme https_only (rt.lower parsed.scheme)) || not (nonempty hostname))
      value_error
  raise_if (is_some parsed.username || is_some parsed.password) value_error
  let normalized =
      rt.urlunsplit (rt.lower parsed.scheme) (rt.lower (with_port rt (bracketed hostname) port))
        parsed.path parsed.query parsed.fragment
  raise_if (require_dashboard && not (is_grafana_dashboard_url rt normalized)) value_error
  ok normalized

abbrev pub is_null_value : Value → Bool
is_null_value null = true
is_null_value _ = false

unfoldable pub normalize_grafana_url : Runtime → Bool → Bool → Value → Result (Option Text)
unfolding py_str strip
normalize_grafana_url rt https_only require_dashboard value =
    if is_null_value value
    then ok none
    else (let candidate = strip (py_str rt value) in
        if nonempty candidate
        then (normalize_url rt https_only require_dashboard candidate >>= λ u. ok (some u))
        else ok none)

abbrev pub job_glob : Text
job_glob = codes "[A-Za-z0-9_.:/-]*(?:\\*[A-Za-z0-9_.:/-]*)*"

unfoldable pub count_values : Values → ℕ
count_values nil = 0
count_values (cons v vs) = suc (count_values vs)

abbrev pub is_job_glob : Runtime → Text → Bool
is_job_glob rt candidate =
    nonempty candidate && leb (length candidate) 128 && rt.re_fullmatch job_glob candidate

-- The loop; the patterns found so far are `normalized`.
unfoldable pub collect_globs : Runtime → Values → List Text → Result (List Text)
unfolding strip add_new
collect_globs rt nil normalized = ok normalized
collect_globs rt (cons (text raw) vs) normalized =
    raise_if (not (is_job_glob rt (strip raw))) value_error
    >> collect_globs rt vs (add_new (strip raw) normalized)
collect_globs rt (cons _ vs) normalized = raise value_error

abbrev pub globs_of : Runtime → Value → Result (List Text)
globs_of rt (array vs) =
    raise_if (not (leb 1 (count_values vs) && leb (count_values vs) 32)) value_error
    >> collect_globs rt vs []
globs_of rt _ = raise value_error

unfoldable pub normalize_job_globs : Runtime → Value → Result (List Text)
unfolding collect_globs count_values
normalize_job_globs rt value = do
  normalized ← globs_of rt value
  raise_if (not (nonempty normalized)) value_error
  ok normalized

unfoldable pub escape_glob : Text → Text
escape_glob [] = []
escape_glob (c ∷ s) =
    let rest = escape_glob s in
    if c == b'*' then codes ".*" ++ rest else if c == b'.' then codes "\\." ++ rest else c ∷ rest

-- `"|".join(...)`
unfoldable pub join_bars : List Text → Text
join_bars [] = []
join_bars (a ∷ []) = a
join_bars (a ∷ b ∷ rest) = let later = join_bars (b ∷ rest) in a ++ (codes "|" ++ later)

abbrev pub texts : List Text → Values
texts [] = nil
texts (a ∷ rest) = cons (text a) (texts rest)

abbrev pub escape_all : List Text → List Text
escape_all [] = []
escape_all (a ∷ rest) = escape_glob a ∷ escape_all rest

unfoldable pub job_globs_to_re2 : Runtime → List Text → Result Text
unfolding normalize_job_globs escape_glob join_bars
job_globs_to_re2 rt globs =
    normalize_job_globs rt (array (texts globs)) >>= λ ns. ok (join_bars (escape_all ns))
