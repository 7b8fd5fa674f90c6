-- ===== src/Toy.antt =====
-- A small runtime, in place of Python's library, and the data of the tests.
use alert_hub.Prelude.{
  ◌+◌, ◌-◌, refl, ◌≡◌, ◌≢◌, sym, ap, ◌∙◌, Memᴰ, ℕ, Bool, true, false, Option, none, some, [], ◌∷◌,
  Text, codes, text_eq, ◌==◌, Result, ok, raise,
}
use alert_hub.Runtime.{DateTime, Value, Runtime, get}
use alert_hub.Runtime.DateTime.{aware}
use alert_hub.Runtime.Value.{text, object}

-- Of an object, the status that it has.
abbrev pub status_text : Value → Text
status_text (text s) = s
status_text _ = []

unfoldable pub short_json : Value → Text
unfolding get
short_json (object fs) = status_text (get (codes "status") fs)
short_json _ = []

-- A time is printed as one character that is neither a space nor a letter.
abbrev pub printed_time : ℕ → Text
printed_time t = (t + 1000) ∷ []

abbrev pub parsed_time : Text → Option DateTime
parsed_time (c ∷ []) = some (aware (c - 1000))
parsed_time _ = none

abbrev pub toy : Runtime
toy = record {
  from_iso = parsed_time;
  iso_format = printed_time;
  show = λ v. codes "3";
  lower = λ s. s;
  sha256 = λ s. s;
  canonical_json = short_json;
  uuid5 = λ s. s;
  re_compiles = λ p. true;
  parse_int = λ s. none;
  b64decode = λ s. some s;
  b64encode = λ s. s;
  ip_network = λ s. some s;
  urlsplit = λ s. none;
  urlunsplit = λ a b c d e. c;
  unquote = λ s. s;
  re_fullmatch = λ p s. p == s;
}

-- A result that went through, or the default.
abbrev pub or_default {ℓ} : {A : Type ℓ} → A → Result A → A
or_default d (ok a) = a
or_default d (raise e) = d

abbrev pub is_ok {ℓ} : {A : Type ℓ} → Result A → Bool
is_ok (ok a) = true
is_ok (raise e) = false

pub ok_of_default {ℓ} :
    {A : Type ℓ} (d : A) (m : Result A) → is_ok m ≡ true → m ≡ ok (or_default d m)
ok_of_default d (ok a) h = refl
ok_of_default d (raise e) h = cc

-- Of two elements with different keys, the key identifies each.
pub pair_identified {ℓ κ} :
    {A : Type ℓ} {K : Type κ} (key : A → K) (x y : A)
    → key x ≢ key y
    → (a b : A) → Memᴰ a (x ∷ y ∷ [])
    → Memᴰ b (x ∷ y ∷ [])
    → key a ≡ key b
    → a ≡ b
pair_identified key x y d a b (Memᴰ.head p) (Memᴰ.head q) e = p ∙ sym q
pair_identified key x y d a b (Memᴰ.head p) (Memᴰ.tail (Memᴰ.head q)) e =
    absurd (d (sym (ap key p) ∙ e ∙ ap key q))
pair_identified key x y d a b (Memᴰ.tail (Memᴰ.head p)) (Memᴰ.head q) e =
    absurd (d (sym (ap key q) ∙ sym e ∙ ap key p))
pair_identified key x y d a b (Memᴰ.tail (Memᴰ.head p)) (Memᴰ.tail (Memᴰ.head q)) e = p ∙ sym q
pair_identified key x y d a b (Memᴰ.tail (Memᴰ.tail m)) n e = elim m [ ]
pair_identified key x y d a b m (Memᴰ.tail (Memᴰ.tail n)) e = elim n [ ]
