-- ===== src/Prelude/Texts.antt =====
-- The string methods that the program calls, on code points.
use Prim.Native.Nat.{ℕ, zero, suc, ◌+◌}
use mathlib.Core.Path.{◌≡◌, refl}
use mathlib.Core.Bool.{Bool, true, false, ◌&&◌, ◌||◌}
use mathlib.Core.List.{[], ◌∷◌}
use alert_hub.Prelude.Tests.{leb, nat_beq, if◌then◌else◌}
use alert_hub.Prelude.Equality.{Text, codes}

-- `str.isspace` on one character.
unfoldable pub is_space : ℕ → Bool
is_space c =
    (leb 9 c && leb c 13)
    || (leb 28 c && leb c 32)
    || nat_beq c 133
    || nat_beq c 160
    || nat_beq c 5760
    || (leb 8192 c && leb c 8202)
    || nat_beq c 8232
    || nat_beq c 8233
    || nat_beq c 8239
    || nat_beq c 8287
    || nat_beq c 12288

unfoldable pub lstrip : Text → Text
unfolding is_space
lstrip [] = []
lstrip (c ∷ s) = let rest = lstrip s in if is_space c then rest else c ∷ s

-- A character stays if it is no space or something that stays follows it.
abbrev pub rstrip_cons : ℕ → Text → Text
rstrip_cons c [] = if is_space c then [] else c ∷ []
rstrip_cons c (d ∷ s) = c ∷ d ∷ s

unfoldable pub rstrip : Text → Text
unfolding is_space
rstrip [] = []
rstrip (c ∷ s) = rstrip_cons c (rstrip s)

-- `s.strip()`
unfoldable pub strip : Text → Text
unfolding lstrip rstrip
strip s = lstrip (rstrip s)

-- `s.lower()` where every character is ASCII.
unfoldable pub ascii_lower : Text → Text
ascii_lower [] = []
ascii_lower (c ∷ s) = (if leb 65 c && leb c 90 then c + 32 else c) ∷ ascii_lower s

strip_example : strip (codes "  a b\n") ≡ codes "a b"
unfolding strip
strip_example = refl

abbrev pub starts_with : Text → Text → Bool
starts_with [] s = true
starts_with (p ∷ ps) [] = false
starts_with (p ∷ ps) (c ∷ s) = nat_beq p c && starts_with ps s

-- `s.replace("+00:00", "Z")`: a match is not looked into again, which `skip` counts off.
replace_from : ℕ → Text → Text
replace_from skip [] = []
replace_from zero (c ∷ s) =
    let after = replace_from 5 s in
    let on = replace_from 0 s in if starts_with (codes "+00:00") (c ∷ s) then 90 ∷ after else c ∷ on
replace_from (suc skip) (c ∷ s) = replace_from skip s

unfoldable pub replace_offset : Text → Text
unfolding replace_from
replace_offset s = replace_from 0 s

replace_offset_example : replace_offset (codes "10+00:00!") ≡ codes "10Z!"
unfolding replace_offset
replace_offset_example = refl
