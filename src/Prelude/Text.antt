-- ===== src/Prelude/Text.antt =====
-- The methods of Python's `str` that the program uses, on texts whose letters are ASCII.
use Prim.Native.Nat.{ℕ, zero, suc, ◌-◌, ◌≤◌}
use native.Mathlib.Omega.{arith}
use text.Mathlib.Text.{is_le}
use Prim.Native.Char.{Char, code}
use Prim.Native.String.{String, find, len, char_at, compare}
use mathlib.Core.Path.{◌≡◌, refl}
use mathlib.Core.Bool.{Bool, true, false, ◌||◌, ◌&&◌}
use mathlib.Core.List.{List, [], ◌∷◌}
use technical_knowledge_assi.Prelude.Tests.{leb, nat_beq, if◌then◌else◌, ◌==◌, nat_eq, string_eq}

lower_char : Char → Char
lower_char c =
    let n = code c in
    if leb b'A' n && leb n b'Z' then char_at "abcdefghijklmnopqrstuvwxyz" (n - b'A') else c

-- `s.lower()`
unfoldable pub lower : String → String
unfolding lower_char
lower String.[] = ""
lower (String.◌∷◌ c s) = String.◌∷◌ (lower_char c) (lower s)

is_space : Char → Bool
is_space c = let n = code c in n == 32 || (leb 9 n && leb n 13)

strip_left : String → String
unfolding is_space
strip_left String.[] = ""
strip_left (String.◌∷◌ c s) = if is_space c then strip_left s else String.◌∷◌ c s

strip_right : String → String
unfolding is_space
strip_right String.[] = ""
strip_right (String.◌∷◌ c s) =
    let rest = strip_right s in if is_space c && rest == "" then "" else String.◌∷◌ c rest

-- `s.strip()`
unfoldable pub strip : String → String
unfolding strip_left strip_right
strip s = strip_right (strip_left s)

-- `part in s`
unfoldable pub contains : String → String → Bool
contains part s = leb (find s part) (len s)

add_first : Char → List String → List String
add_first c [] = []
add_first c (s ∷ parts) = String.◌∷◌ c s ∷ parts

-- `s.split(sep)` for a separator of one character.
unfoldable pub split_on : Char → String → List String
unfolding add_first
split_on sep String.[] = "" ∷ []
split_on sep (String.◌∷◌ c s) =
    if nat_beq (code c) (code sep) then "" ∷ split_on sep s else add_first c (split_on sep s)

-- `len(s)`
abbrev pub chars : String → ℕ
chars String.[] = 0
chars (String.◌∷◌ c s) = suc (chars s)

-- `s[:n]`
unfoldable pub prefix : ℕ → String → String
prefix zero s = ""
prefix (suc n) String.[] = ""
prefix (suc n) (String.◌∷◌ c s) = String.◌∷◌ c (prefix n s)

pub count-prefix-le : (n : ℕ) (s : String) → chars (prefix n s) ≤ n
unfolding prefix
count-prefix-le zero s = omega arith
count-prefix-le (suc n) String.[] = omega arith
count-prefix-le (suc n) (String.◌∷◌ c s) = omega (arith, count-prefix-le n s)

-- A space before a text that the same call made, one space for a run.
add_space : String → String
add_space String.[] = " "
add_space (String.◌∷◌ c s) =
    if nat_beq (code c) 32 then String.◌∷◌ c s else String.◌∷◌ (char_at " " 0) (String.◌∷◌ c s)

-- `re.sub(r"\s+", " ", s)`
unfoldable pub collapse : String → String
unfolding is_space add_space
collapse String.[] = ""
collapse (String.◌∷◌ c s) = if is_space c then add_space (collapse s) else String.◌∷◌ c (collapse s)

-- `a <= b` on texts, by code points
abbrev pub text_le : String → String → Bool
text_le a b = is_le (compare a b)

texts :
    (lower "Lime GREEN" ≡ "lime green")
    × (strip "  a b " ≡ "a b")
    × (contains "ed" "bedroom" ≡ true)
    × (contains "" "" ≡ true)
    × (contains "x" "bedroom" ≡ false)
    × (collapse " a  \t b" ≡ " a b")
    × (split_on "," "a,b,,c" ≡ "a" ∷ "b" ∷ "" ∷ "c" ∷ [])
unfolding lower strip contains split_on collapse
texts = (refl, refl, refl, refl, refl, refl, refl)
