-- ===== src/Router/Words.antt =====
-- `re.search(rf"\b{re.escape(t)}\b", text)`, on texts whose letters are ASCII: the slot detector's
-- test whether a term stands in a question as words of its own (assistant/answering/router.py).
use Prim.Native.Char.{Char, code}
use technical_knowledge_assi.Prelude.{
  ◌≡◌, refl, String, Bool, true, false, ◌&&◌, ◌||◌, not, leb, nat_beq, ◌==◌, nat_eq,
}

-- `\w`
is_word : Char → Bool
is_word c =
    let n = code c in
    leb b'a' n && leb n b'z' || leb b'A' n && leb n b'Z' || leb b'0' n && leb n b'9' || n == 95

-- The text goes on with a letter of a word.
unfoldable goes_on : String → Bool
unfolding is_word
goes_on String.[] = false
goes_on (String.◌∷◌ c s) = is_word c

-- `\b` between a place after a word's letter, or not, and the rest of the text.
unfoldable boundary : Bool → String → Bool
unfolding goes_on
boundary true s = not (goes_on s)
boundary false s = goes_on s

-- The term and a `\b` after it, here.
unfoldable term_here : Bool → String → String → Bool
unfolding boundary is_word
term_here after String.[] s = boundary after s
term_here after (String.◌∷◌ c t) String.[] = false
term_here after (String.◌∷◌ c t) (String.◌∷◌ d s) =
    nat_beq (code c) (code d) && term_here (is_word c) t s

unfoldable term_from : Bool → String → String → Bool
unfolding boundary term_here is_word
term_from after t String.[] = boundary after "" && term_here after t ""
term_from after t (String.◌∷◌ d s) =
    boundary after (String.◌∷◌ d s) && term_here after t (String.◌∷◌ d s)
    || term_from (is_word d) t s

unfoldable pub has_term : String → String → Bool
unfolding term_from
has_term t text = term_from false t text

-- `(?<!\w)word(?!\w)`: the word here, and from here on.
unfoldable word_here : String → String → Bool
unfolding goes_on
word_here String.[] s = not (goes_on s)
word_here (String.◌∷◌ c t) String.[] = false
word_here (String.◌∷◌ c t) (String.◌∷◌ d s) = nat_beq (code c) (code d) && word_here t s

unfoldable word_from : Bool → String → String → Bool
unfolding word_here is_word
word_from after t String.[] = not after && word_here t ""
word_from after t (String.◌∷◌ d s) =
    not after && word_here t (String.◌∷◌ d s) || word_from (is_word d) t s

unfoldable pub has_word : String → String → Bool
unfolding word_from
has_word t text = word_from false t text

terms :
    (has_term "per bag" "coverage per bag?" ≡ true)
    × (has_term "bag" "how many bags" ≡ false)
    × (has_term "lime" "sublime" ≡ false)
    × (has_term "lime" "lime" ≡ true)
    × (has_term "u-value" "the u-value." ≡ true)
    × (has_word "cob" "a cob wall" ≡ true)
    × (has_word "cob" "a cobbled wall" ≡ false)
unfolding has_term has_word
terms = (refl, refl, refl, refl, refl, refl, refl)
