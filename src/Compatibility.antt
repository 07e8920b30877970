-- ===== src/Compatibility.antt =====
-- The documented rules of which product suits which background
-- (assistant/retrieval/compatibility.py).
mod FirstRule
mod Tests
use technical_knowledge_assi.Prelude.{
  String, Bool, true, false, ◌&&◌, ◌||◌, not, Option, none, some, List, [], ◌∷◌, mem, lower, ◌==◌,
  string_eq, if◌then◌else◌,
}

pub record CompatibilityRule : Type 0 where
  pub product : String
  pub substrate : String
  pub interior : Bool
  pub exterior : Bool
  pub recommended : Bool
  pub caveats : List String

abbrev pub interior_words : List String
interior_words = "interior" ∷ "internal" ∷ "inside" ∷ []

abbrev pub exterior_words : List String
exterior_words = "exterior" ∷ "external" ∷ "outside" ∷ []

-- Whether the rule is for the product on the substrate.
unfoldable pub concerns : String → String → CompatibilityRule → Bool
unfolding lower
concerns product substrate r =
    lower product == lower r.product && lower substrate == lower r.substrate

-- Whether the rule supports the location: an unknown one needs either side.
unfoldable pub supports : Option String → CompatibilityRule → Bool
unfolding lower mem
supports none r = r.interior || r.exterior
supports (some location) r =
    if mem (lower location) interior_words
    then r.interior
    else if mem (lower location) exterior_words
    then r.exterior
    else r.interior || r.exterior

-- `CompatibilityRule.matches`
unfoldable pub matches : String → String → Option String → CompatibilityRule → Bool
unfolding concerns supports
matches product substrate location r = concerns product substrate r && supports location r

-- What a rule that concerns the pair returns; `none` goes on to the next rule.
unfoldable pub verdict : Option String → CompatibilityRule → Option Bool
unfolding lower mem
verdict none r = if r.interior || r.exterior then some r.recommended else none
verdict (some location) r =
    if mem (lower location) interior_words
    then (if r.interior then some r.recommended else some false)
    else if mem (lower location) exterior_words
    then (if r.exterior then some r.recommended else some false)
    else if r.interior || r.exterior
    then some r.recommended
    else none

abbrev pub or_next : Option Bool → Option Bool → Option Bool
or_next none next = next
or_next (some b) next = some b

unfoldable pub is_compatible :
    List CompatibilityRule → String → String → Option String → Option Bool
unfolding concerns verdict
is_compatible [] product substrate location = none
is_compatible (r ∷ rules) product substrate location =
    let rest = is_compatible rules product substrate location in
    if concerns product substrate r then or_next (verdict location r) rest else rest

unfoldable pub get_caveats : List CompatibilityRule → String → String → List String
unfolding concerns
get_caveats [] product substrate = []
get_caveats (r ∷ rules) product substrate =
    if concerns product substrate r then r.caveats else get_caveats rules product substrate

unfoldable pub is_false : Option Bool → Bool
is_false (some false) = true
is_false _ = false

unfoldable pub exclude_incompatible :
    List CompatibilityRule → String → Option String → Option String → Bool
unfolding is_compatible is_false
exclude_incompatible rules product none location = false
exclude_incompatible rules product (some substrate) location =
    is_false (is_compatible rules product substrate location)
