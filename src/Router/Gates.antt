-- ===== src/Router/Gates.antt =====
-- The relevance gate of `Router` (assistant/answering/router.py): the words that count as what was
-- asked, by property and for the substrate, and the test that a passage has one of them. The regular
-- expressions _ASKED_PHRASE and _ON are parameters, as what their first group matched.
use Prim.Native.Char.{code}
use Prim.Native.String.{◌++◌ as joined}
use technical_knowledge_assi.Prelude.{
  String, Bool, true, false, ◌&&◌, ◌||◌, not, Option, none, some, List, [], ◌∷◌, ◌++◌, lower, strip,
  contains, collapse, split_on, nat_beq, keep, any, map, mem, unique, if◌then◌else◌, ◌==◌,
  string_eq,
}
use technical_knowledge_assi.Prelude.Dict
use technical_knowledge_assi.Prelude.Dict.{Dict}
use technical_knowledge_assi.Retrieval.{Row}
use technical_knowledge_assi.Router.Detector.{
  Vocabulary, terms_for, values_of, class_of, detect, detect_properties, has_slot,
}
use technical_knowledge_assi.Router.Policy.{join}

-- `slots.get(slot, "")`
unfoldable pub value_at : String → Dict String String → String
unfolding Dict.lookup
value_at slot slots = elim (Dict.lookup slot slots) [ none ↦ "" | some value ↦ value ]

-- `{**slots, **newer}`
unfoldable pub update : Dict String String → Dict String String → Dict String String
unfolding Dict.insert
update slots [] = slots
update slots ((slot, value) ∷ newer) = update (Dict.insert slot value slots) newer

-- `text.split()`
unfoldable pub words : String → List String
unfolding split_on keep collapse
words text = keep (λ w. not (w == "")) (split_on " " (collapse text))

abbrev pub phrase_noise : List String
phrase_noise = "the" ∷ "a" ∷ "an" ∷ "your" ∷ "their" ∷ "its" ∷ "this" ∷ "that" ∷ []

-- `" ".join(words)` of the first match that has a word left, of the patterns in their order
unfoldable pub first_phrase : List (Option String) → String
unfolding keep words join lower mem
first_phrase [] = ""
first_phrase (none ∷ groups) = first_phrase groups
first_phrase (some group ∷ groups) =
    let rest = first_phrase groups in
    let left = keep (λ w. not (mem w phrase_noise)) (words (lower group)) in
    elim left [ [] ↦ rest | w ∷ ws ↦ join (w ∷ ws) ]

-- `phrase.replace(" ", by)`
unfoldable pub replace_spaces : String → String → String
replace_spaces by String.[] = ""
replace_spaces by (String.◌∷◌ c s) =
    let rest = replace_spaces by s in
    if nat_beq (code c) 32 then joined by rest else String.◌∷◌ c rest

-- `list(self.slots.terms_for("property_asked", prop))` for every property
unfoldable pub terms_of : Vocabulary → List String → Dict String (List String)
unfolding terms_for
terms_of v [] = []
terms_of v (prop ∷ props) = (prop, terms_for v "property_asked" prop) ∷ terms_of v props

-- `detected or [value]`
unfoldable pub or_value : List String → String → List String
or_value [] value = value ∷ []
or_value (prop ∷ props) value = prop ∷ props

-- `terms += words` over the dictionary's values
unfoldable pub flatten : Dict String (List String) → List String
flatten [] = []
flatten ((prop, terms) ∷ rest) = terms ++ flatten rest

unfoldable pub is_nil {ℓ} : {A : Type ℓ} → List A → Bool
is_nil [] = true
is_nil (x ∷ xs) = false

-- `_present`
unfoldable pub blob : List Row → String
unfolding join lower
blob hits = lower (join (map (λ h. joined h.section (joined " " h.content)) hits))

unfoldable pub present : List String → List Row → Bool
unfolding any contains lower blob
present terms hits = any (λ t. contains (lower t) (blob hits)) terms

-- `_known_substrate`
unfoldable pub known_in : String → Dict String (List String) → String
unfolding any lower
known_in phrase [] = ""
known_in phrase ((value, terms) ∷ rest) =
    if any (λ t. phrase == lower t) terms || phrase == value then value else known_in phrase rest

-- `terms or [named]`
unfoldable pub or_named : List String → String → List String
or_named [] named = named ∷ []
or_named (t ∷ terms) named = t ∷ terms

-- The words of a wall: its own, and those of its published class.
unfoldable pub class_terms : Vocabulary → String → List String
unfolding or_named terms_for
class_terms v published =
    if published == "" then [] else or_named (terms_for v "substrate" published) published

unfoldable pub wall_terms : Vocabulary → String → List String
unfolding or_named terms_for class_terms class_of unique
wall_terms v named =
    unique (or_named (terms_for v "substrate" named) named ++ class_terms v (class_of v named))

-- `_known_substrate(phrase) or phrase`
unfoldable pub wall_of_phrase : Vocabulary → String → String
unfolding known_in values_of
wall_of_phrase v phrase =
    let known = known_in phrase (values_of v "substrate") in if known == "" then phrase else known

-- What the question says the wall is, from what _ON found: no wall is "".
unfoldable pub wall_of_match : Vocabulary → Option String → String
unfolding words join lower strip wall_of_phrase
wall_of_match v none = ""
wall_of_match v (some group) =
    let phrase = strip (lower (join (words group))) in
    if phrase == "" || mem phrase ("it" ∷ "this" ∷ "that" ∷ "them" ∷ [])
    then ""
    else wall_of_phrase v phrase

module _ (asked_groups : String → List (Option String)) (on_wall : String → Option String) where
  unfoldable pub asked_phrase : String → String
  unfolding first_phrase
  asked_phrase question = first_phrase (asked_groups question)

  -- `_phrase_terms`, for a phrase that is there
  unfoldable pub variants : String → List String
  unfolding contains replace_spaces
  variants phrase =
      if contains " " phrase
      then phrase ∷ replace_spaces "-" phrase ∷ replace_spaces "" phrase ∷ []
      else phrase ∷ []

  unfoldable pub by_phrase : String → String × Dict String (List String)
  unfolding variants
  by_phrase phrase = if phrase == "" then ("", []) else (phrase, (phrase, variants phrase) ∷ [])

  unfoldable pub asked_by_property :
      Vocabulary → String → Dict String String → String × Dict String (List String)
  unfolding has_slot value_at terms_of or_value detect_properties by_phrase asked_phrase
  asked_by_property v question slots =
      let value = value_at "property_asked" slots in
      if has_slot "calculation" slots && value == ""
      then ("coverage", terms_of v ("coverage" ∷ []))
      else if value == ""
      then by_phrase (asked_phrase question)
      else (value, terms_of v (or_value (detect_properties v question) value))

  unfoldable pub asked_terms : Vocabulary → String → Dict String String → String × List String
  unfolding asked_by_property flatten unique
  asked_terms v question slots =
      let asked = asked_by_property v question slots in (asked.0, unique (flatten asked.1))

  -- The substrate slot, or what the question says the wall is.
  unfoldable pub wall_asked : Vocabulary → String → Dict String String → String
  unfolding value_at wall_of_match strip
  wall_asked v question slots =
      let named = value_at "substrate" slots in
      if named == "" then wall_of_match v (on_wall (strip question)) else named

  unfoldable pub substrate_terms : Vocabulary → String → Dict String String → String × List String
  unfolding contains value_at wall_asked wall_terms
  substrate_terms v question slots =
      let named = wall_asked v question slots in
      if not (contains "compatibility" (value_at "property_asked" slots)) || named == ""
      then ("", [])
      else (named, wall_terms v named)

  unfoldable pub unsupported_terms :
      Vocabulary → String → List Row → Dict String String → List String
  unfolding update detect asked_terms is_nil present
  unsupported_terms v question hits carried =
      let terms = (asked_terms v question (update carried (detect v question))).1 in
      if is_nil terms || present terms hits then [] else terms
