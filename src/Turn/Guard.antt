-- ===== src/Turn/Guard.antt =====
-- `recommends_a_product` (assistant/retrieval/candidates.py) and `verify` (assistant/turn/graph.py),
-- the last check of an answer.
use Prim.Native.Char.{Char, code}
use Prim.Native.String.{char_at, ◌++◌ as joined}
use technical_knowledge_assi.Prelude.{
  String, Bool, ◌||◌, not, Option, none, some, List, [], ◌∷◌, ◌++◌, map, mem, keep, lower, strip,
  contains, if◌then◌else◌, ◌==◌, string_eq, leb, false, ◌&&◌, ◌-◌, sorted, text_le, unique,
}
use technical_knowledge_assi.Candidates.{
  RecommendationDecision, no_supported_recommendation, intruders,
}
use technical_knowledge_assi.Router.Gates.{is_nil}
use technical_knowledge_assi.Understanding.Names.{normalise_product}
use technical_knowledge_assi.Understanding.Resolving.{Resolved}
use technical_knowledge_assi.Turn.State.{Answer, TurnState, Services}

-- The products that a lowered sentence names, in the one spelling, after those found before.
unfoldable pub name_products : String → List String → List String → List String
unfolding lower contains normalise_product mem
name_products lowered [] named = named
name_products lowered (product ∷ registry) named =
    if product == ""
      || not (contains (lower product) lowered)
      || mem (normalise_product product) named
    then name_products lowered registry named
    else name_products lowered registry (named ++ normalise_product product ∷ [])

unfoldable pub recommended_in :
    (String → Bool) → List String → List String → List String → List String
unfolding name_products lower
recommended_in is_recommending registry [] named = named
recommended_in is_recommending registry (sentence ∷ rest) named =
    recommended_in is_recommending registry rest
      (if is_recommending sentence then name_products (lower sentence) registry named else named)

unfoldable pub recommends_a_product : Services → String → List String
unfolding recommended_in keep strip
recommends_a_product s text =
    recommended_in s.is_recommending s.registry
      (keep (λ sentence. not (strip sentence == "")) (s.sentences text)) []

unfoldable pub approved_names : Option RecommendationDecision → List String
approved_names none = []
approved_names (some d) = map (λ a. a.candidate) d.approved

-- The products that the request and the question are about.
unfoldable pub asked_about : Services → Resolved → String → List String
unfolding keep normalise_product
asked_about s r question =
    map normalise_product (keep (λ p. not (p == "")) (r.product ∷ r.candidate_products))
    ++ s.named_products question s.registry

unfoldable pub allowed : Services → Option RecommendationDecision → Resolved → String → List String
unfolding normalise_product approved_names asked_about
allowed s d r question = map normalise_product (approved_names d) ++ asked_about s r question

-- The products that the text recommends and that are neither approved nor asked about.
unfoldable pub unapproved :
    Services → Option RecommendationDecision → Resolved → String → String → List String
unfolding keep mem allowed recommends_a_product
unapproved s d r question text =
    keep (λ p. not (mem p (allowed s d r question))) (recommends_a_product s text)

-- The intruders of `contained`: the products beyond an approved set, where there is one, in order.
unfoldable pub strangers : Services → Option RecommendationDecision → String → List String
unfolding intruders is_nil approved_names sorted unique
strangers s none text = []
strangers s (some d) text =
    if is_nil d.approved
    then []
    else sorted text_le (unique (intruders text (approved_names (some d)) s.registry))

abbrev pub no_support : RecommendationDecision
no_support = record {
  outcome = no_supported_recommendation;
  approved = [];
  rejected = [];
  missing = [];
}

unfoldable pub decision_or : Option RecommendationDecision → RecommendationDecision
decision_or none = no_support
decision_or (some d) = d

-- `", ".join(names)`
unfoldable pub listed : List String → String
listed [] = ""
listed (name ∷ []) = name
listed (name ∷ next ∷ names) = joined name (joined ", " (listed (next ∷ names)))

-- `_refuse`
unfoldable pub refuse_turn : Services → TurnState → String → TurnState
unfolding decision_or
refuse_turn s st why =
    let refused = s.refuse_for st.resolved (decision_or st.decision) why in
    record st {
      answer = some refused;
      answers = (st.raw_question, refused) ∷ [];
      outcome = "no_supported_recommendation";
    }

upper_char : Char → Char
upper_char c =
    let n = code c in
    if leb b'a' n && leb n b'z' then char_at "ABCDEFGHIJKLMNOPQRSTUVWXYZ" (n - b'a') else c

is_letter : Char → Bool
is_letter c = let n = code c in leb b'a' n && leb n b'z' || leb b'A' n && leb n b'Z'

-- `s.title()` of a lowered text, after a letter or not
unfoldable pub title : Bool → String → String
unfolding upper_char is_letter
title after String.[] = ""
title after (String.◌∷◌ c s) =
    String.◌∷◌ (if after then c else upper_char c) (title (is_letter c) s)

unfoldable pub unapproved_reason : List String → String
unfolding listed title
unapproved_reason products =
    joined "the answer recommended "
      (joined (listed (map (title false) products)) " without an evidence assessment supporting it")

unfoldable pub intruder_reason : List String → String
unfolding listed
intruder_reason products =
    joined "the composed answer named a product the evidence had not approved: " (listed products)

unfoldable pub verify_answer : Services → TurnState → Option Answer → TurnState
unfolding is_nil unapproved strangers refuse_turn unapproved_reason intruder_reason
verify_answer s st none = st
verify_answer s st (some a) =
    if a.is_refused
    then st
    else if not (is_nil (unapproved s st.decision st.resolved st.raw_question a.text))
    then refuse_turn s st
        (unapproved_reason (unapproved s st.decision st.resolved st.raw_question a.text))
    else if not (is_nil (strangers s st.decision a.text))
    then refuse_turn s st (intruder_reason (strangers s st.decision a.text))
    else st

-- `state["answer"]` is the first of the answers; the answers to further parts are not looked at.
unfoldable pub verify : Services → TurnState → TurnState
unfolding verify_answer
verify s st = verify_answer s st st.answer
