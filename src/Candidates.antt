-- ===== src/Candidates.antt =====
-- Which products may be recommended (assistant/retrieval/candidates.py):
-- discovery, the assessment of each candidate on published evidence, and the decision. The
-- repository, the registry and the vocabulary are parameters.
mod Evidence
mod Decision
mod Tests
use technical_knowledge_assi.Prelude.{
  ℕ, ◌+◌, String, Bool, true, false, ◌&&◌, ◌||◌, not, Option, none, some, List, [], ◌∷◌, ◌++◌, map,
  mem, keep, any, take, lower, contains, ◌==◌, string_eq, if◌then◌else◌,
}
use technical_knowledge_assi.Prelude.Dict
use technical_knowledge_assi.Prelude.Dict.{Dict}
use technical_knowledge_assi.Requests.{ResolvedRequest, requirement_for, or_empty, missing_facts}
use technical_knowledge_assi.Compatibility.{CompatibilityRule, is_compatible}

abbrev pub max_candidates : ℕ
max_candidates = 8

pub data Sufficiency : Type 0 where
  supported conditional insufficient incompatible : Sufficiency

pub data Outcome : Type 0 where
  supported_recommendation conditional_recommendation need_more_information : Outcome
  no_supported_recommendation handoff : Outcome

-- A retrieved passage: its identity, the product of the page it is from, and its text.
pub record Passage : Type 0 where
  pub chunk_id : String
  pub owner : String
  pub content : String

-- A manifest entry: the product and the address.
pub record Document : Type 0 where
  pub document_product : String
  pub canonical_url : String

-- What selection calls. `manifest` and `caveats` may raise, which is `none`; the audience and the
-- limit of `find_passages` are fixed for one request.
pub record Repository : Type 0 where
  pub find_passages : String → List String → List Passage
  pub manifest : Option (List Document)
  pub caveats : String → Option (List String)

-- `detector.terms_for(kind, value)`
abbrev pub Vocabulary : Type 0
Vocabulary = String → String → List String

unfoldable pub belongs_to : Passage → String → Bool
unfolding lower contains
belongs_to hit product =
    let owner = lower hit.owner in
    let wanted = lower product in
    not (owner == "") && (owner == wanted || contains wanted owner || contains owner wanted)

abbrev pub or_one : List String → String → List String
or_one [] word = word ∷ []
or_one (t ∷ ts) word = t ∷ ts

unfoldable pub terms_for : Vocabulary → String → ResolvedRequest → List String
terms_for vocabulary prop resolved =
    if prop == "substrate" && not (resolved.substrate == "")
    then or_one (vocabulary "substrate" resolved.substrate) resolved.substrate
    else or_one (vocabulary "property_asked" prop) prop

-- `None` for an empty location
abbrev pub filled_or_none : String → Option String
filled_or_none value = if value == "" then none else some value

unfoldable pub documented_rule :
    Option (List CompatibilityRule) → String → ResolvedRequest → Option Bool
unfolding is_compatible
documented_rule none product resolved = none
documented_rule (some matrix) product resolved =
    let decided =
      is_compatible matrix product resolved.substrate (filled_or_none resolved.location) in
    if resolved.substrate == "" then none else decided

unfoldable pub caveats_of : (String → Option (List String)) → String → List Document → List String
unfolding lower
caveats_of caveats product [] = []
caveats_of caveats product (document ∷ documents) =
    let rest = caveats_of caveats product documents in
    if lower document.document_product == lower product
    then or_empty (caveats document.canonical_url) ++ rest
    else rest

unfoldable pub caveats_for : Repository → String → List String
unfolding caveats_of
caveats_for repo product = caveats_of repo.caveats product (or_empty repo.manifest)

pub record CandidateAssessment : Type 0 where
  pub candidate : String
  pub status : Sufficiency
  pub supported_properties : List String
  pub unsupported_properties : List String
  pub assessed_caveats : List String
  pub blocking_unknowns : List String
  pub evidence : Dict String (List String)

abbrev pub is_eligible : Sufficiency → Bool
is_eligible supported = true
is_eligible conditional = true
is_eligible insufficient = false
is_eligible incompatible = false

unfoldable pub eligible : CandidateAssessment → Bool
eligible a = is_eligible a.status

-- The passages found for a property that are the product's own.
unfoldable pub own_passages :
    Repository → Vocabulary → ResolvedRequest → String → String → List Passage
unfolding keep belongs_to terms_for
own_passages repo vocabulary resolved product prop =
    keep (λ hit. belongs_to hit product)
      (repo.find_passages product (terms_for vocabulary prop resolved))

abbrev pub is_empty {ℓ} : {A : Type ℓ} → List A → Bool
is_empty [] = true
is_empty (x ∷ xs) = false

abbrev pub chunk_ids : List Passage → List String
chunk_ids hits = map (λ hit. hit.chunk_id) hits

-- The loop over the required properties: `own` gives the own passages of a property.
unfoldable pub supported_of : (String → List Passage) → List String → List String
unfolding keep
supported_of own props = keep (λ prop. not (is_empty (own prop))) props

unfoldable pub unsupported_of : (String → List Passage) → List String → List String
unfolding keep
unsupported_of own props = keep (λ prop. is_empty (own prop)) props

unfoldable pub evidence_of : (String → List Passage) → List String → Dict String (List String)
unfolding supported_of
evidence_of own props = map (λ prop. (prop, chunk_ids (own prop))) (supported_of own props)

unfoldable pub sufficiency : List String → List String → List String → Sufficiency
sufficiency blocking unsupported caveats =
    if not (is_empty blocking)
    then insufficient
    else if not (is_empty unsupported) || not (is_empty caveats)
    then conditional
    else supported

unfoldable pub assess_evidence :
    (String → List Passage) → List String → List String → String → CandidateAssessment
unfolding supported_of unsupported_of evidence_of sufficiency keep take
assess_evidence own props caveats product =
    let unsupported = unsupported_of own props in
    let blocking = keep (λ p. p == "substrate") unsupported in
    record {
      candidate = product;
      status = sufficiency blocking unsupported caveats;
      supported_properties = supported_of own props;
      unsupported_properties = unsupported;
      assessed_caveats = take 3 caveats;
      blocking_unknowns = blocking;
      evidence = evidence_of own props;
    }

abbrev pub excluded : String → CandidateAssessment
excluded product = record {
  candidate = product;
  status = incompatible;
  supported_properties = [];
  unsupported_properties = [];
  assessed_caveats = [];
  blocking_unknowns = [];
  evidence = [];
}

abbrev pub is_no : Option Bool → Bool
is_no (some false) = true
is_no _ = false

-- What one request is assessed with.
pub record Setting : Type 0 where
  pub resolved : ResolvedRequest
  pub repo : Repository
  pub vocabulary : Vocabulary
  pub matrix : Option (List CompatibilityRule)

unfoldable pub assess : Setting → String → CandidateAssessment
unfolding documented_rule assess_evidence own_passages requirement_for caveats_for
assess s product =
    if is_no (documented_rule s.matrix product s.resolved)
    then excluded product
    else assess_evidence (own_passages s.repo s.vocabulary s.resolved product)
        (requirement_for s.resolved).properties (caveats_for s.repo product) product

-- `{p.lower(): p for p in registry}`: of two spellings of one name, the last one.
unfoldable pub spellings : List String → Dict String String → Dict String String
unfolding Dict.insert lower
spellings [] names = names
spellings (p ∷ registry) names = spellings registry (Dict.insert (lower p) p names)

-- The inner function `add`: an empty spelling is no product.
unfoldable pub add_name : Dict String String → String → List String → List String
unfolding Dict.lookup lower mem
add_name names name found = elim (Dict.lookup (lower name) names) [
  | none ↦ found
  | some canonical ↦
      if canonical == "" || mem canonical found then found else found ++ canonical ∷ []
]

unfoldable pub add_names : Dict String String → List String → List String → List String
unfolding add_name
add_names names [] found = found
add_names names (name ∷ rest) found = add_names names rest (add_name names name found)

-- The names in the order of the calls of `add`.
abbrev pub proposed : ResolvedRequest → List Passage → List String
proposed resolved hits =
    (if resolved.product == "" then [] else resolved.product ∷ [])
    ++ map (λ hit. hit.owner) hits
    ++ resolved.candidate_products

unfoldable pub discover : ResolvedRequest → List Passage → List String → List String
unfolding spellings add_names take
discover resolved hits registry =
    take max_candidates (add_names (spellings registry []) (proposed resolved hits) [])

pub record RecommendationDecision : Type 0 where
  pub outcome : Outcome
  pub approved : List CandidateAssessment
  pub rejected : List CandidateAssessment
  pub missing : List String

abbrev pub is_supported : Sufficiency → Bool
is_supported s = elim s [ supported ↦ true | _ ↦ false ]

unfoldable pub decide_among : List CandidateAssessment → RecommendationDecision
unfolding keep any eligible
decide_among assessments =
    let approved = keep eligible assessments in
    let rejected = keep (λ a. not (eligible a)) assessments in
    if is_empty approved
    then record {
      outcome = no_supported_recommendation;
      approved = [];
      rejected = rejected;
      missing = [];
    }
    else record {
      outcome =
          if any (λ a. is_supported a.status) approved
          then supported_recommendation
          else conditional_recommendation;
      approved = approved;
      rejected = rejected;
      missing = [];
    }

unfoldable pub decide_by : List String → List CandidateAssessment → RecommendationDecision
unfolding decide_among
decide_by [] assessments = decide_among assessments
decide_by (slot ∷ missing) assessments = record {
  outcome = need_more_information;
  approved = [];
  rejected = [];
  missing = slot ∷ missing;
}

-- The assessments are read, as they are made, only if nothing is missing.
unfoldable pub decide : Setting → List Passage → List String → RecommendationDecision
unfolding missing_facts decide_by assess discover
decide s hits registry =
    decide_by (missing_facts s.resolved)
      (map (λ name. assess s name) (discover s.resolved hits registry))

-- `contained`, without the sorting of the intruders for the trace.
unfoldable pub intruders : String → List String → List String → List String
unfolding keep lower contains mem any
intruders text approved_names registry =
    let approved = map lower approved_names in
    keep
      (λ product.
        contains (lower product) (lower text)
        && not (mem (lower product) approved)
        && not (any (contains (lower product)) approved))
      registry
