-- ===== src/Requests.antt =====
-- What has to be known before a product can be chosen: the resolved request
-- (assistant/answering/understanding.py) and the facts that a kind of job requires
-- (assistant/retrieval/candidates.py).
pub mod Missing
use technical_knowledge_assi.Prelude.{
  ◌+◌, String, Bool, true, false, not, Option, none, some, List, [], ◌∷◌, ◌++◌, mem, keep, unique,
  ◌==◌, string_eq, if◌then◌else◌,
}
use technical_knowledge_assi.Prelude.Dict
use technical_knowledge_assi.Prelude.Dict.{Dict}

-- `ResolvedRequest` of assistant/answering/understanding.py, the fields that selection reads.
pub record ResolvedRequest : Type 0 where
  pub product : String
  pub objective : String
  pub substrate : String
  pub location : String
  pub exposure : String
  pub candidate_products : List String
  pub unsettled : List String

-- `ResolvedRequest.slots`: the filled ones.
abbrev pub filled : Dict String String → Dict String String
filled [] = []
filled ((name, value) ∷ rest) = if value == "" then filled rest else (name, value) ∷ filled rest

unfoldable pub slots : ResolvedRequest → Dict String String
slots r = filled (
    ("product", r.product)
    ∷ ("substrate", r.substrate)
    ∷ ("location", r.location)
    ∷ ("exposure", r.exposure)
    ∷ [])

pub record Requirement : Type 0 where
  pub always : List String
  pub conditional_on : Dict String (List String)
  pub properties : List String

abbrev pub external_exposure : Dict String (List String)
external_exposure = ("external", "exposure" ∷ []) ∷ []

unfoldable pub requirement_of : String → Requirement
requirement_of objective =
    if objective == "insulation"
    then record {
      always = "substrate" ∷ "location" ∷ [];
      conditional_on = external_exposure;
      properties = "substrate" ∷ "thickness" ∷ [];
    }
    else if objective == "render"
    then record {
      always = "substrate" ∷ "location" ∷ [];
      conditional_on = external_exposure;
      properties = "substrate" ∷ "coats" ∷ [];
    }
    else if objective == "plaster"
    then record {
      always = "substrate" ∷ "location" ∷ [];
      conditional_on = [];
      properties = "substrate" ∷ [];
    }
    else record { always = "substrate" ∷ []; conditional_on = []; properties = "substrate" ∷ [] }

unfoldable pub requirement_for : ResolvedRequest → Requirement
unfolding requirement_of
requirement_for resolved = requirement_of resolved.objective

abbrev pub or_empty {ℓ} : {A : Type ℓ} → Option (List A) → List A
or_empty none = []
or_empty (some xs) = xs

-- needed += requirement.conditional.get(value, ()) for every slot
unfoldable pub conditional_slots : Dict String (List String) → Dict String String → List String
unfolding Dict.lookup
conditional_slots table [] = []
conditional_slots table ((slot, value) ∷ have) =
    or_empty (Dict.lookup value table) ++ conditional_slots table have

abbrev pub is_filled : Dict String String → String → Bool
is_filled have slot = elim (Dict.lookup slot have) [ none ↦ false | some _ ↦ true ]

unfoldable pub missing_of : Requirement → Dict String String → List String → List String
unfolding conditional_slots keep unique mem
missing_of requirement have unsettled =
    let needed = requirement.always ++ conditional_slots requirement.conditional_on have in
    let missing = keep (λ slot. not (is_filled have slot)) (unique needed) in
    missing ++ keep (λ slot. not (mem slot missing)) unsettled

unfoldable pub missing_facts : ResolvedRequest → List String
unfolding missing_of requirement_for slots
missing_facts resolved = missing_of (requirement_for resolved) (slots resolved) resolved.unsettled
