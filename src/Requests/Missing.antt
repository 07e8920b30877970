-- ===== src/Requests/Missing.antt =====
-- What has to be asked before a product can be chosen (assistant/retrieval/candidates.py,
-- `missing_facts`).
use technical_knowledge_assi.Prelude.{
  String, Bool, ◌&&◌, ◌||◌, not, List, ◌++◌, mem, keep, unique, ◌≡◌, ◌∙◌, arith, string_eq,
  mem-append, mem-keep, mem-unique,
}
use technical_knowledge_assi.Prelude.Dict.{Dict}
use technical_knowledge_assi.Requests.{
  Requirement, ResolvedRequest, requirement_for, slots, is_filled, conditional_slots, missing_of,
  missing_facts,
}

-- Whether the job needs the slot, by itself or by a value that another slot has.
abbrev pub needs : Requirement → Dict String String → String → Bool
needs requirement have slot =
    mem slot requirement.always || mem slot (conditional_slots requirement.conditional_on have)

mem-missing_of :
    (requirement : Requirement) (have : Dict String String) (unsettled : List String)
    (slot : String)
    → mem slot (missing_of requirement have unsettled)
      ≡ ((needs requirement have slot && not (is_filled have slot)) || mem slot unsettled)
unfolding missing_of
mem-missing_of requirement have unsettled slot =
    let needed : List String =
      requirement.always ++ conditional_slots requirement.conditional_on have in
    let missing : List String = keep (λ s. not (is_filled have s)) (unique needed) in
    let a : mem slot missing ≡ (needs requirement have slot && not (is_filled have slot)) =
      mem-keep (λ s. not (is_filled have s)) slot (unique needed)
      ∙ rw (
        mem-unique slot needed,
        mem-append slot requirement.always (conditional_slots requirement.conditional_on have),
      ) in
    mem-append slot missing (keep (λ s. not (mem s missing)) unsettled)
    ∙ rw (mem-keep (λ s. not (mem s missing)) slot unsettled, a) (ground arith)

-- A slot is asked for exactly if the job needs it and it is not filled, or if it is unsettled.
pub missing_facts-exact :
    (resolved : ResolvedRequest) (slot : String)
    → mem slot (missing_facts resolved) ≡ (
        (needs (requirement_for resolved) (slots resolved) slot
          && not (is_filled (slots resolved) slot))
        || mem slot resolved.unsettled)
unfolding missing_facts
missing_facts-exact resolved slot =
    mem-missing_of (requirement_for resolved) (slots resolved) resolved.unsettled slot
