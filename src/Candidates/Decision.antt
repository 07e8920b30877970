-- ===== src/Candidates/Decision.antt =====
-- What a selection ends with (assistant/retrieval/candidates.py): `missing_facts`, `discover`,
-- `decide` and `contained`.
use technical_knowledge_assi.Prelude.{
  ◌≤◌, String, Bool, true, false, ◌&&◌, ◌||◌, not, List, [], ◌∷◌, map, mem, keep, any, ◌≡◌, refl,
  sym, ap, arith, ◌==◌, string_eq, Bool-cases, Option-cases, inl, inr, All, All-take, length,
  length-take-le, lower, contains, All-append, All-mem,
}
use technical_knowledge_assi.Prelude.Dict
use technical_knowledge_assi.Prelude.Dict.{Dict}
use technical_knowledge_assi.Candidates.{
  Outcome, supported_recommendation, conditional_recommendation, need_more_information, Passage,
  documented_rule, CandidateAssessment, eligible, own_passages, is_empty, is_no, Setting, assess,
  max_candidates, spellings, add_name, add_names, discover, is_supported, decide_among, decide,
  intruders, proposed, decide_by, assess_evidence,
}
use technical_knowledge_assi.Requests.{ResolvedRequest, missing_facts}
use technical_knowledge_assi.Candidates.Evidence.{eligible-iff_own_evidence}

-- Every name of the dictionary of spellings is one of the registry.
All-spellings :
    (P : String → Type 0) (registry : List String) (names : Dict String String)
    → All P registry
    → All (λ entry. P entry.1) names
    → All (λ entry. P entry.1) (spellings registry names)
unfolding spellings
All-spellings P [] names h k = k
All-spellings P (p ∷ registry) names h k =
    All-spellings P registry (Dict.insert (lower p) p names) h.1
      (Dict.All-insert (λ entry. P entry.1) (lower p) p names (λ j e. h.0) k)

All-add_name :
    (P : String → Type 0) (names : Dict String String) (name : String) (found : List String)
    → All (λ entry. P entry.1) names
    → All P found
    → All P (add_name names name found)
unfolding add_name
All-add_name P names name found h k = elim (Option-cases (Dict.lookup (lower name) names)) [
  | inl e ↦ rw (e, add_name) k
  | inr (canonical, e) ↦
      let here : P canonical = Dict.All-lookup (λ entry. P entry.1) (lower name) names h e in
      rw (e, add_name)
        (elim (Bool-cases (canonical == "" || mem canonical found)) [
          | inl skip ↦ rw skip k
          | inr new ↦ rw new (All-append P found (canonical ∷ []) k (here, tt))
        ])
]

All-add_names :
    (P : String → Type 0) (names : Dict String String) (asked found : List String)
    → All (λ entry. P entry.1) names
    → All P found
    → All P (add_names names asked found)
unfolding add_names
All-add_names P names [] found h k = k
All-add_names P names (name ∷ rest) found h k =
    All-add_names P names rest (add_name names name found) h (All-add_name P names name found h k)

All-discover :
    (P : String → Type 0) (resolved : ResolvedRequest) (hits : List Passage)
    (registry : List String)
    → All P registry
    → All P (discover resolved hits registry)
unfolding discover
All-discover P resolved hits registry h =
    All-take P max_candidates (add_names (spellings registry []) (proposed resolved hits) []) (
      All-add_names P (spellings registry []) (proposed resolved hits) []
        (All-spellings P registry [] h tt) tt)

-- Whatever the person, the passages and the model propose, discovery gives at most eight candidates,
-- each of them a name of the registry.
pub discover-registry :
    (resolved : ResolvedRequest) (hits : List Passage) (registry : List String)
    → All (λ name. mem name registry ≡ true) (discover resolved hits registry)
      × (length (discover resolved hits registry) ≤ max_candidates)
discover-registry resolved hits registry = (
  All-discover (λ name. mem name registry ≡ true) resolved hits registry (All-mem registry),
  unfold discover in
      length-take-le max_candidates (add_names (spellings registry []) (proposed resolved hits) []),
)

candidate-assess : (s : Setting) (name : String) → (assess s name).candidate ≡ name
unfolding assess assess_evidence
candidate-assess s name = elim (Bool-cases (is_no (documented_rule s.matrix name s.resolved))) [
  | inl e ↦ rw e
  | inr e ↦ rw e
]

-- What a decision may approve: a product of the registry that no documented rule excludes and for
-- which the repository has its own passages on the background.
abbrev pub IsPublished : Setting → List String → CandidateAssessment → Type 0
IsPublished s registry a =
    (mem a.candidate registry ≡ true)
    × (is_no (documented_rule s.matrix a.candidate s.resolved) ≡ false)
    × (is_empty (own_passages s.repo s.vocabulary s.resolved a.candidate "substrate") ≡ false)

assess-IsPublished :
    (s : Setting) (registry : List String) (name : String)
    → mem name registry ≡ true
    → eligible (assess s name) ≡ true
    → IsPublished s registry (assess s name)
assess-IsPublished s registry name known good =
    let e = eligible-iff_own_evidence s name in
    rw (candidate-assess s name) (known, ground (arith, e, good), ground (arith, e, good))

All-keep_assess :
    (s : Setting) (registry names : List String)
    → All (λ name. mem name registry ≡ true) names
    → All (IsPublished s registry) (keep eligible (map (λ name. assess s name) names))
unfolding keep
All-keep_assess s registry [] h = tt
All-keep_assess s registry (name ∷ names) h = elim (Bool-cases (eligible (assess s name))) [
  | inl good ↦
      rw good (assess-IsPublished s registry name h.0 good, All-keep_assess s registry names h.1)
  | inr bad ↦ rw bad (All-keep_assess s registry names h.1)
]

All-decide_by :
    (P : CandidateAssessment → Type 0) (missing : List String)
    (assessments : List CandidateAssessment)
    → All P (keep eligible assessments)
    → All P (decide_by missing assessments).approved
unfolding decide_by decide_among
All-decide_by P (slot ∷ missing) assessments h = tt
All-decide_by P [] assessments h = elim (Bool-cases (is_empty (keep eligible assessments))) [
  | inl e ↦ rw e tt
  | inr e ↦ rw e h
]

-- Every product that a decision approves is published for the job: it is in the registry, no rule
-- excludes it, and the repository has passages of its own on the background that was asked for.
pub approved-IsPublished :
    (s : Setting) (hits : List Passage) (registry : List String)
    → All (IsPublished s registry) (decide s hits registry).approved
unfolding decide
approved-IsPublished s hits registry =
    All-decide_by (IsPublished s registry) (missing_facts s.resolved)
      (map (λ name. assess s name) (discover s.resolved hits registry))
      (All-keep_assess s registry (discover s.resolved hits registry)
        (discover-registry s.resolved hits registry).0)

abbrev pub is_recommendation : Outcome → Bool
is_recommendation supported_recommendation = true
is_recommendation conditional_recommendation = true
is_recommendation _ = false

abbrev pub asks : Outcome → Bool
asks need_more_information = true
asks _ = false

decide_by-outcome :
    (missing : List String) (assessments : List CandidateAssessment)
    → (asks (decide_by missing assessments).outcome ≡ not (is_empty missing))
      × (is_recommendation (decide_by missing assessments).outcome
          ≡ not (is_empty (decide_by missing assessments).approved))
      × ((decide_by missing assessments).missing ≡ missing)
unfolding decide_by decide_among
decide_by-outcome (slot ∷ missing) assessments = (refl, refl, refl)
decide_by-outcome [] assessments = elim (Bool-cases (is_empty (keep eligible assessments))) [
  | inl e ↦ rw e (refl, refl, refl)
  | inr e ↦ elim (Bool-cases (any (λ a. is_supported a.status) (keep eligible assessments))) [
    | inl f ↦ rw (e, f) (refl, sym (ap not e), refl)
    | inr f ↦ rw (e, f) (refl, sym (ap not e), refl)
  ]
]

-- A decision asks for more exactly if a fact is missing, and names what is missing; it recommends,
-- with or without conditions, exactly if it approves some product.
pub decide-outcome :
    (s : Setting) (hits : List Passage) (registry : List String)
    → (asks (decide s hits registry).outcome ≡ not (is_empty (missing_facts s.resolved)))
      × (is_recommendation (decide s hits registry).outcome
          ≡ not (is_empty (decide s hits registry).approved))
      × ((decide s hits registry).missing ≡ missing_facts s.resolved)
unfolding decide
decide-outcome s hits registry =
    decide_by-outcome (missing_facts s.resolved)
      (map (λ name. assess s name) (discover s.resolved hits registry))

keep-none {ℓ} :
    {A : Type ℓ} (p : A → Bool) (xs : List A) → keep p xs ≡ [] → All (λ x. p x ≡ false) xs
unfolding keep
keep-none p [] h = tt
keep-none p (x ∷ xs) h = elim (Bool-cases (p x)) [
  | inl e ↦ absurd (let h' = rw e at h in cc h')
  | inr e ↦ (e, keep-none p xs (rw e at h))
]

-- An answer in which the containment check finds no intruder names no product of the registry but
-- approved ones, or ones whose name is part of an approved name.
pub contained-approved :
    (text : String) (approved_names registry : List String)
    → intruders text approved_names registry ≡ []
    → All
        (λ product.
          (contains (lower product) (lower text)
            && not (mem (lower product) (map lower approved_names))
            && not (any (contains (lower product)) (map lower approved_names)))
          ≡ false)
        registry
unfolding intruders
contained-approved text approved_names registry h = keep-none _ registry h
