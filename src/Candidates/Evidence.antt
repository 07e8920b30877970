-- ===== src/Candidates/Evidence.antt =====
-- What the assessment of one product rests on (assistant/retrieval/candidates.py, `assess`).
use technical_knowledge_assi.Prelude.{
  String, true, ◌&&◌, not, List, [], ◌∷◌, mem, keep, ◌≡◌, refl, ◌∙◌, ap, arith, ◌==◌, string_eq,
  Bool-cases, inl, inr, All, All-keep, mem-keep,
}
use technical_knowledge_assi.Candidates.{
  Passage, Repository, Vocabulary, belongs_to, terms_for, documented_rule, caveats_for, eligible,
  own_passages, is_empty, unsupported_of, sufficiency, assess_evidence, is_no, Setting, assess,
  is_eligible,
}
use technical_knowledge_assi.Requests.{ResolvedRequest, requirement_of, requirement_for}

mem-requirement :
    (objective : String) → mem "substrate" (requirement_of objective).properties ≡ true
unfolding requirement_of mem
mem-requirement objective = ground arith

-- Every passage that the evidence of a product rests on was found for the product and the property's
-- terms, and was published for the product itself.
pub own_passages_belong :
    (repo : Repository) (vocabulary : Vocabulary) (resolved : ResolvedRequest)
    (product prop : String)
    → All
        (λ hit. belongs_to hit product ≡ true)
        (own_passages repo vocabulary resolved product prop)
unfolding own_passages
own_passages_belong repo vocabulary resolved product prop =
    All-keep (λ hit. belongs_to hit product)
      (repo.find_passages product (terms_for vocabulary prop resolved))

is_empty-keep : (a : String) (xs : List String) → is_empty (keep (λ x. x == a) xs) ≡ not (mem a xs)
unfolding keep mem
is_empty-keep a [] = refl
is_empty-keep a (x ∷ xs) = ground (arith, is_empty-keep a xs)

eligible-sufficiency :
    (blocking unsupported caveats : List String)
    → is_eligible (sufficiency blocking unsupported caveats) ≡ is_empty blocking
unfolding sufficiency
eligible-sufficiency blocking unsupported caveats = ground arith

eligible-evidence :
    (own : String → List Passage) (props caveats : List String) (product : String)
    → eligible (assess_evidence own props caveats product)
      ≡ not (mem "substrate" props && is_empty (own "substrate"))
unfolding assess_evidence eligible unsupported_of
eligible-evidence own props caveats product =
    eligible-sufficiency (keep (λ p. p == "substrate") (unsupported_of own props))
      (unsupported_of own props) caveats
    ∙ is_empty-keep "substrate" (unsupported_of own props)
    ∙ ap not (mem-keep (λ prop. is_empty (own prop)) "substrate" props)

-- A product is eligible exactly if no documented rule excludes it and the repository holds a passage
-- of its own under the terms of the asked background: whatever else is documented, and whatever was
-- published for other products.
pub eligible-iff_own_evidence :
    (s : Setting) (product : String)
    → eligible (assess s product) ≡ (
        not (is_no (documented_rule s.matrix product s.resolved))
        && not (is_empty (own_passages s.repo s.vocabulary s.resolved product "substrate")))
unfolding assess requirement_for
eligible-iff_own_evidence s product =
    elim (Bool-cases (is_no (documented_rule s.matrix product s.resolved))) [
      | inl excludes ↦ rw excludes (unfold eligible in refl)
      | inr allowed ↦ rw allowed (
          eligible-evidence (own_passages s.repo s.vocabulary s.resolved product)
            (requirement_of s.resolved.objective).properties (caveats_for s.repo product) product
          ∙ rw (mem-requirement s.resolved.objective))
    ]
