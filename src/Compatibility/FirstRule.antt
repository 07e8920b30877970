-- ===== src/Compatibility/FirstRule.antt =====
-- Which rule decides (assistant/retrieval/compatibility.py).
use technical_knowledge_assi.Prelude.{
  String, Bool, true, false, ◌&&◌, ◌||◌, Option, none, some, List, [], ◌∷◌, ◌≡◌, arith, any,
  string_eq, mem, lower, ◌++◌, Bool-cases, inl, inr, Option-cases, not, ◌∙◌,
}
use technical_knowledge_assi.Compatibility.{
  CompatibilityRule, concerns, supports, matches, verdict, is_compatible, is_false,
  exclude_incompatible, interior_words, exterior_words,
}

-- A location that the rules know.
abbrev pub is_known : String → Bool
is_known location = mem (lower location) interior_words || mem (lower location) exterior_words

verdict-known :
    (location : String) (r : CompatibilityRule)
    → is_known location ≡ true
    → verdict (some location) r ≡ some (supports (some location) r && r.recommended)
unfolding verdict supports
verdict-known location r known = ground (arith, known)

-- For a known location the first rule for the product and the substrate decides alone, and approves
-- exactly if it supports the location and recommends the product; the rules after it are not read.
pub first_rule_decides :
    (before after : List CompatibilityRule) (r : CompatibilityRule)
    (product substrate location : String)
    → any (concerns product substrate) before ≡ false
    → concerns product substrate r ≡ true
    → is_known location ≡ true
    → is_compatible (before ++ r ∷ after) product substrate (some location)
      ≡ some (supports (some location) r && r.recommended)
unfolding is_compatible any
first_rule_decides [] after r product substrate location none_before here known =
    rw (here, verdict-known location r known)
first_rule_decides (x ∷ before) after r product substrate location none_before here known =
    let ih = first_rule_decides before after r product substrate location in
    elim (Bool-cases (concerns product substrate x)) [
      | inl e ↦ absurd (ground (arith, e, none_before))
      | inr e ↦ rw e (ih (ground (arith, e, none_before)) here known)
    ]

verdict-true :
    (location : Option String) (r : CompatibilityRule)
    → verdict location r ≡ some true
    → (supports location r && r.recommended) ≡ true
unfolding verdict supports
verdict-true none r h = ground (arith, h)
verdict-true (some location) r h = ground (arith, h)

verdict-false :
    (location : Option String) (r : CompatibilityRule)
    → verdict location r ≡ some false
    → (supports location r && r.recommended) ≡ false
unfolding verdict supports
verdict-false none r h = ground (arith, h)
verdict-false (some location) r h = ground (arith, h)

-- A missing rule is no permission: a product is compatible only if some rule matches the product, the
-- substrate and the location and recommends the product.
pub approval_needs_a_rule :
    (rules : List CompatibilityRule) (product substrate : String) (location : Option String)
    → is_compatible rules product substrate location ≡ some true
    → any (λ r. matches product substrate location r && r.recommended) rules ≡ true
unfolding is_compatible any matches
approval_needs_a_rule [] product substrate location h = cc h
approval_needs_a_rule (r ∷ rules) product substrate location h =
    let ih = approval_needs_a_rule rules product substrate location in
    elim (Bool-cases (concerns product substrate r)) [
      | inr e ↦ rw e (ih (rw e at h))
      | inl e ↦ rw e (elim (Option-cases (verdict location r)) [
        | inl v ↦ ground (arith, ih (rw (e, v) at h))
        | inr (b, v) ↦
            let approved : verdict location r ≡ some true = v ∙ (rw (e, v) at h) in
            ground (arith, verdict-true location r approved)
      ])
    ]

-- A missing rule is no exclusion either: a product is excluded only if the substrate is known and
-- some rule that concerns the product and the substrate does not both support the location and
-- recommend the product.
pub exclusion_needs_a_rule :
    (rules : List CompatibilityRule) (product substrate : String) (location : Option String)
    → exclude_incompatible rules product (some substrate) location ≡ true
    → any (λ r. concerns product substrate r && not (supports location r && r.recommended)) rules
      ≡ true
unfolding exclude_incompatible is_false is_compatible any
exclusion_needs_a_rule [] product substrate location h = cc h
exclusion_needs_a_rule (r ∷ rules) product substrate location h =
    let ih = exclusion_needs_a_rule rules product substrate location in
    elim (Bool-cases (concerns product substrate r)) [
      | inr e ↦ rw e (ih (rw e at h))
      | inl e ↦ rw e (elim (Option-cases (verdict location r)) [
        | inl v ↦ ground (arith, ih (rw (e, v) at h))
        | inr (true, v) ↦ absurd (let h' = rw (e, v) at h in cc h')
        | inr (false, v) ↦ ground (arith, verdict-false location r v)
      ])
    ]
