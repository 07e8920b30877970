-- ===== src/Compatibility/Tests.antt =====
-- Compatibility rules at concrete inputs (assistant/retrieval/compatibility.py).
use technical_knowledge_assi.Prelude.{◌≡◌, refl, true, false, some, [], ◌∷◌, any}
use technical_knowledge_assi.Compatibility.{CompatibilityRule, concerns, supports, is_compatible}
use technical_knowledge_assi.Compatibility.FirstRule.{first_rule_decides}

abbrev inside_rule : CompatibilityRule
inside_rule = record {
  product = "Ultra";
  substrate = "brick";
  interior = true;
  exterior = false;
  recommended = true;
  caveats = [];
}

abbrev outside_rule : CompatibilityRule
outside_rule = record inside_rule { interior = false; exterior = true }

-- The second rule supports the location, and is not read.
first_rule_decides_example :
    is_compatible (inside_rule ∷ outside_rule ∷ []) "ultra" "Brick" (some "external") ≡ some false
unfolding any concerns supports
first_rule_decides_example =
    first_rule_decides [] (outside_rule ∷ []) inside_rule "ultra" "Brick" "external" refl refl refl
