-- ===== src/Audience/Tests.antt =====
-- Audiences at concrete inputs (assistant/knowledge/audience.py).
use technical_knowledge_assi.Prelude.{◌≡◌, refl, true, some, [], ◌∷◌, mem, string_eq}
use technical_knowledge_assi.Audience.{audiences, permitted, resolve}
use technical_knowledge_assi.Audience.Narrowing.{resolve_only_narrows}

resolve_only_narrows_example :
    (mem "public" (permitted ("public" ∷ "trade" ∷ [])) ≡ true) × (mem "public" audiences ≡ true)
unfolding mem resolve permitted
resolve_only_narrows_example =
    resolve_only_narrows (some "staff,public") ("public" ∷ "trade" ∷ []) "public" refl
