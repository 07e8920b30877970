-- ===== src/AnswerCache/Tests.antt =====
-- The answer cache at concrete inputs (assistant/cache.py).
use technical_knowledge_assi.Prelude.{◌≡◌, refl, some, List, [], ◌∷◌, String, string_eq}
use technical_knowledge_assi.AnswerCache.{get, put}
use technical_knowledge_assi.AnswerCache.History.{
  Call, getting, putting, after, last_put, get_returns_last_put,
}

abbrev calls : List (Call String String)
calls = putting "k" "new" ∷ getting "k" ∷ putting "j" "other" ∷ putting "k" "old" ∷ []

get_returns_last_put_example : last_put "k" calls ≡ some "new"
unfolding after get put
get_returns_last_put_example = get_returns_last_put calls 2 "k" refl

abbrev short_digest : String → String
short_digest s = s

abbrev staff_first : List String
staff_first = "staff" ∷ "public" ∷ []

abbrev public_first : List String
public_first = "public" ∷ "staff" ∷ []

abbrev nothing : List (String × String)
nothing = []
