-- ===== src/Understanding/Tests.antt =====
-- Runs of the understanding on a small vocabulary.
use technical_knowledge_assi.Prelude.{
  ℕ, ◌≡◌, refl, String, true, false, none, some, [], ◌∷◌, contains, string_eq, All, if◌then◌else◌,
}
use technical_knowledge_assi.Conversation.{Facts, fact}
use technical_knowledge_assi.Router.Detector.{Vocabulary}
use technical_knowledge_assi.Understanding.Readings.{
  select, lookup, verify, escalate, Reader, Reply, unparseable, parsed, deterministic,
  understand_turn,
}
use technical_knowledge_assi.Understanding.Names.{normalise_product, registered}
use technical_knowledge_assi.Understanding.Resolving.{resolve, Resolved}
use technical_knowledge_assi.Understanding.Testimony.{facts_from, stated_fact}
use technical_knowledge_assi.Understanding.Precedence.{OnlyAdds, understand_turn-OnlyAdds}
use technical_knowledge_assi.Understanding.Remembering.{IsOwn, facts_from-IsOwn}

abbrev vocabulary : Vocabulary
vocabulary = record {
  spec =
      (
        "substrate",
        record {
          values = ("brick", "brick" ∷ []) ∷ ("stone", "stone" ∷ []) ∷ ("cob", "cob" ∷ []) ∷ [];
          ask_only = [];
          is_load_bearing = true;
        },
      )
      ∷ (
        "property_asked",
        record {
          values = ("thickness", "thick" ∷ []) ∷ [];
          ask_only = [];
          is_load_bearing = false;
        },
      )
      ∷ [];
  classes = [];
}

-- A denial is read off "not", the rest off single words.
abbrev reader : Reader
reader = record {
  vocabulary = vocabulary;
  policy_of = λ q. if contains "cost" q then some "price" else none;
  area_in = λ q. if contains "30 m2" q then some 3000 else none;
  thickness_in = λ q. none;
  state_request_slot = λ q. "";
  is_background_lookup = λ q. false;
  is_select_shape = contains "should i use";
  topic_product = λ q registry. if contains "ultra" q then "ultra" else "";
  stated_product = λ q registry. "";
  compared_products = λ q registry. [];
  compares_products = λ q registry. false;
  asserted_text = λ q. if contains "not" q then "" else q;
  is_scenario_ask = contains "would";
  is_suitability = contains "suitable";
  is_own_building = contains "my";
  negation_count = λ q term. if contains "not" q then (1, 1) else (0, 1);
}

abbrev held_brick : Facts
held_brick =
    (
      "substrate",
      record {
        current = stated_fact "substrate" "brick" 1;
        superseded_facts = [];
        contradicted_by = [];
      },
    )
    ∷ []

abbrev choice : String
choice = "what should i use on my wall?"

-- A model that names a substrate that nobody mentioned.
abbrev inventing : Reply
inventing = parsed (record {
  raw_intent = some lookup;
  raw_product = "";
  raw_candidates = "solo" ∷ [];
  raw_objective = "insulation";
  raw_substrate = "cob";
  raw_location = "";
  raw_properties = [];
  raw_new_subject = false;
})

abbrev request : String → Reply → Facts → ℕ → Resolved
request question reply held turn =
    resolve reader (understand_turn reader question [] true false reply) question [] held turn ""

readings :
    ((understand_turn reader choice [] true false inventing).intent ≡ select)
    × ((understand_turn reader "what does it cost?" [] true false inventing).intent ≡ escalate)
    × ((understand_turn reader "what should i use for ultra" [] true false inventing).intent
        ≡ verify)
    × ((understand_turn reader choice [] true false unparseable).source ≡ "model+fallback")
unfolding understand_turn contains
readings = (refl, refl, refl, refl)

names :
    (normalise_product " Lime Green Ultra" ≡ "ultra")
    × (normalise_product "Lime Green" ≡ "lime green")
    × (registered ("Ultra" ∷ "Lime Green Ultra" ∷ []) "ultra" ≡ "Lime Green Ultra")
    × (registered ("Solo" ∷ []) "ultra" ≡ "")
unfolding normalise_product registered
names = (refl, refl, refl, refl)

-- The invented substrate is not taken; the remembered one is, unless it is denied.
requests :
    ((request choice inventing [] 2).substrate ≡ "")
    × ((request choice inventing held_brick 2).substrate ≡ "brick")
    × ((request "the wall is stone" inventing held_brick 2).substrate ≡ "stone")
    × ((request "it is not brick" inventing held_brick 2).substrate ≡ "")
    × (facts_from reader (request "the wall is stone" inventing held_brick 2) 2
        ≡ ("substrate", fact (stated_fact "substrate" "stone" 2)) ∷ [])
    × (facts_from reader (request "would it be suitable on stone" inventing [] 2) 2 ≡ [])
    × (facts_from reader (request choice inventing held_brick 2) 2 ≡ [])
unfolding resolve understand_turn facts_from contains
requests = (refl, refl, refl, refl, refl, refl, refl)

understand_turn-OnlyAdds_example :
    OnlyAdds
      (deterministic reader choice [])
      (understand_turn reader choice [] true false inventing)
understand_turn-OnlyAdds_example = understand_turn-OnlyAdds reader choice [] true false inventing

facts_from-IsOwn_example :
    All
      (IsOwn reader (request "the wall is stone" inventing held_brick 2) 2)
      (facts_from reader (request "the wall is stone" inventing held_brick 2) 2)
facts_from-IsOwn_example =
    facts_from-IsOwn reader (request "the wall is stone" inventing held_brick 2) 2
