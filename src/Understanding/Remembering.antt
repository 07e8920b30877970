-- ===== src/Understanding/Remembering.antt =====
-- What a turn adds to the conversation's facts (assistant/answering/understanding.py).
use technical_knowledge_assi.Prelude.{
  ℕ, ◌≡◌, ◌⊎◌, inl, inr, refl, sym, ap, subst, String, Bool, true, false, ◌||◌, not, Option, none,
  some, [], ◌∷◌, map, arith, if◌then◌else◌, Bool-cases, string_eq, pair_eq, ◌==◌, eq_of_==, mem,
  strip, All, All-mem,
}
use technical_knowledge_assi.Prelude.Dict
use technical_knowledge_assi.Prelude.Dict.{Dict}
use technical_knowledge_assi.Conversation.{Provenance, stated, Incoming, denial, fact}
use technical_knowledge_assi.Router.Detector.{detect}
use technical_knowledge_assi.Understanding.Readings.{Reader}
use technical_knowledge_assi.Understanding.Denials.{denials_in}
use technical_knowledge_assi.Understanding.Resolving.{Resolved, is_stated}
use technical_knowledge_assi.Understanding.Testimony.{
  slots_of, denial_of, stated_fact, is_value, is_testimony, add_facts, ground_product, facts_from,
}

module _ (reader : Reader) (r : Resolved) (turn : ℕ) where
  -- What the turn's own words give, and the product that they state.
  abbrev pub grounded : Dict String String
  grounded =
      ground_product (reader.stated_product r.raw_question (r.product ∷ []))
        (detect reader.vocabulary (reader.asserted_text r.raw_question))

  abbrev pub IsTakenBack : String × Incoming → Type 0
  IsTakenBack e =
      (value : String) × (e.1 ≡ denial (record { slot = e.0; value = value }))
      × (mem (e.0, value) (denials_in reader r.raw_question) ≡ true)

  abbrev pub IsStatedNow : String × Incoming → Type 0
  IsStatedNow e =
      (value : String) × (e.1 ≡ fact (stated_fact e.0 value turn))
      × (mem e.0 r.transient ≡ false)
      × (Dict.lookup e.0 r.provenance ≡ some stated)
      × (Dict.lookup e.0 grounded ≡ some value)

  abbrev pub IsOwn : String × Incoming → Type 0
  IsOwn e = IsTakenBack e ⊎ IsStatedNow e

  stated_of : (o : Option Provenance) → is_stated o ≡ true → o ≡ some stated
  stated_of o h = ground arith

  value_of : (o : Option String) (value : String) → is_value o value ≡ true → o ≡ some value
  value_of none value h = cc
  value_of (some v) value h = ap some (eq_of_== h)

  testimony-IsStatedNow :
      (out : Dict String Incoming) (slot value : String)
      → is_testimony r out grounded slot value ≡ true
      → IsStatedNow (slot, fact (stated_fact slot value turn))
  unfolding is_testimony
  testimony-IsStatedNow out slot value h = (
    value,
    refl,
    ground arith,
    stated_of (Dict.lookup slot r.provenance) (ground arith),
    value_of (Dict.lookup slot grounded) value (ground arith),
  )

  add_facts-IsOwn :
      (slots : Dict String String) (out : Dict String Incoming)
      → All IsOwn out
      → All IsOwn (add_facts r turn grounded slots out)
  unfolding add_facts
  add_facts-IsOwn [] out h = h
  add_facts-IsOwn ((slot, value) ∷ rest) out h =
      elim (Bool-cases (is_testimony r out grounded slot value)) [
        | inl e ↦
            rw (e, add_facts)
              (add_facts-IsOwn rest _ (
                Dict.All-insert IsOwn slot (fact (stated_fact slot value turn)) out
                  (λ j same.
                    subst (λ i. IsOwn (i, fact (stated_fact slot value turn))) (sym same)
                      (inr (testimony-IsStatedNow out slot value e)))
                  h))
        | inr e ↦ rw (e, add_facts) (add_facts-IsOwn rest out h)
      ]

  denials-IsOwn :
      (ds : Dict String String)
      → All (λ d. mem d (denials_in reader r.raw_question) ≡ true) ds
      → All IsOwn (map denial_of ds)
  denials-IsOwn [] h = tt
  denials-IsOwn (d ∷ ds) h = (inl (d.1, refl, h.0), denials-IsOwn ds h.1)

  either-IsOwn :
      (b : Bool) (xs ys : Dict String Incoming)
      → All IsOwn xs
      → All IsOwn ys
      → All IsOwn (if b then xs else ys)
  either-IsOwn true xs ys h k = h
  either-IsOwn false xs ys h k = k

  -- The only facts that a turn adds are its own: a value that it takes back, or one that it states,
  -- which the request has as stated and not as part of a scenario, and which the turn's own words give
  -- for that slot. So a fact that was inherited, or that a photograph or the model supplied, is not
  -- written again as if the person had said it now.
  pub facts_from-IsOwn : All IsOwn (facts_from reader r turn)
  unfolding facts_from
  facts_from-IsOwn =
      let denied = denials_in reader r.raw_question in
      let own = denials-IsOwn denied (All-mem denied) in
      either-IsOwn
        (not (reader.state_request_slot r.raw_question == "")
          || strip (reader.asserted_text r.raw_question) == "")
        (map denial_of denied) (add_facts r turn grounded (slots_of r) (map denial_of denied)) own
        (add_facts-IsOwn (slots_of r) (map denial_of denied) own)
