-- ===== src/Understanding/Precedence.antt =====
-- The order of authority between the vocabularies and the model
-- (assistant/answering/understanding.py).
use technical_knowledge_assi.Prelude.{
  ◌≡◌, ◌⊎◌, inl, inr, refl, String, Bool, true, false, ◌&&◌, ◌||◌, not, List, [], ◌∷◌, arith,
  Bool-cases, string_eq, ◌==◌, eq_of_==, eq_iff,
}
use technical_knowledge_assi.Understanding.Readings.{
  select, TurnUnderstanding, Reader, Reply, unavailable, unparseable, parsed, is_confident, or_text,
  or_list, merge_understanding, read_reply, proposed, deterministic, is_ambiguous, understand_turn,
}

-- A text that is there stays.
abbrev pub Keeps : String → String → Type 0
Keeps old new = (old ≡ "") ⊎ (new ≡ old)

abbrev pub KeepsAll : List String → List String → Type 0
KeepsAll old new = (old ≡ []) ⊎ (new ≡ old)

-- The second reading has what the first one found, and perhaps more.
abbrev pub OnlyAdds : TurnUnderstanding → TurnUnderstanding → Type 0
OnlyAdds base reading =
    (reading.measurements ≡ base.measurements)
    × (reading.policy_topic ≡ base.policy_topic)
    × ((reading.intent ≡ base.intent) ⊎ ((is_confident base ≡ false) × (base.policy_topic ≡ "")))
    × Keeps base.explicit_product reading.explicit_product
    × Keeps base.objective reading.objective
    × Keeps base.substrate reading.substrate
    × Keeps base.location reading.location
    × KeepsAll base.requested_properties reading.requested_properties

OnlyAdds-refl : (base : TurnUnderstanding) → OnlyAdds base base
OnlyAdds-refl base = (refl, refl, inl refl, inr refl, inr refl, inr refl, inr refl, inr refl)

or_text-Keeps : (a b : String) → Keeps a (or_text a b)
unfolding or_text
or_text-Keeps a b = elim (Bool-cases (a == "")) [
  | inl e ↦ inl (eq_of_== {a = a} {b = ""} e)
  | inr e ↦ inr (rw e)
]

or_list-KeepsAll : (a b : List String) → KeepsAll a (or_list a b)
unfolding or_list
or_list-KeepsAll [] b = inl refl
or_list-KeepsAll (x ∷ a) b = inr refl

merge_understanding-OnlyAdds :
    (base model : TurnUnderstanding) → OnlyAdds base (merge_understanding base model)
unfolding merge_understanding
merge_understanding-OnlyAdds base model = elim (Bool-cases (base.policy_topic == "")) [
  | inl e ↦
      rw (e, merge_understanding)
        (
          refl,
          refl,
          (elim (Bool-cases (is_confident base)) [
            | inl c ↦ inl (rw c)
            | inr c ↦ inr (c, eq_of_== {a = base.policy_topic} {b = ""} e)
          ]),
          or_text-Keeps base.explicit_product model.explicit_product,
          or_text-Keeps base.objective model.objective,
          or_text-Keeps base.substrate model.substrate,
          or_text-Keeps base.location model.location,
          or_list-KeepsAll base.requested_properties model.requested_properties,
        )
  | inr e ↦ rw (e, merge_understanding) (OnlyAdds-refl base)
]

read_reply-OnlyAdds :
    (base : TurnUnderstanding) (reply : Reply) → OnlyAdds base (read_reply base reply)
unfolding read_reply
read_reply-OnlyAdds base (unavailable text) = OnlyAdds-refl base
read_reply-OnlyAdds base unparseable = OnlyAdds-refl base
read_reply-OnlyAdds base (parsed raw) = merge_understanding-OnlyAdds base (proposed raw)

-- Whatever the model replies, and where it cannot be reached, it only adds to what the vocabularies
-- read: the measurements and the policy topic are theirs, a text or list of theirs that is not empty
-- stands, and so does the intent, unless they recognised none and no policy topic matched.
pub understand_turn-OnlyAdds :
    (reader : Reader) (question : String) (registry : List String) (enabled force : Bool)
    (reply : Reply)
    → OnlyAdds
        (deterministic reader question registry)
        (understand_turn reader question registry enabled force reply)
unfolding understand_turn
understand_turn-OnlyAdds reader question registry enabled force reply =
    let base = deterministic reader question registry in
    elim (Bool-cases (not enabled || not force && not (is_ambiguous base))) [
      | inl e ↦ rw (e, understand_turn) (OnlyAdds-refl base)
      | inr e ↦ rw (e, understand_turn) (read_reply-OnlyAdds base reply)
    ]

ambiguous_is_selection :
    (base : TurnUnderstanding)
    → is_ambiguous base ≡ true
    → (base.intent ≡ select) × (base.policy_topic ≡ "")
unfolding is_ambiguous
ambiguous_is_selection base h = ground (arith, eq_iff base.policy_topic "")

-- Unless it is forced, the model is asked about a selection only: for any other reading, and for every
-- question of a policy topic, the reading is that of the vocabularies whatever the reply would be.
pub model_reads_selections_only :
    (reader : Reader) (question : String) (registry : List String) (enabled : Bool) (reply : Reply)
    → (understand_turn reader question registry enabled false reply
        ≡ deterministic reader question registry)
      ⊎ (((deterministic reader question registry).intent ≡ select)
          × ((deterministic reader question registry).policy_topic ≡ ""))
unfolding understand_turn
model_reads_selections_only reader question registry enabled reply =
    let base = deterministic reader question registry in
    elim (Bool-cases (is_ambiguous base)) [
      | inl e ↦ inr (ambiguous_is_selection base e)
      | inr e ↦ inl (rw (e, understand_turn) (ground arith))
    ]
