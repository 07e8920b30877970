-- ===== src/Conversation/Isolation.antt =====
-- What a case shows and hides (assistant/turn/conversation.py): the reads of `ConversationState` and
-- `open_case`.
use technical_knowledge_assi.Prelude.{
  ℕ, suc, ◌+◌, String, Option, none, some, List, [], ◌∷◌, ◌++◌, ◌≡◌, refl, ◌∙◌, ap, if◌then◌else◌,
  arith, Bool-cases, Option-cases, inl, inr, ◌==◌, string_eq, eq_iff, length, subst, ◌≤◌, take,
}
use technical_knowledge_assi.Prelude.Dict
use technical_knowledge_assi.Prelude.Dict.{Dict, IsDistinct}
use technical_knowledge_assi.Conversation.{
  FactHistory, Facts, Incoming, facts, merge_facts, is_active, merge_items, max_facts_per_turn,
  write,
}
use technical_knowledge_assi.Conversation.Slots.{next_of, lookup-merge_facts}
use technical_knowledge_assi.Conversation.Cases.{
  Case, ConversationState, active_in, active_slots, open_case, supersede_observations, new_state,
}

abbrev pub value_if_active : Option FactHistory → Option String
value_if_active none = none
value_if_active (some h) = if is_active h.current.status then some h.current.value else none

lookup-active_in-none :
    (slot : String) (d : Facts) → Dict.lookup slot d ≡ none → Dict.lookup slot (active_in d) ≡ none
unfolding active_in Dict.lookup
lookup-active_in-none slot [] e = refl
lookup-active_in-none slot ((j, h) ∷ d) e =
    ground (arith, eq_iff j slot, lookup-active_in-none slot d)

lookup-active_in :
    (slot : String) (d : Facts)
    → IsDistinct d
    → Dict.lookup slot (active_in d) ≡ value_if_active (Dict.lookup slot d)
unfolding active_in Dict.lookup
lookup-active_in slot [] h = refl
lookup-active_in slot ((j, f) ∷ d) h = elim (Bool-cases (j == slot)) [
  | inl same ↦ ground (
    arith,
    eq_iff j slot,
    h.0,
    lookup-active_in-none slot d (subst (λ i. Dict.lookup i d ≡ none) ((eq_iff j slot).0 same) h.0),
  )
  | inr other ↦ ground (arith, lookup-active_in slot d h.1)
]

-- A later turn may inherit a slot exactly if the current case holds it with an active fact, and then
-- as that fact's value: a conflicting or a retired one is not read, nor one of another case.
pub active_slots-exact :
    (st : ConversationState) (slot : String)
    → IsDistinct st.current_case.case_facts
    → Dict.lookup slot (active_slots st)
      ≡ value_if_active (Dict.lookup slot st.current_case.case_facts)
unfolding active_slots
active_slots-exact st slot d = lookup-active_in slot st.current_case.case_facts d

IsDistinct-merge_items :
    (items : Dict String Incoming) (out : Facts)
    → IsDistinct out
    → IsDistinct (merge_items items out)
unfolding merge_items
IsDistinct-merge_items [] out d = d
IsDistinct-merge_items ((slot, incoming) ∷ items) out d =
    elim (Option-cases (write incoming (Dict.lookup slot out))) [
      | inl e ↦ rw e (IsDistinct-merge_items items out d)
      | inr (h, e) ↦ rw e (
          IsDistinct-merge_items items (Dict.insert slot h out)
            (Dict.IsDistinct-insert slot h out d))
    ]

-- Opening a case with facts of different slots, 24 at most, hides everything that was known: a slot
-- that can be read after it has the value of the fact that the opening turn itself hands over for the
-- slot, and one that the turn does not name reads as nothing, whatever the earlier cases held; those
-- are filed whole, the last one last.
pub opened_case_reads_its_turn :
    (turn : ℕ) (because : String) (keep : Dict String Incoming) (st : ConversationState)
    (slot : String)
    → IsDistinct keep
    → length keep ≤ max_facts_per_turn
    → (Dict.lookup slot (active_slots (open_case turn because keep st))
        ≡ value_if_active (next_of (Dict.lookup slot keep) none))
      × ((open_case turn because keep st).retired ≡ st.retired ++ st.current_case ∷ [])
unfolding open_case
opened_case_reads_its_turn turn because keep st slot d fits = (
  active_slots-exact (open_case turn because keep st) slot
        (unfold merge_facts in IsDistinct-merge_items (take max_facts_per_turn keep) [] tt)
      ∙ ap value_if_active (lookup-merge_facts [] keep slot d fits),
  refl,
)

-- The cases of a conversation are numbered in the order in which they were opened, from 1 on.
abbrev pub NumberedFrom : ℕ → List Case → Type 0
NumberedFrom n [] = Unit
NumberedFrom n (c ∷ cs) = (c.case_number ≡ n) × NumberedFrom (suc n) cs

abbrev pub IsNumbered : ConversationState → Type 0
IsNumbered st = NumberedFrom 1 st.retired × (st.current_case.case_number ≡ length st.retired + 1)

numbered-append :
    (n : ℕ) (cs : List Case) (c : Case)
    → NumberedFrom n cs
    → c.case_number ≡ n + length cs
    → NumberedFrom n (cs ++ c ∷ [])
numbered-append n [] c h e = (omega (arith, e), tt)
numbered-append n (x ∷ cs) c h e = (h.0, numbered-append (suc n) cs c h.1 (omega (arith, e)))

-- One write to the conversation.
pub data Change : Type 0 where
  opening : ℕ → String → Dict String Incoming → Change
  forgetting : Change
  merging : Dict String Incoming → Change

pub changed : Change → ConversationState → ConversationState
unfolding open_case supersede_observations merge_facts
changed (opening turn because keep) st = open_case turn because keep st
changed forgetting st = supersede_observations st
changed (merging new) st = record st {
  current_case = record st.current_case {
    case_facts = merge_facts st.current_case.case_facts (facts new);
  };
}

pub after : List Change → ConversationState
after [] = new_state
after (change ∷ changes) = changed change (after changes)

-- After any writes, a merge of facts, a forgetting of images or a new case, the cases have the
-- numbers 1, 2, 3 and so on in the order in which they were opened: no two have one id.
pub after-IsNumbered : (changes : List Change) → IsNumbered (after changes)
unfolding after changed open_case supersede_observations
after-IsNumbered [] = (tt, refl)
after-IsNumbered (opening turn because keep ∷ changes) =
    let h = after-IsNumbered changes in
    let st : ConversationState = after changes in
    (numbered-append 1 st.retired st.current_case h.0 (omega (arith, h.1)), refl)
after-IsNumbered (forgetting ∷ changes) = after-IsNumbered changes
after-IsNumbered (merging new ∷ changes) = after-IsNumbered changes
