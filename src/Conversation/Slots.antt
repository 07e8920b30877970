-- ===== src/Conversation/Slots.antt =====
-- The reducer slot by slot (assistant/turn/conversation.py): what `merge_items` leaves in one slot
-- depends only on that slot.
use technical_knowledge_assi.Prelude.{
  ℕ, suc, ◌≤◌, String, ◌≡◌, Option, none, some, List, [], ◌∷◌, arith, if◌then◌else◌, ◌==◌,
  string_eq, nat_eq, Bool-cases, inl, inr, refl, ◌∙◌, sym, ap, length, take, eq_of_==, zero,
}
use technical_knowledge_assi.Prelude.Dict
use technical_knowledge_assi.Prelude.Dict.{Dict, IsDistinct}
use technical_knowledge_assi.Conversation.{
  FactHistory, Incoming, Facts, write, store_slot, merge_items, merge_facts, facts,
  max_facts_per_turn,
}

-- What the slot holds next: what the rules write, or else what it held.
abbrev pub or_kept : Option FactHistory → Option FactHistory → Option FactHistory
or_kept none held = held
or_kept (some h) held = some h

abbrev pub next_of : Option Incoming → Option FactHistory → Option FactHistory
next_of none held = held
next_of (some incoming) held = or_kept (write incoming held) held

lookup-store_slot :
    (slot j : String) (o : Option FactHistory) (out : Facts)
    → Dict.lookup j (store_slot slot o out)
      ≡ (if slot == j then or_kept o (Dict.lookup j out) else Dict.lookup j out)
lookup-store_slot slot j none out = ground arith
lookup-store_slot slot j (some h) out = Dict.lookup-insert slot j h out ∙ ground arith

pub lookup-merge_items :
    (items : Dict String Incoming) (out : Facts) (j : String)
    → IsDistinct items
    → Dict.lookup j (merge_items items out) ≡ next_of (Dict.lookup j items) (Dict.lookup j out)
unfolding merge_items Dict.lookup
lookup-merge_items [] out j d = refl
lookup-merge_items ((slot, incoming) ∷ items) out j d =
    let held : Option FactHistory = Dict.lookup slot out in
    let out' : Facts = store_slot slot (write incoming held) out in
    lookup-merge_items items out' j d.1
    ∙ rw (lookup-store_slot slot j (write incoming held) out) (elim (Bool-cases (slot == j)) [
      | inl same ↦ let e : slot ≡ j = eq_of_== same in rw (same, sym e, d.0)
      | inr other ↦ rw other
    ])

take-fits {ℓ} : {A : Type ℓ} (n : ℕ) (xs : List A) → length xs ≤ n → take n xs ≡ xs
unfolding take
take-fits zero [] h = refl
take-fits (suc n) [] h = refl
take-fits zero (x ∷ xs) h = absurd (omega arith)
take-fits (suc n) (x ∷ xs) h = ap (λ ys. x ∷ ys) (take-fits n xs (omega arith))

-- A turn that hands over distinct slots, at most 24 of them, leaves in every slot what the rules
-- write over what that slot held, and every slot that it does not name as it was.
pub lookup-merge_facts :
    (old : Facts) (new : Dict String Incoming) (j : String)
    → IsDistinct new
    → length new ≤ max_facts_per_turn
    → Dict.lookup j (merge_facts old (facts new)) ≡ next_of (Dict.lookup j new) (Dict.lookup j old)
unfolding merge_facts
lookup-merge_facts old new j d h =
    ap (λ (items : Dict String Incoming). Dict.lookup j (merge_items items old))
      (take-fits max_facts_per_turn new h)
    ∙ lookup-merge_items new old j d
