-- ===== src/Conversation.antt =====
-- assistant/turn/conversation.py: facts with their provenance, the reducer that folds a turn into
-- them, and the cases of a conversation. `Provenance` is that of assistant/answering/answer.py.
pub mod Cases
mod Slots
mod Rules
mod Retired
mod Isolation
mod Boundaries
mod Tests
use technical_knowledge_assi.Prelude.{
  ℕ, zero, suc, ◌+◌, String, Bool, true, false, ◌&&◌, ◌||◌, not, Option, none, some, List, [], ◌∷◌,
  ◌++◌, map, if◌then◌else◌, ◌==◌, string_eq, nat_eq, length, take,
}
use technical_knowledge_assi.Prelude.Dict
use technical_knowledge_assi.Prelude.Dict.{Dict}

pub data Provenance : Type 0 where
  stated carried observed assumed : Provenance

pub data FactStatus : Type 0 where
  active superseded conflicting : FactStatus

-- `confidence` only travels with the fact; it is counted in thousandths here.
pub record SessionFact : Type 0 where
  pub slot : String
  pub value : String
  pub provenance : Provenance
  pub source_turn : ℕ
  pub status : FactStatus
  pub confidence : ℕ
  pub image_ref : String

abbrev pub from_person : SessionFact → Bool
from_person f = elim f.provenance [ stated ↦ true | carried ↦ true | _ ↦ false ]

unfoldable pub inherited : SessionFact → SessionFact
inherited f = elim f.provenance [ stated ↦ record f { provenance = carried } | _ ↦ f ]

pub record FactHistory : Type 0 where
  pub current : SessionFact
  pub superseded_facts : List SessionFact
  pub contradicted_by : List SessionFact

abbrev pub is_conflicting : FactStatus → Bool
is_conflicting s = elim s [ conflicting ↦ true | _ ↦ false ]

abbrev pub is_active : FactStatus → Bool
is_active s = elim s [ active ↦ true | _ ↦ false ]

-- the property `unsettled` of a history
abbrev pub is_unsettled : FactHistory → Bool
is_unsettled h = is_conflicting h.current.status

pub record Denial : Type 0 where
  pub slot : String
  pub value : String

-- What a turn may hand to the reducer for a slot.
pub data Incoming : Type 0 where
  fact : SessionFact → Incoming
  history : FactHistory → Incoming
  denial : Denial → Incoming

pub record NewCase : Type 0 where
  pub keep : Dict String Incoming
  pub reason : String

pub data Update : Type 0 where
  facts : Dict String Incoming → Update
  new_case : NewCase → Update

abbrev pub max_facts_per_turn : ℕ
max_facts_per_turn = 24

abbrev pub Facts : Type 0
Facts = Dict String FactHistory

abbrev pub retire : SessionFact → SessionFact
retire f = record f { status = superseded }

-- The loop's body for one slot, as functions of the history that `out` holds: `none` is `continue`
-- with no write, and `some h` is `out[slot] = h`.
unfoldable pub write_denial : Denial → FactHistory → Option FactHistory
write_denial d h =
    let prior = h.current in
    if not (d.value == "") && not (prior.value == d.value)
    then none
    else some (record {
      current = retire prior;
      superseded_facts = h.superseded_facts ++ retire prior ∷ [];
      contradicted_by = [];
    })

-- Rule 1
unfoldable pub write_stated : SessionFact → FactHistory → Option FactHistory
write_stated f h =
    let prior = h.current in
    if prior.value == f.value && from_person prior
    then some (record h { current = f })
    else some (record {
      current = f;
      superseded_facts = h.superseded_facts ++ retire prior ∷ [];
      contradicted_by = [];
    })

-- Rule 2
unfoldable pub write_observed : SessionFact → FactHistory → Option FactHistory
write_observed f h =
    let prior = h.current in
    if not (from_person prior)
    then some (record h { current = f })
    else if prior.value == f.value
    then some h
    else if prior.source_turn == f.source_turn
    then some (record h { contradicted_by = h.contradicted_by ++ f ∷ [] })
    else some (record h {
      current = record prior { status = conflicting };
      contradicted_by = h.contradicted_by ++ f ∷ [];
    })

-- Rule 3
unfoldable pub write_inherited : SessionFact → FactHistory → Option FactHistory
write_inherited f h =
    if is_active h.current.status && from_person h.current
    then none
    else some (record h { current = f })

unfoldable pub write_by : Provenance → SessionFact → FactHistory → Option FactHistory
unfolding write_stated write_observed write_inherited
write_by stated f h = write_stated f h
write_by observed f h = write_observed f h
write_by carried f h = write_inherited f h
write_by assumed f h = write_inherited f h

abbrev pub write_fact : SessionFact → FactHistory → Option FactHistory
write_fact f h = write_by f.provenance f h

unfoldable pub write : Incoming → Option FactHistory → Option FactHistory
unfolding write_denial write_by
write (denial d) none = none
write (denial d) (some h) = write_denial d h
write (fact f) none = some (record { current = f; superseded_facts = []; contradicted_by = [] })
write (fact f) (some h) = write_fact f h
write (history r) none = some r
write (history r) (some h) = write_fact r.current h

abbrev pub store_slot : String → Option FactHistory → Facts → Facts
store_slot slot none out = out
store_slot slot (some h) out = Dict.insert slot h out

unfoldable pub merge_items : Dict String Incoming → Facts → Facts
unfolding Dict.lookup Dict.insert write
merge_items [] out = out
merge_items ((slot, incoming) ∷ items) out =
    merge_items items (store_slot slot (write incoming (Dict.lookup slot out)) out)

-- `merge_facts`
unfoldable pub merge_facts : Facts → Update → Facts
unfolding merge_items take
merge_facts old (new_case n) = merge_items (take max_facts_per_turn n.keep) []
merge_facts old (facts new) = merge_items (take max_facts_per_turn new) old

-- `merge_observations`, told a new case or more observations
unfoldable pub merge_observations : List SessionFact → Option (List SessionFact) → List SessionFact
merge_observations old none = []
merge_observations old (some new) = old ++ new
