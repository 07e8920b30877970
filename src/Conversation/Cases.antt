-- ===== src/Conversation/Cases.antt =====
-- The cases of a conversation (assistant/turn/conversation.py): `Case`, `ConversationState` and the
-- question whether a turn opens a new case.
use technical_knowledge_assi.Prelude.{
  ℕ, ◌+◌, String, Bool, true, false, Option, none, some, List, [], ◌∷◌, ◌++◌, ◌||◌, string_eq,
  if◌then◌else◌, lower, strip, contains, length, first, sorted, text_le,
}
use Prim.Native.String.{◌++◌ as joined}
use technical_knowledge_assi.Prelude.Dict.{Dict}
use technical_knowledge_assi.Conversation.{
  Provenance, observed, active, SessionFact, FactHistory, Facts, Incoming, facts, merge_facts,
  inherited, is_active, is_unsettled,
}

-- The source's `case_id` is `case-` and this number.
pub record Case : Type 0 where
  pub case_number : ℕ
  pub case_facts : Facts
  pub observations : List SessionFact
  pub case_pending : String
  pub opened_at_turn : ℕ
  pub opened_because : String

pub record ConversationState : Type 0 where
  pub current_case : Case
  pub retired : List Case
  pub turn_index : ℕ

unfoldable pub introducers : List String
introducers =
    "another" ∷ "a second" ∷ "second" ∷ "a different" ∷ "different" ∷ "other" ∷ "next" ∷ "separate"
    ∷ "new" ∷ "also have" ∷ "also got" ∷ "as well as" ∷ []

unfoldable pub subjects : List String
subjects =
    "wall" ∷ "walls" ∷ "room" ∷ "rooms" ∷ "job" ∷ "project" ∷ "property" ∷ "building" ∷ "house"
    ∷ "elevation" ∷ "ceiling" ∷ "floor" ∷ "gable" ∷ "chimney" ∷ "extension" ∷ "surface" ∷ "area"
    ∷ []

unfoldable pub corrections : List String
corrections =
    "actually" ∷ "sorry" ∷ "i meant" ∷ "i mean" ∷ "correction" ∷ "my mistake" ∷ "to correct"
    ∷ "rather than" ∷ "not brick" ∷ "not stone" ∷ "instead it" ∷ []

-- How the question was decided, of which the source makes a sentence for the trace.
pub data Boundary : Type 0 where
  introduced : String → String → Boundary
  corrected : String → Boundary
  model_said : Boundary
  no_signal : Boundary

-- `f" {question.lower().strip()} "`
unfoldable pub padded : String → String
unfolding lower strip
padded question = joined " " (joined (strip (lower question)) " ")

unfoldable pub introduces : String → String → Bool
introduces lowered word = contains (joined " " (joined word " ")) lowered

unfoldable pub names_subject : String → String → Bool
names_subject lowered word =
    contains (joined " " (joined word " ")) lowered
    || contains (joined " " (joined word ".")) lowered

-- The two nested loops, up to their `return`.
unfoldable pub first_subject : String → List String → Option Boundary
unfolding first introduces names_subject subjects
first_subject lowered [] = none
first_subject lowered (word ∷ words) =
    let rest = first_subject lowered words in
    if introduces lowered word
    then elim (first (names_subject lowered) subjects) [
      | none ↦ rest
      | some subject ↦ some (introduced word subject)
    ]
    else rest

unfoldable pub correct_or_model : Option String → Bool → Bool × Boundary
correct_or_model (some marker) model_says = (false, corrected marker)
correct_or_model none model_says = if model_says then (true, model_said) else (false, no_signal)

unfoldable pub decide_boundary : Option Boundary → Option String → Bool → Bool × Boundary
unfolding correct_or_model
decide_boundary (some why) marker model_says = (true, why)
decide_boundary none marker model_says = correct_or_model marker model_says

unfoldable pub opens_a_new_case : String → Bool → Bool × Boundary
unfolding first first_subject decide_boundary padded introducers corrections
opens_a_new_case question model_says =
    decide_boundary (first_subject (padded question) introducers)
      (first (λ m. contains m (padded question)) corrections) model_says

abbrev pub first_case : Case
first_case = record {
  case_number = 1;
  case_facts = [];
  observations = [];
  case_pending = "";
  opened_at_turn = 0;
  opened_because = "";
}

abbrev pub new_state : ConversationState
new_state = record { current_case = first_case; retired = []; turn_index = 0 }

unfoldable pub active_in : Facts → Dict String String
active_in [] = []
active_in ((slot, h) ∷ rest) =
    if is_active h.current.status then (slot, h.current.value) ∷ active_in rest else active_in rest

-- `active`
unfoldable pub active_slots : ConversationState → Dict String String
unfolding active_in
active_slots st = active_in st.current_case.case_facts

unfoldable pub provenances_in : Facts → Dict String Provenance
provenances_in [] = []
provenances_in ((slot, h) ∷ rest) =
    if is_active h.current.status
    then (slot, h.current.provenance) ∷ provenances_in rest
    else provenances_in rest

unfoldable pub provenance_of : ConversationState → Dict String Provenance
unfolding provenances_in
provenance_of st = provenances_in st.current_case.case_facts

unfoldable pub unsettled_slots : Facts → List String
unsettled_slots [] = []
unsettled_slots ((slot, h) ∷ rest) =
    if is_unsettled h then slot ∷ unsettled_slots rest else unsettled_slots rest

unfoldable pub unsettled_in : Facts → List String
unfolding unsettled_slots sorted
unsettled_in held = sorted text_le (unsettled_slots held)

unfoldable pub inherit_in : Facts → Facts
unfolding inherited
inherit_in [] = []
inherit_in ((slot, h) ∷ rest) = (slot, record h { current = inherited h.current }) ∷ inherit_in rest

unfoldable pub inherit : ConversationState → Facts
unfolding inherit_in
inherit st = inherit_in st.current_case.case_facts

unfoldable pub open_case : ℕ → String → Dict String Incoming → ConversationState → ConversationState
unfolding merge_facts
open_case turn because keep st =
    let filed = st.retired ++ st.current_case ∷ [] in
    record {
      current_case = record {
        case_number = length filed + 1;
        case_facts = merge_facts [] (facts keep);
        observations = [];
        case_pending = "";
        opened_at_turn = turn;
        opened_because = because;
      };
      retired = filed;
      turn_index = st.turn_index;
    }

abbrev pub is_observed : Provenance → Bool
is_observed p = elim p [ observed ↦ true | _ ↦ false ]

-- What forgetting the images leaves of one slot.
unfoldable pub forget_images : FactHistory → Option FactHistory
forget_images h = if is_observed h.current.provenance then none else elim h.contradicted_by [
  | [] ↦ some h
  | f ∷ fs ↦
      some (record h { current = record h.current { status = active }; contradicted_by = [] })
]

unfoldable pub keep_slot : String → Option FactHistory → Facts → Facts
keep_slot slot none rest = rest
keep_slot slot (some h) rest = (slot, h) ∷ rest

unfoldable pub forget_all : Facts → Facts
unfolding forget_images keep_slot
forget_all [] = []
forget_all ((slot, h) ∷ rest) = keep_slot slot (forget_images h) (forget_all rest)

unfoldable pub supersede_observations : ConversationState → ConversationState
unfolding forget_all
supersede_observations st = record st {
  current_case = record st.current_case {
    observations = [];
    case_facts = forget_all st.current_case.case_facts;
  };
}
