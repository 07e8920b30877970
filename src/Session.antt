-- ===== src/Session.antt =====
-- assistant/turn/session.py: the session store. The dictionary is an ordered one, oldest first; a
-- method takes the clock's readings and the token that `secrets` would make, and returns the store.
mod Persisted
mod Recovered
mod Marked
mod Tests
mod Bounded
mod Carried
mod Expiry
use technical_knowledge_assi.Prelude.{
  ℕ, suc, ◌+◌, ◌-◌, String, Bool, true, false, Option, none, some, List, [], ◌∷◌, ◌++◌, ltb,
  if◌then◌else◌, ◌==◌, string_eq, length, drop, prefix,
}
use technical_knowledge_assi.Prelude.Dict
use technical_knowledge_assi.Prelude.Dict.{Dict}

abbrev pub carried_slots : List String
carried_slots = "product" ∷ "substrate" ∷ "location" ∷ "exposure" ∷ []

abbrev pub default_max_sessions : ℕ
default_max_sessions = 512

-- 30 minutes, in seconds
abbrev pub default_idle_seconds : ℕ
default_idle_seconds = 1800

abbrev pub max_turns : ℕ
max_turns = 8

abbrev pub turn_text_cap : ℕ
turn_text_cap = 400

-- One question with its answer: the tuple that `remember` appends, or the list that `json.loads` makes
-- of a tuple.
pub data Exchange : Type 0 where
  tuple : String → String → Exchange
  listed : List String → Exchange

pub record Session : Type 0 where
  pub touched : ℕ
  pub slots : Dict String String
  pub pending : String
  pub turns : List Exchange

abbrev pub Sessions : Type 0
Sessions = Dict String Session

pub record Store : Type 0 where
  pub max_sessions : ℕ
  pub idle_seconds : ℕ
  pub sessions : Sessions

abbrev pub new_store : ℕ → ℕ → Store
new_store max_sessions idle_seconds = record {
  max_sessions = max_sessions;
  idle_seconds = idle_seconds;
  sessions = [];
}

abbrev pub new_session : ℕ → Session
new_session now = record { touched = now; slots = []; pending = ""; turns = [] }

-- session.touched > clock - idle_seconds, without the subtraction
abbrev pub is_live : ℕ → ℕ → Session → Bool
is_live now idle s = ltb now (s.touched + idle)

-- `_sweep`: drops the oldest entries up to the first live one.
unfoldable pub sweep : ℕ → ℕ → Sessions → Sessions
sweep now idle [] = []
sweep now idle ((id, s) ∷ rest) = if is_live now idle s then (id, s) ∷ rest else sweep now idle rest

-- The two branches of `open` after the sweep, by whether the presented id names a session.
unfoldable pub open_found : Option Session → String → String → ℕ → Store → String × Store
unfolding Dict.insert Dict.move_to_end Dict.evict
open_found (some session) session_id fresh now st = (
  session_id,
  record st {
    sessions =
        Dict.move_to_end session_id
          (Dict.insert session_id (record session { touched = now }) st.sessions);
  },
)
open_found none session_id fresh now st = (
  fresh,
  record st {
    sessions = Dict.evict st.max_sessions (Dict.insert fresh (new_session now) st.sessions);
  },
)

-- `open`: the sweep reads the clock at `swept_at`, the rest at `now`.
unfoldable pub open_session : String → String → ℕ → ℕ → Store → String × Store
unfolding Dict.lookup sweep open_found
open_session session_id fresh swept_at now st =
    let swept = record st { sessions = sweep swept_at st.idle_seconds st.sessions } in
    open_found (Dict.lookup session_id swept.sessions) session_id fresh now swept

-- `carried`, `pending` and `turns`
unfoldable pub carried : String → Store → Dict String String
unfolding Dict.lookup
carried session_id st = elim (Dict.lookup session_id st.sessions) [ none ↦ [] | some s ↦ s.slots ]

unfoldable pub pending : String → Store → String
unfolding Dict.lookup
pending session_id st = elim (Dict.lookup session_id st.sessions) [ none ↦ "" | some s ↦ s.pending ]

unfoldable pub turns : String → Store → List Exchange
unfolding Dict.lookup
turns session_id st = elim (Dict.lookup session_id st.sessions) [ none ↦ [] | some s ↦ s.turns ]

-- for name in names: if name in slots: held[name] = slots[name]
abbrev pub take_slot : Option String → String → Dict String String → Dict String String
take_slot none name held = held
take_slot (some value) name held = Dict.insert name value held

unfoldable pub carry_slots :
    List String → Dict String String → Dict String String → Dict String String
unfolding Dict.lookup Dict.insert
carry_slots [] slots held = held
carry_slots (name ∷ names) slots held =
    carry_slots names slots (take_slot (Dict.lookup name slots) name held)

-- del turns[:-MAX_TURNS]
unfoldable pub last_turns : List Exchange → List Exchange
unfolding drop
last_turns said = drop (length said - max_turns) said

unfoldable pub fold_turn : String → String → Dict String String → String → ℕ → Session → Session
unfolding carry_slots last_turns prefix
fold_turn question answer slots waiting now session = record {
  touched = now;
  slots = carry_slots carried_slots slots session.slots;
  pending = waiting;
  turns = last_turns (session.turns ++ tuple question (prefix turn_text_cap answer) ∷ []);
}

-- `remember`: the session is changed where it stands, without a move to the end.
unfoldable pub remember : String → String → String → Dict String String → String → ℕ → Store → Store
unfolding Dict.lookup Dict.insert fold_turn
remember session_id question answer slots waiting now st =
    elim (Dict.lookup session_id st.sessions) [
      | none ↦ st
      | some session ↦ record st {
        sessions =
            Dict.insert session_id (fold_turn question answer slots waiting now session)
              st.sessions;
      }
    ]

-- `len(store)`
abbrev pub size : Store → ℕ
size st = length st.sessions
