-- ===== src/Session/Bounded.antt =====
-- The bounds that assistant/turn/session.py puts on an anonymous caller's memory: the number of
-- sessions, and in each the turns, the length of their texts and the slots that are held.
use technical_knowledge_assi.Prelude.{
  ℕ, zero, suc, ◌-◌, ◌≤◌, String, ◌≡◌, true, Option, none, some, List, [], ◌∷◌, ◌++◌, arith,
  string_eq, length, length-drop, drop, prefix, chars, count-prefix-le, mem, All, All-append,
  Bool-cases, Option-cases, inl, inr, refl,
}
use technical_knowledge_assi.Prelude.Dict
use technical_knowledge_assi.Prelude.Dict.{Dict, IsDistinct}
use technical_knowledge_assi.Session.{
  Exchange, tuple, listed, Session, Sessions, Store, carried_slots, max_turns, turn_text_cap,
  new_store, new_session, is_live, sweep, open_found, open_session, carry_slots, last_turns,
  fold_turn, remember, size,
}

-- `t[1]`, of a tuple or of the list that it is read back as
abbrev pub answer_of : Exchange → String
answer_of (tuple question answer) = answer
answer_of (listed (question ∷ answer ∷ rest)) = answer
answer_of (listed _) = ""

-- One session holds no more than a handful of short strings, besides the questions.
pub record IsSmall (s : Session) : Type 0 where
  pub few_turns : length s.turns ≤ max_turns
  pub short_answers : All (λ t. chars (answer_of t) ≤ turn_text_cap) s.turns
  pub building_slots : All (λ e. mem e.0 carried_slots ≡ true) s.slots

pub record IsBounded (st : Store) : Type 0 where
  pub distinct : IsDistinct st.sessions
  pub few_sessions : size st ≤ st.max_sessions
  pub small : All (λ e. IsSmall e.1) st.sessions

-- `sweep` leaves an end of the list.
module _ (now idle : ℕ) where
  length-sweep-le : (d : Sessions) → length (sweep now idle d) ≤ length d
  unfolding sweep
  length-sweep-le [] = omega arith
  length-sweep-le ((id, s) ∷ d) = ground (arith, length-sweep-le d)

  pub IsDistinct-sweep : (d : Sessions) → IsDistinct d → IsDistinct (sweep now idle d)
  unfolding sweep
  IsDistinct-sweep [] h = tt
  IsDistinct-sweep ((id, s) ∷ d) h = elim (Bool-cases (is_live now idle s)) [
    | inl e ↦ rw e h
    | inr e ↦ rw e (IsDistinct-sweep d h.1)
  ]

  All-sweep : (P : String × Session → Type 0) (d : Sessions) → All P d → All P (sweep now idle d)
  unfolding sweep
  All-sweep P [] h = tt
  All-sweep P ((id, s) ∷ d) h = elim (Bool-cases (is_live now idle s)) [
    | inl e ↦ rw e h
    | inr e ↦ rw e (All-sweep P d h.1)
  ]

sweep-IsBounded :
    (now : ℕ) {st : Store}
    → IsBounded st
    → IsBounded (record st { sessions = sweep now st.idle_seconds st.sessions })
sweep-IsBounded now {st} h = record {
  distinct = IsDistinct-sweep now st.idle_seconds st.sessions h.distinct;
  few_sessions = omega (arith, h.few_sessions, length-sweep-le now st.idle_seconds st.sessions);
  small = All-sweep now st.idle_seconds (λ e. IsSmall e.1) st.sessions h.small;
}

new_session-IsSmall : (now : ℕ) → IsSmall (new_session now)
new_session-IsSmall now = record {
  few_turns = omega arith;
  short_answers = tt;
  building_slots = tt;
}

touched-IsSmall : {s : Session} (now : ℕ) → IsSmall s → IsSmall (record s { touched = now })
touched-IsSmall now h = record {
  few_turns = h.few_turns;
  short_answers = h.short_answers;
  building_slots = h.building_slots;
}

open_found-IsBounded :
    (found : Option Session) (session_id fresh : String) (now : ℕ) {st : Store}
    → Dict.lookup session_id st.sessions ≡ found
    → IsBounded st
    → IsBounded (open_found found session_id fresh now st).1
unfolding open_found
open_found-IsBounded (some s) session_id fresh now {st} e h =
    let d : Sessions = Dict.insert session_id (record s { touched = now }) st.sessions in
    record {
      distinct =
          Dict.IsDistinct-move_to_end session_id d
            (Dict.IsDistinct-insert session_id _ st.sessions h.distinct);
      few_sessions = omega (
        arith,
        h.few_sessions,
        Dict.length-move_to_end session_id d,
        Dict.length-insert_old session_id (record s { touched = now }) st.sessions e,
      );
      small =
          Dict.All-move_to_end (λ e. IsSmall e.1) session_id d
            (Dict.All-insert (λ e. IsSmall e.1) session_id (record s { touched = now }) st.sessions
              (λ j _.
                touched-IsSmall now
                  (Dict.All-lookup (λ e. IsSmall e.1) session_id st.sessions h.small e))
              h.small);
    }
open_found-IsBounded none session_id fresh now {st} e h =
    let d : Sessions = Dict.insert fresh (new_session now) st.sessions in
    record {
      distinct =
          Dict.IsDistinct-evict st.max_sessions d
            (Dict.IsDistinct-insert fresh (new_session now) st.sessions h.distinct);
      few_sessions = Dict.length-evict-le st.max_sessions d;
      small =
          Dict.All-evict (λ e. IsSmall e.1) st.max_sessions d
            (Dict.All-insert (λ e. IsSmall e.1) fresh (new_session now) st.sessions
              (λ j _. new_session-IsSmall now) h.small);
    }

open_session-IsBounded :
    (session_id fresh : String) (swept_at now : ℕ) {st : Store}
    → IsBounded st
    → IsBounded (open_session session_id fresh swept_at now st).1
unfolding open_session
open_session-IsBounded session_id fresh swept_at now {st} h =
    open_found-IsBounded _ session_id fresh now refl (sweep-IsBounded swept_at h)

carry_slots-building :
    (names : List String) (slots held : Dict String String)
    → All (λ n. mem n carried_slots ≡ true) names
    → All (λ e. mem e.0 carried_slots ≡ true) held
    → All (λ e. mem e.0 carried_slots ≡ true) (carry_slots names slots held)
unfolding carry_slots
carry_slots-building [] slots held n h = h
carry_slots-building (name ∷ names) slots held n h = elim (Option-cases (Dict.lookup name slots)) [
  | inl e ↦ rw e (carry_slots-building names slots held n.1 h)
  | inr (v, e) ↦ rw e (
      carry_slots-building names slots (Dict.insert name v held) n.1
        (Dict.All-insert (λ e. mem e.0 carried_slots ≡ true) name v held (λ j same. rw same n.0) h))
]

All-drop : {A : Type 0} (P : A → Type 0) (n : ℕ) (xs : List A) → All P xs → All P (drop n xs)
unfolding drop
All-drop P zero xs h = h
All-drop P (suc n) [] h = tt
All-drop P (suc n) (x ∷ xs) h = All-drop P n xs h.1

fold_turn-IsSmall :
    (question answer : String) (slots : Dict String String) (waiting : String) (now : ℕ)
    {s : Session}
    → IsSmall s
    → IsSmall (fold_turn question answer slots waiting now s)
unfolding fold_turn last_turns mem
fold_turn-IsSmall question answer slots waiting now {s} h =
    let said : List Exchange = s.turns ++ tuple question (prefix turn_text_cap answer) ∷ [] in
    record {
      few_turns = omega (arith, length-drop (length said - max_turns) said);
      short_answers =
          All-drop (λ t. chars (answer_of t) ≤ turn_text_cap) (length said - max_turns) said
            (All-append (λ t. chars (answer_of t) ≤ turn_text_cap) s.turns _ h.short_answers
              (count-prefix-le turn_text_cap answer, tt));
      building_slots =
          carry_slots-building carried_slots slots s.slots (refl, (refl, (refl, (refl, tt))))
            h.building_slots;
    }

remember-IsBounded :
    (session_id question answer : String) (slots : Dict String String) (waiting : String) (now : ℕ)
    {st : Store}
    → IsBounded st
    → IsBounded (remember session_id question answer slots waiting now st)
unfolding remember
remember-IsBounded session_id question answer slots waiting now {st} h =
    elim (Option-cases (Dict.lookup session_id st.sessions)) [
      | inl e ↦ rw (e, remember) h
      | inr (s, e) ↦
          rw (e, remember)
            (record {
              distinct = Dict.IsDistinct-insert session_id _ st.sessions h.distinct;
              few_sessions = omega (
                arith,
                h.few_sessions,
                Dict.length-insert_old session_id (fold_turn question answer slots waiting now s)
                    st.sessions e,
              );
              small =
                  Dict.All-insert (λ e. IsSmall e.1) session_id
                    (fold_turn question answer slots waiting now s) st.sessions
                    (λ j _.
                      fold_turn-IsSmall question answer slots waiting now
                        (Dict.All-lookup (λ e. IsSmall e.1) session_id st.sessions h.small e))
                    h.small;
            })
    ]

-- The calls that change the store, by any callers.
pub data Call : Type 0 where
  opening : (session_id fresh : String) (swept_at now : ℕ) → Call
  remembering :
      (session_id question answer : String) (slots : Dict String String) (waiting : String)
      (now : ℕ)
      → Call

pub apply_call : Store → Call → Store
apply_call st (opening session_id fresh swept_at now) =
    (open_session session_id fresh swept_at now st).1
apply_call st (remembering session_id question answer slots waiting now) =
    remember session_id question answer slots waiting now st

pub run : Store → List Call → Store
run st [] = st
run st (call ∷ calls) = run (apply_call st call) calls

run-IsBounded : (st : Store) (calls : List Call) → IsBounded st → IsBounded (run st calls)
unfolding run apply_call
run-IsBounded st [] h = h
run-IsBounded st (opening session_id fresh swept_at now ∷ calls) h =
    run-IsBounded (open_session session_id fresh swept_at now st).1 calls
      (open_session-IsBounded session_id fresh swept_at now h)
run-IsBounded st (remembering session_id question answer slots waiting now ∷ calls) h =
    run-IsBounded (remember session_id question answer slots waiting now st) calls
      (remember-IsBounded session_id question answer slots waiting now h)

-- Whatever calls are made, in whatever order and at whatever times, the store holds at most
-- `max_sessions` sessions with distinct ids, and each holds at most eight turns, answers of at most
-- 400 characters in them, and no slot but the four carried ones.
pub memory-IsBounded :
    (max_sessions idle_seconds : ℕ) (calls : List Call)
    → IsBounded (run (new_store max_sessions idle_seconds) calls)
memory-IsBounded max_sessions idle_seconds calls =
    run-IsBounded (new_store max_sessions idle_seconds) calls
      (record { distinct = tt; few_sessions = omega arith; small = tt })
