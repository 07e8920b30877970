-- ===== src/Session/Expiry.antt =====
-- When a presented id is honoured (assistant/turn/session.py, `open` and `_sweep`). The sweep stops
-- at the first live entry, so it is exact as long as the entries stand in the order of their last
-- touch; `remember` touches a session and leaves it where it stands.
use technical_knowledge_assi.Prelude.{
  ℕ, ◌≤◌, String, ◌≡◌, true, false, Option, none, some, [], ◌∷◌, arith, keep, if◌then◌else◌, ◌==◌,
  string_eq, All, Bool-cases, inl, inr, refl, ◌∙◌, ap, sym, subst, eq_of_==,
}
use technical_knowledge_assi.Prelude.Dict
use technical_knowledge_assi.Prelude.Dict.{Dict, IsDistinct}
use technical_knowledge_assi.Session.{
  Session, Sessions, Store, is_live, sweep, open_found, open_session,
}

-- Each entry was last touched no later than those behind it.
abbrev pub IsOldestFirst : Sessions → Type 0
IsOldestFirst [] = Unit
IsOldestFirst ((id, s) ∷ d) = All (λ e. s.touched ≤ e.1.touched) d × IsOldestFirst d

keep-All_live :
    (now idle : ℕ) (s : Session) (d : Sessions)
    → is_live now idle s ≡ true
    → All (λ e. s.touched ≤ e.1.touched) d
    → keep (λ e. is_live now idle e.1) d ≡ d
unfolding keep
keep-All_live now idle s [] live h = refl
keep-All_live now idle s ((id, t) ∷ d) live h =
    let later : is_live now idle t ≡ true = ground (arith, h.0) in
    rw later (ap (λ r. (id, t) ∷ r) (keep-All_live now idle s d live h.1))

-- In that order the sweep keeps exactly the sessions touched within the idle period.
pub sweep_exact :
    (now idle : ℕ) (d : Sessions)
    → IsOldestFirst d
    → sweep now idle d ≡ keep (λ e. is_live now idle e.1) d
unfolding sweep keep
sweep_exact now idle [] h = refl
sweep_exact now idle ((id, s) ∷ d) h = elim (Bool-cases (is_live now idle s)) [
  | inl live ↦ rw live (ap (λ r. (id, s) ∷ r) (sym (keep-All_live now idle s d live h.0)))
  | inr idle' ↦ rw idle' (sweep_exact now idle d h.1)
]

lookup-keep_none :
    (now idle : ℕ) (id : String) (d : Sessions)
    → Dict.lookup id d ≡ none
    → Dict.lookup id (keep (λ e. is_live now idle e.1) d) ≡ none
unfolding keep Dict.lookup
lookup-keep_none now idle id [] h = refl
lookup-keep_none now idle id ((j, t) ∷ d) h = ground (arith, lookup-keep_none now idle id d)

lookup-keep :
    (now idle : ℕ) (id : String) (d : Sessions) {s : Session}
    → IsDistinct d
    → Dict.lookup id d ≡ some s
    → Dict.lookup id (keep (λ e. is_live now idle e.1) d)
      ≡ (if is_live now idle s then some s else none)
unfolding keep Dict.lookup
lookup-keep now idle id [] h e = cc
lookup-keep now idle id ((j, t) ∷ d) {s} h e = elim (Bool-cases (j == id)) [
  | inl same ↦
      let absent =
        lookup-keep_none now idle id d (subst (λ i. Dict.lookup i d ≡ none) (eq_of_== same) h.0) in
      let p : t ≡ s = cc (rw same at e) in
      elim (Bool-cases (is_live now idle t)) [
        | inl live ↦ rw (live, same, subst (λ x. is_live now idle x ≡ true) p live) (ap some p)
        | inr dead ↦ rw (dead, subst (λ x. is_live now idle x ≡ false) p dead) absent
      ]
  | inr other ↦ elim (Bool-cases (is_live now idle t)) [
    | inl live ↦ rw (live, other) (lookup-keep now idle id d h.1 (rw other at e))
    | inr dead ↦ rw dead (lookup-keep now idle id d h.1 (rw other at e))
  ]
]

sweep_front :
    (st : Store) (first : String) (f : Session) (rest : Sessions) (swept_at : ℕ)
    → st.sessions ≡ (first, f) ∷ rest
    → is_live swept_at st.idle_seconds f ≡ true
    → sweep swept_at st.idle_seconds st.sessions ≡ st.sessions
unfolding sweep
sweep_front st first f rest swept_at front live =
    ap (sweep swept_at st.idle_seconds) front ∙ rw live (sym front)

open-id :
    (session_id fresh : String) (swept_at now : ℕ) (st : Store) (o : Option Session)
    → Dict.lookup session_id (sweep swept_at st.idle_seconds st.sessions) ≡ o
    → (open_session session_id fresh swept_at now st).0
      ≡ elim o [ none ↦ fresh | some s ↦ session_id ]
unfolding open_session open_found
open-id session_id fresh swept_at now st none e = rw (e, open_session)
open-id session_id fresh swept_at now st (some s) e = rw (e, open_session)

-- While the entries stand in the order of their last touch, a presented id is honoured exactly if
-- its session was touched within the idle period.
pub open_honours_live :
    (session_id fresh : String) (swept_at now : ℕ) (st : Store) {s : Session}
    → IsDistinct st.sessions
    → IsOldestFirst st.sessions
    → Dict.lookup session_id st.sessions ≡ some s
    → (open_session session_id fresh swept_at now st).0
      ≡ (if is_live swept_at st.idle_seconds s then session_id else fresh)
open_honours_live session_id fresh swept_at now st {s} distinct ordered e =
    let swept =
      ap (Dict.lookup session_id) (sweep_exact swept_at st.idle_seconds st.sessions ordered)
      ∙ lookup-keep swept_at st.idle_seconds session_id st.sessions distinct e in
    elim (Bool-cases (is_live swept_at st.idle_seconds s)) [
      | inl live ↦ rw live (open-id session_id fresh swept_at now st (some s) (rw live at swept))
      | inr dead ↦ rw dead (open-id session_id fresh swept_at now st none (rw dead at swept))
    ]

-- While a live session stands in front of all entries, an id is honoured although its session has
-- been idle for the whole period.
pub open_honours_expired :
    (session_id fresh first : String) (swept_at now : ℕ) (f : Session) (rest : Sessions)
    (st : Store) {s : Session}
    → st.sessions ≡ (first, f) ∷ rest
    → is_live swept_at st.idle_seconds f ≡ true
    → Dict.lookup session_id st.sessions ≡ some s
    → is_live swept_at st.idle_seconds s ≡ false
    → (open_session session_id fresh swept_at now st).0 ≡ session_id
open_honours_expired session_id fresh first swept_at now f rest st {s} front live found expired =
    open-id session_id fresh swept_at now st (some s)
      (ap (Dict.lookup session_id) (sweep_front st first f rest swept_at front live) ∙ found)
