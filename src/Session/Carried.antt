-- ===== src/Session/Carried.antt =====
-- What a conversation remembers and whom it tells (assistant/turn/session.py): `remember` and the
-- reads of `carried`, `pending` and `turns`.
use technical_knowledge_assi.Prelude.{
  ℕ, ◌<◌, String, ◌≡◌, false, Option, none, some, List, [], ◌∷◌, arith, if◌then◌else◌, ◌==◌,
  string_eq, mem, Bool-cases, Option-cases, inl, inr, refl, ap, ◌∙◌, subst, eq_iff, ==-refl,
}
use technical_knowledge_assi.Prelude.Dict
use technical_knowledge_assi.Prelude.Dict.{Dict}
use technical_knowledge_assi.Session.{
  Session, Store, carried_slots, new_session, sweep, open_found, open_session, carry_slots,
  fold_turn, remember, carried, pending, turns, is_live,
}

-- The value that this turn detected, or else the one that was held.
abbrev pub or_held : Option String → Option String → Option String
or_held none held = held
or_held (some value) held = some value

lookup-carry_slots :
    (names : List String) (slots held : Dict String String) (name : String)
    → Dict.lookup name (carry_slots names slots held) ≡ (
        if mem name names
        then or_held (Dict.lookup name slots) (Dict.lookup name held)
        else Dict.lookup name held)
unfolding carry_slots mem
lookup-carry_slots [] slots held name = refl
lookup-carry_slots (n ∷ names) slots held name = elim (Option-cases (Dict.lookup n slots)) [
  | inl e ↦ rw e (lookup-carry_slots names slots held name ∙ ground (arith, e, eq_iff n name))
  | inr (v, e) ↦ rw e (
      lookup-carry_slots names slots (Dict.insert n v held) name
      ∙ rw (Dict.lookup-insert n name v held) (elim (Bool-cases (n == name)) [
        | inl same ↦
            rw (same, subst (λ i. Dict.lookup i slots ≡ some v) ((eq_iff n name).0 same) e)
              (ground arith)
        | inr other ↦ rw other
      ]))
]

reads_found :
    (id : String) (st : Store) {s : Session}
    → Dict.lookup id st.sessions ≡ some s
    → (carried id st ≡ s.slots) × (pending id st ≡ s.pending) × (turns id st ≡ s.turns)
unfolding carried pending turns
reads_found id st e = (rw (e, carried), rw (e, pending), rw (e, turns))

module _ (session_id question answer : String) (slots : Dict String String) (waiting : String)
    (now : ℕ) (st : Store) where
  abbrev after : Store
  after = remember session_id question answer slots waiting now st

  lookup-remember :
      (j : String) {s : Session}
      → Dict.lookup session_id st.sessions ≡ some s
      → Dict.lookup j after.sessions ≡ (
          if session_id == j
          then some (fold_turn question answer slots waiting now s)
          else Dict.lookup j st.sessions)
  unfolding remember
  lookup-remember j {s} e =
      rw (e, remember)
        (Dict.lookup-insert session_id j (fold_turn question answer slots waiting now s)
          st.sessions)

  -- After a turn of a session that the store knows, it carries each of the four building slots as
  -- this turn detected it, or else as it was held; every other slot as it was.
  pub carried-remember :
      (name : String) {s : Session}
      → Dict.lookup session_id st.sessions ≡ some s
      → Dict.lookup name (carried session_id after) ≡ (
          if mem name carried_slots
          then or_held (Dict.lookup name slots) (Dict.lookup name (carried session_id st))
          else Dict.lookup name (carried session_id st))
  unfolding fold_turn
  carried-remember name {s} e =
      let now_found : Dict.lookup session_id after.sessions
          ≡ some (fold_turn question answer slots waiting now s) =
        lookup-remember session_id e ∙ rw (==-refl session_id) in
      rw ((reads_found session_id after now_found).0, (reads_found session_id st e).0)
        (lookup-carry_slots carried_slots slots s.slots name)

  -- A turn of one session changes nothing that another session, or no session, reads.
  pub remember_isolated :
      (j : String)
      → (session_id == j) ≡ false
      → (carried j after ≡ carried j st)
        × (pending j after ≡ pending j st)
        × (turns j after ≡ turns j st)
  unfolding carried pending turns
  remember_isolated j other = elim (Option-cases (Dict.lookup session_id st.sessions)) [
    | inl e ↦ unfold remember in rw (e, remember) (refl, refl, refl)
    | inr (s, e) ↦
        let same : Dict.lookup j after.sessions ≡ Dict.lookup j st.sessions =
          lookup-remember j e ∙ rw other in
        rw (same, carried, pending, turns) (refl, refl, refl)
  ]

lookup-sweep-none :
    (now idle : ℕ) (id : String) (d : Dict String Session)
    → Dict.lookup id d ≡ none
    → Dict.lookup id (sweep now idle d) ≡ none
unfolding sweep Dict.lookup
lookup-sweep-none now idle id [] h = refl
lookup-sweep-none now idle id ((j, s) ∷ d) h = elim (Bool-cases (is_live now idle s)) [
  | inl e ↦ rw e h
  | inr e ↦ rw e (lookup-sweep-none now idle id d (ground arith))
]

lookup-open_found :
    (session_id fresh : String) (now : ℕ) (st : Store)
    → 0 < st.max_sessions
    → Dict.lookup fresh st.sessions ≡ none
    → Dict.lookup fresh (open_found none session_id fresh now st).1.sessions
      ≡ some (new_session now)
unfolding open_found
lookup-open_found session_id fresh now st room new =
    rw (Dict.insert-Fresh fresh (new_session now) st.sessions new)
      (Dict.lookup-evict_newest st.max_sessions fresh (new_session now) st.sessions room new)

open_session-unknown :
    (session_id fresh : String) (swept_at now : ℕ) (st : Store)
    → Dict.lookup session_id st.sessions ≡ none
    → open_session session_id fresh swept_at now st
      ≡ open_found none session_id fresh now
          (record st { sessions = sweep swept_at st.idle_seconds st.sessions })
unfolding open_session
open_session-unknown session_id fresh swept_at now st unknown =
    ap
      (λ (o : Option Session).
        open_found o session_id fresh now
          (record st { sessions = sweep swept_at st.idle_seconds st.sessions }))
      (lookup-sweep-none swept_at st.idle_seconds session_id st.sessions unknown)

-- An id that the store does not hold gets a fresh session that knows nothing: no slots, no pending
-- question and no turns; and a turn reported under such an id changes nothing.
pub forged_id_learns_nothing :
    (session_id fresh : String) (swept_at now : ℕ) (st : Store)
    → 0 < st.max_sessions
    → Dict.lookup session_id st.sessions ≡ none
    → Dict.lookup fresh st.sessions ≡ none
    → ((open_session session_id fresh swept_at now st).0 ≡ fresh)
      × (carried fresh (open_session session_id fresh swept_at now st).1 ≡ [])
      × (pending fresh (open_session session_id fresh swept_at now st).1 ≡ "")
      × (turns fresh (open_session session_id fresh swept_at now st).1 ≡ [])
      × ((question answer waiting : String) (slots : Dict String String) (at : ℕ)
          → remember session_id question answer slots waiting at st ≡ st)
forged_id_learns_nothing session_id fresh swept_at now st room unknown new =
    let swept : Store = record st { sessions = sweep swept_at st.idle_seconds st.sessions } in
    let opened : Store = (open_found none session_id fresh now swept).1 in
    let reads = reads_found fresh opened (
      lookup-open_found session_id fresh now swept room
        (lookup-sweep-none swept_at st.idle_seconds fresh st.sessions new)) in
    rw (open_session-unknown session_id fresh swept_at now st unknown) (
      unfold open_found in refl,
      reads.0,
      reads.1,
      reads.2,
      λ question answer waiting slots at. unfold remember in rw (unknown, remember),
    )
