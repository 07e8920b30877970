-- ===== src/Conversation/Rules.antt =====
-- The three rules of a slot (assistant/turn/conversation.py), stated of what a turn leaves in it.
use technical_knowledge_assi.Prelude.{
  ◌≡◌, ◌≢◌, true, Option, none, some, [], ◌∷◌, ◌++◌, arith, if◌then◌else◌, ◌==◌, string_eq, nat_eq,
  Bool-cases, inl, inr, refl, ◌⊎◌, ◌&&◌, not, eq_iff, ◌||◌, ap,
}
use technical_knowledge_assi.Conversation.{
  Provenance, stated, carried, observed, assumed, active, conflicting, SessionFact, from_person,
  FactHistory, Denial, denial, fact, retire, write, write_fact, write_denial, write_stated,
  write_observed, write_inherited, write_by,
}
use technical_knowledge_assi.Conversation.Slots.{next_of}

write_fact-by :
    (f : SessionFact) (h : FactHistory) (p : Provenance)
    → f.provenance ≡ p
    → write_fact f h ≡ write_by p f h
write_fact-by f h p e = ap (λ q. write_by q f h) e

abbrev pub current_of : Option FactHistory → Option SessionFact
current_of none = none
current_of (some h) = some h.current

-- The person, speaking now, wins: a stated fact is the slot's current one whatever the slot held.
pub statement_wins :
    (f : SessionFact) (held : Option FactHistory)
    → f.provenance ≡ stated
    → current_of (next_of (some (fact f)) held) ≡ some f
unfolding write write_by write_stated
statement_wins f none said = refl
statement_wins f (some h) said =
    rw (write_fact-by f h stated said)
      (elim (Bool-cases (h.current.value == f.value && from_person h.current)) [
        | inl e ↦ rw (e, write_stated)
        | inr e ↦ rw (e, write_stated)
      ])

-- A person's correction loses nothing and settles the slot: the value that it replaces is the last
-- of the slot's superseded facts, after those that it had, and no photograph contradicts it.
pub correction_keeps_history :
    (f : SessionFact) (prior : FactHistory)
    → f.provenance ≡ stated
    → prior.current.value ≢ f.value
    → next_of (some (fact f)) (some prior)
      ≡ some (record {
        current = f;
        superseded_facts = prior.superseded_facts ++ retire prior.current ∷ [];
        contradicted_by = [];
      })
unfolding write write_by write_stated
correction_keeps_history f prior said differs =
    rw (write_fact-by f prior stated said) (elim (Bool-cases (prior.current.value == f.value)) [
      | inl same ↦ absurd (differs ((eq_iff prior.current.value f.value).0 same))
      | inr other ↦ rw (other, write_stated)
    ])

-- A photograph may inform and never overrule: over a person's fact it changes neither the value nor
-- its provenance, its turn or what was superseded. One that disagrees is kept beside the fact, and
-- puts the slot in conflict unless it came in the same turn.
pub photograph_never_overrules :
    (f : SessionFact) (prior : FactHistory)
    → f.provenance ≡ observed
    → from_person prior.current ≡ true
    → (h : FactHistory) × (next_of (some (fact f)) (some prior) ≡ some h)
      × (h.current.value ≡ prior.current.value)
      × (h.current.provenance ≡ prior.current.provenance)
      × (h.current.source_turn ≡ prior.current.source_turn)
      × (h.superseded_facts ≡ prior.superseded_facts)
      × (h.contradicted_by ≡ (
          if prior.current.value == f.value
          then prior.contradicted_by
          else prior.contradicted_by ++ f ∷ []))
      × (h.current.status ≡ (
          if prior.current.value == f.value || prior.current.source_turn == f.source_turn
          then prior.current.status
          else conflicting))
unfolding write write_by write_observed
photograph_never_overrules f prior shown person =
    rw (write_fact-by f prior observed shown) (elim (Bool-cases (prior.current.value == f.value)) [
      | inl agrees ↦
          (prior, rw (agrees, person, write_observed), refl, refl, refl, refl, rw agrees, rw agrees)
      | inr differs ↦ elim (Bool-cases (prior.current.source_turn == f.source_turn)) [
        | inl together ↦ (
          record prior { contradicted_by = prior.contradicted_by ++ f ∷ [] },
          rw (differs, person, together, write_observed),
          refl,
          refl,
          refl,
          refl,
          rw differs,
          rw (differs, together),
        )
        | inr later ↦ (
          record prior {
            current = record prior.current { status = conflicting };
            contradicted_by = prior.contradicted_by ++ f ∷ [];
          },
          rw (differs, person, later, write_observed),
          refl,
          refl,
          refl,
          refl,
          rw differs,
          rw (differs, later),
        )
      ]
    ])

-- History fills a gap and never overwrites the present: an inherited or assumed fact leaves an
-- active fact of a person as it is, with all of its history.
pub history_keeps_the_present :
    (f : SessionFact) (prior : FactHistory)
    → (f.provenance ≡ carried) ⊎ (f.provenance ≡ assumed)
    → prior.current.status ≡ active
    → from_person prior.current ≡ true
    → next_of (some (fact f)) (some prior) ≡ some prior
unfolding write write_by write_inherited
history_keeps_the_present f prior old live person = elim old [
  | inl e ↦ rw (write_fact-by f prior carried e) (rw (live, person, write_inherited))
  | inr e ↦ rw (write_fact-by f prior assumed e) (rw (live, person, write_inherited))
]

-- A denial of the held value, or of whatever is held, leaves no active fact in the slot and records
-- the retired one; a denial of another value, or of an empty slot, changes nothing.
pub denial_retires :
    (d : Denial) (prior : FactHistory)
    → (next_of (some (denial d)) none ≡ none)
      × (next_of (some (denial d)) (some prior)
          ≡ some (
              if not (d.value == "") && not (prior.current.value == d.value)
              then prior
              else record {
                current = retire prior.current;
                superseded_facts = prior.superseded_facts ++ retire prior.current ∷ [];
                contradicted_by = [];
              }))
unfolding write write_denial
denial_retires d prior =
    (refl, ground (arith, eq_iff d.value "", eq_iff prior.current.value d.value))
