-- ===== src/Understanding/Inheritance.antt =====
-- The loop of `resolve` over what the conversation holds (assistant/answering/understanding.py).
use technical_knowledge_assi.Prelude.{
  ℕ, ◌≡◌, ◌⊎◌, inl, inr, String, Bool, true, false, ◌&&◌, [], ◌∷◌, arith, Bool-cases, string_eq,
  ◌==◌, eq_iff, ==-refl, any,
}
use technical_knowledge_assi.Prelude.Dict.{Dict}
use technical_knowledge_assi.Conversation.{Provenance, FactHistory, Facts, is_active}
use technical_knowledge_assi.Conversation.Cases.{active_in}
use technical_knowledge_assi.Router.Detector.{has_slot}
use technical_knowledge_assi.Understanding.Resolving.{
  Building, inherit_slot, inherit_facts, origin_of,
}

-- The conversation holds the value for the slot, as active.
unfoldable pub is_held : Facts → String → String → Bool
unfolding any active_in
is_held held slot value = any (λ s. s.0 == slot && s.1 == value) (active_in held)

later-is_held :
    (slot : String) (f : FactHistory) (rest : Facts) (j value : String)
    → is_held rest j value ≡ true
    → is_held ((slot, f) ∷ rest) j value ≡ true
unfolding is_held active_in any
later-is_held slot f rest j value h = elim (Bool-cases (is_active f.current.status)) [
  | inl e ↦ rw (e, active_in) (rw h (ground arith))
  | inr e ↦ rw (e, active_in) h
]

here-is_held :
    (slot : String) (f : FactHistory) (rest : Facts)
    → is_active f.current.status ≡ true
    → is_held ((slot, f) ∷ rest) slot f.current.value ≡ true
unfolding is_held active_in any
here-is_held slot f rest e = rw (e, active_in) (rw (==-refl slot, ==-refl f.current.value))

-- What the loop keeps: a property that a slot which is held, and not denied, keeps.
module _ (compares : Bool) (turn : ℕ) (denied : Dict String String) (P : Building → Type 0) where
  abbrev pub IsKept : Facts → Type 0
  IsKept held =
      (slot value : String) (origin : Provenance) (c : Building)
      → has_slot slot denied ≡ false
      → is_held held slot value ≡ true
      → P c
      → P (inherit_slot compares slot value origin c)

  pub inherit_facts-keeps :
      (held : Facts) (b : Building)
      → IsKept held
      → P b
      → P (inherit_facts compares turn denied held b)
  unfolding inherit_facts
  inherit_facts-keeps [] b step h = h
  inherit_facts-keeps ((slot, f) ∷ rest) b step h =
      inherit_facts-keeps rest _
        (λ j v o c free found. step j v o c free (later-is_held slot f rest j v found))
        (elim (Bool-cases (is_active f.current.status)) [
          | inl e ↦ elim (Bool-cases (has_slot slot denied)) [
            | inl d ↦ rw (e, d) h
            | inr d ↦
                rw (e, d)
                  (step slot f.current.value (origin_of turn f.current) b d
                    (here-is_held slot f rest e) h)
          ]
          | inr e ↦ rw e h
        ])

module _ (compares : Bool) (slot value : String) (origin : Provenance) (b : Building) where
  pub inherit_slot-wall :
      ((inherit_slot compares slot value origin b).wall ≡ b.wall)
      ⊎ ((slot ≡ "substrate")
          × (b.wall ≡ "")
          × ((inherit_slot compares slot value origin b).wall ≡ value))
  unfolding inherit_slot
  inherit_slot-wall = ground (arith, eq_iff slot "substrate", eq_iff b.wall "")

  pub inherit_slot-place :
      ((inherit_slot compares slot value origin b).place ≡ b.place)
      ⊎ ((slot ≡ "location")
          × (b.place ≡ "")
          × ((inherit_slot compares slot value origin b).place ≡ value))
  unfolding inherit_slot
  inherit_slot-place = ground (arith, eq_iff slot "location", eq_iff b.place "")

  pub inherit_slot-weather :
      ((inherit_slot compares slot value origin b).weather ≡ b.weather)
      ⊎ ((slot ≡ "exposure")
          × (b.weather ≡ "")
          × ((inherit_slot compares slot value origin b).weather ≡ value))
  unfolding inherit_slot
  inherit_slot-weather = ground (arith, eq_iff slot "exposure", eq_iff b.weather "")
