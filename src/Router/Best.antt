-- ===== src/Router/Best.antt =====
-- Which value `SlotDetector.detect` picks for a slot (assistant/answering/router.py).
use technical_knowledge_assi.Prelude.{
  ◌≡◌, ◌≤◌, ◌<◌, inl, inr, refl, sym, ap, ◌∙◌, subst, ℕ, String, true, false, ◌&&◌, Option, none,
  some, List, [], ◌∷◌, map, arith, Bool-cases, string_eq, nat_eq, ◌==◌, any, All, All-map,
  All-of_sorted, All-sorted, sorted, lower, prefix, eq_of_==, ==-refl,
}
use technical_knowledge_assi.Prelude.Dict
use technical_knowledge_assi.Prelude.Dict.{Dict}
use technical_knowledge_assi.Router.Detector.{
  Vocabulary, SlotSpec, score, scored, is_better, best_first, set_best, detect_in, detect,
}
use technical_knowledge_assi.Router.Detection.{IsLed, sorted-IsLed}

abbrev pub head_of : List String → Option String
head_of [] = none
head_of (x ∷ xs) = some x

module _ (v : Vocabulary) (slot lowered : String) where
  -- The score of an entry of the slot's values.
  abbrev pub points : String × List String → ℕ
  points e = score v slot e.0 e.1 lowered

  -- No value matches, or the value has the highest score, which is not nothing.
  abbrev pub IsBest : Dict String (List String) → Option String → Type 0
  IsBest values none = All (λ e. points e ≡ 0) values
  IsBest values (some value) =
      (n : ℕ) × (0 < n)
      × (any (λ e. e.0 == value && points e == n) values ≡ true)
      × All (λ e. points e ≤ n) values

  scored-le :
      (n : ℕ) (values : Dict String (List String))
      → All (λ x. x.0 ≤ n) (scored v slot lowered values)
      → All (λ e. points e ≤ n) values
  unfolding scored
  scored-le n [] h = tt
  scored-le n (e ∷ rest) h = elim (Bool-cases (points e == 0)) [
    | inl z ↦
        (omega (arith, eq_of_== {a = points e} {b = 0} z), scored-le n rest (rw (z, scored) at h))
    | inr z ↦
        let k : (points e ≤ n) × All (λ x. x.0 ≤ n) (scored v slot lowered rest) =
          rw (z, scored) at h in
        (k.0, scored-le n rest k.1)
  ]

  -- What is scored stands among the values, with its score.
  abbrev IsFrom : Dict String (List String) → ℕ × String → Type 0
  IsFrom values x = (0 < x.0) × (any (λ e. e.0 == x.1 && points e == x.0) values ≡ true)

  later-IsFrom :
      (e : String × List String) (rest : Dict String (List String)) (x : ℕ × String)
      → IsFrom rest x
      → IsFrom (e ∷ rest) x
  unfolding any
  later-IsFrom e rest x h = (h.0, rw h.1 (ground arith))

  scored-IsFrom :
      (values : Dict String (List String)) → All (IsFrom values) (scored v slot lowered values)
  unfolding scored any
  scored-IsFrom [] = tt
  scored-IsFrom (e ∷ rest) =
      let later : All (IsFrom (e ∷ rest)) (scored v slot lowered rest) =
        All-map (IsFrom rest) (IsFrom (e ∷ rest)) (later-IsFrom e rest) (scored v slot lowered rest)
          (scored-IsFrom rest) in
      elim (Bool-cases (points e == 0)) [
        | inl z ↦ rw (z, scored) later
        | inr z ↦ rw (z, scored) ((ground arith, rw (==-refl e.0, ==-refl (points e))), later)
      ]

  head-IsBest :
      (values : Dict String (List String)) (xs : List (ℕ × String))
      → IsLed xs
      → All (IsFrom values) xs
      → ((n : ℕ) → All (λ x. x.0 ≤ n) xs → All (λ e. points e ≤ n) values)
      → IsBest values (head_of (map (λ s. s.1) xs))
  head-IsBest values [] led from bound =
      All-map (λ e. points e ≤ 0) (λ e. points e ≡ 0) (λ e k. omega arith) values (bound 0 tt)
  head-IsBest values ((n, value) ∷ xs) led from bound =
      (n, from.0.0, from.0.1, bound n (omega arith, led))

  best_first-IsBest :
      (values : Dict String (List String))
      → IsBest values (head_of (best_first v slot lowered values))
  unfolding best_first
  best_first-IsBest values =
      head-IsBest values (sorted is_better (scored v slot lowered values))
        (sorted-IsLed (scored v slot lowered values))
        (All-sorted is_better (IsFrom values) (scored v slot lowered values) (scored-IsFrom values))
        (λ n h.
          scored-le n values
            (All-of_sorted is_better (λ x. x.0 ≤ n) (scored v slot lowered values) h))

lookup-set_best_ne :
    (j slot : String) (values : List String) (found : Dict String String)
    → (slot == j) ≡ false
    → Dict.lookup j (set_best slot values found) ≡ Dict.lookup j found
unfolding set_best
lookup-set_best_ne j slot [] found h = refl
lookup-set_best_ne j slot (value ∷ others) found h = rw (Dict.lookup-insert slot j value found, h)

lookup-set_best_same :
    (slot : String) (values : List String) (found : Dict String String)
    → Dict.Fresh slot found
    → Dict.lookup slot (set_best slot values found) ≡ head_of values
unfolding set_best
lookup-set_best_same slot [] found h = h
lookup-set_best_same slot (value ∷ others) found h = Dict.lookup-insert_self slot value found

lookup-detect_in_other :
    (v : Vocabulary) (lowered j : String) (spec : Dict String SlotSpec) (found : Dict String String)
    → Dict.Fresh j spec
    → Dict.lookup j (detect_in v lowered spec found) ≡ Dict.lookup j found
unfolding detect_in Dict.lookup
lookup-detect_in_other v lowered j [] found h = refl
lookup-detect_in_other v lowered j ((slot, s) ∷ rest) found h = elim (Bool-cases (slot == j)) [
  | inl e ↦ absurd (cc (rw e at h))
  | inr e ↦
      let later = rw e at h in
      elim (Bool-cases (prefix 1 slot == "_")) [
        | inl u ↦ rw (u, detect_in) (lookup-detect_in_other v lowered j rest found later)
        | inr u ↦
            rw (u, detect_in)
              (lookup-detect_in_other v lowered j rest _ later
                ∙ lookup-set_best_ne j slot (best_first v slot lowered s.values) found e)
      ]
]

lookup-detect_in_here :
    (v : Vocabulary) (lowered slot : String) (s : SlotSpec) (rest : Dict String SlotSpec)
    (found : Dict String String)
    → Dict.Fresh slot rest
    → (prefix 1 slot == "_") ≡ false
    → Dict.Fresh slot found
    → Dict.lookup slot (detect_in v lowered ((slot, s) ∷ rest) found)
      ≡ head_of (best_first v slot lowered s.values)
unfolding detect_in
lookup-detect_in_here v lowered slot s rest found later plain fresh =
    rw (plain, detect_in)
      (lookup-detect_in_other v lowered slot rest _ later
        ∙ lookup-set_best_same slot (best_first v slot lowered s.values) found fresh)

spec_eq : {s t : SlotSpec} → some t ≡ some s → t ≡ s
spec_eq e = cc

lookup-detect_in :
    (v : Vocabulary) (lowered j : String) (spec : Dict String SlotSpec) (found : Dict String String)
    (s : SlotSpec)
    → Dict.IsDistinct spec
    → (prefix 1 j == "_") ≡ false
    → Dict.Fresh j found
    → Dict.lookup j spec ≡ some s
    → Dict.lookup j (detect_in v lowered spec found) ≡ head_of (best_first v j lowered s.values)
unfolding detect_in Dict.lookup
lookup-detect_in v lowered j [] found s d plain fresh h = cc
lookup-detect_in v lowered j ((slot, t) ∷ rest) found s d plain fresh h =
    elim (Bool-cases (slot == j)) [
      | inl e ↦
          let p : j ≡ slot = sym (eq_of_== e) in
          subst
            (λ i.
              Dict.lookup i (detect_in v lowered ((slot, t) ∷ rest) found)
              ≡ head_of (best_first v i lowered s.values))
            (sym p)
            (lookup-detect_in_here v lowered slot t rest found d.0
                (subst (λ i. (prefix 1 i == "_") ≡ false) p plain)
                (subst (λ i. Dict.lookup i found ≡ none) p fresh)
              ∙ ap (λ x. head_of (best_first v slot lowered x.values)) (spec_eq (rw e at h)))
      | inr e ↦
          let declared = rw e at h in
          elim (Bool-cases (prefix 1 slot == "_")) [
            | inl u ↦
                rw (u, detect_in)
                  (lookup-detect_in v lowered j rest found s d.1 plain fresh declared)
            | inr u ↦
                rw (u, detect_in)
                  (lookup-detect_in v lowered j rest _ s d.1 plain
                    (lookup-set_best_ne j slot (best_first v slot lowered t.values) found e ∙ fresh)
                    declared)
          ]
    ]

-- In a vocabulary that declares no slot twice, a slot (whose name does not start with `_`) is found
-- with a value whose score in the lowered question is the highest of all its values' and is not 0; it
-- is not found exactly if no value of it has a score.
pub detect-IsBest :
    (v : Vocabulary) (question slot : String) (s : SlotSpec)
    → Dict.IsDistinct v.spec
    → (prefix 1 slot == "_") ≡ false
    → Dict.lookup slot v.spec ≡ some s
    → IsBest v slot (lower question) s.values (Dict.lookup slot (detect v question))
unfolding detect
detect-IsBest v question slot s distinct plain declared =
    subst (IsBest v slot (lower question) s.values)
      (sym (lookup-detect_in v (lower question) slot v.spec [] s distinct plain refl declared))
      (best_first-IsBest v slot (lower question) s.values)
