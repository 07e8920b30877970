-- ===== src/Router/Detection.antt =====
-- What `SlotDetector.detect` finds, and how `Router.route` merges it with the slots that the
-- conversation carries (assistant/answering/router.py).
use technical_knowledge_assi.Prelude.{
  ◌≡◌, ◌≤◌, inl, inr, refl, ◌∙◌, subst, ℕ, String, Option, none, some, List, [], ◌∷◌, arith,
  Bool-cases, string_eq, nat_eq, ◌==◌, All, All-map, All-insert_sorted, sorted, insert_sorted,
  lower, prefix, eq_of_==,
}
use technical_knowledge_assi.Prelude.Dict
use technical_knowledge_assi.Prelude.Dict.{Dict}
use technical_knowledge_assi.Router.Detector.{
  Vocabulary, SlotSpec, is_better, best_first, set_best, detect_in, detect,
}
use technical_knowledge_assi.Router.Gates.{update}
use technical_knowledge_assi.Router.Route.{Rules, slots_for}

-- `newer`, or what was there before
abbrev pub or_else {ℓ} : {A : Type ℓ} → Option A → Option A → Option A
or_else none old = old
or_else (some a) old = some a

lookup-update :
    (j : String) (d newer : Dict String String)
    → Dict.IsDistinct newer
    → Dict.lookup j (update d newer) ≡ or_else (Dict.lookup j newer) (Dict.lookup j d)
unfolding update Dict.lookup
lookup-update j d [] h = refl
lookup-update j d ((k, v) ∷ newer) h =
    lookup-update j (Dict.insert k v d) newer h.1
    ∙ rw (Dict.lookup-insert k j v d) (elim (Bool-cases (k == j)) [
      | inl e ↦
          let fresh : Dict.lookup j newer ≡ none =
            subst (λ i. Dict.lookup i newer ≡ none) (eq_of_== e) h.0 in
          rw (e, fresh)
      | inr e ↦ rw e
    ])

set_best-IsDistinct :
    (slot : String) (values : List String) (d : Dict String String)
    → Dict.IsDistinct d
    → Dict.IsDistinct (set_best slot values d)
unfolding set_best
set_best-IsDistinct slot [] d h = h
set_best-IsDistinct slot (value ∷ others) d h = Dict.IsDistinct-insert slot value d h

detect_in-IsDistinct :
    (v : Vocabulary) (lowered : String) (spec : Dict String SlotSpec) (found : Dict String String)
    → Dict.IsDistinct found
    → Dict.IsDistinct (detect_in v lowered spec found)
unfolding detect_in
detect_in-IsDistinct v lowered [] found h = h
detect_in-IsDistinct v lowered ((slot, s) ∷ rest) found h =
    elim (Bool-cases (prefix 1 slot == "_")) [
      | inl e ↦ rw (e, detect_in) (detect_in-IsDistinct v lowered rest found h)
      | inr e ↦
          rw (e, detect_in)
            (detect_in-IsDistinct v lowered rest _
              (set_best-IsDistinct slot (best_first v slot lowered s.values) found h))
    ]

-- What the question says wins: a slot that it names has its value, whatever was carried on from an
-- earlier turn or from a photograph, and a slot that it does not name keeps the value carried.
pub slots_for-lookup :
    (r : Rules) (question slot : String) (carried : Dict String String)
    → Dict.lookup slot (slots_for r question carried)
      ≡ or_else (Dict.lookup slot (detect r.vocabulary question)) (Dict.lookup slot carried)
unfolding slots_for detect
slots_for-lookup r question slot carried =
    lookup-update slot carried (detect_in r.vocabulary (lower question) r.vocabulary.spec [])
      (detect_in-IsDistinct r.vocabulary (lower question) r.vocabulary.spec [] tt)

-- The first of a sorted list has the highest score.
abbrev pub IsLed : List (ℕ × String) → Type 0
IsLed [] = Unit
IsLed (y ∷ ys) = All (λ x. x.0 ≤ y.0) ys

insert_sorted-IsLed :
    (x : ℕ × String) (ys : List (ℕ × String)) → IsLed ys → IsLed (insert_sorted is_better x ys)
unfolding insert_sorted
insert_sorted-IsLed x [] h = tt
insert_sorted-IsLed x (y ∷ ys) h = elim (Bool-cases (is_better x y)) [
  | inl e ↦ rw e (
      let top : y.0 ≤ x.0 = ground arith in
      (top, All-map (λ z. z.0 ≤ y.0) (λ z. z.0 ≤ x.0) (λ z k. omega arith) ys h))
  | inr e ↦ rw e (All-insert_sorted is_better (λ z. z.0 ≤ y.0) x ys (ground arith) h)
]

pub sorted-IsLed : (xs : List (ℕ × String)) → IsLed (sorted is_better xs)
unfolding sorted
sorted-IsLed [] = tt
sorted-IsLed (x ∷ xs) = insert_sorted-IsLed x (sorted is_better xs) (sorted-IsLed xs)
