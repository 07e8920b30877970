-- ===== src/Router/Splitting.antt =====
-- What `split_by_topic` returns (assistant/answering/router.py).
use Prim.Native.String.{◌++◌ as joined}
use text.Mathlib.TextLemmas.{append_assoc as joined_assoc}
use technical_knowledge_assi.Prelude.{
  ◌≡◌, ◌<◌, ◌⊎◌, inl, inr, refl, sym, ap, ◌∙◌, String, Bool, true, false, not, List, [], ◌∷◌, ◌++◌,
  append-nil, append_assoc, arith, if◌then◌else◌, Bool-cases, string_eq, ◌==◌, any, all, keep, map,
  length, unique, ltb, strip, subst,
}
use technical_knowledge_assi.Router.Gates.{is_nil}
use technical_knowledge_assi.Router.Policy.{
  Routing, join, strip_ends, attach, attach_last, attach_pending, candidates, is_gated, is_mixed,
  topics_of, has_two_jobs, or_whole, split_by_topic,
}

-- Texts joined one after another, whatever the grouping.
join-cons :
    (x : String) (ys : List String)
    → is_nil ys ≡ false
    → join (x ∷ ys) ≡ joined x (joined " " (join ys))
unfolding join is_nil
join-cons x [] h = cc
join-cons x (y ∷ ys) h = refl

join-join :
    (y : String) (ys rest : List String) → join (join (y ∷ ys) ∷ rest) ≡ join (y ∷ ys ++ rest)
unfolding join
join-join y [] rest = refl
join-join y (z ∷ ys) [] = ap (λ l. join (y ∷ l)) (sym (append-nil (z ∷ ys)))
join-join y (z ∷ ys) (w ∷ rest) =
    joined_assoc y (joined " " (join (z ∷ ys))) (joined " " (join (w ∷ rest)))
    ∙ ap (λ s. joined y s) (joined_assoc " " (join (z ∷ ys)) (joined " " (join (w ∷ rest))))
    ∙ ap (λ s. joined y (joined " " s)) (join-join z ys (w ∷ rest))

is_nil-append : (xs : List String) (y : String) (ys : List String) → is_nil (xs ++ (y ∷ ys)) ≡ false
unfolding is_nil
is_nil-append [] y ys = refl
is_nil-append (x ∷ xs) y ys = refl

join-append_join :
    (xs : List String) (y : String) (ys rest : List String)
    → join (xs ++ (join (y ∷ ys) ∷ rest)) ≡ join (xs ++ (y ∷ (ys ++ rest)))
join-append_join [] y ys rest = join-join y ys rest
join-append_join (x ∷ xs) y ys rest =
    join-cons x (xs ++ (join (y ∷ ys) ∷ rest)) (is_nil-append xs (join (y ∷ ys)) rest)
    ∙ ap (λ s. joined x (joined " " s)) (join-append_join xs y ys rest)
    ∙ sym (join-cons x (xs ++ (y ∷ (ys ++ rest))) (is_nil-append xs y (ys ++ rest)))

-- The same for a list with an item at its end.
join-append_snoc :
    (xs ys : List String) (y : String) (rest : List String)
    → join (xs ++ (join (ys ++ (y ∷ [])) ∷ rest)) ≡ join (xs ++ (ys ++ (y ∷ rest)))
join-append_snoc xs [] y rest = join-append_join xs y [] rest
join-append_snoc xs (z ∷ ys) y rest =
    join-append_join xs z (ys ++ (y ∷ [])) rest
    ∙ ap (λ l. join (xs ++ (z ∷ l))) (append_assoc ys (y ∷ []) rest)

regroup :
    (xs ys : List String) (y : String) (rest : List String)
    → xs ++ (ys ++ (y ∷ rest)) ≡ (xs ++ (ys ++ (y ∷ []))) ++ rest
regroup xs ys y rest =
    ap (λ l. xs ++ l) (sym (append_assoc ys (y ∷ []) rest))
    ∙ sym (append_assoc xs (ys ++ (y ∷ [])) rest)

attach_last_is_some :
    (part : String) (parts : List String) (i : String) (pending : List String)
    → is_nil (attach_last (part ∷ parts) (i ∷ pending)) ≡ false
unfolding attach_last is_nil
attach_last_is_some part [] i pending = refl
attach_last_is_some part (next ∷ parts) i pending = refl

join-attach_last :
    (parts : List String) (i : String) (pending : List String)
    → join (attach_last parts (i ∷ pending)) ≡ join (parts ++ (i ∷ pending))
unfolding attach_last
join-attach_last [] i pending = unfold join in refl
join-attach_last (part ∷ []) i pending = unfold join in refl
join-attach_last (part ∷ next ∷ parts) i pending =
    join-cons part (attach_last (next ∷ parts) (i ∷ pending))
      (attach_last_is_some next parts i pending)
    ∙ ap (λ s. joined part (joined " " s)) (join-attach_last (next ∷ parts) i pending)

module _ (split : String → List String) (is_instruction : String → Bool) where
  join-attach :
      (xs pending parts : List String)
      → join (
          xs
          ++ ((attach split is_instruction pending parts).0
              ++ (attach split is_instruction pending parts).1))
        ≡ join (xs ++ (pending ++ parts))
  unfolding attach
  join-attach xs pending [] = ap (λ l. join (xs ++ l)) (sym (append-nil pending))
  join-attach xs pending (part ∷ parts) = elim (Bool-cases (is_instruction part)) [
    | inl e ↦
        rw (e, attach)
          (join-attach xs (pending ++ (part ∷ [])) parts
            ∙ ap (λ l. join (xs ++ l)) (append_assoc pending (part ∷ []) parts))
    | inr e ↦
        let rest = attach split is_instruction [] parts in
        rw (e, attach)
          (join-append_snoc xs pending part (rest.0 ++ rest.1)
            ∙ ap join (regroup xs pending part (rest.0 ++ rest.1))
            ∙ join-attach (xs ++ (pending ++ (part ∷ []))) [] parts
            ∙ ap join (sym (regroup xs pending part parts)))
  ]

  join-attach_pending :
      (a : List String × List String) → join (attach_pending a) ≡ join (a.0 ++ a.1)
  unfolding attach_pending
  join-attach_pending (parts, []) = ap join (sym (append-nil parts))
  join-attach_pending (parts, i ∷ pending) = join-attach_last parts i pending

  -- The parts of a question, between the matches of the split, without the ends' spaces and commas.
  abbrev pub own_texts : String → List String
  own_texts question = keep (λ p. not (p == "")) (map strip_ends (split question))

  -- An instruction about the sources is put beside a question and no text is lost: where a part is
  -- such an instruction, the candidates, joined, are the parts of the question, joined, in their order.
  pub candidates_keep_text :
      (question : String)
      → any is_instruction (own_texts question) ≡ true
      → join (candidates split is_instruction question) ≡ join (own_texts question)
  unfolding candidates
  candidates_keep_text question h = rw h (
      join-attach_pending (attach split is_instruction [] (own_texts question))
      ∙ join-attach [] [] (own_texts question))

  chosen_is_some :
      (question : String) (parts : List String) (two_jobs : Bool)
      → is_nil (
          if ltb (length parts) 2
          then or_whole question parts
          else if two_jobs
          then parts
          else strip question ∷ [])
        ≡ false
  unfolding is_nil or_whole
  chosen_is_some question [] two_jobs = refl
  chosen_is_some question (p ∷ []) two_jobs = refl
  chosen_is_some question (p ∷ q ∷ parts) two_jobs = ground arith

  -- There is always something to answer: the parts are never none.
  pub split_by_topic_is_some :
      (r : Routing) (question : String)
      → is_nil (split_by_topic split is_instruction r question) ≡ false
  unfolding split_by_topic
  split_by_topic_is_some r question =
      chosen_is_some question (candidates split is_instruction question)
        (has_two_jobs split is_instruction r (candidates split is_instruction question))

  -- Two parts come of two jobs.
  abbrev pub AreTwoJobs : Routing → List String → Type 0
  AreTwoJobs r parts =
      ((any (is_gated split is_instruction r) parts ≡ true)
        × (any (λ p. not (is_gated split is_instruction r p)) parts ≡ true))
      ⊎ ((all (is_gated split is_instruction r) parts ≡ true)
          × (1 < length (unique (topics_of split is_instruction r parts))))

  two_jobs-AreTwoJobs :
      (r : Routing) (parts : List String)
      → has_two_jobs split is_instruction r parts ≡ true
      → AreTwoJobs r parts
  unfolding has_two_jobs is_mixed
  two_jobs-AreTwoJobs r parts h = ground arith

  abbrev choose : String → List String → Bool → List String
  choose question parts two_jobs =
      if ltb (length parts) 2
      then or_whole question parts
      else if two_jobs
      then parts
      else strip question ∷ []

  chosen_cases :
      (question : String) (parts : List String) (two_jobs : Bool)
      → 1 < length (choose question parts two_jobs)
      → (two_jobs ≡ true) × (choose question parts two_jobs ≡ parts)
  unfolding or_whole
  chosen_cases question [] two_jobs h = absurd (omega arith)
  chosen_cases question (p ∷ []) two_jobs h = absurd (omega arith)
  chosen_cases question (p ∷ q ∷ parts) true h = (refl, ground arith)
  chosen_cases question (p ∷ q ∷ parts) false h = ground arith

  -- A question that is cut in several parts holds two jobs: one part is a topic for a person and another
  -- is not, or all of them are, and of different topics.
  pub split_needs_two_jobs :
      (r : Routing) (question : String)
      → 1 < length (split_by_topic split is_instruction r question)
      → AreTwoJobs r (split_by_topic split is_instruction r question)
  unfolding split_by_topic
  split_needs_two_jobs r question h =
      let parts = candidates split is_instruction question in
      let c = chosen_cases question parts (has_two_jobs split is_instruction r parts) h in
      subst (AreTwoJobs r) (sym c.1) (two_jobs-AreTwoJobs r parts c.0)
