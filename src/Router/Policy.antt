-- ===== src/Router/Policy.antt =====
-- `PolicyGate` and `split_by_topic` (assistant/answering/router.py). The topics of
-- config/routing.json are an argument, each with the test whether one of its patterns is found; the
-- regular expressions _SPLIT (as `split`, the texts between its matches) and _SOURCE_INSTRUCTION
-- (as its `fullmatch`) are parameters.
use Prim.Native.Char.{Char, code}
use Prim.Native.String.{◌++◌ as joined}
use technical_knowledge_assi.Prelude.{
  String, Bool, true, false, ◌&&◌, ◌||◌, not, Option, none, some, List, [], ◌∷◌, ◌++◌, leb, ltb,
  strip, keep, any, all, map, unique, length, if◌then◌else◌, ◌==◌, string_eq, nat_eq,
}
use technical_knowledge_assi.Prelude.Dict
use technical_knowledge_assi.Prelude.Dict.{Dict}
use technical_knowledge_assi.Router.Detector.{word_count}

-- `part.strip(" ,;")`
is_end : Char → Bool
is_end c = let n = code c in n == 32 || n == b',' || n == b';'

strip_start : String → String
unfolding is_end
strip_start String.[] = ""
strip_start (String.◌∷◌ c s) = if is_end c then strip_start s else String.◌∷◌ c s

strip_end : String → String
unfolding is_end
strip_end String.[] = ""
strip_end (String.◌∷◌ c s) =
    let rest = strip_end s in if is_end c && rest == "" then "" else String.◌∷◌ c rest

unfoldable pub strip_ends : String → String
unfolding strip_start strip_end
strip_ends part = strip_end (strip_start part)

-- `" ".join(parts)`
unfoldable pub join : List String → String
join [] = ""
join (part ∷ []) = part
join (part ∷ next ∷ parts) = joined part (joined " " (join (next ∷ parts)))

-- The topics of the table, and the names that are tried first, which are topics of the table: the
-- constructor raises KeyError for another.
pub record Routing : Type 0 where
  pub safety_precedence : List String
  pub topics : Dict String (String → Bool)

-- `dict.fromkeys([*safety_precedence, *topics])`
unfoldable pub order : Routing → List String
unfolding unique
order r = unique (r.safety_precedence ++ map (λ t. t.0) r.topics)

-- `any(p.search(question) for p in patterns)` for the topic of a name
unfoldable pub concerns : Routing → String → String → Bool
unfolding Dict.lookup
concerns r question name = elim (Dict.lookup name r.topics) [
  | none ↦ false
  | some is_found ↦ is_found question
]

-- The name of the first topic, in that order, that the question concerns.
unfoldable pub first_topic : Routing → String → List String → Option String
unfolding concerns
first_topic r question [] = none
first_topic r question (name ∷ names) =
    if concerns r question name then some name else first_topic r question names

unfoldable pub is_some {ℓ} : {A : Type ℓ} → Option A → Bool
is_some none = false
is_some (some a) = true

unfoldable pub substance : String → List String → String
unfolding join
substance question [] = question
substance question (part ∷ parts) = join (part ∷ parts)

-- Instructions that no part follows: `joined[-1]` takes them, or they are the only part.
unfoldable pub attach_last : List String → List String → List String
unfolding join
attach_last [] pending = join pending ∷ []
attach_last (part ∷ []) pending = join (part ∷ pending) ∷ []
attach_last (part ∷ next ∷ parts) pending = part ∷ attach_last (next ∷ parts) pending

unfoldable pub attach_pending : List String × List String → List String
unfolding attach_last
attach_pending (parts, []) = parts
attach_pending (parts, i ∷ pending) = attach_last parts (i ∷ pending)

-- `candidates or [question.strip()]`
unfoldable pub or_whole : String → List String → List String
unfolding strip
or_whole question [] = strip question ∷ []
or_whole question (part ∷ parts) = part ∷ parts

module _ (split : String → List String) (is_instruction : String → Bool) where
  -- `_SPLIT.split(question)` without the parts that are source instructions
  unfoldable pub own_parts : String → List String
  unfolding keep strip_ends
  own_parts question = keep (λ part. not (is_instruction (strip_ends part))) (split question)

  -- `match`: the topic's name.
  unfoldable pub match_topic : Routing → String → Option String
  unfolding substance own_parts first_topic order
  match_topic r question = first_topic r (substance question (own_parts question)) (order r)

  -- The loop that puts an instruction before the next part: `pending` is kept joined in order.
  unfoldable pub attach : List String → List String → List String × List String
  unfolding join
  attach pending [] = ([], pending)
  attach pending (part ∷ parts) =
      if is_instruction part
      then attach (pending ++ part ∷ []) parts
      else let rest = attach [] parts in (join (pending ++ part ∷ []) ∷ rest.0, rest.1)

  unfoldable pub candidates : String → List String
  unfolding keep any strip_ends attach attach_pending word_count
  candidates question =
      let parts = keep (λ p. not (p == "")) (map strip_ends (split question)) in
      if any is_instruction parts
      then attach_pending (attach [] parts)
      else keep (λ p. leb 3 (word_count p)) parts

  unfoldable pub is_gated : Routing → String → Bool
  unfolding is_some match_topic
  is_gated r part = is_some (match_topic r part)

  -- `len(set(gated)) > 1`
  unfoldable pub is_mixed : Routing → List String → Bool
  unfolding is_gated any
  is_mixed r parts = any (is_gated r) parts && any (λ p. not (is_gated r p)) parts

  -- The topics' names, part by part.
  unfoldable pub topics_of : Routing → List String → List String
  unfolding match_topic
  topics_of r [] = []
  topics_of r (part ∷ parts) = elim (match_topic r part) [
    | none ↦ topics_of r parts
    | some name ↦ name ∷ topics_of r parts
  ]

  unfoldable pub has_two_jobs : Routing → List String → Bool
  unfolding is_mixed all is_gated unique topics_of
  has_two_jobs r parts =
      is_mixed r parts || all (is_gated r) parts && ltb 1 (length (unique (topics_of r parts)))

  unfoldable pub split_by_topic : Routing → String → List String
  unfolding candidates or_whole has_two_jobs strip
  split_by_topic r question =
      let parts = candidates question in
      if ltb (length parts) 2
      then or_whole question parts
      else if has_two_jobs r parts
      then parts
      else strip question ∷ []
