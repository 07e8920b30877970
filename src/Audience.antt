-- ===== src/Audience.antt =====
-- Which audience a request may read as (assistant/knowledge/audience.py).
mod Narrowing
mod Tests
use Prim.Native.Char.{Char}
use Prim.Native.String.{char_at, ◌++◌ as joined}
use technical_knowledge_assi.Prelude.{
  String, Option, none, some, List, [], ◌∷◌, map, mem, keep, unique, unique_from, split_on, strip,
  lower, string_eq,
}

-- `AUDIENCES` of assistant/knowledge/model.py
abbrev pub audiences : List String
audiences = "public" ∷ "trade" ∷ "staff" ∷ []

abbrev pub default_audiences : List String
default_audiences = "public" ∷ []

unfoldable pub named_audiences : String → List String
unfolding split_on strip lower
named_audiences value = map (λ part. lower (strip part)) (split_on (char_at "," 0) value)

-- `parse`: an empty text gives an empty tuple too, as the one part of it is no audience.
unfoldable pub parse : Option String → List String
unfolding named_audiences unique keep mem
parse none = []
parse (some value) = unique (keep (λ a. mem a audiences) (named_audiences value))

-- ",".join(parts)
unfoldable pub join_commas : List String → String
join_commas [] = ""
join_commas (part ∷ []) = part
join_commas (part ∷ next ∷ parts) = joined part (joined "," (join_commas (next ∷ parts)))

-- `xs or ys`
unfoldable pub or_else : List String → List String → List String
or_else [] ys = ys
or_else (x ∷ xs) ys = x ∷ xs

unfoldable pub permitted : List String → List String
unfolding or_else parse join_commas
permitted allowed = or_else (parse (some (join_commas allowed))) default_audiences

-- The last two lines of `resolve`: what was asked for, clipped, or else all that is permitted.
unfoldable pub narrow : List String → List String → List String
unfolding or_else keep mem
narrow asked allowed = or_else (keep (λ a. mem a allowed) asked) allowed

unfoldable pub resolve : Option String → List String → List String
unfolding parse permitted narrow
resolve requested allowed = narrow (parse requested) (permitted allowed)
