-- ===== src/Audience/Narrowing.antt =====
-- A request only narrows what the server allows (assistant/knowledge/audience.py).
use technical_knowledge_assi.Prelude.{
  String, true, false, Option, none, some, List, [], ◌∷◌, ◌≡◌, ◌≢◌, mem, keep, unique, arith, refl,
  inl, inr, string_eq, eq_iff, ◌⊎◌, ◌&&◌, ◌∙◌, Bool, ap, mem-keep, mem-unique,
}
use technical_knowledge_assi.Audience.{
  audiences, default_audiences, parse, permitted, resolve, or_else, named_audiences, join_commas,
  narrow,
}

mem-parse :
    (a value : String)
    → mem a (parse (some value)) ≡ (mem a (named_audiences value) && mem a audiences)
unfolding parse unique
mem-parse a value =
    mem-unique a (keep (λ x. mem x audiences) (named_audiences value))
    ∙ mem-keep (λ x. mem x audiences) a (named_audiences value)

mem-parse_known :
    (a : String) (value : Option String) → mem a (parse value) ≡ true → mem a audiences ≡ true
mem-parse_known a none h = unfold parse mem in cc h
mem-parse_known a (some value) h = let e = mem-parse a value in ground (arith, e, h)

or_else-filled : (xs ys : List String) → ys ≢ [] → or_else xs ys ≢ []
unfolding or_else
or_else-filled [] ys h e = h e
or_else-filled (y ∷ xs) ys h e = cc e

mem-or_else :
    (a : String) (xs ys : List String)
    → mem a (or_else xs ys) ≡ true
    → (mem a xs ≡ true) ⊎ (mem a ys ≡ true)
unfolding or_else
mem-or_else a [] ys h = inr h
mem-or_else a (x ∷ xs) ys h = inl h

or_else_of_member : (a : String) (xs ys : List String) → mem a xs ≡ true → or_else xs ys ≡ xs
unfolding or_else mem
or_else_of_member a [] ys h = cc h
or_else_of_member a (x ∷ xs) ys h = refl

no_members : (xs : List String) → ((a : String) → mem a xs ≡ false) → xs ≡ []
unfolding mem
no_members [] h = refl
no_members (x ∷ xs) h = absurd (let e = h x in ground (arith, e, eq_iff x x))

module _ (asked allowed : List String) where
  mem-narrow : (a : String) → mem a (narrow asked allowed) ≡ true → mem a allowed ≡ true
  unfolding narrow
  mem-narrow a h = elim (mem-or_else a (keep (λ x. mem x allowed) asked) allowed h) [
    | inl kept ↦ let e = mem-keep (λ x. mem x allowed) a asked in ground (arith, e, kept)
    | inr all ↦ all
  ]

  mem-narrow_named :
      (a : String)
      → mem a asked ≡ true
      → mem a allowed ≡ true
      → (b : String) → mem b (narrow asked allowed) ≡ (mem b asked && mem b allowed)
  unfolding narrow
  mem-narrow_named a named allow b =
      ap (mem b) (
        or_else_of_member a (keep (λ x. mem x allowed) asked) allowed
          (mem-keep (λ x. mem x allowed) a asked ∙ rw (named, allow)))
      ∙ mem-keep (λ x. mem x allowed) b asked

  narrow_of_none :
      ((a : String) → (mem a asked && mem a allowed) ≡ false) → narrow asked allowed ≡ allowed
  unfolding narrow
  narrow_of_none none_named =
      ap (λ xs. or_else xs allowed)
        (no_members (keep (λ x. mem x allowed) asked)
          (λ a. mem-keep (λ x. mem x allowed) a asked ∙ none_named a))
      ∙ unfold or_else in refl

permitted_filled : (allowed : List String) → permitted allowed ≢ []
unfolding permitted
permitted_filled allowed =
    or_else-filled (parse (some (join_commas allowed))) default_audiences (λ e. cc e)

mem-permitted_known :
    (a : String) (allowed : List String) → mem a (permitted allowed) ≡ true → mem a audiences ≡ true
unfolding permitted
mem-permitted_known a allowed h =
    elim (mem-or_else a (parse (some (join_commas allowed))) default_audiences h) [
      | inl parsed ↦ mem-parse_known a (some (join_commas allowed)) parsed
      | inr public ↦ unfold mem in ground (arith, public)
    ]

-- A request reads as nothing but audiences that the server permits, each of them one of the three
-- that there are: asking for more, or for an unknown name, adds nothing.
pub resolve_only_narrows :
    (requested : Option String) (allowed : List String) (a : String)
    → mem a (resolve requested allowed) ≡ true
    → (mem a (permitted allowed) ≡ true) × (mem a audiences ≡ true)
unfolding resolve
resolve_only_narrows requested allowed a h =
    let allow : mem a (permitted allowed) ≡ true =
      mem-narrow (parse requested) (permitted allowed) a h in
    (allow, mem-permitted_known a allowed allow)

-- A request always reads as some audience, whatever it asks for and whatever the server allows.
pub resolve_filled :
    (requested : Option String) (allowed : List String) → resolve requested allowed ≢ []
unfolding resolve narrow
resolve_filled requested allowed = or_else-filled _ (permitted allowed) (permitted_filled allowed)

and_assoc : (a b c : Bool) → ((a && b) && c) ≡ (a && b && c)
and_assoc true b c = refl
and_assoc false b c = refl

-- A request that names a permitted audience reads as exactly those that it names and that are
-- permitted.
pub resolve_named :
    (requested : String) (allowed : List String) (a : String)
    → mem a (parse (some requested)) ≡ true
    → mem a (permitted allowed) ≡ true
    → (b : String)
    → mem b (resolve (some requested) allowed)
      ≡ (mem b (named_audiences requested) && mem b audiences && mem b (permitted allowed))
unfolding resolve
resolve_named requested allowed a named allow b =
    mem-narrow_named (parse (some requested)) (permitted allowed) a named allow b
    ∙ rw (mem-parse b requested) (
        and_assoc (mem b (named_audiences requested)) (mem b audiences) (mem b (permitted allowed)))

-- A request that names no permitted audience reads as all that are permitted.
pub resolve_unnamed :
    (requested : Option String) (allowed : List String)
    → ((a : String) → (mem a (parse requested) && mem a (permitted allowed)) ≡ false)
    → resolve requested allowed ≡ permitted allowed
unfolding resolve
resolve_unnamed requested allowed none_named =
    narrow_of_none (parse requested) (permitted allowed) none_named
