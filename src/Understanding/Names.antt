-- ===== src/Understanding/Names.antt =====
-- The spelling of product names: `normalise_product` and `_registered`
-- (assistant/answering/understanding.py).
use technical_knowledge_assi.Prelude.{
  ℕ, zero, suc, String, Bool, ◌||◌, List, [], ◌∷◌, keep, prefix, lower, strip, contains, ltb, chars,
  if◌then◌else◌, ◌==◌, string_eq, nat_eq,
}

-- `s[n:]`
unfoldable after : ℕ → String → String
after zero s = s
after (suc n) String.[] = ""
after (suc n) (String.◌∷◌ c s) = after n s

-- `lowered.removeprefix(_BRAND).strip() or lowered`
unfoldable drop_brand : String → String
unfolding prefix strip after
drop_brand lowered =
    if prefix 10 lowered == "lime green" then strip (after 10 lowered) else strip lowered

unfoldable pub normalise_product : String → String
unfolding drop_brand lower strip
normalise_product name =
    let lowered = lower (strip name) in
    let short = drop_brand lowered in if short == "" then lowered else short

-- `wanted = name.strip().lower()`, and the test of a registry product against it
abbrev pub is_registered : String → String → Bool
is_registered wanted p = let q = lower p in q == wanted || contains wanted q || contains q wanted

-- `max(matches, key=len)`: the first of the longest.
unfoldable pub longest : List String → String
longest [] = ""
longest (p ∷ matches) = let best = longest matches in if ltb (chars p) (chars best) then best else p

unfoldable pub registered : List String → String → String
unfolding longest keep lower strip contains
registered registry name =
    if name == "" then "" else longest (keep (is_registered (lower (strip name))) registry)
