-- ===== src/Retrieval/Ranking.antt =====
-- How much authority and a named product weigh (assistant/knowledge/store/embedded.py,
-- `_effective`).
use technical_knowledge_assi.Prelude.{ℕ, ◌+◌, ◌<◌, ◌≤◌, Bool, true, false, if◌then◌else◌, arith}
use technical_knowledge_assi.Retrieval.{tie_band, product_band, rank_of, effective}

abbrev boost : Bool → ℕ
boost named = if named then product_band else 0

effective-bounds :
    (x a : ℕ) (named : Bool)
    → (x + boost named ≤ effective x a named) × (effective x a named < x + boost named + tie_band)
unfolding effective rank_of
effective-bounds x a true = ground arith
effective-bounds x a false = ground arith

-- Authority only reorders near ties: of two passages of which both or neither are of the named
-- product, the one whose similarity is at least the tie band ahead scores higher, whatever their
-- authorities.
pub authority_breaks_near_ties_only :
    (x y a b : ℕ) (named : Bool) → y + tie_band ≤ x → effective y b named < effective x a named
authority_breaks_near_ties_only x y a b named ahead =
    omega (arith, (effective-bounds y b named).1, (effective-bounds x a named).0, ahead)

-- A passage of the named product scores above one of another product that is less similar than it
-- plus the product band less the tie band, whatever their authorities.
pub named_product_comes_first :
    (x y a b : ℕ) → y + tie_band ≤ x + product_band → effective y b false < effective x a true
named_product_comes_first x y a b near =
    omega (arith, (effective-bounds y b false).1, (effective-bounds x a true).0, near)

-- The boost of a named product is bounded: a passage of another product that is more similar by both
-- bands or more scores higher.
pub product_boost_is_bounded :
    (x y a b : ℕ) → x + product_band + tie_band ≤ y → effective x a true < effective y b false
product_boost_is_bounded x y a b far =
    omega (arith, (effective-bounds x a true).1, (effective-bounds y b false).0, far)
