-- ===== src/AnswerCache/Separation.antt =====
-- What the key of the cache (assistant/cache.py) keeps apart.
use mathlib.Core.List.Perm
use mathlib.Core.List.{Perm}
use technical_knowledge_assi.Prelude.{
  String, Bool, ◌≡◌, List, [], ◌∷◌, ap, sym, subst, Bool-cases, inl, inr, text_le, sorted,
  insert_sorted,
}
use technical_knowledge_assi.Prelude.Dict.{Dict}
use technical_knowledge_assi.AnswerCache.{normalise, key, Key, pair_le}

module _ {A : Type 0} (le : A → A → Bool) where
  insert_sorted-perm : (x : A) (ys : List A) → Perm (insert_sorted le x ys) (x ∷ ys)
  unfolding insert_sorted
  insert_sorted-perm x [] = Perm.refl (x ∷ [])
  insert_sorted-perm x (y ∷ ys) = elim (Bool-cases (le x y)) [
    | inl e ↦ rw e (Perm.refl (x ∷ y ∷ ys))
    | inr e ↦ rw e (Perm.trans (Perm.cons y (insert_sorted-perm x ys)) (Perm.swap x y ys))
  ]

  pub sorted-perm : (xs : List A) → Perm (sorted le xs) xs
  unfolding sorted
  sorted-perm [] = Perm.refl []
  sorted-perm (x ∷ xs) =
      Perm.trans (insert_sorted-perm x (sorted le xs)) (Perm.cons x (sorted-perm xs))

  pub perm_of_sorted : (xs ys : List A) → sorted le xs ≡ sorted le ys → Perm xs ys
  perm_of_sorted xs ys e =
      Perm.trans (Perm.symm (sorted-perm xs)) (subst (λ l. Perm l ys) (sym e) (sorted-perm ys))

-- Two requests share a key only if their questions differ in case and spacing alone, their
-- audiences, carried slots and slot origins are the same up to order, and they were answered from
-- one snapshot by one model under one chunking version.
pub key_separates :
    (digest : String → String) (q q' h h' : String) {s s' g g' c c' : String} (a a' : List String)
    (k k' o o' : Dict String String)
    → key digest q a s g c k o h ≡ key digest q' a' s' g' c' k' o' h'
    → (normalise q ≡ normalise q')
      × Perm a a'
      × (s ≡ s')
      × (g ≡ g')
      × (c ≡ c')
      × Perm k k'
      × Perm o o'
unfolding key
key_separates digest q q' h h' a a' k k' o o' e = (
  ap (λ (t : Key). t.question) e,
  perm_of_sorted text_le a a' (ap (λ (t : Key). t.audiences) e),
  ap (λ (t : Key). t.snapshot_id) e,
  ap (λ (t : Key). t.generation_model) e,
  ap (λ (t : Key). t.chunking_version) e,
  perm_of_sorted pair_le k k' (ap (λ (t : Key). t.carried) e),
  perm_of_sorted pair_le o o' (ap (λ (t : Key). t.origins) e),
)
