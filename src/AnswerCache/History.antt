-- ===== src/AnswerCache/History.antt =====
-- The cache (assistant/cache.py) against the history of its calls: it never returns an answer other
-- than the one last stored under the very key that is asked for.
use technical_knowledge_assi.Prelude.{
  ℕ, ◌≡◌, Option, none, some, List, [], ◌∷◌, arith, ◌==◌, Eq, Option-cases, inl, inr, ◌∙◌,
  if◌then◌else◌, sym,
}
use technical_knowledge_assi.Prelude.Dict
use technical_knowledge_assi.Prelude.Dict.{Dict, IsDistinct}
use technical_knowledge_assi.AnswerCache.{Cache, new_cache, get, put, clear}
use technical_knowledge_assi.AnswerCache.Lru.{IsSound, put-IsSound, get-IsSound, get-eq-lookup}

pub data Call {ℓ} (K V : Type ℓ) : Type ℓ where
  getting : K → Call K V
  putting : K → V → Call K V
  clearing : Call K V

module _ {ℓ} {K V : Type ℓ} ⦃o : Eq K⦄ where
  unfoldable pub apply_call : Call K V → Cache K V → Cache K V
  unfolding get put clear
  apply_call (getting k) c = (get k c).1
  apply_call (putting k v) c = put k v c
  apply_call clearing c = clear c

  -- The calls, the latest first.
  unfoldable pub after : List (Call K V) → ℕ → Cache K V
  unfolding apply_call
  after [] max_entries = new_cache max_entries
  after (call ∷ calls) max_entries = apply_call call (after calls max_entries)

  -- The answer of the last store under a key since the last clear.
  unfoldable pub last_put : K → List (Call K V) → Option V
  last_put k [] = none
  last_put k (getting j ∷ calls) = last_put k calls
  last_put k (putting j v ∷ calls) = if j == k then some v else last_put k calls
  last_put k (clearing ∷ calls) = none

  abbrev Agrees : List (Call K V) → Cache K V → Type ℓ
  Agrees calls c = (k : K) (v : V) → Dict.lookup k c.entries ≡ some v → last_put k calls ≡ some v

  apply_call-IsSound : (call : Call K V) {c : Cache K V} → IsSound c → IsSound (apply_call call c)
  unfolding apply_call clear
  apply_call-IsSound (getting k) h = get-IsSound k h
  apply_call-IsSound (putting k v) h = put-IsSound k v h
  apply_call-IsSound clearing h = record { distinct = tt; bounded = omega arith }

  -- After any calls the keys are distinct and there are at most `max_entries` entries.
  pub after-IsSound : (calls : List (Call K V)) (n : ℕ) → IsSound (after calls n)
  unfolding after
  after-IsSound [] n = record { distinct = tt; bounded = omega arith }
  after-IsSound (call ∷ calls) n = apply_call-IsSound call (after-IsSound calls n)

  lookup-get :
      (k j : K) (c : Cache K V)
      → IsDistinct c.entries
      → Dict.lookup j (get k c).1.entries ≡ Dict.lookup j c.entries
  unfolding get
  lookup-get k j c d = elim (Option-cases (Dict.lookup k c.entries)) [
    | inl e ↦ rw (e, get)
    | inr (v, e) ↦ rw (e, get) (Dict.lookup-move_to_end k j c.entries d)
  ]

  lookup-put :
      (k j : K) (v w : V) (c : Cache K V)
      → IsDistinct c.entries
      → Dict.lookup j (put k v c).entries ≡ some w
      → (if k == j then some v else Dict.lookup j c.entries) ≡ some w
  unfolding put
  lookup-put k j v w c d h =
      let d' : IsDistinct (Dict.insert k v c.entries) = Dict.IsDistinct-insert k v c.entries d in
      sym (Dict.lookup-insert k j v c.entries)
      ∙ sym (Dict.lookup-move_to_end k j _ d')
      ∙ Dict.lookup-evict c.max_entries _ j (Dict.IsDistinct-move_to_end k _ d') h

  after-Agrees : (calls : List (Call K V)) (n : ℕ) → Agrees calls (after calls n)
  unfolding after apply_call last_put
  after-Agrees [] n j w h = unfold Dict.lookup in cc h
  after-Agrees (getting k ∷ calls) n j w h =
      after-Agrees calls n j w
        (sym (lookup-get k j (after calls n) (after-IsSound calls n).distinct) ∙ h)
  after-Agrees (putting k v ∷ calls) n j w h =
      let e = lookup-put k j v w (after calls n) (after-IsSound calls n).distinct h in
      ground (arith, e, after-Agrees calls n j w)
  after-Agrees (clearing ∷ calls) n j w h = unfold clear Dict.lookup in cc h

  -- Whatever was called before, an answer that the cache returns for a key is the one that was last
  -- stored under that key since the last clear.
  pub get_returns_last_put :
      (calls : List (Call K V)) (n : ℕ) (k : K) {v : V}
      → (get k (after calls n)).0 ≡ some v
      → last_put k calls ≡ some v
  get_returns_last_put calls n k {v} h =
      after-Agrees calls n k v (sym (get-eq-lookup k (after calls n)) ∙ h)
