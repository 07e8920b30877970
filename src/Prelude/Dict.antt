-- ===== src/Prelude/Dict.antt =====
-- Python's `dict` and `OrderedDict`: the entries in the order of insertion, oldest first.
use Prim.Native.Nat.{ℕ, suc, ◌+◌, ◌≤◌, ◌<◌}
use mathlib.Core.Path.{◌≡◌, refl, ◌∙◌, ap, ap₂, subst}
use mathlib.Core.Logic.{inl, inr}
use mathlib.Core.Bool.{false}
use mathlib.Core.Option.{Option, none, some}
use mathlib.Core.List.{List, [], ◌∷◌, ◌++◌}
use native.Mathlib.Omega.{arith}
use technical_knowledge_assi.Prelude.Tests.{
  ltb, if◌then◌else◌, Eq, ◌==◌, Option-cases, Bool-cases, eq_of_==, ==-sym, ==-refl,
}
use technical_knowledge_assi.Prelude.Lists.{length, length-append, All, All-append}

abbrev pub Dict {ℓ} : Type ℓ → Type ℓ → Type ℓ
Dict K V = List (K × V)

module _ {ℓ} {K V : Type ℓ} ⦃o : Eq K⦄ where
  -- `d.get(k)`
  unfoldable pub lookup : K → Dict K V → Option V
  lookup k [] = none
  lookup k ((j, v) ∷ d) = if j == k then some v else lookup k d

  -- `d[k] = v`: a key that is there keeps its place, a new one goes last.
  unfoldable pub insert : K → V → Dict K V → Dict K V
  insert k v [] = (k, v) ∷ []
  insert k v ((j, w) ∷ d) = if j == k then (j, v) ∷ d else (j, w) ∷ insert k v d

  -- `del d[k]`, `d.pop(k, None)`
  unfoldable pub remove : K → Dict K V → Dict K V
  remove k [] = []
  remove k ((j, v) ∷ d) = if j == k then d else (j, v) ∷ remove k d

  -- `d.move_to_end(k)` for a key that is there
  unfoldable pub move_to_end : K → Dict K V → Dict K V
  unfolding lookup remove
  move_to_end k d = elim (lookup k d) [ none ↦ d | some v ↦ remove k d ++ (k, v) ∷ [] ]

  pub lookup-insert :
      (k j : K) (v : V) (d : Dict K V)
      → lookup j (insert k v d) ≡ (if k == j then some v else lookup j d)
  unfolding lookup insert
  lookup-insert k j v [] = refl
  lookup-insert k j v ((i, w) ∷ d) =
      ground (arith, o.same_iff k j, o.same_iff i k, o.same_iff i j, lookup-insert k j v d)

  pub lookup-append :
      (j : K) (d d' : Dict K V)
      → lookup j (d ++ d') ≡ elim (lookup j d) [ none ↦ lookup j d' | some v ↦ some v ]
  unfolding lookup
  lookup-append j [] d' = refl
  lookup-append j ((i, w) ∷ d) d' = ground (arith, lookup-append j d d')

  pub lookup-remove_ne :
      (k j : K) (d : Dict K V) → (k == j) ≡ false → lookup j (remove k d) ≡ lookup j d
  unfolding lookup remove
  lookup-remove_ne k j [] h = refl
  lookup-remove_ne k j ((i, w) ∷ d) h =
      ground (arith, o.same_iff i k, o.same_iff i j, o.same_iff k j, lookup-remove_ne k j d h)

  pub length-insert : (k : K) (v : V) (d : Dict K V) → length (insert k v d) ≤ length d + 1
  unfolding insert
  length-insert k v [] = omega arith
  length-insert k v ((j, w) ∷ d) = ground (arith, length-insert k v d)

  pub length-remove :
      (k : K) (d : Dict K V) {v : V} → lookup k d ≡ some v → suc (length (remove k d)) ≡ length d
  unfolding lookup remove
  length-remove k [] h = cc
  length-remove k ((j, w) ∷ d) {v} h = ground (arith, length-remove k d {v = v})

  pub length-move_to_end : (k : K) (d : Dict K V) → length (move_to_end k d) ≡ length d
  unfolding move_to_end
  length-move_to_end k d = elim (Option-cases (lookup k d)) [
    | inl absent ↦ rw (absent, move_to_end)
    | inr (v, found) ↦
        rw (found, move_to_end, length-append) (omega (arith, length-remove k d found))
  ]

  -- The keys are all different, as a dictionary's are.
  abbrev pub Fresh : K → Dict K V → Type ℓ
  Fresh k d = lookup k d ≡ none

  abbrev pub IsDistinct : Dict K V → Type ℓ
  IsDistinct [] = Unit
  IsDistinct ((k, v) ∷ d) = Fresh k d × IsDistinct d

  -- while len(d) > limit: d.popitem(last=False)
  unfoldable pub evict : ℕ → Dict K V → Dict K V
  evict limit [] = []
  evict limit (x ∷ rest) = if ltb limit (length (x ∷ rest)) then evict limit rest else x ∷ rest

  pub length-evict-le : (limit : ℕ) (d : Dict K V) → length (evict limit d) ≤ limit
  unfolding evict
  length-evict-le limit [] = omega arith
  length-evict-le limit (x ∷ rest) = ground (arith, length-evict-le limit rest)

  pub evict_of_fits : (limit : ℕ) (d : Dict K V) → length d ≤ limit → evict limit d ≡ d
  unfolding evict
  evict_of_fits limit [] h = refl
  evict_of_fits limit (x ∷ rest) h = ground arith

  pub lookup-evict :
      (limit : ℕ) (d : Dict K V) (j : K) {v : V}
      → IsDistinct d
      → lookup j (evict limit d) ≡ some v
      → lookup j d ≡ some v
  unfolding evict lookup
  lookup-evict limit [] j h e = e
  lookup-evict limit ((k, w) ∷ d) j {v} h e = elim (Bool-cases (ltb limit (length ((k, w) ∷ d)))) [
    | inl full ↦
        let below : lookup j d ≡ some v = lookup-evict limit d j h.1 (rw full at e) in
        elim (Bool-cases (k == j)) [
          | inl same ↦ absurd (cc (h.0, below, ap (λ i. lookup i d) (eq_of_== same)))
          | inr other ↦ rw other below
        ]
    | inr fits ↦ rw fits at e
  ]

  pub IsDistinct-evict : (limit : ℕ) (d : Dict K V) → IsDistinct d → IsDistinct (evict limit d)
  unfolding evict
  IsDistinct-evict limit [] h = tt
  IsDistinct-evict limit (x ∷ d) h = elim (Bool-cases (ltb limit (length (x ∷ d)))) [
    | inl e ↦ rw e (IsDistinct-evict limit d h.1)
    | inr e ↦ rw e h
  ]

  pub IsDistinct-insert : (k : K) (v : V) (d : Dict K V) → IsDistinct d → IsDistinct (insert k v d)
  unfolding insert
  IsDistinct-insert k v [] h = (unfold lookup in refl, tt)
  IsDistinct-insert k v ((j, w) ∷ d) h = elim (Bool-cases (j == k)) [
    | inl e ↦ rw e h
    | inr e ↦ rw e (
      rw lookup-insert (ground (arith, o.same_iff j k, o.same_iff k j)),
      IsDistinct-insert k v d h.1,
    )
  ]

  pub lookup-remove_self : (k : K) (d : Dict K V) → IsDistinct d → lookup k (remove k d) ≡ none
  unfolding lookup remove
  lookup-remove_self k [] h = refl
  lookup-remove_self k ((j, w) ∷ d) h = elim (Bool-cases (j == k)) [
    | inl e ↦ rw e (subst (λ i. lookup i d ≡ none) (eq_of_== e) h.0)
    | inr e ↦ rw e (rw e (lookup-remove_self k d h.1))
  ]

  pub IsDistinct-remove : (k : K) (d : Dict K V) → IsDistinct d → IsDistinct (remove k d)
  unfolding remove
  IsDistinct-remove k [] h = tt
  IsDistinct-remove k ((j, w) ∷ d) h = elim (Bool-cases (j == k)) [
    | inl e ↦ rw e h.1
    | inr e ↦ rw e (lookup-remove_ne k j d (==-sym k j ∙ e) ∙ h.0, IsDistinct-remove k d h.1)
  ]

  pub IsDistinct-snoc :
      (k : K) (v : V) (d : Dict K V) → IsDistinct d → Fresh k d → IsDistinct (d ++ (k, v) ∷ [])
  unfolding lookup
  IsDistinct-snoc k v [] h f = (refl, tt)
  IsDistinct-snoc k v ((j, w) ∷ d) h f = elim (Bool-cases (j == k)) [
    | inl e ↦ absurd (cc (rw e at f))
    | inr e ↦ (
      rw (lookup-append j d ((k, v) ∷ []), h.0, ==-sym k j, e),
      IsDistinct-snoc k v d h.1 (rw e at f),
    )
  ]

  pub IsDistinct-move_to_end : (k : K) (d : Dict K V) → IsDistinct d → IsDistinct (move_to_end k d)
  unfolding move_to_end
  IsDistinct-move_to_end k d h = elim (Option-cases (lookup k d)) [
    | inl absent ↦ rw (absent, move_to_end) h
    | inr (v, found) ↦
        rw (found, move_to_end)
          (IsDistinct-snoc k v (remove k d) (IsDistinct-remove k d h) (lookup-remove_self k d h))
  ]

  pub lookup-move_to_end :
      (k j : K) (d : Dict K V) → IsDistinct d → lookup j (move_to_end k d) ≡ lookup j d
  unfolding move_to_end
  lookup-move_to_end k j d h = elim (Option-cases (lookup k d)) [
    | inl absent ↦ rw (absent, move_to_end)
    | inr (v, found) ↦
        rw (found, move_to_end)
          (lookup-append j (remove k d) ((k, v) ∷ []) ∙ elim (Bool-cases (k == j)) [
            | inl same ↦
                subst
                  (λ i.
                    elim (lookup i (remove k d)) [ none ↦ lookup i ((k, v) ∷ []) | some w ↦ some w ]
                    ≡ lookup i d)
                  (eq_of_== same)
                  (rw (lookup-remove_self k d h, found) (unfold lookup in rw (==-refl k)))
            | inr other ↦ rw (lookup-remove_ne k j d other) (unfold lookup in ground arith)
          ])
  ]

  -- The newest entry stays, if there is room for one.
  pub lookup-evict_newest :
      (limit : ℕ) (k : K) (v : V) (d : Dict K V)
      → 0 < limit
      → Fresh k d
      → lookup k (evict limit (d ++ (k, v) ∷ [])) ≡ some v
  unfolding evict lookup
  lookup-evict_newest limit k v [] h f = ground (arith, ==-refl k)
  lookup-evict_newest limit k v ((j, w) ∷ d) h f = elim (Bool-cases (j == k)) [
    | inl same ↦ absurd (cc (rw same at f))
    | inr other ↦ elim (Bool-cases (ltb limit (length ((j, w) ∷ d ++ (k, v) ∷ [])))) [
      | inl full ↦ rw full (lookup-evict_newest limit k v d h (rw other at f))
      | inr fits ↦
          rw (fits, other, lookup-append k d ((k, v) ∷ [])) (rw (rw other at f) (rw (==-refl k)))
    ]
  ]

  pub lookup-insert_self : (k : K) (v : V) (d : Dict K V) → lookup k (insert k v d) ≡ some v
  lookup-insert_self k v d = rw (lookup-insert, ==-refl k)

  pub insert-move_to_end :
      (k : K) (v : V) (d : Dict K V)
      → move_to_end k (insert k v d) ≡ remove k (insert k v d) ++ (k, v) ∷ []
  unfolding move_to_end
  insert-move_to_end k v d = rw (lookup-insert_self k v d, move_to_end)

abbrev entry {ℓ} : {K V : Type ℓ} → K → V → K × V
entry k v = (k, v)

some-eq {ℓ} : {A : Type ℓ} {a b : A} → some a ≡ some b → a ≡ b
some-eq e = cc

-- A property of every entry.
module _ {ℓ} {K V : Type ℓ} ⦃o : Eq K⦄ (P : K × V → Type ℓ) where
  pub All-insert :
      (k : K) (v : V) (d : Dict K V) → ((j : K) → j ≡ k → P (j, v)) → All P d → All P (insert k v d)
  unfolding insert
  All-insert k v [] new h = (new k refl, tt)
  All-insert k v ((j, w) ∷ d) new h = elim (Bool-cases (j == k)) [
    | inl e ↦ rw e (new j (eq_of_== e), h.1)
    | inr e ↦ rw e (h.0, All-insert k v d new h.1)
  ]

  pub All-remove : (k : K) (d : Dict K V) → All P d → All P (remove k d)
  unfolding remove
  All-remove k [] h = tt
  All-remove k ((j, w) ∷ d) h = elim (Bool-cases (j == k)) [
    | inl e ↦ rw e h.1
    | inr e ↦ rw e (h.0, All-remove k d h.1)
  ]

  pub All-lookup : (k : K) (d : Dict K V) {v : V} → All P d → lookup k d ≡ some v → P (k, v)
  unfolding lookup
  All-lookup k [] h e = cc
  All-lookup k ((j, w) ∷ d) {v} h e = elim (Bool-cases (j == k)) [
    | inl same ↦
        let p : entry j w ≡ entry k v = ap₂ entry (eq_of_== same) (some-eq (rw same at e)) in
        subst P p h.0
    | inr other ↦ All-lookup k d h.1 (rw other at e)
  ]

  pub All-move_to_end : (k : K) (d : Dict K V) → All P d → All P (move_to_end k d)
  unfolding move_to_end
  All-move_to_end k d h = elim (Option-cases (lookup k d)) [
    | inl e ↦ rw (e, move_to_end) h
    | inr (v, e) ↦
        rw (e, move_to_end)
          (All-append P (remove k d) ((k, v) ∷ []) (All-remove k d h) (All-lookup k d h e, tt))
  ]

  pub All-evict : (limit : ℕ) (d : Dict K V) → All P d → All P (evict limit d)
  unfolding evict
  All-evict limit [] h = tt
  All-evict limit (x ∷ d) h = elim (Bool-cases (ltb limit (length (x ∷ d)))) [
    | inl e ↦ rw e (All-evict limit d h.1)
    | inr e ↦ rw e h
  ]

module _ {ℓ} {K V : Type ℓ} ⦃o : Eq K⦄ where
  pub length-insert_old :
      (k : K) (v : V) (d : Dict K V) {w : V}
      → lookup k d ≡ some w
      → length (insert k v d) ≡ length d
  unfolding insert lookup
  length-insert_old k v [] h = cc
  length-insert_old k v ((j, x) ∷ d) {w} h = elim (Bool-cases (j == k)) [
    | inl e ↦ rw e
    | inr e ↦ rw e (omega (arith, length-insert_old k v d (rw e at h)))
  ]

  pub insert-Fresh : (k : K) (v : V) (d : Dict K V) → Fresh k d → insert k v d ≡ d ++ (k, v) ∷ []
  unfolding insert lookup
  insert-Fresh k v [] h = refl
  insert-Fresh k v ((j, w) ∷ d) h = elim (Bool-cases (j == k)) [
    | inl e ↦ absurd (cc (rw e at h))
    | inr e ↦ rw e (ap (λ r. (j, w) ∷ r) (insert-Fresh k v d (rw e at h)))
  ]
