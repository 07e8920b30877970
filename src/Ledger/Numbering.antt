-- ===== src/Ledger/Numbering.antt =====
-- The versions of a page are numbered without gaps, and a fetch of the same content is none
-- (assistant/indexing/crawl.py).
use technical_knowledge_assi.Prelude.{
  ℕ, suc, ◌+◌, none, some, List, [], ◌∷◌, ◌++◌, ◌≡◌, refl, arith, ◌==◌, string_eq, length,
  length-append, Bool-cases, Option-cases, inl, inr, All,
}
use technical_knowledge_assi.Prelude.Dict
use technical_knowledge_assi.Prelude.Dict.{Dict}
use technical_knowledge_assi.Ledger.{Version, Entry, Ledger, Fetch, reconciled, reconcile}

-- The numbers of the versions, counted from `n`.
abbrev pub AreNumbered : ℕ → List Version → Type 0
AreNumbered n [] = Unit
AreNumbered n (v ∷ versions) = (v.number ≡ n) × AreNumbered (suc n) versions

-- The history has the versions 1, 2, 3 and so on, and the latest version the number after them.
abbrev pub IsNumbered : Entry → Type 0
IsNumbered e = AreNumbered 1 e.history × (e.latest.number ≡ length e.history + 1)

numbered-append :
    (n : ℕ) (versions : List Version) (v : Version)
    → AreNumbered n versions
    → v.number ≡ n + length versions
    → AreNumbered n (versions ++ v ∷ [])
numbered-append n [] v h e = (omega (arith, e), tt)
numbered-append n (w ∷ versions) v h e =
    (h.0, numbered-append (suc n) versions v h.1 (omega (arith, e)))

reconciled-IsNumbered :
    (f : Fetch) (prior : Entry) → IsNumbered prior → IsNumbered (reconciled f (some prior))
unfolding reconciled
reconciled-IsNumbered f prior h = elim (Bool-cases (prior.latest.content_hash == f.digest)) [
  | inl same ↦ rw same h
  | inr other ↦ rw other (
    numbered-append 1 prior.history prior.latest h.0 (omega (arith, h.1)),
    omega (arith, h.1, length-append prior.history (prior.latest ∷ [])),
  )
]

-- The fetches, the latest first.
unfoldable pub after : List Fetch → Ledger
unfolding reconcile
after [] = []
after (f ∷ fetches) = reconcile f (after fetches)

-- After any fetches of any pages, the history of each page has its versions 1, 2, 3 and so on in this
-- order, and the served version has the number after them.
pub after_fetches-IsNumbered :
    (fetches : List Fetch) → All (λ entry. IsNumbered entry.1) (after fetches)
unfolding after reconcile
after_fetches-IsNumbered [] = tt
after_fetches-IsNumbered (f ∷ fetches) =
    let h = after_fetches-IsNumbered fetches in
    let ledger : Ledger = after fetches in
    elim (Option-cases (Dict.lookup f.url ledger)) [
      | inl e ↦ rw e (
          Dict.All-insert (λ entry. IsNumbered entry.1) f.url (reconciled f none) ledger
            (λ j same. unfold reconciled in (tt, refl)) h)
      | inr (prior, e) ↦ rw e (
          Dict.All-insert (λ entry. IsNumbered entry.1) f.url (reconciled f (some prior)) ledger
            (λ j same.
              reconciled-IsNumbered f prior
                (Dict.All-lookup (λ entry. IsNumbered entry.1) f.url ledger h e))
            h)
    ]
