-- ===== src/Publishing/Retained.antt =====
-- What a delta never loses (assistant/knowledge/store/embedded.py): versions, passages and caveats
-- that were stored are there afterwards.
use technical_knowledge_assi.Prelude.{
  ℕ, suc, String, false, Option, none, some, List, [], ◌∷◌, ◌++◌, map, ◌==◌, string_eq, nat_eq, ◌≡◌,
  refl, sym, ◌∙◌, ap, Bool-cases, Option-cases, inl, inr, append-nil, append_assoc,
}
use technical_knowledge_assi.Publishing.{
  VersionRow, DocumentUpdate, Snapshot, Store, Chunk, Caveat, find_url, deactivate, insert_version,
  apply_found, apply_one, remove_found, remove_one, apply_all, remove_all, insert_snapshot, delta,
  with_id,
}
use technical_knowledge_assi.Publishing.Rows.{deactivate_row-same, deactivate_row-other}

-- The versions, but for the mark that one is active.
abbrev pub unmarked : VersionRow → VersionRow
unmarked v = record v { is_active = false }

abbrev pub history : List VersionRow → List VersionRow
history versions = map unmarked versions

-- All that the first store holds stands first in the second one, in its order.
abbrev pub Extends : Store → Store → Type 0
Extends st st' =
    ((new : List VersionRow) × (history st'.versions ≡ history st.versions ++ new))
    × ((new : List (ℕ × Chunk)) × (st'.chunks ≡ st.chunks ++ new))
    × ((new : List (ℕ × Caveat)) × (st'.caveats ≡ st.caveats ++ new))

abbrev Grows {ℓ} : {A : Type ℓ} → List A → List A → Type ℓ
Grows {A = A} xs ys = (new : List A) × (ys ≡ xs ++ new)

Grows-refl {ℓ} : {A : Type ℓ} (xs : List A) → Grows xs xs
Grows-refl xs = ([], sym (append-nil xs))

Grows-trans {ℓ} : {A : Type ℓ} (xs ys zs : List A) → Grows xs ys → Grows ys zs → Grows xs zs
Grows-trans xs ys zs (new, p) (more, q) =
    (new ++ more, q ∙ ap (λ l. l ++ more) p ∙ append_assoc xs new more)

Extends-trans : (a b c : Store) → Extends a b → Extends b c → Extends a c
Extends-trans a b c h k = (
  Grows-trans (history a.versions) (history b.versions) (history c.versions) h.0 k.0,
  Grows-trans a.chunks b.chunks c.chunks h.1 k.1,
  Grows-trans a.caveats b.caveats c.caveats h.2 k.2,
)

history-deactivate :
    (i : ℕ) (versions : List VersionRow) → history (deactivate i versions) ≡ history versions
unfolding deactivate
history-deactivate i [] = refl
history-deactivate i (v ∷ versions) = elim (Bool-cases (v.document_id == i)) [
  | inl same ↦
      rw (deactivate_row-same i v same) (ap (λ vs. unmarked v ∷ vs) (history-deactivate i versions))
  | inr other ↦
      rw (deactivate_row-other i v other)
        (ap (λ vs. unmarked v ∷ vs) (history-deactivate i versions))
]

history-snoc :
    (versions : List VersionRow) (v : VersionRow)
    → history (versions ++ v ∷ []) ≡ history versions ++ unmarked v ∷ []
history-snoc [] v = refl
history-snoc (w ∷ versions) v = ap (λ vs. unmarked w ∷ vs) (history-snoc versions v)

insert_version-Extends :
    (i : ℕ) (created_at : String) (superseded : Option ℕ) (update : DocumentUpdate) (st : Store)
    → Extends st (insert_version i created_at superseded update st)
unfolding insert_version
insert_version-Extends i created_at superseded update st = (
  (_, history-snoc st.versions _),
  (with_id (suc st.last_version) update.chunks, refl),
  (with_id (suc st.last_version) update.caveats, refl),
)

deactivate-Extends :
    (i : ℕ) (st : Store) → Extends st (record st { versions = deactivate i st.versions })
deactivate-Extends i st = (
  ([], history-deactivate i st.versions ∙ sym (append-nil (history st.versions))),
  Grows-refl st.chunks,
  Grows-refl st.caveats,
)

apply_one-Extends :
    (created_at : String) (update : DocumentUpdate) (st : Store)
    → Extends st (apply_one created_at update st)
unfolding apply_one
apply_one-Extends created_at update st =
    elim (Option-cases (find_url update.document.canonical_url st.documents)) [
      | inl e ↦ rw e (
          unfold apply_found in
          insert_version-Extends (suc st.last_document) created_at none update
            (record st { last_document = suc st.last_document }))
      | inr ((i, row), e) ↦
          let gone : Store = record st { versions = deactivate i st.versions } in
          rw e (
            unfold apply_found in
            Extends-trans st gone
              (insert_version i row.created_at row.active_version_id update gone)
              (deactivate-Extends i st)
              (insert_version-Extends i row.created_at row.active_version_id update gone))
    ]

remove_one-Extends : (url : String) (st : Store) → Extends st (remove_one url st)
unfolding remove_one
remove_one-Extends url st = elim (Option-cases (find_url url st.documents)) [
  | inl e ↦ rw e (
      unfold remove_found in
      (Grows-refl (history st.versions), Grows-refl st.chunks, Grows-refl st.caveats))
  | inr ((i, row), e) ↦ rw e (unfold remove_found in deactivate-Extends i st)
]

apply_all-Extends :
    (created_at : String) (updates : List DocumentUpdate) (st : Store)
    → Extends st (apply_all created_at updates st)
unfolding apply_all
apply_all-Extends created_at [] st =
    (Grows-refl (history st.versions), Grows-refl st.chunks, Grows-refl st.caveats)
apply_all-Extends created_at (update ∷ updates) st =
    let next : Store = apply_one created_at update st in
    Extends-trans st next (apply_all created_at updates next)
      (apply_one-Extends created_at update st) (apply_all-Extends created_at updates next)

remove_all-Extends : (urls : List String) (st : Store) → Extends st (remove_all urls st)
unfolding remove_all
remove_all-Extends [] st =
    (Grows-refl (history st.versions), Grows-refl st.chunks, Grows-refl st.caveats)
remove_all-Extends (url ∷ urls) st =
    let next : Store = remove_one url st in
    Extends-trans st next (remove_all urls next) (remove_one-Extends url st)
      (remove_all-Extends urls next)

-- A delta deletes nothing: every version, passage and caveat that the store held is there after it,
-- in the old order and before what is new; of a version only the mark that it is active may change.
pub delta-Extends :
    (updates : List DocumentUpdate) (removed : List String) (snapshot : Snapshot)
    (excluded : Option (List String)) (st : Store)
    → Extends st (delta updates removed snapshot excluded st)
unfolding delta insert_snapshot
delta-Extends updates removed snapshot none st =
    let next : Store = apply_all snapshot.created_at updates st in
    Extends-trans st next (remove_all removed next)
      (apply_all-Extends snapshot.created_at updates st) (remove_all-Extends removed next)
delta-Extends updates removed snapshot (some urls) st =
    let next : Store = apply_all snapshot.created_at updates st in
    Extends-trans st next (remove_all removed next)
      (apply_all-Extends snapshot.created_at updates st) (remove_all-Extends removed next)
