-- ===== src/Publishing/Active.antt =====
-- One active version for a document (assistant/knowledge/store/embedded.py): the invariant that the
-- partial unique index of the database demands, and that every delta keeps.
use technical_knowledge_assi.Prelude.{
  ℕ, suc, ◌+◌, ◌≤◌, String, true, Option, none, some, List, [], ◌∷◌, ◌==◌, string_eq, nat_eq, ◌≡◌,
  sym, ◌∙◌, ap, arith, Bool-cases, Option-cases, inl, inr, All-map, All-append, ==-refl, eq_of_==,
}
use technical_knowledge_assi.Prelude.Dict
use technical_knowledge_assi.Prelude.Dict.{Dict}
use technical_knowledge_assi.Publishing.{
  DocumentUpdate, Snapshot, Store, find_url, deactivate, max_number, insert_version, apply_found,
  apply_one, remove_found, remove_one, apply_all, remove_all, insert_snapshot, delta, apply_delta,
  Result, mismatch, committed, is_stale, snapshot_of, new_store,
}
use technical_knowledge_assi.Publishing.Rows.{
  active_count, IsConsistent, active_count-append, active_count-deactivate, active_count-fresh,
  active_of-insert, Agrees-deactivate, Agrees-insert, known-deactivate, find_url-known,
}

widened :
    (st : Store)
    → IsConsistent st
    → IsConsistent (record st { last_document = suc st.last_document })
widened st h = record {
  one_active = h.one_active;
  agrees = h.agrees;
  known_documents = All-map _ _ (λ v k. omega (arith, k)) st.versions h.known_documents;
  known_rows = All-map _ _ (λ entry k. omega (arith, k)) st.documents h.known_rows;
}

insert_version-IsConsistent :
    (i : ℕ) (created_at : String) (superseded : Option ℕ) (update : DocumentUpdate) (st : Store)
    → active_count i st.versions ≡ 0
    → i ≤ st.last_document
    → IsConsistent st
    → IsConsistent (insert_version i created_at superseded update st)
unfolding insert_version
insert_version-IsConsistent i created_at superseded update st none_active known h = record {
  one_active = λ j.
      let few = h.one_active j in
      let split = active_count-append j st.versions (
        record {
          version_id = suc st.last_version;
          document_id = i;
          version_number = max_number i st.versions + 1;
          version = update.version;
          is_active = true;
          supersedes_id = superseded;
        }
        ∷ []) in
      let nothing : (i == j) ≡ true → active_count j st.versions ≡ 0 =
        λ e. ap (λ k. active_count k st.versions) (sym (eq_of_== e)) ∙ none_active in
      elim (Bool-cases (i == j)) [
        | inl same ↦ unfold active_count in ground (arith, split, same, nothing same)
        | inr other ↦ unfold active_count in ground (arith, split, other, few)
      ];
  agrees =
      All-append _ st.versions _ (Agrees-insert i _ st.documents st.versions none_active h.agrees) (
        inr (
            active_of-insert i i
              (record {
                document = update.document;
                created_at = created_at;
                active_version_id = some (suc st.last_version);
              })
              st.documents
            ∙ rw (==-refl i)),
        tt,
      );
  known_documents = All-append _ st.versions _ h.known_documents (known, tt);
  known_rows = Dict.All-insert _ i _ st.documents (λ j e. rw e known) h.known_rows;
}

deactivate-IsConsistent :
    (i : ℕ) (st : Store)
    → IsConsistent st
    → IsConsistent (record st { versions = deactivate i st.versions })
deactivate-IsConsistent i st h = record {
  one_active = λ j.
      let e = active_count-deactivate i j st.versions in
      let few = h.one_active j in ground (arith, e, few);
  agrees = Agrees-deactivate i st.documents st.versions h.agrees;
  known_documents = known-deactivate i st.last_document st.versions h.known_documents;
  known_rows = h.known_rows;
}

apply_one-IsConsistent :
    (created_at : String) (update : DocumentUpdate) (st : Store)
    → IsConsistent st
    → IsConsistent (apply_one created_at update st)
unfolding apply_one
apply_one-IsConsistent created_at update st h =
    elim (Option-cases (find_url update.document.canonical_url st.documents)) [
      | inl e ↦ rw e (
          unfold apply_found in
          insert_version-IsConsistent (suc st.last_document) created_at none update
            (record st { last_document = suc st.last_document })
            (active_count-fresh (suc st.last_document) st.last_document st.versions (omega arith)
              h.known_documents)
            (omega arith) (widened st h))
      | inr ((i, row), e) ↦ rw e (
          unfold apply_found in
          insert_version-IsConsistent i row.created_at row.active_version_id update
            (record st { versions = deactivate i st.versions })
            (active_count-deactivate i i st.versions ∙ rw (==-refl i))
            (find_url-known update.document.canonical_url st.last_document st.documents h.known_rows
              e)
            (deactivate-IsConsistent i st h))
    ]

remove_one-IsConsistent :
    (url : String) (st : Store) → IsConsistent st → IsConsistent (remove_one url st)
unfolding remove_one
remove_one-IsConsistent url st h = elim (Option-cases (find_url url st.documents)) [
  | inl e ↦ rw e (unfold remove_found in h)
  | inr ((i, row), e) ↦
      let k = deactivate-IsConsistent i st h in
      rw e (
        unfold remove_found in
        record {
          one_active = k.one_active;
          agrees =
              Agrees-insert i _ st.documents (deactivate i st.versions)
                (active_count-deactivate i i st.versions ∙ rw (==-refl i)) k.agrees;
          known_documents = k.known_documents;
          known_rows =
              Dict.All-insert _ i _ st.documents
                (λ j same.
                  rw same (find_url-known url st.last_document st.documents h.known_rows e))
                h.known_rows;
        })
]

apply_all-IsConsistent :
    (created_at : String) (updates : List DocumentUpdate) (st : Store)
    → IsConsistent st
    → IsConsistent (apply_all created_at updates st)
unfolding apply_all
apply_all-IsConsistent created_at [] st h = h
apply_all-IsConsistent created_at (update ∷ updates) st h =
    apply_all-IsConsistent created_at updates (apply_one created_at update st)
      (apply_one-IsConsistent created_at update st h)

remove_all-IsConsistent :
    (urls : List String) (st : Store) → IsConsistent st → IsConsistent (remove_all urls st)
unfolding remove_all
remove_all-IsConsistent [] st h = h
remove_all-IsConsistent (url ∷ urls) st h =
    remove_all-IsConsistent urls (remove_one url st) (remove_one-IsConsistent url st h)

-- The arguments of one `apply_delta`.
pub record Delta : Type 0 where
  pub updates : List DocumentUpdate
  pub removed : List String
  pub new_snapshot : Snapshot
  pub new_excluded : Option (List String)

abbrev pub store_of : Result → Store
store_of (mismatch st) = st
store_of (committed st) = st

abbrev pub applied : Delta → Store → Store
applied d st = store_of (apply_delta d.updates d.removed d.new_snapshot d.new_excluded st)

unfoldable pub after : List Delta → Store
unfolding apply_delta
after [] = new_store
after (d ∷ deltas) = applied d (after deltas)

delta-IsConsistent :
    (updates : List DocumentUpdate) (removed : List String) (snapshot : Snapshot)
    (excluded : Option (List String)) (st : Store)
    → IsConsistent st
    → IsConsistent (delta updates removed snapshot excluded st)
unfolding delta insert_snapshot
delta-IsConsistent updates removed snapshot none st h =
    let k =
      remove_all-IsConsistent removed (apply_all snapshot.created_at updates st)
        (apply_all-IsConsistent snapshot.created_at updates st h) in
    record {
      one_active = k.one_active;
      agrees = k.agrees;
      known_documents = k.known_documents;
      known_rows = k.known_rows;
    }
delta-IsConsistent updates removed snapshot (some urls) st h =
    let k =
      remove_all-IsConsistent removed (apply_all snapshot.created_at updates st)
        (apply_all-IsConsistent snapshot.created_at updates st h) in
    record {
      one_active = k.one_active;
      agrees = k.agrees;
      known_documents = k.known_documents;
      known_rows = k.known_rows;
    }

-- After any deltas, refused ones included, every document has at most one active version, and the row
-- of the document of an active version names it.
pub after_deltas-IsConsistent : (deltas : List Delta) → IsConsistent (after deltas)
unfolding after apply_delta
after_deltas-IsConsistent [] = record {
  one_active = λ i. unfold active_count in omega arith;
  agrees = tt;
  known_documents = tt;
  known_rows = tt;
}
after_deltas-IsConsistent (d ∷ deltas) =
    let h = after_deltas-IsConsistent deltas in
    elim (Bool-cases (is_stale d.new_snapshot.parent_snapshot (snapshot_of (after deltas)))) [
      | inl stale ↦ rw stale h
      | inr fresh ↦
          rw fresh
            (delta-IsConsistent d.updates d.removed d.new_snapshot d.new_excluded (after deltas) h)
    ]
