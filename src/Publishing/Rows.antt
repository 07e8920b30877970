-- ===== src/Publishing/Rows.antt =====
-- The rows of the store under its writes (assistant/knowledge/store/embedded.py): active versions, and
-- the documents that name them.
use technical_knowledge_assi.Prelude.{
  ℕ, suc, ◌+◌, ◌≤◌, ◌<◌, String, true, false, ◌&&◌, Option, none, some, List, [], ◌∷◌, ◌++◌, ◌==◌,
  string_eq, nat_eq, if◌then◌else◌, ◌≡◌, ◌⊎◌, refl, sym, ◌∙◌, ap, arith, Bool-cases, inl, inr, All,
  subst,
}
use technical_knowledge_assi.Prelude.Dict
use technical_knowledge_assi.Prelude.Dict.{Dict}
use technical_knowledge_assi.Publishing.{
  DocumentRow, VersionRow, Store, find_url, deactivate_row, deactivate,
}

-- How many versions of the document are active.
unfoldable pub active_count : ℕ → List VersionRow → ℕ
active_count i [] = 0
active_count i (v ∷ versions) =
    if v.document_id == i && v.is_active
    then suc (active_count i versions)
    else active_count i versions

abbrev pub active_version : Option DocumentRow → Option ℕ
active_version none = none
active_version (some row) = row.active_version_id

abbrev pub active_of : ℕ → Dict ℕ DocumentRow → Option ℕ
active_of i documents = active_version (Dict.lookup i documents)

-- A version is retired, or its document names it.
abbrev pub Agrees : Dict ℕ DocumentRow → VersionRow → Type 0
Agrees documents v = (v.is_active ≡ false) ⊎ (active_of v.document_id documents ≡ some v.version_id)

pub record IsConsistent (st : Store) : Type 0 where
  pub one_active : (i : ℕ) → active_count i st.versions ≤ 1
  pub agrees : All (Agrees st.documents) st.versions
  pub known_documents : All (λ v. v.document_id ≤ st.last_document) st.versions
  pub known_rows : All (λ entry. entry.0 ≤ st.last_document) st.documents

pub active_count-append :
    (i : ℕ) (xs ys : List VersionRow)
    → active_count i (xs ++ ys) ≡ active_count i xs + active_count i ys
unfolding active_count
active_count-append i [] ys = omega arith
active_count-append i (v ∷ xs) ys = ground (arith, active_count-append i xs ys)

pub active_count-deactivate :
    (i j : ℕ) (versions : List VersionRow)
    → active_count j (deactivate i versions) ≡ (if i == j then 0 else active_count j versions)
unfolding active_count deactivate
active_count-deactivate i j [] = ground arith
active_count-deactivate i j (v ∷ versions) = elim (Bool-cases (v.document_id == i)) [
  | inl same ↦ rw same (ground (arith, same, active_count-deactivate i j versions))
  | inr other ↦ rw other (ground (arith, other, active_count-deactivate i j versions))
]

pub active_count-fresh :
    (i n : ℕ) (versions : List VersionRow)
    → n < i
    → All (λ v. v.document_id ≤ n) versions
    → active_count i versions ≡ 0
unfolding active_count
active_count-fresh i n [] h k = refl
active_count-fresh i n (v ∷ versions) h k =
    ground (arith, h, k.0, active_count-fresh i n versions h k.1)

pub active_of-insert :
    (i j : ℕ) (row : DocumentRow) (documents : Dict ℕ DocumentRow)
    → active_of j (Dict.insert i row documents)
      ≡ (if i == j then row.active_version_id else active_of j documents)
active_of-insert i j row documents =
    ap active_version (Dict.lookup-insert i j row documents) ∙ ground arith

pub deactivate_row-same :
    (i : ℕ) (v : VersionRow)
    → (v.document_id == i) ≡ true
    → deactivate_row i v ≡ record v { is_active = false }
deactivate_row-same i v same = rw same

pub deactivate_row-other :
    (i : ℕ) (v : VersionRow) → (v.document_id == i) ≡ false → deactivate_row i v ≡ v
deactivate_row-other i v other = rw other

pub Agrees-deactivate :
    (i : ℕ) (documents : Dict ℕ DocumentRow) (versions : List VersionRow)
    → All (Agrees documents) versions
    → All (Agrees documents) (deactivate i versions)
unfolding deactivate
Agrees-deactivate i documents [] h = tt
Agrees-deactivate i documents (v ∷ versions) h = (
  elim (Bool-cases (v.document_id == i)) [
    | inl same ↦ subst (Agrees documents) (sym (deactivate_row-same i v same)) (inl refl)
    | inr other ↦ subst (Agrees documents) (sym (deactivate_row-other i v other)) h.0
  ],
  Agrees-deactivate i documents versions h.1,
)

-- A write to the row of a document without active versions leaves the other documents' versions.
pub Agrees-insert :
    (i : ℕ) (row : DocumentRow) (documents : Dict ℕ DocumentRow) (versions : List VersionRow)
    → active_count i versions ≡ 0
    → All (Agrees documents) versions
    → All (Agrees (Dict.insert i row documents)) versions
unfolding active_count
Agrees-insert i row documents [] e h = tt
Agrees-insert i row documents (v ∷ versions) e h = (
  elim (Bool-cases v.is_active) [
    | inr retired ↦ inl retired
    | inl live ↦
        let other : (i == v.document_id) ≡ false = ground (arith, e, live) in
        elim h.0 [
          | inl retired ↦ inl retired
          | inr named ↦ inr (active_of-insert i v.document_id row documents ∙ rw other named)
        ]
  ],
  Agrees-insert i row documents versions (ground (arith, e)) h.1,
)

pub known-deactivate :
    (i n : ℕ) (versions : List VersionRow)
    → All (λ v. v.document_id ≤ n) versions
    → All (λ v. v.document_id ≤ n) (deactivate i versions)
unfolding deactivate
known-deactivate i n [] h = tt
known-deactivate i n (v ∷ versions) h = elim (Bool-cases (v.document_id == i)) [
  | inl e ↦ (rw e h.0, known-deactivate i n versions h.1)
  | inr e ↦ (rw e h.0, known-deactivate i n versions h.1)
]

pub find_url-known :
    (url : String) (n : ℕ) (documents : Dict ℕ DocumentRow) {found : ℕ × DocumentRow}
    → All (λ entry. entry.0 ≤ n) documents
    → find_url url documents ≡ some found
    → found.0 ≤ n
unfolding find_url
find_url-known url n [] h e = cc e
find_url-known url n ((i, row) ∷ documents) {found} h e =
    elim (Bool-cases (row.document.canonical_url == url)) [
      | inl same ↦
          let e' : some (i, row) ≡ some found = rw same at e in
          let k : i ≡ found.0 = cc e' in subst (λ m. m ≤ n) k h.0
      | inr other ↦ find_url-known url n documents h.1 (rw other at e)
    ]
