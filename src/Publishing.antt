-- ===== src/Publishing.antt =====
-- What indexing writes (assistant/knowledge/store/embedded.py): `apply_delta` and what it calls. The
-- tables are lists of rows, documents by their row id; the ids that SQLite gives are counters here.
mod Rows
mod Active
mod Retained
mod Atomic
mod Tests
use technical_knowledge_assi.Prelude.{
  ℕ, suc, ◌+◌, String, Bool, true, false, ◌&&◌, not, Option, none, some, List, [], ◌∷◌, ◌++◌, map,
  length, keep, leb, if◌then◌else◌, ◌==◌, string_eq, nat_eq,
}
use technical_knowledge_assi.Prelude.Dict
use technical_knowledge_assi.Prelude.Dict.{Dict}

-- `metadata` is the title, the link's text, the type, the authority, the audience and the product.
pub record Document : Type 0 where
  pub canonical_url : String
  pub metadata : List String

pub record DocumentRow : Type 0 where
  pub document : Document
  pub created_at : String
  pub active_version_id : Option ℕ

-- `source` is the etag, the dates, the path, the quality and the notes of a version.
pub record DocumentVersion : Type 0 where
  pub content_hash : String
  pub source : List String

pub record VersionRow : Type 0 where
  pub version_id : ℕ
  pub document_id : ℕ
  pub version_number : ℕ
  pub version : DocumentVersion
  pub is_active : Bool
  pub supersedes_id : Option ℕ

pub record Chunk : Type 0 where
  pub chunk_index : ℕ
  pub content : String

pub record Caveat : Type 0 where
  pub caveat_type : String
  pub sentence : String

pub record DocumentUpdate : Type 0 where
  pub document : Document
  pub version : DocumentVersion
  pub chunks : List Chunk
  pub caveats : List Caveat

-- `parent_snapshot` is what the notes say of the parent, if they do: an id, or that there is none.
pub record Snapshot : Type 0 where
  pub snapshot_id : String
  pub created_at : String
  pub parent_snapshot : Option (Option String)
  pub document_count : ℕ
  pub chunk_count : ℕ

pub record Store : Type 0 where
  pub documents : Dict ℕ DocumentRow
  pub versions : List VersionRow
  pub chunks : List (ℕ × Chunk)
  pub caveats : List (ℕ × Caveat)
  pub excluded : List String
  pub snapshot : Option Snapshot
  pub last_document : ℕ
  pub last_version : ℕ

-- SELECT … FROM documents WHERE canonical_url = ?
unfoldable pub find_url : String → Dict ℕ DocumentRow → Option (ℕ × DocumentRow)
find_url url [] = none
find_url url ((i, row) ∷ rows) =
    if row.document.canonical_url == url then some (i, row) else find_url url rows

-- UPDATE document_versions SET is_active = 0 WHERE document_id = ?
abbrev pub deactivate_row : ℕ → VersionRow → VersionRow
deactivate_row i v = if v.document_id == i then record v { is_active = false } else v

unfoldable pub deactivate : ℕ → List VersionRow → List VersionRow
deactivate i versions = map (λ v. deactivate_row i v) versions

-- SELECT COALESCE(MAX(version_number), 0) … WHERE document_id = ?
unfoldable pub max_number : ℕ → List VersionRow → ℕ
max_number i [] = 0
max_number i (v ∷ versions) =
    let rest = max_number i versions in
    if v.document_id == i
    then (if leb v.version_number rest then rest else v.version_number)
    else rest

abbrev pub with_id {ℓ} : {A : Type ℓ} → ℕ → List A → List (ℕ × A)
with_id i [] = []
with_id i (x ∷ xs) = (i, x) ∷ with_id i xs

-- The inserts of `_apply_one` for the document with the row id `i`, in which `versions` has no active
-- row of it.
unfoldable pub insert_version : ℕ → String → Option ℕ → DocumentUpdate → Store → Store
unfolding max_number Dict.insert
insert_version i created_at superseded update st =
    let version_id = suc st.last_version in
    record st {
      documents =
          Dict.insert i
            (record {
              document = update.document;
              created_at = created_at;
              active_version_id = some version_id;
            })
            st.documents;
      versions =
          st.versions
          ++ (record {
            version_id = version_id;
            document_id = i;
            version_number = max_number i st.versions + 1;
            version = update.version;
            is_active = true;
            supersedes_id = superseded;
          })
            ∷ [];
      chunks = st.chunks ++ with_id version_id update.chunks;
      caveats = st.caveats ++ with_id version_id update.caveats;
      last_version = version_id;
    }

unfoldable pub apply_found : Option (ℕ × DocumentRow) → DocumentUpdate → String → Store → Store
unfolding insert_version deactivate
apply_found none update created_at st =
    insert_version (suc st.last_document) created_at none update
      (record st { last_document = suc st.last_document })
apply_found (some (i, row)) update created_at st =
    insert_version i row.created_at row.active_version_id update
      (record st { versions = deactivate i st.versions })

-- `_apply_one`
unfoldable pub apply_one : String → DocumentUpdate → Store → Store
unfolding find_url apply_found
apply_one created_at update st =
    apply_found (find_url update.document.canonical_url st.documents) update created_at st

-- The loop over `removed`, for one address.
unfoldable pub remove_found : Option (ℕ × DocumentRow) → Store → Store
unfolding deactivate Dict.insert
remove_found none st = st
remove_found (some (i, row)) st = record st {
  versions = deactivate i st.versions;
  documents = Dict.insert i (record row { active_version_id = none }) st.documents;
}

unfoldable pub remove_one : String → Store → Store
unfolding find_url remove_found
remove_one url st = remove_found (find_url url st.documents) st

unfoldable pub apply_all : String → List DocumentUpdate → Store → Store
unfolding apply_one
apply_all created_at [] st = st
apply_all created_at (update ∷ updates) st =
    apply_all created_at updates (apply_one created_at update st)

unfoldable pub remove_all : List String → Store → Store
unfolding remove_one
remove_all [] st = st
remove_all (url ∷ urls) st = remove_all urls (remove_one url st)

abbrev pub replace_excluded : Option (List String) → Store → Store
replace_excluded none st = st
replace_excluded (some urls) st = record st { excluded = urls }

abbrev pub is_published : DocumentRow → Bool
is_published row = elim row.active_version_id [ none ↦ false | some _ ↦ true ]

unfoldable pub is_live_version : ℕ → List VersionRow → Bool
is_live_version i [] = false
is_live_version i (v ∷ versions) =
    if v.version_id == i then v.is_active else is_live_version i versions

unfoldable pub count_documents : Dict ℕ DocumentRow → ℕ
count_documents [] = 0
count_documents ((i, row) ∷ rows) =
    let rest = count_documents rows in if is_published row then suc rest else rest

-- The two counts and `_insert_snapshot`.
unfoldable pub insert_snapshot : Snapshot → Store → Store
unfolding count_documents keep is_live_version
insert_snapshot snapshot st = record st {
  snapshot = some (record snapshot {
    document_count = count_documents st.documents;
    chunk_count = length (keep (λ c. is_live_version c.0 st.versions) st.chunks);
  });
}

abbrev pub snapshot_of : Store → Option String
snapshot_of st = elim st.snapshot [ none ↦ none | some s ↦ some s.snapshot_id ]

-- IndexMismatch, with the store as it was, or the new store
pub data Result : Type 0 where
  mismatch : Store → Result
  committed : Store → Result

abbrev pub same_parent : Option String → Option String → Bool
same_parent none none = true
same_parent (some a) (some b) = a == b
same_parent _ _ = false

unfoldable pub delta :
    List DocumentUpdate → List String → Snapshot → Option (List String) → Store → Store
unfolding apply_all remove_all insert_snapshot
delta updates removed snapshot excluded st =
    insert_snapshot snapshot
      (replace_excluded excluded (remove_all removed (apply_all snapshot.created_at updates st)))

abbrev pub is_stale : Option (Option String) → Option String → Bool
is_stale none current = false
is_stale (some parent) current = not (same_parent parent current)

-- `apply_delta`
unfoldable pub apply_delta :
    List DocumentUpdate → List String → Snapshot → Option (List String) → Store → Result
unfolding delta
apply_delta updates removed snapshot excluded st =
    if is_stale snapshot.parent_snapshot (snapshot_of st)
    then mismatch st
    else committed (delta updates removed snapshot excluded st)

abbrev pub new_store : Store
new_store = record {
  documents = [];
  versions = [];
  chunks = [];
  caveats = [];
  excluded = [];
  snapshot = none;
  last_document = 0;
  last_version = 0;
}
