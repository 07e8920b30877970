-- ===== src/Ledger.antt =====
-- The crawl ledger (assistant/indexing/crawl.py, `reconcile`): which fetch is a new version of a page.
-- The digest of the content, the clock and the path of the archived source are arguments.
mod Numbering
mod Tests
use technical_knowledge_assi.Prelude.{
  ℕ, ◌+◌, String, Bool, true, false, Option, none, some, List, [], ◌∷◌, ◌++◌, if◌then◌else◌, ◌==◌,
  string_eq,
}
use technical_knowledge_assi.Prelude.Dict
use technical_knowledge_assi.Prelude.Dict.{Dict}

pub data Change : Type 0 where
  new unchanged changed : Change

pub record Version : Type 0 where
  pub number : ℕ
  pub content_hash : String
  pub etag : String
  pub last_modified : String
  pub first_seen_at : String
  pub fetched_at : String
  pub checked_at : String
  pub is_active : Bool
  pub supersedes : Option String
  pub change : Change
  pub source_path : String

-- A record of the ledger: its own fields, and its `history`.
pub record Entry : Type 0 where
  pub latest : Version
  pub history : List Version

abbrev pub Ledger : Type 0
Ledger = Dict String Entry

-- One fetch of a page; a header that the server did not send is `none`.
pub record Fetch : Type 0 where
  pub url : String
  pub digest : String
  pub etag_header : Option String
  pub last_modified_header : Option String
  pub stamp : String
  pub archived : String

abbrev pub or_text : Option String → String → String
or_text none text = text
or_text (some header) text = header

-- The fields that the last lines of `reconcile` set on every record.
abbrev pub finished : Fetch → Version → Version
finished f v = record v {
  source_path = f.archived;
  is_active = true;
  etag = or_text f.etag_header v.etag;
  last_modified = or_text f.last_modified_header v.last_modified;
}

abbrev pub fresh_version : Fetch → ℕ → String → Option String → Change → Version
fresh_version f number first_seen_at supersedes change = record {
  number = number;
  content_hash = f.digest;
  etag = or_text f.etag_header "";
  last_modified = or_text f.last_modified_header "";
  first_seen_at = first_seen_at;
  fetched_at = f.stamp;
  checked_at = f.stamp;
  is_active = true;
  supersedes = supersedes;
  change = change;
  source_path = "";
}

unfoldable pub reconciled : Fetch → Option Entry → Entry
reconciled f none = record {
  latest = finished f (fresh_version f 1 f.stamp none new);
  history = [];
}
reconciled f (some prior) =
    let v = prior.latest in
    if v.content_hash == f.digest
    then record {
      latest = finished f (record v { checked_at = f.stamp; change = unchanged });
      history = prior.history;
    }
    else record {
      latest =
          finished f (fresh_version f (v.number + 1) v.first_seen_at (some v.content_hash) changed);
      history = prior.history ++ v ∷ [];
    }

-- `reconcile`, with the ledger that it leaves
unfoldable pub reconcile : Fetch → Ledger → Ledger
unfolding Dict.lookup Dict.insert reconciled
reconcile f ledger = Dict.insert f.url (reconciled f (Dict.lookup f.url ledger)) ledger
