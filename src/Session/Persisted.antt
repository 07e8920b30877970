-- ===== src/Session/Persisted.antt =====
-- assistant/turn/session_storage.py: the session store that keeps its sessions in a database too. The
-- database is its table, by session id; a call that raises is one made while it is not `up`, and
-- leaves the table as it was. `json` is a parameter, and a call reads the clock once. `accepts_marks`
-- says whether the driver takes `?` as a placeholder, which `_load_from_db` writes for every database.
use technical_knowledge_assi.Prelude.{
  ℕ, ◌+◌, String, Bool, ◌&&◌, not, Option, none, some, List, [], ltb, keep, map, if◌then◌else◌,
  ◌==◌, string_eq,
}
use technical_knowledge_assi.Prelude.Dict
use technical_knowledge_assi.Prelude.Dict.{Dict}
use technical_knowledge_assi.Session.{Exchange, listed, Session, Store, open_session, remember}

-- `json.dumps` and `json.loads` of the slots and of the turns, whose tuples are read back as lists
pub record Json : Type 0 where
  pub dump_slots : Dict String String → String
  pub load_slots : String → Option (Dict String String)
  pub dump_turns : List Exchange → String
  pub load_turns : String → Option (List (List String))

pub record StoredSession : Type 0 where
  pub audience : String
  pub slots_json : String
  pub stored_pending : String
  pub turns_json : String
  pub stored_touched : ℕ

pub record Database : Type 0 where
  pub accepts_marks : Bool
  pub table : Dict String StoredSession

-- touched < clock - idle_seconds, without the subtraction
abbrev pub is_expired : ℕ → ℕ → ℕ → Bool
is_expired now idle touched = ltb (touched + idle) now

-- `_sweep_db`
unfoldable pub sweep_db : Bool → ℕ → ℕ → Database → Database
unfolding keep
sweep_db up now idle db =
    if up
    then record db { table = keep (λ r. not (is_expired now idle r.1.stored_touched)) db.table }
    else db

-- `session.slots.get("audience", "public")`
abbrev pub audience_in : Option String → String
audience_in none = "public"
audience_in (some audience) = audience

unfoldable pub stored : Json → Session → StoredSession
unfolding Dict.lookup
stored json s = record {
  audience = audience_in (Dict.lookup "audience" s.slots);
  slots_json = json.dump_slots s.slots;
  stored_pending = s.pending;
  turns_json = json.dump_turns s.turns;
  stored_touched = s.touched;
}

-- ON CONFLICT (session_id) DO UPDATE: the audience is not among the columns that are set.
unfoldable pub upsert : String → StoredSession → Option StoredSession → Database → Database
unfolding Dict.insert
upsert id row none db = record db { table = Dict.insert id row db.table }
upsert id row (some old) db = record db {
  table = Dict.insert id (record row { audience = old.audience }) db.table;
}

unfoldable pub save_found : Json → Bool → String → Option Session → Database → Database
unfolding upsert stored Dict.lookup
save_found json up id none db = db
save_found json up id (some s) db =
    if up then upsert id (stored json s) (Dict.lookup id db.table) db else db

-- `_save_to_db`
unfoldable pub save : Json → Bool → String → Store → Database → Database
unfolding save_found Dict.lookup
save json up id st db = save_found json up id (Dict.lookup id st.sessions) db

-- `json.loads(text) if text else ...`: `none` is a text that does not decode.
unfoldable pub decode {ℓ} : {A : Type ℓ} → (String → Option (List A)) → String → Option (List A)
decode load text = if text == "" then some [] else load text

unfoldable pub rebuild :
    StoredSession → Option (Dict String String) → Option (List (List String)) → Option Session
rebuild row (some slots) (some turns) = some (record {
  touched = row.stored_touched;
  slots = slots;
  pending = row.stored_pending;
  turns = map listed turns;
})
rebuild row _ _ = none

-- The row as a session, unless it does not decode or has expired.
unfoldable pub revive : Json → ℕ → ℕ → Option StoredSession → Option Session
unfolding decode rebuild
revive json now idle none = none
revive json now idle (some row) =
    if is_expired now idle row.stored_touched
    then none
    else rebuild row (decode json.load_slots row.slots_json) (decode json.load_turns row.turns_json)

unfoldable pub put_session : String → Option Session → Store → Option Store
unfolding Dict.move_to_end Dict.insert
put_session id none st = none
put_session id (some s) st =
    some (record st { sessions = Dict.move_to_end id (Dict.insert id s st.sessions) })

-- `_load_from_db`: the store with the session, or `none` for False.
unfoldable pub load : Json → Bool → String → ℕ → Store → Database → Option Store
unfolding revive put_session Dict.lookup
load json up id now st db =
    if up && db.accepts_marks
    then put_session id (revive json now st.idle_seconds (Dict.lookup id db.table)) st
    else none

unfoldable pub open_loaded :
    Json → Bool → String → String → ℕ → Store → Database → Option Store → String × Store × Database
unfolding open_session save
open_loaded json up id fresh now st db (some loaded) = (id, loaded, db)
open_loaded json up id fresh now st db none =
    let opened = open_session "" fresh now now st in
    (opened.0, opened.1, save json up opened.0 opened.1 db)

-- `open`
unfoldable pub open_persisted :
    Json → Bool → String → String → ℕ → Store → Database → String × Store × Database
unfolding sweep_db load open_loaded
open_persisted json up id fresh now st db =
    let swept = sweep_db up now st.idle_seconds db in
    open_loaded json up id fresh now st swept
      (if id == "" then none else load json up id now st swept)

-- `remember`
unfoldable pub remember_persisted :
    Json
    → Bool
    → String
    → String
    → String
    → Dict String String
    → String
    → ℕ
    → Store
    → Database
    → Store × Database
unfolding remember save sweep_db
remember_persisted json up id question answer slots waiting now st db =
    let st' = remember id question answer slots waiting now st in
    (st', sweep_db up now st'.idle_seconds (save json up id st' db))

-- `carried`, `pending` and `turns`: the table is swept, and the store in memory is read.
unfoldable pub read_persisted {ℓ} :
    {A : Type ℓ} → (String → Store → A) → Bool → String → ℕ → Store → Database → A × Database
unfolding sweep_db
read_persisted read up id now st db = (read id st, sweep_db up now st.idle_seconds db)
