-- ===== src/Session/Recovered.antt =====
-- What comes back of a session from the database (assistant/turn/session_storage.py), and what a
-- failing database costs.
use technical_knowledge_assi.Prelude.{
  ℕ, ◌≡◌, refl, ap, ◌∙◌, String, false, Option, none, some, List, ◌==◌, string_eq, suc, Bool, true,
  ◌&&◌, if◌then◌else◌, length, Bool-cases, inl, inr, arith, sym, length-append, ◌∷◌, [], map,
}
use technical_knowledge_assi.Prelude.Dict
use technical_knowledge_assi.Prelude.Dict.{Dict}
use technical_knowledge_assi.Session.{Exchange, tuple, listed, Session, Store, open_session, size}
use technical_knowledge_assi.Session.Persisted.{
  Json, StoredSession, Database, is_expired, stored, upsert, decode, rebuild, revive, save_found,
  save, put_session, load, sweep_db, open_loaded, open_persisted,
}

-- The list that stands in the text for an exchange: JSON has no tuples.
unfoldable pub as_list : Exchange → List String
as_list (tuple question answer) = question ∷ answer ∷ []
as_list (listed texts) = texts

-- A session with its exchanges as lists.
abbrev pub relisted : Session → Session
relisted s = record s { turns = map listed (map as_list s.turns) }

-- What the program relies on of `json`: what it wrote reads back, a tuple as a list of its items, and
-- is not the empty text.
pub record IsJson (json : Json) : Type 0 where
  pub slots_back : (d : Dict String String) → json.load_slots (json.dump_slots d) ≡ some d
  pub slots_some : (d : Dict String String) → (json.dump_slots d == "") ≡ false
  pub turns_back : (l : List Exchange) → json.load_turns (json.dump_turns l) ≡ some (map as_list l)
  pub turns_some : (l : List Exchange) → (json.dump_turns l == "") ≡ false

revive-stored :
    (json : Json) (now idle : ℕ) (s : Session) (audience : String)
    → IsJson json
    → is_expired now idle s.touched ≡ false
    → revive json now idle (some (record (stored json s) { audience = audience }))
      ≡ some (relisted s)
unfolding revive stored decode rebuild
revive-stored json now idle s audience h live =
    rw
      (live, h.slots_some s.slots, h.turns_some s.turns, h.slots_back s.slots, h.turns_back s.turns)

upsert-revives :
    (json : Json) (now idle : ℕ) (id : String) (s : Session) (o : Option StoredSession)
    (db : Database)
    → IsJson json
    → is_expired now idle s.touched ≡ false
    → revive json now idle (Dict.lookup id (upsert id (stored json s) o db).table)
      ≡ some (relisted s)
unfolding upsert
upsert-revives json now idle id s none db h live =
    ap (revive json now idle) (Dict.lookup-insert_self id (stored json s) db.table)
    ∙ revive-stored json now idle s (stored json s).audience h live
upsert-revives json now idle id s (some old) db h live =
    ap (revive json now idle)
      (Dict.lookup-insert_self id (record (stored json s) { audience = old.audience }) db.table)
    ∙ revive-stored json now idle s old.audience h live

upsert-accepts :
    (id : String) (row : StoredSession) (o : Option StoredSession) (db : Database)
    → (upsert id row o db).accepts_marks ≡ db.accepts_marks
unfolding upsert
upsert-accepts id row none db = refl
upsert-accepts id row (some old) db = refl

save-found :
    (json : Json) (id : String) (s : Session) (st : Store) (db : Database)
    → Dict.lookup id st.sessions ≡ some s
    → save json true id st db ≡ upsert id (stored json s) (Dict.lookup id db.table) db
unfolding save save_found
save-found json id s st db e = ap (λ o. save_found json true id o db) e

load-read :
    (json : Json) (up : Bool) (id : String) (now : ℕ) (st : Store) (db : Database)
    → (up && db.accepts_marks) ≡ true
    → load json up id now st db
      ≡ put_session id (revive json now st.idle_seconds (Dict.lookup id db.table)) st
unfolding load
load-read json up id now st db h = rw h

load-saved :
    (json : Json) (id : String) (s : Session) (now : ℕ) (st other : Store) (db : Database)
    → IsJson json
    → db.accepts_marks ≡ true
    → Dict.lookup id st.sessions ≡ some s
    → is_expired now other.idle_seconds s.touched ≡ false
    → load json true id now other (save json true id st db)
      ≡ put_session id (some (relisted s)) other
load-saved json id s now st other db h marks found live =
    let db' = save json true id st db in
    let row = upsert id (stored json s) (Dict.lookup id db.table) db in
    let same : db' ≡ row = save-found json id s st db found in
    let reads : db'.accepts_marks ≡ true =
      ap (λ d. d.accepts_marks) same
      ∙ upsert-accepts id (stored json s) (Dict.lookup id db.table) db
      ∙ marks in
    load-read json true id now other db' reads
    ∙ ap (λ d. put_session id (revive json now other.idle_seconds (Dict.lookup id d.table)) other)
        same
    ∙ ap (λ o. put_session id o other)
        (upsert-revives json now other.idle_seconds id s (Dict.lookup id db.table) db h live)

lookup-put :
    (id : String) (s : Session) (st : Store)
    → Dict.IsDistinct st.sessions
    → (st' : Store) × (put_session id (some s) st ≡ some st')
      × (Dict.lookup id st'.sessions ≡ some s)
unfolding put_session
lookup-put id s st distinct = (
  record st { sessions = Dict.move_to_end id (Dict.insert id s st.sessions) },
  refl,
  Dict.lookup-move_to_end id id (Dict.insert id s st.sessions)
        (Dict.IsDistinct-insert id s st.sessions distinct)
      ∙ Dict.lookup-insert_self id s st.sessions,
)

-- A session that was saved comes back: if the database is up and its driver takes the query, `json`
-- reads what it wrote, a tuple as a list, and the session is not older than the idle period, then
-- loading its id, into whatever store of distinct ids there is after a restart, gives the session as
-- it was saved, except that each exchange is a list of its question and answer where it was a tuple.
pub load-save :
    (json : Json) (id : String) (s : Session) (now : ℕ) (st other : Store) (db : Database)
    → IsJson json
    → db.accepts_marks ≡ true
    → Dict.lookup id st.sessions ≡ some s
    → is_expired now other.idle_seconds s.touched ≡ false
    → Dict.IsDistinct other.sessions
    → (st' : Store) × (load json true id now other (save json true id st db) ≡ some st')
      × (Dict.lookup id st'.sessions ≡ some (relisted s))
load-save json id s now st other db h marks found live distinct =
    let back = lookup-put id (relisted s) other distinct in
    (back.0, load-saved json id s now st other db h marks found live ∙ back.1, back.2)

load-unread :
    (json : Json) (up : Bool) (id : String) (now : ℕ) (st : Store) (db : Database)
    → (up && db.accepts_marks) ≡ false
    → load json up id now st db ≡ none
unfolding load
load-unread json up id now st db h = rw h

sweep_db-accepts :
    (up : Bool) (now idle : ℕ) (db : Database)
    → (sweep_db up now idle db).accepts_marks ≡ db.accepts_marks
unfolding sweep_db
sweep_db-accepts true now idle db = refl
sweep_db-accepts false now idle db = refl

unless_empty : (b : Bool) (o : Option Store) → o ≡ none → (if b then none else o) ≡ none
unless_empty true o h = refl
unless_empty false o h = h

-- Where the database cannot be read, since it is down or since its driver does not take the
-- placeholder of the query, no presented id is honoured, not one that the store in memory knows
-- either: `open` gives the new session that it gives for no id.
pub open_without_reading :
    (json : Json) (up : Bool) (id fresh : String) (now : ℕ) (st : Store) (db : Database)
    → (up && db.accepts_marks) ≡ false
    → ((open_persisted json up id fresh now st db).0 ≡ (open_session "" fresh now now st).0)
      × ((open_persisted json up id fresh now st db).1 ≡ (open_session "" fresh now now st).1)
unfolding open_persisted open_loaded
open_without_reading json up id fresh now st db h =
    let swept = sweep_db up now st.idle_seconds db in
    let unread : (if id == "" then none else load json up id now st swept) ≡ none =
      unless_empty (id == "") (load json up id now st swept) (
        load-unread json up id now st swept
          (ap (λ b. up && b) (sweep_db-accepts up now st.idle_seconds db) ∙ h)) in
    (
      ap (λ o. (open_loaded json up id fresh now st swept o).0) unread,
      ap (λ o. (open_loaded json up id fresh now st swept o).1) unread,
    )

store_eq : {a b : Store} → some a ≡ some b → a ≡ b
store_eq e = cc

put-grows :
    (id : String) (o : Option Session) (st st' : Store)
    → Dict.Fresh id st.sessions
    → put_session id o st ≡ some st'
    → size st' ≡ suc (size st)
unfolding put_session
put-grows id none st st' fresh e = cc
put-grows id (some s) st st' fresh e =
    ap size (sym (store_eq e))
    ∙ Dict.length-move_to_end id (Dict.insert id s st.sessions)
    ∙ ap length (Dict.insert-Fresh id s st.sessions fresh)
    ∙ length-append st.sessions ((id, s) ∷ [])
    ∙ omega arith

-- Loading ignores the limit on sessions in memory: one that was not there makes one more, however
-- many there are.
pub load_beyond_the_limit :
    (json : Json) (up : Bool) (id : String) (now : ℕ) (st st' : Store) (db : Database)
    → Dict.Fresh id st.sessions
    → load json up id now st db ≡ some st'
    → size st' ≡ suc (size st)
load_beyond_the_limit json up id now st st' db fresh loaded =
    elim (Bool-cases (up && db.accepts_marks)) [
      | inl reads ↦
          put-grows id (revive json now st.idle_seconds (Dict.lookup id db.table)) st st' fresh
            (sym (load-read json up id now st db reads) ∙ loaded)
      | inr unread ↦ absurd (cc (load-unread json up id now st db unread, loaded))
    ]
