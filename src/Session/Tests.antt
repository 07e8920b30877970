-- ===== src/Session/Tests.antt =====
-- The session store at concrete inputs (assistant/turn/session.py).
use technical_knowledge_assi.Prelude.{
  ◌≡◌, refl, List, [], ◌∷◌, String, string_eq, some, none, true, false,
}
use technical_knowledge_assi.Prelude.Dict
use technical_knowledge_assi.Prelude.Dict.{Dict}
use technical_knowledge_assi.Session.{
  tuple, Session, Sessions, Store, new_store, open_session, remember, carried, pending, turns, size,
}
use technical_knowledge_assi.Session.Persisted.{Database, save, load, open_persisted}
use technical_knowledge_assi.Session.Recovered.{
  load-save, relisted, open_without_reading, load_beyond_the_limit,
}
use technical_knowledge_assi.Session.Marked.{
  marked, marked-IsJson, dump, load_pairs, dump_lists, load_lists,
}
use technical_knowledge_assi.Session.Bounded.{
  IsBounded, Call, opening, remembering, run, memory-IsBounded,
}
use technical_knowledge_assi.Session.Carried.{remember_isolated}
use technical_knowledge_assi.Session.Expiry.{open_honours_expired}

abbrev alice : Session
alice = record {
  touched = 100;
  slots = ("substrate", "brick") ∷ [];
  pending = "";
  turns = tuple "what should I use" "Use Ultra." ∷ [];
}

abbrev bob : Session
bob = record { touched = 500; slots = []; pending = ""; turns = [] }

abbrev both : Sessions
both = ("alice", alice) ∷ ("bob", bob) ∷ []

abbrev store : Store
store = record { max_sessions = 10; idle_seconds = 300; sessions = both }

-- Alice was touched last, although her entry stands first.
abbrev reordered : Store
reordered = record {
  max_sessions = 10;
  idle_seconds = 300;
  sessions = ("bob", bob) ∷ ("alice", alice) ∷ [];
}

abbrev stone : Dict String String
stone = ("substrate", "stone") ∷ []

remember_isolated_example :
    (carried "bob" (remember "alice" "q" "a" [] "" 200 store) ≡ carried "bob" store)
    × (pending "bob" (remember "alice" "q" "a" [] "" 200 store) ≡ pending "bob" store)
    × (turns "bob" (remember "alice" "q" "a" [] "" 200 store) ≡ turns "bob" store)
remember_isolated_example = remember_isolated "alice" "q" "a" [] "" 200 store "bob" refl

open_honours_expired_example : (open_session "alice" "fresh" 450 451 reordered).0 ≡ "alice"
unfolding Dict.lookup
open_honours_expired_example =
    open_honours_expired "alice" "fresh" "bob" 450 451 bob (("alice", alice) ∷ []) reordered refl
      refl refl refl

abbrev calls : List Call
calls =
    opening "" "a" 100 100
    ∷ remembering "a" "q" "answer" (("substrate", "cob") ∷ []) "" 101
    ∷ opening "" "b" 102 102
    ∷ opening "" "c" 103 103
    ∷ []

memory-IsBounded_example : IsBounded (run (new_store 2 300) calls)
memory-IsBounded_example = memory-IsBounded 2 300 calls

abbrev empty_database : Database
empty_database = record { accepts_marks = true; table = [] }

-- After a restart the store is empty; alice's session comes back, unless it is too old.
recovered :
    ((open_persisted marked true "alice" "fresh" 200
        (new_store 10 300)
        (save marked true "alice" store empty_database)).0
      ≡ "alice")
    × ((open_persisted marked true "alice" "fresh" 900
          (new_store 10 300)
          (save marked true "alice" store empty_database)).0
        ≡ "fresh")
    × (load marked true "alice" 200 store empty_database ≡ none)
unfolding open_persisted save load dump load_pairs dump_lists load_lists
recovered = (refl, refl, refl)

load-save_example :
    (st' : Store) × (load marked true "alice" 200
        (new_store 10 300)
        (save marked true "alice" store empty_database)
      ≡ some st')
    × (Dict.lookup "alice" st'.sessions ≡ some (relisted alice))
unfolding Dict.lookup
load-save_example =
    load-save marked "alice" alice 200 store (new_store 10 300) empty_database marked-IsJson refl
      refl refl tt

-- The store in memory knows alice, and the database is down.
open_without_reading_example :
    ((open_persisted marked false "alice" "fresh" 200 store empty_database).0
      ≡ (open_session "" "fresh" 200 200 store).0)
    × ((open_persisted marked false "alice" "fresh" 200 store empty_database).1
        ≡ (open_session "" "fresh" 200 200 store).1)
open_without_reading_example =
    open_without_reading marked false "alice" "fresh" 200 store empty_database refl

-- A store of one session at most, which holds bob's, gets alice's.
abbrev full : Store
full = record { max_sessions = 1; idle_seconds = 300; sessions = ("bob", bob) ∷ [] }

abbrev saved_alice : Database
saved_alice = save marked true "alice" store empty_database

abbrev loaded : Store
loaded = record full { sessions = ("bob", bob) ∷ ("alice", relisted alice) ∷ [] }

load_beyond_the_limit_example : size loaded ≡ 2
unfolding Dict.lookup load save dump load_pairs dump_lists load_lists
load_beyond_the_limit_example =
    load_beyond_the_limit marked true "alice" 200 full loaded saved_alice refl refl
