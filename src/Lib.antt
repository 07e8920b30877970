-- ===== src/Lib.antt =====
-- A verification library for the technical knowledge assistant, a service that answers questions on
-- building products from a crawled corpus of datasheets.
--
-- A turn of a conversation goes through these parts. Its reading (assistant/answering/understanding.py)
-- says what is asked and which slots it states. The session store (assistant/turn/session.py)
-- finds what the person said before, and the conversation state (assistant/turn/conversation.py) folds
-- the turn's facts into it, with their provenance, and decides whether a new case begins. The audience
-- (assistant/knowledge/audience.py) says what may be read. The retriever
-- (assistant/retrieval/retrieve.py) asks the embedded store (assistant/knowledge/store/embedded.py) for
-- passages; the router (assistant/answering/router.py) decides from them which path an answer takes;
-- a selection of products (assistant/retrieval/candidates.py) asks it for the evidence of
-- each candidate, after the documented rules (assistant/retrieval/compatibility.py). Finished answers
-- are kept by the answer cache (assistant/cache.py). The turn graph (assistant/turn/graph.py) puts
-- these in order and checks the answer last. Beside it the job queue
-- (assistant/indexing/pipeline.py) runs the indexing that writes the store by deltas.
--
-- The files, with the definitions that stand for the code:
--   Prelude       shared tests, lists, texts and ordered dictionaries
--   JobQueue      JobQueue.enqueue, claim, finish, get and work; one step for each SQL transaction, and
--                 two in work, with what other workers do between them as an argument
--   Session       SessionStore: open is open_session, _sweep is sweep, the rest by their names; Session/Persisted has
--                 PersistedSessionStore of assistant/turn/session_storage.py
--   AnswerCache   normalise, AnswerCache.key, get, put and clear
--   Conversation  merge_facts by its rules (write_stated, write_observed, write_inherited and
--                 write_denial); Conversation/Cases has Case, ConversationState and opens_a_new_case
--   Audience      parse and resolve
--   Compatibility is_compatible by the verdict of one rule, get_caveats, exclude_incompatible
--   Requests      ResolvedRequest, the table of requirements and missing_facts
--   Candidates    discover, assess, decide, and contained as the list of intruders
--   Router        Router/Detector has SlotDetector, Router/Policy PolicyGate and split_by_topic,
--                 Router/Gates the words of the relevance gate, Router/Route the decision of route
--   Understanding Understanding/Readings has deterministic, merge_understanding and understand,
--                 Understanding/Resolving resolve, Understanding/Testimony facts_from, and
--                 Understanding/Denials and Names what these use
--   Turn          Turn/Nodes and Turn/Answers have the nodes, each as a function of the state,
--                 Turn/Graph the edges and a run along them, Turn/Guard verify
--   Retrieval     retrieve_for as ranked and cap_rows, _effective, _distinct, search, find_passages;
--                 Retrieval/Opening has _verify and expand
--   Publishing    apply_delta with _apply_one, the removals and _insert_snapshot
--   Ledger        reconcile of assistant/indexing/crawl.py
-- Each file has child modules named for what they prove, and a module Tests at concrete inputs.
--
-- Time is a natural number of seconds, and whatever the code reads from outside is an argument: the
-- clock, fresh ids and lease tokens, digests, the similarity of a row, the repository of a selection and
-- its vocabulary, the outcome of a crawl and of a build. Scores are whole numbers in a unit that makes
-- every constant whole. All loops of the code run over finite lists and are structural recursion here.
-- The search and the engine of a turn may raise, as the model server may not answer; the reads of the
-- repository are taken to return. A turn is run on fuel, of ten steps and of four after a reply: an edge of the graph never leads back,
-- so that these are enough. Texts are ASCII where case is folded.
--
-- Not modelled: prompts and the calls of language and vision models, HTML and PDF extraction, the web
-- page and the command line, logging and metrics, which are I/O; the PostgreSQL adapter, whose rules
-- run in the database; the full rebuild of the index,
-- which stands beside the parts above and does not change what they compute.
pub mod Prelude
pub mod JobQueue
pub mod Router
pub mod Understanding
pub mod Session
pub mod AnswerCache
pub mod Conversation
pub mod Audience
pub mod Compatibility
pub mod Requests
pub mod Candidates
pub mod Turn
pub mod Retrieval
pub mod Publishing
pub mod Ledger
