-- ===== src/JobQueue.antt =====
-- The durable job queue of assistant/indexing/pipeline.py: the table of jobs that `JobQueue` keeps,
-- its methods, and `work`. The rows stand in the order of insertion; `id` is the primary key.
-- Times are natural numbers of seconds. `time.time()`, the `uuid4` token and the outcomes of
-- `crawl.run` and `index.build` are arguments.
mod Rows
mod Keys
mod Tests
pub mod Exclusive
pub mod Attempts
mod Meanwhile
pub mod Outcome
use technical_knowledge_assi.Prelude.{
  ℕ, ◌+◌, ◌*◌, ◌/◌, ◌^◌, String, Bool, true, false, ◌&&◌, ◌||◌, Option, none, some, List, [], ◌∷◌,
  ◌++◌, map, leb, ltb, if◌then◌else◌, ◌==◌, string_eq, nat_eq, any, keep, length,
}
use Prim.Native.String.{compare}
use text.Mathlib.Text.{is_le}

pub data Status : Type 0 where
  pending running done dead : Status

pub record Job : Type 0 where
  pub id : String
  pub refresh : Bool
  pub staff_dir : Option String
  pub status : Status
  pub attempts : ℕ
  pub due : ℕ
  pub lease : Option String
  pub error : String
  pub snapshot : String

abbrev pub Table : Type 0
Table = List Job

abbrev pub is_running : Job → Bool
is_running j = elim j.status [ running ↦ true | _ ↦ false ]

-- status IN ('pending', 'running')
abbrev pub is_open : Job → Bool
is_open j = elim j.status [ pending ↦ true | running ↦ true | _ ↦ false ]

-- SELECT * FROM jobs WHERE id = ?
unfoldable pub get : String → Table → Option Job
get id [] = none
get id (j ∷ q) = if j.id == id then some j else get id q

-- INSERT OR IGNORE
unfoldable pub enqueue : String → Bool → Option String → ℕ → Table → Table
unfolding get
enqueue id refresh staff_dir now q = elim (get id q) [
  | some j ↦ q
  | none ↦
      q
      ++ record {
        id = id;
        refresh = refresh;
        staff_dir = staff_dir;
        status = pending;
        attempts = 0;
        due = now;
        lease = none;
        error = "";
        snapshot = "";
      }
        ∷ []
]

-- The first UPDATE of `claim`: a worker that died with its third attempt.
unfoldable pub dead_letter : ℕ → Job → Job
dead_letter now j =
    if is_running j && leb j.due now && leb 3 j.attempts
    then record j { status = dead; error = "worker lease expired" }
    else j

-- status = 'running' AND due > ?
abbrev pub is_live : ℕ → Job → Bool
is_live now j = is_running j && ltb now j.due

abbrev pub is_claimable : ℕ → Job → Bool
is_claimable now j = is_open j && leb j.due now

-- ORDER BY due, id
abbrev pub is_before : Job → Job → Bool
is_before a b = ltb a.due b.due || (a.due == b.due && is_le (compare a.id b.id))

unfoldable pub earlier : Job → Option Job → Option Job
earlier j none = some j
earlier j (some k) = if is_before j k then some j else some k

-- The first claimable row in that order (LIMIT 1).
unfoldable pub first_due : ℕ → Table → Option Job
unfolding earlier
first_due now [] = none
first_due now (j ∷ q) = if is_claimable now j then earlier j (first_due now q) else first_due now q

-- The second UPDATE of `claim`, at one row.
unfoldable pub take_lease : String → ℕ → Job → Job
take_lease token until j = record j {
  status = running;
  attempts = j.attempts + 1;
  lease = some token;
  due = until;
}

-- ... WHERE id = ?
unfoldable pub at_row : String → (Job → Job) → Job → Job
at_row id f j = if j.id == id then f j else j

-- The row that `claim` selects from the table as dead-lettering left it.
unfoldable pub select : ℕ → Table → Option Job
unfolding any first_due
select now q = if any (is_live now) q then none else first_due now q

unfoldable pub lease_to : Option Job → String → ℕ → Table → Option Job × Table
unfolding at_row take_lease get
lease_to none token until q = (none, q)
lease_to (some j) token until q =
    let q' = map (at_row j.id (take_lease token until)) q in (get j.id q', q')

-- `claim`: the job for this invocation, and the table after the transaction.
unfoldable pub claim : ℕ → ℕ → String → Table → Option Job × Table
unfolding dead_letter select lease_to
claim now lease_seconds token q =
    let q' = map (dead_letter now) q in lease_to (select now q') token (now + lease_seconds) q'

pub data Result {ℓ} (A : Type ℓ) : Type ℓ where
  ok : A → Result A
  raise : String → Result A

-- A NULL lease equals nothing.
abbrev pub same_lease : Option String → Option String → Bool
same_lease (some token) (some t) = t == token
same_lease _ _ = false

-- id = ? AND status = 'running' AND lease = ?
unfoldable pub holds : Job → Job → Bool
holds job j = j.id == job.id && is_running j && same_lease job.lease j.lease

unfoldable pub outcome : Job → String → Status
outcome job error = if error == "" then done else if leb 3 job.attempts then dead else pending

-- The UPDATE of `finish`, at one row. 60 * 2 ** (attempts - 1) is written 60 * 2 ^ attempts / 2,
-- which is the same at every count, 0 included.
unfoldable pub settle : Job → ℕ → String → String → Job → Job
unfolding outcome
settle job now error snapshot j = record j {
  status = outcome job error;
  due = now + 60 * 2 ^ job.attempts / 2;
  error = error;
  snapshot = snapshot;
  lease = none;
}

unfoldable pub settle_held : Job → ℕ → String → String → Job → Job
unfolding holds settle
settle_held job now error snapshot j = if holds job j then settle job now error snapshot j else j

-- `finish`: a row count other than one raises, and the transaction is rolled back.
unfoldable pub finish : Job → ℕ → String → String → Table → Result (Unit {0}) × Table
unfolding keep holds settle_held
finish job now error snapshot q =
    if length (keep (holds job) q) == 1
    then (ok tt, map (settle_held job now error snapshot) q)
    else (raise "Worker lease no longer belongs to this attempt", q)

-- What `index.build` returns that `work` reads: report['delta']['failed'] and report['snapshot'].
pub record Report : Type 0 where
  pub failed : List String
  pub snapshot : String

-- The body of the `try` in `work`, from the exit code of `crawl.run` and the report of
-- `index.build`, each of which may raise.
unfoldable pub attempt : Job → Result ℕ → Result Report → Result String
attempt job crawled built =
    let indexing : Result String = elim built [
      | raise e ↦ raise e
      | ok report ↦ elim report.failed [
        | [] ↦ ok report.snapshot
        | _ ∷ _ ↦ raise "Some sources failed indexing; retry required"
      ]
    ] in
    if job.refresh
    then elim crawled [
      | raise e ↦ raise e
      | ok code ↦
          if code == 0 then indexing else raise "Crawl failed; previous source release retained"
    ]
    else indexing

-- The exit code of `work`, or what `finish` raises.
unfoldable pub exit_with : ℕ → Result (Unit {0}) × Table → Result ℕ × Table
exit_with code (ok u, q) = (ok code, q)
exit_with code (raise e, q) = (raise e, q)

unfoldable pub report_job : Job → ℕ → Result String → Table → Result ℕ × Table
unfolding exit_with finish
report_job job now (raise e) q = exit_with 1 (finish job now e "" q)
report_job job now (ok snapshot) q = exit_with 0 (finish job now "" snapshot q)

-- `work` is two transactions, `claim` and `finish`, each with its reading of the clock. `meanwhile` is
-- what other connections do to the table while the job runs between them.
unfoldable pub work :
    ℕ
    → ℕ
    → String
    → (Job → Result ℕ)
    → (Job → Result Report)
    → (Table → Table)
    → Table
    → Result ℕ × Table
unfolding claim attempt report_job
work claimed_at finished_at token crawled built meanwhile q =
    let (job, q') = claim claimed_at 86400 token q in
    elim job [
      | none ↦ (ok 0, q')
      | some j ↦ report_job j finished_at (attempt j (crawled j) (built j)) (meanwhile q')
    ]
