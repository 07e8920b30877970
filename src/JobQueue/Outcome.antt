-- ===== src/JobQueue/Outcome.antt =====
-- What `finish` and `work` (assistant/indexing/pipeline.py) leave behind: the row of the job that
-- ran, the exit code, and the fate of a worker whose lease was taken over.
use technical_knowledge_assi.Prelude.{
  ◌≤◌, ◌⊎◌, ℕ, ◌+◌, ◌*◌, ◌/◌, ◌^◌, String, ◌≡◌, ◌≢◌, true, some, refl, ap, false, none, [], ◌∷◌,
  map, arith, keep, Bool-cases, inl, inr, ◌==◌, string_eq, nat_eq, subst, sym, eq_iff, ◌∙◌, leb,
  if◌then◌else◌,
}
use technical_knowledge_assi.JobQueue.{
  pending, running, done, dead, Job, Table, dead_letter, settle, outcome, settle_held, holds, get,
  claim, finish, Result, ok, raise, Report, attempt, work, report_job, exit_with, take_lease,
}
use technical_knowledge_assi.JobQueue.Rows.{
  IsKeyed, get-map, claimed_row, claim-none, claim-Claimed,
}
use technical_knowledge_assi.JobQueue.Meanwhile.{Meanwhile, Meanwhile-IsFound}
use technical_knowledge_assi.JobQueue.Keys.{IsKeyed-claim, settle_held-KeepsId}
use technical_knowledge_assi.JobQueue.Attempts.{holds_parts, same_lease-eq}

abbrev pair : Result ℕ → Table → Result ℕ × Table
pair r q = (r, q)

holds-none : (job : Job) (q : Table) → get job.id q ≡ none → keep (holds job) q ≡ []
unfolding get holds keep
holds-none job [] h = refl
holds-none job (j ∷ q) h = ground (arith, holds-none job q)

holds_other : (job j : Job) → (j.id == job.id) ≡ false → holds job j ≡ false
unfolding holds
holds_other job j h = rw h

-- Of a row that the job's id names, the test of the UPDATE holds exactly if it is the job's lease.
holds_one :
    (job row : Job) (q : Table)
    → IsKeyed q
    → get job.id q ≡ some row
    → keep (holds job) q ≡ (if holds job row then row ∷ [] else [])
unfolding get keep
holds_one job row [] keyed h = cc
holds_one job row (j ∷ q) keyed h = elim (Bool-cases (j.id == job.id)) [
  | inl same ↦
      ground (
        arith,
        holds-none job q (subst (λ i. get i q ≡ none) ((eq_iff j.id job.id).0 same) keyed.0),
      )
  | inr other ↦ rw (holds_other job j other) (holds_one job row q keyed.1 (rw other at h))
]

holds-leased :
    (job : Job) (token : String)
    → job.status ≡ running
    → job.lease ≡ some token
    → holds job job ≡ true
unfolding holds
holds-leased job token s l = ground (arith, s, l, eq_iff job.id job.id, eq_iff token token)

-- `finish` while the row still runs under the job's lease: it does not raise, and the row of that
-- id is settled.
finish_held :
    (job row : Job) (now : ℕ) (error snapshot : String) (q : Table)
    → IsKeyed q
    → get job.id q ≡ some row
    → holds job row ≡ true
    → ((finish job now error snapshot q).0 ≡ ok tt)
      × (get job.id (finish job now error snapshot q).1 ≡ some (settle job now error snapshot row))
unfolding finish
finish_held job row now error snapshot q keyed found held =
    let one : keep (holds job) q ≡ row ∷ [] = holds_one job row q keyed found ∙ rw held in
    rw (one, finish)
      (
        refl,
        get-map (settle_held job now error snapshot) (settle_held-KeepsId job now error snapshot)
              job.id q
            ∙ rw found (unfold settle_held in rw held),
      )

-- A worker whose lease is no longer the row's cannot write its result: `finish` raises, and the
-- table stays as it is.
finish_lost :
    (job row : Job) (now : ℕ) (error snapshot : String) (q : Table)
    → IsKeyed q
    → get job.id q ≡ some row
    → holds job row ≡ false
    → finish job now error snapshot q ≡ (raise "Worker lease no longer belongs to this attempt", q)
unfolding finish
finish_lost job row now error snapshot q keyed found lost =
    let none_held : keep (holds job) q ≡ [] = holds_one job row q keyed found ∙ rw lost in
    rw (none_held, finish)

-- If a later claim gave the job to another worker under a new token, the first worker's `finish`
-- raises and changes nothing, whatever it reports.
pub reclaimed_finish_raises :
    (job : Job) (now lease_seconds : ℕ) (token : String) (q : Table) {job' : Job}
    → IsKeyed q
    → (claim now lease_seconds token q).0 ≡ some job'
    → job'.id ≡ job.id
    → job.lease ≢ some token
    → (later : ℕ) (error snapshot : String)
    → finish job later error snapshot (claim now lease_seconds token q).1 ≡ (
      raise "Worker lease no longer belongs to this attempt",
      (claim now lease_seconds token q).1,
    )
reclaimed_finish_raises job now lease_seconds token q {job'} keyed e same other later error
      snapshot =
    let (found, _, lease) = claimed_row now lease_seconds token q keyed e in
    finish_lost job job' later error snapshot (claim now lease_seconds token q).1
      (IsKeyed-claim now lease_seconds token q keyed)
      (subst (λ i. get i (claim now lease_seconds token q).1 ≡ some job') same found)
      (elim (Bool-cases (holds job job')) [
        | inl held ↦
            absurd (
              other
                (sym (same_lease-eq job.lease job'.lease (holds_parts job job' held).1) ∙ lease))
        | inr lost ↦ lost
      ])

claimed_due :
    (now lease_seconds : ℕ) (token : String) (q : Table) {job : Job}
    → IsKeyed q
    → (claim now lease_seconds token q).0 ≡ some job
    → job.due ≡ now + lease_seconds
unfolding take_lease
claimed_due now lease_seconds token q keyed e =
    ap (λ (j : Job). j.due) (claim-Claimed now lease_seconds token q keyed e).is_job

abbrev pub exit_code : Result String → ℕ
exit_code (raise e) = 1
exit_code (ok snapshot) = 0

-- What the row of a job becomes, by what its attempt came to.
abbrev pub settled : ℕ → Job → Result String → Job
settled now job (ok snapshot) = record job {
  status = done;
  due = now + 60 * 2 ^ job.attempts / 2;
  error = "";
  snapshot = snapshot;
  lease = none;
}
settled now job (raise error) = record job {
  status = if error == "" then done else if leb 3 job.attempts then dead else pending;
  due = now + 60 * 2 ^ job.attempts / 2;
  error = error;
  snapshot = "";
  lease = none;
}

exit_with-ok :
    (code : ℕ) (m : Result (Unit {0}) × Table) → m.0 ≡ ok tt → exit_with code m ≡ (ok code, m.1)
unfolding exit_with
exit_with-ok code (ok u, q) h = refl
exit_with-ok code (raise e, q) h = cc

report_job_settles :
    (job : Job) (now : ℕ) (r : Result String) (q : Table)
    → IsKeyed q
    → get job.id q ≡ some job
    → holds job job ≡ true
    → ((report_job job now r q).0 ≡ ok (exit_code r))
      × (get job.id (report_job job now r q).1 ≡ some (settled now job r))
unfolding report_job settle outcome
report_job_settles job now (ok snapshot) q keyed found held =
    let (fine, row) = finish_held job job now "" snapshot q keyed found held in
    rw (exit_with-ok 0 (finish job now "" snapshot q) fine) (refl, row)
report_job_settles job now (raise error) q keyed found held =
    let (fine, row) = finish_held job job now error "" q keyed found held in
    rw (exit_with-ok 1 (finish job now error "" q) fine) (refl, row)

module _ (now later : ℕ) (token : String) (crawled : Job → Result ℕ) (built : Job → Result Report)
    (meanwhile : Table → Table) (q : Table) where
  work_claimed :
      {job : Job}
      → (claim now 86400 token q).0 ≡ some job
      → work now later token crawled built meanwhile q
        ≡ report_job job later
            (attempt job (crawled job) (built job))
            (meanwhile (claim now 86400 token q).1)
  unfolding work
  work_claimed e = rw (e, work)

  work_unclaimed :
      (claim now 86400 token q).0 ≡ none
      → work now later token crawled built meanwhile q ≡ (ok 0, (claim now 86400 token q).1)
  unfolding work
  work_unclaimed e = rw (e, work)

abbrev pub lost_lease : String
lost_lease = "Worker lease no longer belongs to this attempt"

report_job_lost :
    (job row : Job) (now : ℕ) (r : Result String) (q : Table)
    → IsKeyed q
    → get job.id q ≡ some row
    → holds job row ≡ false
    → report_job job now r q ≡ (raise lost_lease, q)
unfolding report_job exit_with
report_job_lost job row now (ok snapshot) q keyed found lost =
    rw (finish_lost job row now "" snapshot q keyed found lost)
report_job_lost job row now (raise error) q keyed found lost =
    rw (finish_lost job row now error "" q keyed found lost)

-- In a table with one row for each id, a job is claimed and runs while other workers add jobs, claim
-- under other tokens and finish what they claimed, in any order, and while the clock runs. Then `work` does one of two things. It exits with 0
-- or 1, as the attempt came off or not, and the job's row is settled: done with the snapshot, or,
-- after an error with a text, pending with a backoff below three attempts and dead at the third. Or
-- the lease of a day has run out, and `work` raises and leaves the table as the others left it.
pub work_settles :
    (now later : ℕ) (token : String) (crawled : Job → Result ℕ) (built : Job → Result Report)
    (meanwhile : Table → Table) (q : Table) {job : Job}
    → IsKeyed q
    → (claim now 86400 token q).0 ≡ some job
    → Meanwhile token
        (record { clock = now; table = (claim now 86400 token q).1 })
        (record { clock = later; table = meanwhile (claim now 86400 token q).1 })
    → (((work now later token crawled built meanwhile q).0
          ≡ ok (exit_code (attempt job (crawled job) (built job))))
        × (get job.id (work now later token crawled built meanwhile q).1
            ≡ some (settled later job (attempt job (crawled job) (built job)))))
      ⊎ ((now + 86400 ≤ later)
          × (work now later token crawled built meanwhile q
              ≡ (raise lost_lease, meanwhile (claim now 86400 token q).1)))
work_settles now later token crawled built meanwhile q {job} keyed e others =
    let (found, status, lease) = claimed_row now 86400 token q keyed e in
    let q' : Table = meanwhile (claim now 86400 token q).1 in
    let r : Result String = attempt job (crawled job) (built job) in
    let (keyed', row, found', kept) =
      Meanwhile-IsFound job token status lease others
        (IsKeyed-claim now 86400 token q keyed, job, found, inl refl) in
    rw (work_claimed now later token crawled built meanwhile q e) (elim kept [
      | inl same ↦ inl (
          report_job_settles job later r q' keyed' (found' ∙ ap some same)
            (holds-leased job token status lease))
      | inr (late, lost) ↦ inr (
        subst (λ (n : ℕ). n ≤ later) (claimed_due now 86400 token q keyed e) late,
        report_job_lost job row later r q' keyed' found' lost,
      )
    ])

-- If nothing is claimed, `work` exits with 0, and has only dead-lettered.
pub work_idle :
    (now later : ℕ) (token : String) (crawled : Job → Result ℕ) (built : Job → Result Report)
    (meanwhile : Table → Table) (q : Table)
    → IsKeyed q
    → (claim now 86400 token q).0 ≡ none
    → work now later token crawled built meanwhile q ≡ (ok 0, map (dead_letter now) q)
work_idle now later token crawled built meanwhile q keyed e =
    work_unclaimed now later token crawled built meanwhile q e
    ∙ ap (pair (ok 0)) (claim-none now 86400 token q keyed e).1

-- If the attempt on the claimed job fails with an exception whose text is empty, while the claimed row
-- stays as it is and the table keeps one row for each id, the exit code is 1 and the job's row is
-- marked done.
pub work_loses_untold_failure :
    (now later : ℕ) (token : String) (crawled : Job → Result ℕ) (built : Job → Result Report)
    (meanwhile : Table → Table) (q : Table) {job : Job}
    → IsKeyed q
    → (claim now 86400 token q).0 ≡ some job
    → IsKeyed (meanwhile (claim now 86400 token q).1)
    → get job.id (meanwhile (claim now 86400 token q).1) ≡ some job
    → attempt job (crawled job) (built job) ≡ raise ""
    → ((work now later token crawled built meanwhile q).0 ≡ ok 1)
      × (row : Job) × (get job.id (work now later token crawled built meanwhile q).1 ≡ some row)
      × (row.status ≡ done)
work_loses_untold_failure now later token crawled built meanwhile q {job} keyed e keyed' found
      fails =
    let (_, status, lease) = claimed_row now 86400 token q keyed e in
    let (code, row) =
      report_job_settles job later (raise "") (meanwhile (claim now 86400 token q).1) keyed' found
        (holds-leased job token status lease) in
    rw (work_claimed now later token crawled built meanwhile q e, fails)
      (code, settled later job (raise ""), row, refl)
