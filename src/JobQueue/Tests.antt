-- ===== src/JobQueue/Tests.antt =====
-- The job queue on concrete tables (assistant/indexing/pipeline.py).
use technical_knowledge_assi.Prelude.{
  ◌≤◌, ◌⊎◌, ◌≡◌, ◌≢◌, refl, false, Option, none, some, [], All, String, ℕ, ap, ne_of_==, string_eq,
}
use technical_knowledge_assi.JobQueue.{
  Job, Table, running, done, get, enqueue, claim, Result, ok, raise, Report, attempt, work, select,
}
use technical_knowledge_assi.JobQueue.Exclusive
use technical_knowledge_assi.JobQueue.Exclusive.{live_count, one_lease_at_a_time, claim-none_iff}
use technical_knowledge_assi.JobQueue.Attempts
use technical_knowledge_assi.JobQueue.Attempts.{IsBounded, three_attempts}
use technical_knowledge_assi.JobQueue.Outcome.{
  work_settles, work_loses_untold_failure, settled, lost_lease,
}
use technical_knowledge_assi.JobQueue.Meanwhile.{OtherStep, Meanwhile}

abbrev one_job : Table
one_job = enqueue "j1" false none 100 []

-- Two workers claim at the same time.
one_lease_at_a_time_example : live_count 100 (claim 100 60 "b" (claim 100 60 "a" one_job).1).1 ≤ 1
one_lease_at_a_time_example = one_lease_at_a_time 100 (
    Exclusive.next
      (Exclusive.next
        (Exclusive.next Exclusive.here (Exclusive.add (Exclusive.fresh_world 100) "j1" false none))
        (Exclusive.take (record { clock = 100; table = one_job }) 60 "a"))
      (Exclusive.take (record { clock = 100; table = (claim 100 60 "a" one_job).1 }) 60 "b"))

three_attempts_example : All IsBounded (claim 100 60 "a" one_job).1
three_attempts_example = three_attempts 100 (
    Attempts.next
      (Attempts.next Attempts.here (Attempts.add (Attempts.fresh_fleet 100) "j1" false none))
      (Attempts.take (record { clock = 100; table = one_job; issued = [] }) 60 "a" tt))

abbrev claimed : Job
claimed = record {
  id = "j1";
  refresh = false;
  staff_dir = none;
  status = running;
  attempts = 1;
  due = 86500;
  lease = some "a";
  error = "";
  snapshot = "";
}

abbrev text_of : Option String → String
text_of none = ""
text_of (some text) = text

other_lease : ◌≢◌ {A = Option String} (some "a") (some "b")
other_lease e = ne_of_== {a = "a"} {b = "b"} refl (ap text_of e)

abbrev crawled_well : Job → Result ℕ
crawled_well _ = ok 0

abbrev built_well : Job → Result Report
built_well _ = ok (record { failed = []; snapshot = "s1" })

abbrev timed_out : Job → Result Report
timed_out _ = raise ""

-- Another job is added while the first one runs.
abbrev joined : Table → Table
joined q = enqueue "j2" false none 150 q

work_settles_example :
    (((work 100 150 "a" crawled_well built_well joined one_job).0 ≡ ok 0)
      × (get "j1" (work 100 150 "a" crawled_well built_well joined one_job).1
          ≡ some (
              settled 150 claimed
                (attempt claimed (ok 0) (ok (record { failed = []; snapshot = "s1" }))))))
    ⊎ ((86500 ≤ 150)
        × (work 100 150 "a" crawled_well built_well joined one_job
            ≡ (raise lost_lease, joined (claim 100 86400 "a" one_job).1)))
unfolding get claim select attempt enqueue
work_settles_example =
    work_settles 100 150 "a" crawled_well built_well joined one_job (refl, tt) refl
      (Meanwhile.next
        (Meanwhile.next Meanwhile.here
          (OtherStep.wait (record { clock = 100; table = (claim 100 86400 "a" one_job).1 }) 50))
        (OtherStep.add (record { clock = 150; table = (claim 100 86400 "a" one_job).1 }) "j2" false
          none))

-- The lease runs out, another worker claims the job, and the first one cannot write its result.
loses_lease :
    (work 100 86600 "a" crawled_well built_well (λ q. (claim 86600 86400 "b" q).1) one_job).0
    ≡ raise lost_lease
unfolding get claim select attempt enqueue work
loses_lease = refl

work_loses_untold_failure_example :
    ((work 100 150 "a" crawled_well timed_out (λ q. q) one_job).0 ≡ ok 1)
    × (row : Job) × (get "j1" (work 100 150 "a" crawled_well timed_out (λ q. q) one_job).1
        ≡ some row)
    × (row.status ≡ done)
unfolding get claim select attempt enqueue
work_loses_untold_failure_example =
    work_loses_untold_failure 100 150 "a" crawled_well timed_out (λ q. q) one_job (refl, tt) refl
      (refl, tt) refl refl
