-- ===== src/JobQueue/Attempts.antt =====
-- The bound on retries of assistant/indexing/pipeline.py: no job is tried more than three times,
-- as long as workers finish the jobs that `claim` gave them and lease tokens are not repeated.
use technical_knowledge_assi.Prelude.{
  ℕ, ◌+◌, ◌≤◌, String, ◌≡◌, ◌≢◌, Bool, true, Option, some, Option-cases, refl, ap, none, List, [],
  ◌∷◌, map, arith, length, keep, Bool-cases, inl, inr, ◌==◌, string_eq, nat_eq, subst, sym, ◌∙◌,
  eq_iff, All, All-map, All-append,
}
use technical_knowledge_assi.JobQueue.{
  Status, pending, Job, Table, is_claimable, dead_letter, at_row, take_lease, settle_held,
  same_lease, holds, get, enqueue, claim, finish,
}
use technical_knowledge_assi.JobQueue.Rows.{
  IsKeyed, IsKeyed-map, dead_letter-KeepsId, leased, leased-KeepsId, claim-Claimed, claim-none,
  unique_row, All-Memᴰ, All-map_of,
}
use technical_knowledge_assi.JobQueue.Keys.{IsKeyed-enqueue, IsKeyed-claim, IsKeyed-finish}
use mathlib.Core.List.{Memᴰ}

-- The most attempts that a row can have been given in each state.
abbrev pub limit : Status → ℕ
limit pending = 2
limit _ = 3

abbrev pub IsBounded : Job → Type 0
IsBounded j = j.attempts ≤ limit j.status

-- A row that runs under a job's lease is at the attempt that the job was handed out for.
abbrev pub IsHonest : Job → Job → Type 0
IsHonest job k = holds job k ≡ true → k.attempts ≡ job.attempts

dead_letter-IsBounded : (now : ℕ) (j : Job) → IsBounded j → IsBounded (dead_letter now j)
unfolding dead_letter
dead_letter-IsBounded now j h = ground arith

-- After dead-lettering, what may be claimed has an attempt left.
dead_letter-has_attempt :
    (now : ℕ) (j : Job)
    → IsBounded j
    → is_claimable now (dead_letter now j) ≡ true
    → (dead_letter now j).attempts ≤ 2
unfolding dead_letter
dead_letter-has_attempt now j h c = ground arith

dead_letter-IsHonest : (now : ℕ) (job j : Job) → IsHonest job j → IsHonest job (dead_letter now j)
unfolding dead_letter holds
dead_letter-IsHonest now job j h c = ground arith

settle_held-IsBounded :
    (now : ℕ) (job : Job) (error snapshot : String) (j : Job)
    → IsBounded j × IsHonest job j
    → IsBounded (settle_held job now error snapshot j)
unfolding settle_held
settle_held-IsBounded now job error snapshot j (b, h) = elim (Bool-cases (holds job j)) [
  | inl held ↦ ground (arith, h held)
  | inr lost ↦ ground arith
]

settle_held-IsHonest :
    (now : ℕ) (job : Job) (error snapshot : String) (other j : Job)
    → IsHonest other j
    → IsHonest other (settle_held job now error snapshot j)
unfolding settle_held holds
settle_held-IsHonest now job error snapshot other j h c = ground arith

-- The workers: what they share, the clock, and the jobs that `claim` has handed out.
pub record Fleet : Type 0 where
  pub clock : ℕ
  pub table : Table
  pub issued : List Job

abbrev with_job : Option Job → List Job → List Job
with_job none jobs = jobs
with_job (some job) jobs = job ∷ jobs

-- No job was handed out under the token.
abbrev pub IsNewToken : String → List Job → Type 0
IsNewToken token = All (λ job. job.lease ≢ some token)

pub data Step : Fleet → Fleet → Type 0 where
  wait : (w : Fleet) (n : ℕ) → Step w (record w { clock = w.clock + n })
  add :
      (w : Fleet) (id : String) (refresh : Bool) (staff_dir : Option String)
      → Step w (record w { table = enqueue id refresh staff_dir w.clock w.table })
  take :
      (w : Fleet) (lease_seconds : ℕ) (token : String)
      → IsNewToken token w.issued
      → Step w (record w {
        table = (claim w.clock lease_seconds token w.table).1;
        issued = with_job (claim w.clock lease_seconds token w.table).0 w.issued;
      })
  settle :
      (w : Fleet) (job : Job) (error snapshot : String)
      → Memᴰ job w.issued
      → Step w (record w { table = (finish job w.clock error snapshot w.table).1 })

pub data Reach (s : Fleet) : Fleet → Type 0 where
  here : Reach s s
  next : {t u : Fleet} → Reach s t → Step t u → Reach s u

pub record IsSound (w : Fleet) : Type 0 where
  pub keyed : IsKeyed w.table
  pub bounded : All IsBounded w.table
  pub honest : All (λ job. All (IsHonest job) w.table) w.issued

All-enqueue :
    (P : Job → Type 0) (id : String) (refresh : Bool) (staff_dir : Option String) (now : ℕ)
    (q : Table)
    → ((j : Job) → j.status ≡ pending → j.attempts ≡ 0 → P j)
    → All P q
    → All P (enqueue id refresh staff_dir now q)
unfolding enqueue
All-enqueue P id refresh staff_dir now q new h = elim (Option-cases (get id q)) [
  | inl absent ↦ rw (absent, enqueue) (All-append P q _ h (new _ refl refl, tt))
  | inr (j, found) ↦ rw (found, enqueue) h
]

enqueued-IsHonest : (job j : Job) → j.status ≡ pending → j.attempts ≡ 0 → IsHonest job j
unfolding holds
enqueued-IsHonest job j e a c = ground arith

All-finish :
    (P Q : Job → Type 0) (now : ℕ) (job : Job) (error snapshot : String) (q : Table)
    → ((j : Job) → P j → Q (settle_held job now error snapshot j))
    → ((j : Job) → P j → Q j)
    → All P q
    → All Q (finish job now error snapshot q).1
unfolding finish keep
All-finish P Q now job error snapshot q f g h =
    elim (Bool-cases (length (keep (holds job) q) == 1)) [
      | inl held ↦ rw (held, finish) (All-map_of P Q (settle_held job now error snapshot) f q h)
      | inr lost ↦ rw (lost, finish) (All-map P Q g q h)
    ]

All-both : (P Q : Job → Type 0) (q : Table) → All P q → All Q q → All (λ j. P j × Q j) q
All-both P Q [] h k = tt
All-both P Q (j ∷ q) h k = ((h.0, k.0), All-both P Q q h.1 k.1)

pub holds_parts :
    (job j : Job) → holds job j ≡ true → (j.id ≡ job.id) × (same_lease job.lease j.lease ≡ true)
unfolding holds
holds_parts job j h = ground (arith, eq_iff j.id job.id)

pub same_lease-eq : (a b : Option String) → same_lease a b ≡ true → b ≡ a
same_lease-eq (some t) (some u) h = ap some ((eq_iff u t).0 h)
same_lease-eq (some t) none h = cc
same_lease-eq none b h = cc

-- What becomes of a row, given what it was, if it is the one that takes the lease.
module _ (token : String) (until : ℕ) (from : Job) where
  leased-IsBounded :
      (k : Job)
      → IsBounded k × (k.id ≡ from.id → k ≡ from)
      → from.attempts ≤ 2
      → IsBounded (leased token until from k)
  unfolding at_row take_lease
  leased-IsBounded k (b, same) room = elim (Bool-cases (k.id == from.id)) [
    | inl e ↦ rw e (omega (arith, ap (λ (j : Job). j.attempts) (same ((eq_iff k.id from.id).0 e))))
    | inr e ↦ rw e b
  ]

  leased_row :
      (k : Job) → (k.id == from.id) ≡ true → leased token until from k ≡ take_lease token until k
  unfolding at_row
  leased_row k e = rw e

  leased-IsHonest_old :
      (job k : Job)
      → job.lease ≢ some token
      → IsHonest job k
      → IsHonest job (leased token until from k)
  unfolding at_row take_lease
  leased-IsHonest_old job k new h c = elim (Bool-cases (k.id == from.id)) [
    | inl e ↦ absurd (
        new (
          sym (same_lease-eq job.lease _ (holds_parts job _ c).1)
          ∙ ap (λ (j : Job). j.lease) (leased_row k e)))
    | inr e ↦ rw e (h (rw e at c))
  ]

  leased-IsHonest_new :
      (k : Job)
      → (k.id ≡ from.id → k ≡ from)
      → IsHonest (take_lease token until from) (leased token until from k)
  unfolding at_row take_lease holds
  leased-IsHonest_new k same c =
      let e : k.id ≡ from.id =
        sym (leased-KeepsId token until from k)
        ∙ (holds_parts (take_lease token until from) (leased token until from k) c).0 in
      ap (λ (j : Job). j.attempts) (leased_row k ((eq_iff k.id from.id).1 e))
      ∙ ap (λ (j : Job). j.attempts + 1) (same e)

claim-IsSound :
    (now lease_seconds : ℕ) (token : String) (q : Table) (issued : List Job)
    → IsNewToken token issued
    → IsKeyed q
    → All IsBounded q
    → All (λ job. All (IsHonest job) q) issued
    → All IsBounded (claim now lease_seconds token q).1
      × All
          (λ job. All (IsHonest job) (claim now lease_seconds token q).1)
          (with_job (claim now lease_seconds token q).0 issued)
claim-IsSound now lease_seconds token q issued new keyed bounded honest =
    elim (Option-cases (claim now lease_seconds token q).0) [
      | inl e ↦ rw (e, (claim-none now lease_seconds token q keyed e).1) (bounded', honest')
      | inr (job, e) ↦
          let c = claim-Claimed now lease_seconds token q keyed e in
          let until : ℕ = now + lease_seconds in
          let unique = unique_row q' keyed' c.selected.row in
          rw (e, c.table)
            (
              All-map_of (λ k. IsBounded k × (k.id ≡ c.from.id → k ≡ c.from)) IsBounded
                  (leased token until c.from)
                  (λ k b. leased-IsBounded token until c.from k b (
                    All-Memᴰ (λ k. is_claimable now k ≡ true → k.attempts ≤ 2) q' room
                      c.selected.row c.selected.claimable))
                  q' (All-both IsBounded (λ k. k.id ≡ c.from.id → k ≡ c.from) q' bounded' unique),
              (
                rw c.is_job (
                    All-map_of (λ k. k.id ≡ c.from.id → k ≡ c.from)
                      (IsHonest (take_lease token until c.from)) (leased token until c.from)
                      (leased-IsHonest_new token until c.from) q' unique),
                subst (λ (t : Table). All (λ job. All (IsHonest job) t) issued) (sym c.table)
                    (All-map (λ job. (job.lease ≢ some token) × All (IsHonest job) q')
                      (λ job. All (IsHonest job) (map (leased token until c.from) q'))
                      (λ other (n, h).
                        All-map_of (IsHonest other) (IsHonest other) (leased token until c.from)
                          (λ k. leased-IsHonest_old token until c.from other k n) q' h)
                      issued
                      (All-both (λ job. job.lease ≢ some token) (λ job. All (IsHonest job) q')
                        issued new honest')),
              ),
            )
    ]
  where
    q' : Table
    q' = map (dead_letter now) q

    keyed' : IsKeyed q'
    keyed' = IsKeyed-map (dead_letter now) (dead_letter-KeepsId now) q keyed

    bounded' : All IsBounded q'
    bounded' =
        All-map_of IsBounded IsBounded (dead_letter now) (dead_letter-IsBounded now) q bounded

    room : All (λ k. is_claimable now k ≡ true → k.attempts ≤ 2) q'
    room =
        All-map_of IsBounded (λ k. is_claimable now k ≡ true → k.attempts ≤ 2) (dead_letter now)
          (dead_letter-has_attempt now) q bounded

    honest' : All (λ job. All (IsHonest job) q') issued
    honest' =
        All-map (λ job. All (IsHonest job) q) (λ job. All (IsHonest job) q')
          (λ job.
            All-map_of (IsHonest job) (IsHonest job) (dead_letter now)
              (dead_letter-IsHonest now job) q)
          issued honest

Step-IsSound : {w v : Fleet} → Step w v → IsSound w → IsSound v
Step-IsSound (wait w n) h = record { keyed = h.keyed; bounded = h.bounded; honest = h.honest }
Step-IsSound (add w id refresh staff_dir) h = record {
  keyed = IsKeyed-enqueue id refresh staff_dir w.clock w.table h.keyed;
  bounded =
      All-enqueue IsBounded id refresh staff_dir w.clock w.table (λ j p a. rw p (omega (arith, a)))
        h.bounded;
  honest =
      All-map (λ job. All (IsHonest job) w.table)
        (λ job. All (IsHonest job) (enqueue id refresh staff_dir w.clock w.table))
        (λ job.
          All-enqueue (IsHonest job) id refresh staff_dir w.clock w.table (enqueued-IsHonest job))
        w.issued h.honest;
}
Step-IsSound (take w lease_seconds token new) h =
    let (b, k) =
      claim-IsSound w.clock lease_seconds token w.table w.issued new h.keyed h.bounded h.honest in
    record {
      keyed = IsKeyed-claim w.clock lease_seconds token w.table h.keyed;
      bounded = b;
      honest = k;
    }
Step-IsSound (settle w job error snapshot held) h = record {
  keyed = IsKeyed-finish w.clock job error snapshot w.table h.keyed;
  bounded =
      All-finish (λ j. IsBounded j × IsHonest job j) IsBounded w.clock job error snapshot w.table
        (settle_held-IsBounded w.clock job error snapshot) (λ j b. b.0)
        (All-both IsBounded (IsHonest job) w.table h.bounded
          (All-Memᴰ (λ job. All (IsHonest job) w.table) w.issued h.honest held));
  honest =
      All-map (λ other. All (IsHonest other) w.table)
        (λ other. All (IsHonest other) (finish job w.clock error snapshot w.table).1)
        (λ other.
          All-finish (IsHonest other) (IsHonest other) w.clock job error snapshot w.table
            (settle_held-IsHonest w.clock job error snapshot other) (λ j x. x))
        w.issued h.honest;
}

pub Reach-IsSound : {w v : Fleet} → IsSound w → Reach w v → IsSound v
Reach-IsSound h here = h
Reach-IsSound h (next r st) = Step-IsSound st (Reach-IsSound h r)

abbrev pub fresh_fleet : ℕ → Fleet
fresh_fleet now = record { clock = now; table = []; issued = [] }

-- From an empty table, if lease tokens are never repeated and workers finish only jobs that `claim`
-- handed out (any number of times, in any order), then every row has been given at most three
-- attempts, and at most two while it waits for another.
pub three_attempts : (now : ℕ) {w : Fleet} → Reach (fresh_fleet now) w → All IsBounded w.table
three_attempts now r = (Reach-IsSound (record { keyed = tt; bounded = tt; honest = tt }) r).bounded
