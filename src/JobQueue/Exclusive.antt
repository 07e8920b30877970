-- ===== src/JobQueue/Exclusive.antt =====
-- The interlock of `claim` (assistant/indexing/pipeline.py): one unexpired lease at a time, over
-- every sequence of enqueue, claim and finish by any number of workers while the clock runs.
use technical_knowledge_assi.Prelude.{
  ℕ, ◌+◌, ◌≤◌, String, ◌≡◌, ◌⊎◌, ◌↔◌, Bool, true, Option, Option-cases, refl, ap, false, none, [],
  ◌∷◌, ◌++◌, map, arith, length, keep, any, Bool-cases, inl, inr, ◌==◌, string_eq, nat_eq, subst,
  eq_iff,
}
use technical_knowledge_assi.JobQueue.{
  Job, Table, first_due, is_claimable, select, is_live, dead_letter, at_row, take_lease,
  settle_held, holds, get, enqueue, claim, finish, select, lease_to, first_due, is_claimable,
}
use technical_knowledge_assi.JobQueue.Rows.{
  IsKeyed, IsKeyed-map, dead_letter-KeepsId, claim-Claimed, claim-none,
}
use technical_knowledge_assi.JobQueue.Keys.{IsKeyed-enqueue, IsKeyed-claim, IsKeyed-finish}

-- The number of running rows whose lease has not expired.
abbrev pub live_count : ℕ → Table → ℕ
live_count now q = length (keep (is_live now) q)

any-live_dead_letter :
    (now : ℕ) (q : Table) → any (is_live now) (map (dead_letter now) q) ≡ any (is_live now) q
unfolding any dead_letter
any-live_dead_letter now [] = refl
any-live_dead_letter now (j ∷ q) = ground (arith, any-live_dead_letter now q)

live_count-dead_letter :
    (now : ℕ) (q : Table) → live_count now (map (dead_letter now) q) ≡ live_count now q
unfolding keep dead_letter
live_count-dead_letter now [] = refl
live_count-dead_letter now (j ∷ q) = ground (arith, live_count-dead_letter now q)

live_count-settle_held :
    (now t : ℕ) (job : Job) (error snapshot : String) (q : Table)
    → live_count now (map (settle_held job t error snapshot) q) ≤ live_count now q
unfolding keep settle_held
live_count-settle_held now t job error snapshot [] = omega arith
live_count-settle_held now t job error snapshot (j ∷ q) =
    ground (arith, live_count-settle_held now t job error snapshot q)

live_count-append :
    (now : ℕ) (q q' : Table) → live_count now (q ++ q') ≡ live_count now q + live_count now q'
unfolding keep
live_count-append now [] q' = omega arith
live_count-append now (j ∷ q) q' = ground (arith, live_count-append now q q')

-- Leases only run out as time passes.
live_count-later : (now n : ℕ) (q : Table) → live_count (now + n) q ≤ live_count now q
unfolding keep
live_count-later now n [] = omega arith
live_count-later now n (j ∷ q) = ground (arith, live_count-later now n q)

live_count-idle : (now : ℕ) (q : Table) → any (is_live now) q ≡ false → live_count now q ≡ 0
unfolding keep any
live_count-idle now [] h = refl
live_count-idle now (j ∷ q) h = ground (arith, live_count-idle now q)

module _ (now until : ℕ) (token id : String) where
  abbrev lease_row : Job → Job
  lease_row = at_row id (take_lease token until)

  -- no row has the id
  live_count-absent :
      (q : Table) → get id q ≡ none → live_count now (map lease_row q) ≡ live_count now q
  unfolding keep at_row get
  live_count-absent [] h = refl
  live_count-absent (j ∷ q) h = ground (arith, live_count-absent q)

  -- one row at most has it
  live_count-lease :
      (q : Table) → IsKeyed q → live_count now (map lease_row q) ≤ live_count now q + 1
  unfolding keep at_row
  live_count-lease [] h = omega arith
  live_count-lease (j ∷ q) h = elim (Bool-cases (j.id == id)) [
    | inl same ↦
        ground
          (arith, live_count-absent q (subst (λ i. get i q ≡ none) ((eq_iff j.id id).0 same) h.0))
    | inr other ↦ ground (arith, live_count-lease q h.1)
  ]

-- The state that the workers share, and the clock. `job` of `finish` is whatever a worker holds.
pub record World : Type 0 where
  pub clock : ℕ
  pub table : Table

pub data Step : World → World → Type 0 where
  wait : (w : World) (n : ℕ) → Step w (record w { clock = w.clock + n })
  add :
      (w : World) (id : String) (refresh : Bool) (staff_dir : Option String)
      → Step w (record w { table = enqueue id refresh staff_dir w.clock w.table })
  take :
      (w : World) (lease_seconds : ℕ) (token : String)
      → Step w (record w { table = (claim w.clock lease_seconds token w.table).1 })
  settle :
      (w : World) (job : Job) (error snapshot : String)
      → Step w (record w { table = (finish job w.clock error snapshot w.table).1 })

pub data Reach (s : World) : World → Type 0 where
  here : Reach s s
  next : {t u : World} → Reach s t → Step t u → Reach s u

pub record IsExclusive (w : World) : Type 0 where
  pub keyed : IsKeyed w.table
  pub one_live : live_count w.clock w.table ≤ 1

live_count-finish :
    (now t : ℕ) (job : Job) (error snapshot : String) (q : Table)
    → live_count now (finish job t error snapshot q).1 ≤ live_count now q
unfolding finish keep
live_count-finish now t job error snapshot q =
    elim (Bool-cases (length (keep (holds job) q) == 1)) [
      | inl held ↦ rw (held, finish) (live_count-settle_held now t job error snapshot q)
      | inr lost ↦ rw (lost, finish) (omega arith)
    ]

live_count-claim :
    (now lease_seconds : ℕ) (token : String) (q : Table)
    → IsKeyed q
    → live_count now q ≤ 1
    → live_count now (claim now lease_seconds token q).1 ≤ 1
live_count-claim now lease_seconds token q keyed one =
    let q' : Table = map (dead_letter now) q in
    elim (Option-cases (claim now lease_seconds token q).0) [
      | inl e ↦
          rw (claim-none now lease_seconds token q keyed e).1
            (omega (arith, live_count-dead_letter now q))
      | inr (job, e) ↦
          let c = claim-Claimed now lease_seconds token q keyed e in
          rw c.table (
            omega (
              arith,
              live_count-lease now (now + lease_seconds) token c.from.id q'
                  (IsKeyed-map (dead_letter now) (dead_letter-KeepsId now) q keyed),
              live_count-idle now q' c.selected.idle,
            ))
    ]

live_count-enqueue :
    (t : ℕ) (id : String) (refresh : Bool) (staff_dir : Option String) (now : ℕ) (q : Table)
    → live_count t (enqueue id refresh staff_dir now q) ≡ live_count t q
unfolding keep enqueue
live_count-enqueue t id refresh staff_dir now q = elim (Option-cases (get id q)) [
  | inl absent ↦ rw (absent, enqueue) (omega (arith, live_count-append t q))
  | inr (j, found) ↦ rw (found, enqueue)
]

Step-IsExclusive : {w v : World} → Step w v → IsExclusive w → IsExclusive v
Step-IsExclusive (wait w n) h = record {
  keyed = h.keyed;
  one_live = omega (arith, h.one_live, live_count-later w.clock n w.table);
}
Step-IsExclusive (add w id refresh staff_dir) h = record {
  keyed = IsKeyed-enqueue id refresh staff_dir w.clock w.table h.keyed;
  one_live =
      omega (arith, h.one_live, live_count-enqueue w.clock id refresh staff_dir w.clock w.table);
}
Step-IsExclusive (take w lease_seconds token) h = record {
  keyed = IsKeyed-claim w.clock lease_seconds token w.table h.keyed;
  one_live = live_count-claim w.clock lease_seconds token w.table h.keyed h.one_live;
}
Step-IsExclusive (settle w job error snapshot) h = record {
  keyed = IsKeyed-finish w.clock job error snapshot w.table h.keyed;
  one_live =
      omega (arith, h.one_live, live_count-finish w.clock w.clock job error snapshot w.table);
}

pub Reach-IsExclusive : {w v : World} → IsExclusive w → Reach w v → IsExclusive v
Reach-IsExclusive h here = h
Reach-IsExclusive h (next r st) = Step-IsExclusive st (Reach-IsExclusive h r)

abbrev pub fresh_world : ℕ → World
fresh_world now = record { clock = now; table = [] }

-- From an empty table, whatever enqueue, claim and finish calls are made by however many workers
-- while the clock runs, at most one row is running under a lease that has not expired.
pub one_lease_at_a_time :
    (now : ℕ) {w : World} → Reach (fresh_world now) w → live_count w.clock w.table ≤ 1
unfolding keep
one_lease_at_a_time now r =
    (Reach-IsExclusive (record { keyed = tt; one_live = omega arith }) r).one_live

first_due-none_iff :
    (now : ℕ) (q : Table) → (first_due now q ≡ none) ↔ (any (is_claimable now) q ≡ false)
unfolding first_due any
first_due-none_iff now [] = (λ _. refl, λ _. refl)
first_due-none_iff now (j ∷ q) = ground (arith, first_due-none_iff now q)

select-none_iff :
    (now : ℕ) (q : Table)
    → (select now q ≡ none) ↔ ((any (is_live now) q ≡ true) ⊎ (any (is_claimable now) q ≡ false))
unfolding select
select-none_iff now q = ground (arith, first_due-none_iff now q)

claim_of_select-none :
    (now lease_seconds : ℕ) (token : String) (q : Table)
    → select now (map (dead_letter now) q) ≡ none
    → (claim now lease_seconds token q).0 ≡ none
unfolding claim
claim_of_select-none now lease_seconds token q e =
    ap (λ o. (lease_to o token (now + lease_seconds) (map (dead_letter now) q)).0) e

-- `claim` hands out no job exactly if some row runs under an unexpired lease, or no row is due once
-- the dead workers' last attempts are dead-lettered.
pub claim-none_iff :
    (now lease_seconds : ℕ) (token : String) (q : Table)
    → IsKeyed q
    → ((claim now lease_seconds token q).0 ≡ none)
      ↔ ((any (is_live now) q ≡ true) ⊎ (any (is_claimable now) (map (dead_letter now) q) ≡ false))
claim-none_iff now lease_seconds token q keyed =
    let q' : Table = map (dead_letter now) q in
    (
      λ h.
          rw (← any-live_dead_letter now q)
            ((select-none_iff now q').0 (claim-none now lease_seconds token q keyed h).0),
      λ h.
          claim_of_select-none now lease_seconds token q
            ((select-none_iff now q').1 (rw any-live_dead_letter h)),
    )
