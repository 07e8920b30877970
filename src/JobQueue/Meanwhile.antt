-- ===== src/JobQueue/Meanwhile.antt =====
-- What other workers may do to the table between the claim of `work` and its `finish`, which are two
-- transactions (assistant/indexing/pipeline.py), and what they leave of the row that was claimed.
use technical_knowledge_assi.Prelude.{
  ℕ, ◌+◌, ◌≤◌, String, ◌≡◌, ◌≢◌, ◌⊎◌, Bool, Option, Option-cases, ap, false, some, [], ◌∷◌, map,
  arith, any, keep, length, Bool-cases, inl, inr, ◌==◌, string_eq, nat_eq, subst, sym, ◌∙◌, leb,
  ◌&&◌,
}
use technical_knowledge_assi.JobQueue.{
  Job, Table, running, is_live, dead_letter, take_lease, settle, outcome, settle_held, holds, get,
  enqueue, claim, finish, at_row,
}
use technical_knowledge_assi.JobQueue.Rows.{
  IsKeyed, get-map, dead_letter-KeepsId, leased, leased-KeepsId, claim-Claimed, claim-none,
}
use technical_knowledge_assi.JobQueue.Keys.{
  get-append, IsKeyed-enqueue, IsKeyed-claim, IsKeyed-finish, settle_held-KeepsId,
}
use technical_knowledge_assi.JobQueue.Exclusive.{World}
use technical_knowledge_assi.JobQueue.Attempts.{holds_parts, same_lease-eq}

-- One step of somebody else: the clock runs, a job is added, a claim under another token, or a
-- `finish` of a job that was claimed under another token.
pub data OtherStep (token : String) : World → World → Type 0 where
  wait : (w : World) (n : ℕ) → OtherStep token w (record w { clock = w.clock + n })
  add :
      (w : World) (id : String) (refresh : Bool) (staff_dir : Option String)
      → OtherStep token w (record w { table = enqueue id refresh staff_dir w.clock w.table })
  take :
      (w : World) (lease_seconds : ℕ) (other : String)
      → (other == token) ≡ false
      → OtherStep token w (record w { table = (claim w.clock lease_seconds other w.table).1 })
  settle_job :
      (w : World) (job : Job) (error snapshot : String)
      → job.lease ≢ some token
      → OtherStep token w (record w { table = (finish job w.clock error snapshot w.table).1 })

pub data Meanwhile (token : String) (s : World) : World → Type 0 where
  here : Meanwhile token s s
  next : {t u : World} → Meanwhile token s t → OtherStep token t u → Meanwhile token s u

any-get :
    (p : Job → Bool) (id : String) (q : Table) {row : Job}
    → any p q ≡ false
    → get id q ≡ some row
    → p row ≡ false
unfolding any get
any-get p id [] {row} h e = cc
any-get p id (j ∷ q) {row} h e = ground (arith, any-get p id q {row = row})

module _ (job : Job) (token : String) (runs : job.status ≡ running)
    (leases : job.lease ≡ some token) where
  -- The claimed row is untouched, or its lease has run out and somebody else has it.
  abbrev pub IsKept : ℕ → Job → Type 0
  IsKept now row = (row ≡ job) ⊎ ((job.due ≤ now) × (holds job row ≡ false))

  abbrev pub IsFound : World → Type 0
  IsFound w = IsKeyed w.table × (row : Job) × (get job.id w.table ≡ some row) × IsKept w.clock row

  settled-IsLost :
      (other : Job) (t : ℕ) (error snapshot : String) (row : Job)
      → holds job row ≡ false
      → holds job (settle_held other t error snapshot row) ≡ false
  unfolding settle_held settle outcome holds
  settled-IsLost other t error snapshot row lost = ground arith

  dead_letter-IsLost :
      (now : ℕ) (row : Job) → holds job row ≡ false → holds job (dead_letter now row) ≡ false
  unfolding dead_letter holds
  dead_letter-IsLost now row lost = ground arith

  -- A row that is dead-lettered had run out.
  dead_letter-cases :
      (now : ℕ)
      → (dead_letter now job ≡ job) ⊎ ((job.due ≤ now) × (holds job (dead_letter now job) ≡ false))
  unfolding dead_letter holds
  dead_letter-cases now = elim (Bool-cases (leb job.due now && leb 3 job.attempts)) [
    | inl over ↦ inr (ground arith, ground arith)
    | inr alive ↦ inl (ground arith)
  ]

  dead_letter-IsKept : (now : ℕ) (row : Job) → IsKept now row → IsKept now (dead_letter now row)
  dead_letter-IsKept now row (inl same) =
      subst (λ r. IsKept now (dead_letter now r)) (sym same) (dead_letter-cases now)
  dead_letter-IsKept now row (inr (late, lost)) = inr (late, dead_letter-IsLost now row lost)

  idle-IsLate : (now : ℕ) → is_live now job ≡ false → job.due ≤ now
  idle-IsLate now idle = ground (arith, runs)

  leased-IsLost :
      (other : String) (until : ℕ) (from row : Job)
      → (other == token) ≡ false
      → holds job row ≡ false
      → holds job (leased other until from row) ≡ false
  unfolding at_row take_lease holds
  leased-IsLost other until from row differs lost = ground (arith, leases)

  leased-IsKept :
      (now until : ℕ) (other : String) (from row : Job)
      → (other == token) ≡ false
      → is_live now row ≡ false
      → IsKept now row
      → IsKept now (leased other until from row)
  unfolding at_row take_lease holds
  leased-IsKept now until other from row differs idle (inl same) =
      elim (Bool-cases (row.id == from.id)) [
        | inl hit ↦ inr (
          idle-IsLate now (subst (λ r. is_live now r ≡ false) same idle),
          rw hit (ground (arith, leases)),
        )
        | inr miss ↦ inl (rw miss same)
      ]
  leased-IsKept now until other from row differs idle (inr (late, lost)) =
      inr (late, leased-IsLost other until from row differs lost)

  found-map :
      (f : Job → Job) (now : ℕ) (q : Table) {row : Job}
      → ((j : Job) → (f j).id ≡ j.id)
      → get job.id q ≡ some row
      → IsKept now (f row)
      → (row' : Job) × (get job.id (map f q) ≡ some row') × IsKept now row'
  found-map f now q {row} ids found kept = (f row, get-map f ids job.id q ∙ rw found, kept)

  settle_held-IsKept :
      (other : Job) (now t : ℕ) (error snapshot : String) (row : Job)
      → other.lease ≢ some token
      → IsKept now row
      → IsKept now (settle_held other t error snapshot row)
  unfolding settle_held
  settle_held-IsKept other now t error snapshot row differs (inl same) =
      elim (Bool-cases (holds other row)) [
        | inl held ↦ absurd (
            differs (
              sym (same_lease-eq other.lease row.lease (holds_parts other row held).1)
              ∙ ap (λ (j : Job). j.lease) same
              ∙ leases))
        | inr free ↦ inl (rw free same)
      ]
  settle_held-IsKept other now t error snapshot row differs (inr (late, lost)) =
      inr (late, settled-IsLost other t error snapshot row lost)

  with_key :
      (w : World)
      → IsKeyed w.table
      → (row : Job) × (get job.id w.table ≡ some row) × IsKept w.clock row
      → IsFound w
  with_key w keyed (row, found, kept) = (keyed, row, found, kept)

  finish-IsFound :
      (w : World) (other : Job) (error snapshot : String)
      → other.lease ≢ some token
      → IsFound w
      → IsFound (record w { table = (finish other w.clock error snapshot w.table).1 })
  unfolding finish
  finish-IsFound w other error snapshot differs (keyed, row, found, kept) =
      with_key (record w { table = (finish other w.clock error snapshot w.table).1 })
        (IsKeyed-finish w.clock other error snapshot w.table keyed)
        (elim (Bool-cases (length (keep (holds other) w.table) == 1)) [
          | inl held ↦
              rw (held, finish)
                (found-map (settle_held other w.clock error snapshot) w.clock w.table
                  (settle_held-KeepsId other w.clock error snapshot) found
                  (settle_held-IsKept other w.clock w.clock error snapshot row differs kept))
          | inr free ↦ rw (free, finish) (row, found, kept)
        ])

  claim-IsFound :
      (w : World) (lease_seconds : ℕ) (other : String)
      → (other == token) ≡ false
      → IsFound w
      → IsFound (record w { table = (claim w.clock lease_seconds other w.table).1 })
  claim-IsFound w lease_seconds other differs (keyed, row, found, kept) =
      let q' : Table = map (dead_letter w.clock) w.table in
      let (row', found', kept') =
        found-map (dead_letter w.clock) w.clock w.table (dead_letter-KeepsId w.clock) found
          (dead_letter-IsKept w.clock row kept) in
      with_key (record w { table = (claim w.clock lease_seconds other w.table).1 })
        (IsKeyed-claim w.clock lease_seconds other w.table keyed)
        (elim (Option-cases (claim w.clock lease_seconds other w.table).0) [
          | inl e ↦
              rw (claim-none w.clock lease_seconds other w.table keyed e).1 (row', found', kept')
          | inr (taken, e) ↦
              let c = claim-Claimed w.clock lease_seconds other w.table keyed e in
              let until : ℕ = w.clock + lease_seconds in
              rw c.table (
                found-map (leased other until c.from) w.clock q' (leased-KeepsId other until c.from)
                  found'
                  (leased-IsKept w.clock until other c.from row' differs
                    (any-get (is_live w.clock) job.id q' c.selected.idle found') kept'))
        ])

  enqueue-IsFound :
      (w : World) (id : String) (refresh : Bool) (staff_dir : Option String)
      → IsFound w
      → IsFound (record w { table = enqueue id refresh staff_dir w.clock w.table })
  unfolding enqueue
  enqueue-IsFound w id refresh staff_dir (keyed, row, found, kept) =
      with_key (record w { table = enqueue id refresh staff_dir w.clock w.table })
        (IsKeyed-enqueue id refresh staff_dir w.clock w.table keyed)
        (elim (Option-cases (get id w.table)) [
          | inl absent ↦ rw (absent, enqueue) (row, get-append job.id w.table _ ∙ rw found, kept)
          | inr (old, there) ↦ rw (there, enqueue) (row, found, kept)
        ])

  wait-IsKept : (now n : ℕ) (row : Job) → IsKept now row → IsKept (now + n) row
  wait-IsKept now n row (inl same) = inl same
  wait-IsKept now n row (inr (late, lost)) = inr (omega (arith, late), lost)

  step-IsFound : {w v : World} → OtherStep token w v → IsFound w → IsFound v
  step-IsFound (wait w n) (keyed, row, found, kept) =
      (keyed, row, found, wait-IsKept w.clock n row kept)
  step-IsFound (add w id refresh staff_dir) h = enqueue-IsFound w id refresh staff_dir h
  step-IsFound (take w lease_seconds other differs) h =
      claim-IsFound w lease_seconds other differs h
  step-IsFound (settle_job w other error snapshot differs) h =
      finish-IsFound w other error snapshot differs h

  pub Meanwhile-IsFound : {w v : World} → Meanwhile token w v → IsFound w → IsFound v
  Meanwhile-IsFound here h = h
  Meanwhile-IsFound (next r st) h = step-IsFound st (Meanwhile-IsFound r h)
