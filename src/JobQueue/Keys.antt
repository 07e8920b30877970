-- ===== src/JobQueue/Keys.antt =====
-- The primary key of the table of assistant/indexing/pipeline.py holds after every operation.
use technical_knowledge_assi.Prelude.{
  ℕ, ◌+◌, String, ◌≡◌, Bool, Option, some, Option-cases, refl, none, [], ◌∷◌, ◌++◌, map, arith,
  length, keep, Bool-cases, inl, inr, ◌==◌, string_eq, nat_eq, eq_iff,
}
use technical_knowledge_assi.JobQueue.{
  Job, Table, dead_letter, settle_held, holds, get, enqueue, claim, finish,
}
use technical_knowledge_assi.JobQueue.Rows.{
  IsKeyed, IsKeyed-map, dead_letter-KeepsId, leased, leased-KeepsId, claim-Claimed, claim-none,
  KeepsId,
}

pub get-append :
    (id : String) (q q' : Table)
    → get id (q ++ q') ≡ elim (get id q) [ none ↦ get id q' | some j ↦ some j ]
unfolding get
get-append id [] q' = refl
get-append id (j ∷ q) q' = ground (arith, get-append id q q')

IsKeyed-snoc : (q : Table) (j : Job) → IsKeyed q → get j.id q ≡ none → IsKeyed (q ++ j ∷ [])
unfolding get
IsKeyed-snoc [] j h absent = (refl, tt)
IsKeyed-snoc (k ∷ q) j h absent = (
  ground (arith, get-append k.id q (j ∷ []), eq_iff k.id j.id, eq_iff j.id k.id),
  IsKeyed-snoc q j h.1 (ground arith),
)

pub IsKeyed-enqueue :
    (id : String) (refresh : Bool) (staff_dir : Option String) (now : ℕ) (q : Table)
    → IsKeyed q
    → IsKeyed (enqueue id refresh staff_dir now q)
unfolding enqueue
IsKeyed-enqueue id refresh staff_dir now q h = elim (Option-cases (get id q)) [
  | inl absent ↦ rw (absent, enqueue) (IsKeyed-snoc q _ h absent)
  | inr (j, found) ↦ rw (found, enqueue) h
]

pub settle_held-KeepsId :
    (job : Job) (now : ℕ) (error snapshot : String) → KeepsId (settle_held job now error snapshot)
unfolding settle_held
settle_held-KeepsId job now error snapshot j = ground arith

pub IsKeyed-finish :
    (t : ℕ) (job : Job) (error snapshot : String) (q : Table)
    → IsKeyed q
    → IsKeyed (finish job t error snapshot q).1
unfolding finish keep
IsKeyed-finish t job error snapshot q keyed = elim (Bool-cases (length (keep (holds job) q) == 1)) [
  | inl held ↦
      rw (held, finish)
        (IsKeyed-map (settle_held job t error snapshot) (settle_held-KeepsId job t error snapshot) q
          keyed)
  | inr lost ↦ rw (lost, finish) keyed
]

pub IsKeyed-claim :
    (now lease_seconds : ℕ) (token : String) (q : Table)
    → IsKeyed q
    → IsKeyed (claim now lease_seconds token q).1
IsKeyed-claim now lease_seconds token q keyed =
    let q' : Table = map (dead_letter now) q in
    let keyed' : IsKeyed q' = IsKeyed-map (dead_letter now) (dead_letter-KeepsId now) q keyed in
    elim (Option-cases (claim now lease_seconds token q).0) [
      | inl e ↦ rw (claim-none now lease_seconds token q keyed e).1 keyed'
      | inr (job, e) ↦
          let c = claim-Claimed now lease_seconds token q keyed e in
          let until : ℕ = now + lease_seconds in
          rw c.table
            (IsKeyed-map (leased token until c.from) (leased-KeepsId token until c.from) q' keyed')
    ]
