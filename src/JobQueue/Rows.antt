-- ===== src/JobQueue/Rows.antt =====
-- Lemmas on the table of jobs (assistant/indexing/pipeline.py): its primary key, the UPDATEs as
-- maps over the rows, and the row that `claim` selects.
use mathlib.Core.List.{Memᴰ}
use native.Mathlib.Nat.{le_trans}
use technical_knowledge_assi.Prelude.{
  ℕ, ◌≤◌, String, ◌≡◌, ◌≢◌, refl, true, false, Option, none, some, [], ◌∷◌, map, arith, ap, ◌∙◌,
  ◌==◌, string_eq, ==-refl, subst, All, any, Bool-cases, Option-cases, inl, inr, sym, ◌⊎◌, ◌+◌,
  eq_of_==, eq_iff, All-map,
}
use technical_knowledge_assi.JobQueue.{
  Job, Table, running, get, is_claimable, is_live, earlier, first_due, select, at_row, dead_letter,
  take_lease, lease_to, claim,
}

-- No two rows have one id: PRIMARY KEY.
abbrev pub IsKeyed : Table → Type 0
IsKeyed [] = Unit
IsKeyed (j ∷ q) = (get j.id q ≡ none) × IsKeyed q

-- An UPDATE of columns other than the key.
abbrev pub KeepsId : (Job → Job) → Type 0
KeepsId f = (j : Job) → (f j).id ≡ j.id

module _ (f : Job → Job) (ids : KeepsId f) where
  pub get-map :
      (id : String) (q : Table)
      → get id (map f q) ≡ elim (get id q) [ none ↦ none | some j ↦ some (f j) ]
  unfolding get
  get-map id [] = refl
  get-map id (j ∷ q) = ground (arith, ap (λ (i : String). i == id) (ids j), get-map id q)

  pub IsKeyed-map : (q : Table) → IsKeyed q → IsKeyed (map f q)
  IsKeyed-map [] h = tt
  IsKeyed-map (j ∷ q) h = (rw (ids j) (rw (get-map j.id q) (rw h.0)), IsKeyed-map q h.1)

pub dead_letter-KeepsId : (now : ℕ) → KeepsId (dead_letter now)
unfolding dead_letter
dead_letter-KeepsId now j = ground arith

pub at_row-KeepsId : (id : String) (f : Job → Job) → KeepsId f → KeepsId (at_row id f)
unfolding at_row
at_row-KeepsId id f h j = ground (arith, h j)

pub take_lease-KeepsId : (token : String) (until : ℕ) → KeepsId (take_lease token until)
unfolding take_lease
take_lease-KeepsId token until j = refl

pub All-map_of {ℓ κ} :
    (P : Job → Type ℓ) (Q : Job → Type κ) (f : Job → Job)
    → ((j : Job) → P j → Q (f j))
    → (q : Table) → All P q
    → All Q (map f q)
All-map_of P Q f g [] h = tt
All-map_of P Q f g (j ∷ q) h = (g j h.0, All-map_of P Q f g q h.1)

pub All-Memᴰ : (P : Job → Type 0) {j : Job} (q : Table) → All P q → Memᴰ j q → P j
All-Memᴰ P [] h m = elim m [ ]
All-Memᴰ P (k ∷ q) h (Memᴰ.head e) = subst P (sym e) h.0
All-Memᴰ P (k ∷ q) h (Memᴰ.tail m) = All-Memᴰ P q h.1 m

pub get-none_Memᴰ : {j : Job} (q : Table) → get j.id q ≡ none → ¬ Memᴰ j q
unfolding get
get-none_Memᴰ [] h m = elim m [ ]
get-none_Memᴰ {j} (k ∷ q) h (Memᴰ.head e) =
    ground (arith, ap (λ (i : Job). i.id) e, eq_iff k.id j.id)
get-none_Memᴰ {j} (k ∷ q) h (Memᴰ.tail m) =
    ground (arith, λ (p : get j.id q ≡ none). get-none_Memᴰ q p m)

pub get_of_Memᴰ : {j : Job} (q : Table) → IsKeyed q → Memᴰ j q → get j.id q ≡ some j
unfolding get
get_of_Memᴰ [] h m = elim m [ ]
get_of_Memᴰ {j} (k ∷ q) h (Memᴰ.head e) =
    ground (arith, e, ap (λ (i : Job). i.id) e, eq_iff k.id j.id)
get_of_Memᴰ {j} (k ∷ q) h (Memᴰ.tail m) = elim (Bool-cases (k.id == j.id)) [
  | inl same ↦ absurd (get-none_Memᴰ q (subst (λ i. get i q ≡ none) (eq_of_== same) h.0) m)
  | inr other ↦ rw other (get_of_Memᴰ q h.1 m)
]

-- What the SELECT of `claim` returns is a row of the table that may be claimed, and no row that may
-- be claimed is due before it.
pub first_due_cases :
    (now : ℕ) (k : Job) (q : Table) {j : Job}
    → first_due now (k ∷ q) ≡ some j
    → ((k ≡ j) × (is_claimable now k ≡ true)) ⊎ (first_due now q ≡ some j)
unfolding first_due
first_due_cases now k q {j} h = ground arith

pub first_due-Memᴰ : (now : ℕ) (q : Table) {j : Job} → first_due now q ≡ some j → Memᴰ j q
first_due-Memᴰ now [] h = unfold first_due in cc h
first_due-Memᴰ now (k ∷ q) h = elim (first_due_cases now k q h) [
  | inl (e, _) ↦ Memᴰ.head (sym e)
  | inr e ↦ Memᴰ.tail (first_due-Memᴰ now q e)
]

pub first_due-is_claimable :
    (now : ℕ) (q : Table) {j : Job} → first_due now q ≡ some j → is_claimable now j ≡ true
first_due-is_claimable now [] h = unfold first_due in cc h
first_due-is_claimable now (k ∷ q) h = elim (first_due_cases now k q h) [
  | inl (e, c) ↦ subst (λ i. is_claimable now i ≡ true) e c
  | inr e ↦ first_due-is_claimable now q e
]

-- No row that may be claimed is due before `j`.
abbrev pub IsFirst : ℕ → Job → Table → Type 0
IsFirst now j = All (λ k. is_claimable now k ≡ true → j.due ≤ k.due)

first_due-none : (now : ℕ) (j : Job) (q : Table) → first_due now q ≡ none → IsFirst now j q
unfolding first_due
first_due-none now j [] h = tt
first_due-none now j (k ∷ q) h = ground (arith, first_due-none now j q)

first_due_step :
    (now : ℕ) (k i : Job) (q : Table) {j : Job}
    → first_due now (k ∷ q) ≡ some j
    → first_due now q ≡ some i
    → (is_claimable now k ≡ true → j.due ≤ k.due) × (j.due ≤ i.due)
unfolding first_due
first_due_step now k i q {j} h e = ground (arith, ap (λ o. earlier k o) e)

first_due_alone :
    (now : ℕ) (k : Job) (q : Table) {j : Job}
    → first_due now (k ∷ q) ≡ some j
    → first_due now q ≡ none
    → j.due ≤ k.due
unfolding first_due
first_due_alone now k q {j} h e = ground (arith, ap (λ o. earlier k o) e)

pub first_due-IsFirst : (now : ℕ) (q : Table) {j : Job} → first_due now q ≡ some j → IsFirst now j q
first_due-IsFirst now [] h = tt
first_due-IsFirst now (k ∷ q) {j} h = elim (Option-cases (first_due now q)) [
  | inl e ↦ (λ _. first_due_alone now k q h e, first_due-none now j q e)
  | inr (i, e) ↦
      let (here, low) = first_due_step now k i q h e in
      (
        here,
        All-map (λ m. is_claimable now m ≡ true → i.due ≤ m.due)
            (λ m. is_claimable now m ≡ true → j.due ≤ m.due) (λ m f c. le_trans low (f c)) q
            (first_due-IsFirst now q e),
      )
]

-- What `select` returns.
pub record IsSelected (now : ℕ) (q : Table) (j : Job) : Type 0 where
  pub idle : any (is_live now) q ≡ false
  pub row : Memᴰ j q
  pub claimable : is_claimable now j ≡ true
  pub first : IsFirst now j q

pub select-IsSelected : (now : ℕ) (q : Table) {j : Job} → select now q ≡ some j → IsSelected now q j
unfolding select
select-IsSelected now q {j} h = elim (Bool-cases (any (is_live now) q)) [
  | inl busy ↦ cc
  | inr idle ↦
      let e : first_due now q ≡ some j = ground arith in
      record {
        idle = idle;
        row = first_due-Memᴰ now q e;
        claimable = first_due-is_claimable now q e;
        first = first_due-IsFirst now q e;
      }
]

-- The table after a claim that returned a job: one row of the table that dead-lettering left, the
-- selected one, has taken the lease.
pub record Claimed (now lease_seconds : ℕ) (token : String) (q : Table) (job : Job) (q' : Table)
    : Type 0 where
  pub from : Job
  pub selected : IsSelected now (map (dead_letter now) q) from
  pub is_job : job ≡ take_lease token (now + lease_seconds) from
  pub table :
      q' ≡ map (at_row from.id (take_lease token (now + lease_seconds))) (map (dead_letter now) q)

module _ (token : String) (until : ℕ) where
  abbrev pub leased : Job → Job → Job
  leased j = at_row j.id (take_lease token until)

  pub leased-KeepsId : (j : Job) → KeepsId (leased j)
  leased-KeepsId j = at_row-KeepsId j.id (take_lease token until) (take_lease-KeepsId token until)

  leased_self : (j : Job) → leased j j ≡ take_lease token until j
  unfolding at_row
  leased_self j = rw (==-refl j.id)

  pub get-leased :
      (q : Table) (j : Job)
      → get j.id q ≡ some j
      → get j.id (map (leased j) q) ≡ some (take_lease token until j)
  get-leased q j h = get-map (leased j) (leased-KeepsId j) j.id q ∙ rw h (ap some (leased_self j))

claim-Claimed_of :
    (now lease_seconds : ℕ) (token : String) (q : Table) (o : Option Job) {job : Job}
    → IsKeyed (map (dead_letter now) q)
    → select now (map (dead_letter now) q) ≡ o
    → (lease_to o token (now + lease_seconds) (map (dead_letter now) q)).0 ≡ some job
    → Claimed now lease_seconds token q job
        (lease_to o token (now + lease_seconds) (map (dead_letter now) q)).1
unfolding lease_to
claim-Claimed_of now lease_seconds token q none keyed e p = absurd (cc)
claim-Claimed_of now lease_seconds token q (some j) keyed e p =
    let chosen = select-IsSelected now (map (dead_letter now) q) e in
    record {
      from = j;
      selected = chosen;
      is_job = cc (
        p,
        get-leased token (now + lease_seconds) (map (dead_letter now) q) j
            (get_of_Memᴰ (map (dead_letter now) q) keyed chosen.row),
      );
      table = refl;
    }

pub claim-Claimed :
    (now lease_seconds : ℕ) (token : String) (q : Table) {job : Job}
    → IsKeyed q
    → (claim now lease_seconds token q).0 ≡ some job
    → Claimed now lease_seconds token q job (claim now lease_seconds token q).1
unfolding claim
claim-Claimed now lease_seconds token q keyed =
    claim-Claimed_of now lease_seconds token q (select now (map (dead_letter now) q))
      (IsKeyed-map (dead_letter now) (dead_letter-KeepsId now) q keyed) refl

-- The job that a claim returns is a row of the table that it leaves, running under the lease.
pub claimed_row :
    (now lease_seconds : ℕ) (token : String) (q : Table) {job : Job}
    → IsKeyed q
    → (claim now lease_seconds token q).0 ≡ some job
    → (get job.id (claim now lease_seconds token q).1 ≡ some job)
      × (job.status ≡ running)
      × (job.lease ≡ some token)
unfolding take_lease
claimed_row now lease_seconds token q {job} keyed e =
    let c = claim-Claimed now lease_seconds token q keyed e in
    let q' : Table = map (dead_letter now) q in
    let keyed' : IsKeyed q' = IsKeyed-map (dead_letter now) (dead_letter-KeepsId now) q keyed in
    rw (c.table, c.is_job)
      (
        get-leased token (now + lease_seconds) q' c.from (get_of_Memᴰ q' keyed' c.selected.row),
        refl,
        refl,
      )

claim-none_of :
    (token : String) (until now : ℕ) (q : Table) (o : Option Job)
    → IsKeyed q
    → select now q ≡ o
    → (lease_to o token until q).0 ≡ none
    → (select now q ≡ none) × ((lease_to o token until q).1 ≡ q)
unfolding lease_to
claim-none_of token until now q none keyed e p = (e, refl)
claim-none_of token until now q (some j) keyed e p =
    absurd
      (cc (p, get-leased token until q j (get_of_Memᴰ q keyed (select-IsSelected now q e).row)))

-- A claim that returns no job has only dead-lettered.
pub claim-none :
    (now lease_seconds : ℕ) (token : String) (q : Table)
    → IsKeyed q
    → (claim now lease_seconds token q).0 ≡ none
    → (select now (map (dead_letter now) q) ≡ none)
      × ((claim now lease_seconds token q).1 ≡ map (dead_letter now) q)
unfolding claim
claim-none now lease_seconds token q keyed =
    claim-none_of token (now + lease_seconds) now (map (dead_letter now) q)
      (select now (map (dead_letter now) q))
      (IsKeyed-map (dead_letter now) (dead_letter-KeepsId now) q keyed) refl

pub absent_row : (id : String) (q : Table) → get id q ≡ none → All (λ k. k.id ≢ id) q
unfolding get
absent_row id [] h = tt
absent_row id (k ∷ q) h = ground (arith, eq_iff k.id id, absent_row id q)

-- A row is the only one with its id.
pub unique_row : {j : Job} (q : Table) → IsKeyed q → Memᴰ j q → All (λ k. k.id ≡ j.id → k ≡ j) q
unique_row [] h m = elim m [ ]
unique_row {j} (k ∷ q) h (Memᴰ.head e) = (
  λ _. sym e,
  All-map (λ i. i.id ≢ k.id) (λ i. i.id ≡ j.id → i ≡ j)
      (λ i ne same. absurd (ne (same ∙ ap (λ (x : Job). x.id) e))) q (absent_row k.id q h.0),
)
unique_row {j} (k ∷ q) h (Memᴰ.tail m) =
    (λ same. absurd (get-none_Memᴰ q (subst (λ i. get i q ≡ none) same h.0) m), unique_row q h.1 m)
