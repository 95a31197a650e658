-- ===== src/Jobs/Postgres/Simulation.antt =====
-- Two queues that hold the same jobs in the same order, one in memory and one in a table, with
-- ids of their own: apps/api/app/jobs/dispatcher.py and jobs/store.py.
use zero_node.Prelude.{
  ℕ, ◌≤◌, ◌<◌, String, ◌≡◌, refl, sym, ap, transport, ◌∙◌, Bool, true, Option, none, some, List, [],
  ◌∷◌, map, first, All, ◌⊎◌, inl, inr, Bool-cases, Option-cases, arith, ◌==◌, if◌then◌else◌,
}
use zero_node.Jobs.State.{MemoryJob, is_dead, is_running}
use zero_node.Jobs.Dispatcher.{update_job, requeue, release, lease, is_ready, depth}
use zero_node.Jobs.Dispatcher.Order.{IsAscending, Above}
use zero_node.Jobs.Postgres.{
  JobRow, least_id, select_where, update_where, queue_depth, row_ready, lease_row, row_expired,
  release_row,
}

-- Two due times that no clock from `clock` on tells apart: a new job is due at 0 in memory, and at the
-- time of its insertion in the table.
abbrev pub Due : ℕ → ℕ → ℕ → Type 0
Due clock a b = (a ≡ b) ⊎ ((a ≤ clock) × (b ≤ clock))

module _ {J : Type 0} where
  -- The same job, but for its id, and for the error of a job that is not dead: the two differ after
  -- `reclaim_expired`, and a claim clears it.
  pub record Twin (clock : ℕ) (j : MemoryJob J) (r : JobRow J) : Type 0 where
    pub kind_eq : j.kind ≡ r.entry.kind
    pub thread_eq : j.thread_id ≡ r.entry.thread_id
    pub key_eq : j.dedupe_key ≡ r.entry.dedupe_key
    pub payload_eq : j.payload ≡ r.entry.payload
    pub status_eq : j.status ≡ r.entry.status
    pub attempts_eq : j.attempts ≡ r.entry.attempts
    pub max_eq : j.max_attempts ≡ r.entry.max_attempts
    pub error_eq : is_dead j.status ≡ true → j.last_error ≡ r.entry.last_error
    pub owner_eq : j.lease_owner ≡ r.entry.lease_owner
    pub expires_eq : j.lease_expires_at ≡ r.entry.lease_expires_at
    pub due : Due clock j.available_at r.available_at
    pub started : is_running j.status ≡ true → j.available_at ≤ clock

  abbrev pub Matches : ℕ → List (MemoryJob J) → List (JobRow J) → Type 0
  Matches clock [] [] = Unit
  Matches clock [] (r ∷ rs) = ⊥
  Matches clock (j ∷ js) [] = ⊥
  Matches clock (j ∷ js) (r ∷ rs) = Twin clock j r × Matches clock js rs

  -- The id `k` in memory and the id `m` in the table name the same job.
  abbrev pub SameJob : ℕ → ℕ → List (MemoryJob J) → List (JobRow J) → Type 0
  SameJob k m [] [] = Unit
  SameJob k m [] (r ∷ rs) = ⊥
  SameJob k m (j ∷ js) [] = ⊥
  SameJob k m (j ∷ js) (r ∷ rs) = ((j.id == k) ≡ (r.id == m)) × SameJob k m js rs

  abbrev pub RowsAbove : ℕ → List (JobRow J) → Type 0
  RowsAbove n = All (λ r. n < r.id)

  abbrev pub RowsAscend : List (JobRow J) → Type 0
  RowsAscend [] = Unit
  RowsAscend (r ∷ rs) = RowsAbove r.id rs × RowsAscend rs

  pub later :
      (clock now : ℕ) (j : MemoryJob J) (r : JobRow J) → clock ≤ now → Twin clock j r → Twin now j r
  later clock now j r h t = ground arith

  pub requeue-Twin :
      (clock now : ℕ) (j : MemoryJob J) (r : JobRow J)
      → clock ≤ now
      → Twin clock j r
      → Twin now (requeue now j) (if row_expired now r then release_row now r else r)
  requeue-Twin clock now j r h t = ground arith

  pub lease-Twin :
      (now : ℕ) (w : String) (l : ℕ) (j : MemoryJob J) (r : JobRow J)
      → is_ready now j ≡ true
      → Twin now j r
      → Twin now (lease now w l j) (lease_row now w l r)
  lease-Twin now w l j r ready t = ground arith

  pub ready-Twin :
      (now : ℕ) (j : MemoryJob J) (r : JobRow J) → Twin now j r → is_ready now j ≡ row_ready now r
  ready-Twin now j r t = ground arith

  pub Matches-map :
      (clock now : ℕ) (f : MemoryJob J → MemoryJob J) (g : JobRow J → JobRow J)
      (js : List (MemoryJob J)) (rs : List (JobRow J))
      → ((j : MemoryJob J) (r : JobRow J) → Twin clock j r → Twin now (f j) (g r))
      → Matches clock js rs
      → Matches now (map f js) (map g rs)
  Matches-map clock now f g [] [] keep h = tt
  Matches-map clock now f g [] (r ∷ rs) keep h = h
  Matches-map clock now f g (j ∷ js) [] keep h = h
  Matches-map clock now f g (j ∷ js) (r ∷ rs) keep h =
      (keep j r h.0, Matches-map clock now f g js rs keep h.1)

  pub release-Twin :
      (clock now : ℕ) (j : MemoryJob J) (r : JobRow J)
      → clock ≤ now
      → Twin clock j r
      → Twin now (release now j) (if row_expired now r then release_row now r else r)
  release-Twin clock now j r h t = ground arith

  -- A write to the same job of both.
  pub Matches-update :
      (clock now k m : ℕ) (f : MemoryJob J → MemoryJob J) (g : JobRow J → JobRow J)
      (js : List (MemoryJob J)) (rs : List (JobRow J))
      → clock ≤ now
      → ((j : MemoryJob J) (r : JobRow J) → Twin clock j r → Twin now (f j) (g r))
      → SameJob k m js rs
      → Matches clock js rs
      → Matches now (update_job k f js) (update_where (λ r. r.id == m) g rs)
  Matches-update clock now k m f g [] [] le keep same h = tt
  Matches-update clock now k m f g [] (r ∷ rs) le keep same h = h
  Matches-update clock now k m f g (j ∷ js) [] le keep same h = h
  Matches-update clock now k m f g (j ∷ js) (r ∷ rs) le keep same h =
      let rest = Matches-update clock now k m f g js rs le keep same.1 h.1 in
      elim (Bool-cases (j.id == k)) [
        | inl this ↦ rw (this, sym same.0 ∙ this) (keep j r h.0, rest)
        | inr other ↦ rw (other, sym same.0 ∙ other) (later clock now j r le h.0, rest)
      ]

  -- A write for which every job with this id is ready.
  pub Matches-ready :
      (now k m : ℕ) (f : MemoryJob J → MemoryJob J) (g : JobRow J → JobRow J)
      (js : List (MemoryJob J)) (rs : List (JobRow J))
      → ((j : MemoryJob J) (r : JobRow J)
          → is_ready now j ≡ true
          → Twin now j r
          → Twin now (f j) (g r))
      → All (λ j. j.id ≡ k → is_ready now j ≡ true) js
      → SameJob k m js rs
      → Matches now js rs
      → Matches now (update_job k f js) (update_where (λ r. r.id == m) g rs)
  Matches-ready now k m f g [] [] keep ready same h = tt
  Matches-ready now k m f g [] (r ∷ rs) keep ready same h = h
  Matches-ready now k m f g (j ∷ js) [] keep ready same h = h
  Matches-ready now k m f g (j ∷ js) (r ∷ rs) keep ready same h =
      let rest = Matches-ready now k m f g js rs keep ready.1 same.1 h.1 in
      elim (Bool-cases (j.id == k)) [
        | inl this ↦ rw (this, sym same.0 ∙ this) (keep j r (ready.0 (ground arith)) h.0, rest)
        | inr other ↦ rw (other, sym same.0 ∙ other) (h.0, rest)
      ]

  -- Selecting from a table whose rows stand in the order of their ids.
  above-select :
      (n : ℕ) (p : JobRow J → Bool) (rs : List (JobRow J)) (q : JobRow J)
      → RowsAbove n rs
      → first p rs ≡ some q
      → n < q.id
  above-select n p [] q h e = cc
  above-select n p (r ∷ rs) q h e = elim (Bool-cases (p r)) [
    | inl hit ↦ ground arith
    | inr miss ↦ above-select n p rs q h.1 (ground arith)
  ]

  pub least-eq-first :
      (p : JobRow J → Bool) (rs : List (JobRow J))
      → RowsAscend rs
      → least_id (select_where p rs) ≡ first p rs
  least-eq-first p [] h = refl
  least-eq-first p (r ∷ rs) h = elim (Bool-cases (p r)) [
    | inr miss ↦ rw (miss, select_where, first) (least-eq-first p rs h.1)
    | inl hit ↦
        rw (hit, select_where, first)
          (elim (Option-cases (first p rs)) [
            | inl alone ↦ ground (arith, least-eq-first p rs h.1)
            | inr (q, found) ↦
                ground (arith, least-eq-first p rs h.1, above-select r.id p rs q h.0 found)
          ])
  ]

  all_other :
      (k m : ℕ) (js : List (MemoryJob J)) (rs : List (JobRow J)) (clock : ℕ)
      → Matches clock js rs
      → Above k js
      → RowsAbove m rs
      → SameJob k m js rs
  all_other k m [] [] clock h a b = tt
  all_other k m [] (r ∷ rs) clock h a b = h
  all_other k m (j ∷ js) [] clock h a b = h
  all_other k m (j ∷ js) (r ∷ rs) clock h a b =
      (ground arith, all_other k m js rs clock h.1 a.1 b.1)

  Above-first :
      (n : ℕ) (p : MemoryJob J → Bool) (js : List (MemoryJob J)) (a : MemoryJob J)
      → Above n js
      → first p js ≡ some a
      → n < a.id
  Above-first n p [] a h e = cc
  Above-first n p (j ∷ js) a h e = elim (Bool-cases (p j)) [
    | inl hit ↦ ground arith
    | inr miss ↦ Above-first n p js a h.1 (ground arith)
  ]

  Above-other :
      (n : ℕ) (p : MemoryJob J → Bool) (js : List (MemoryJob J))
      → Above n js
      → All (λ j. j.id ≡ n → p j ≡ true) js
  Above-other n p [] h = tt
  Above-other n p (j ∷ js) h = ((λ e. absurd (ground arith)), Above-other n p js h.1)

  -- Every job with the id of the first that passes does pass.
  pub first-passes :
      (p : MemoryJob J → Bool) (js : List (MemoryJob J)) (a : MemoryJob J)
      → IsAscending js
      → first p js ≡ some a
      → All (λ j. j.id ≡ a.id → p j ≡ true) js
  first-passes p [] a h e = tt
  first-passes p (j ∷ js) a h e = elim (Bool-cases (p j)) [
    | inl hit ↦
        let same : j ≡ a = ground arith in
        ((λ _. hit), Above-other a.id p js (transport (ap (λ x. Above x.id js) same) h.0))
    | inr miss ↦
        let later = Above-first j.id p js a h.0 (ground arith) in
        ((λ e'. absurd (omega arith)), first-passes p js a h.1 (ground arith))
  ]

  -- The first job that passes is the same on both sides.
  abbrev pub FirstTwins :
      ℕ → List (MemoryJob J) → List (JobRow J) → Option (MemoryJob J) → Option (JobRow J) → Type 0
  FirstTwins clock js rs none none = Unit
  FirstTwins clock js rs none (some b) = ⊥
  FirstTwins clock js rs (some a) none = ⊥
  FirstTwins clock js rs (some a) (some b) = Twin clock a b × SameJob a.id b.id js rs

  widen :
      (clock : ℕ) (j : MemoryJob J) (r : JobRow J) (js : List (MemoryJob J)) (rs : List (JobRow J))
      (a : Option (MemoryJob J)) (b : Option (JobRow J))
      → ((x : MemoryJob J) → a ≡ some x → j.id < x.id)
      → ((y : JobRow J) → b ≡ some y → r.id < y.id)
      → FirstTwins clock js rs a b
      → FirstTwins clock (j ∷ js) (r ∷ rs) a b
  widen clock j r js rs none none ja rb h = tt
  widen clock j r js rs none (some b) ja rb h = h
  widen clock j r js rs (some a) none ja rb h = h
  widen clock j r js rs (some a) (some b) ja rb h =
      (h.0, (ground (arith, ja a refl, rb b refl), h.1))

  pub first-twins :
      (clock : ℕ) (p : MemoryJob J → Bool) (q : JobRow J → Bool) (js : List (MemoryJob J))
      (rs : List (JobRow J))
      → ((j : MemoryJob J) (r : JobRow J) → Twin clock j r → p j ≡ q r)
      → IsAscending js
      → RowsAscend rs
      → Matches clock js rs
      → FirstTwins clock js rs (first p js) (first q rs)
  first-twins clock p q [] [] same a b h = tt
  first-twins clock p q [] (r ∷ rs) same a b h = absurd h
  first-twins clock p q (j ∷ js) [] same a b h = absurd h
  first-twins clock p q (j ∷ js) (r ∷ rs) same a b h = elim (Bool-cases (p j)) [
    | inl hit ↦
        rw (hit, sym (same j r h.0) ∙ hit, first)
          (h.0, (ground arith, all_other j.id r.id js rs clock h.1 a.0 b.0))
    | inr miss ↦
        rw (miss, sym (same j r h.0) ∙ miss, first)
          (widen clock j r js rs (first p js) (first q rs) (λ x e. Above-first j.id p js x a.0 e)
            (λ y e. above-select r.id q rs y b.0 e) (first-twins clock p q js rs same a.1 b.1 h.1))
  ]

  pub depth-eq :
      (clock : ℕ) (js : List (MemoryJob J)) (rs : List (JobRow J))
      → Matches clock js rs
      → depth js ≡ queue_depth rs
  unfolding depth queue_depth
  depth-eq clock [] [] h = refl
  depth-eq clock [] (r ∷ rs) h = absurd h
  depth-eq clock (j ∷ js) [] h = absurd h
  depth-eq clock (j ∷ js) (r ∷ rs) h = ground (arith, depth-eq clock js rs h.1)
