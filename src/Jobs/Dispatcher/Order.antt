-- ===== src/Jobs/Dispatcher/Order.antt =====
-- The order of the jobs in the dict, and the sort of `claim`: apps/api/app/jobs/dispatcher.py.
use zero_node.Prelude.{
  ℕ, ◌+◌, ◌<◌, ◌≡◌, refl, Bool, some, List, [], ◌∷◌, map, ◌++◌, first, All, Bool-cases, inl, inr,
  arith, ◌==◌, if◌then◌else◌,
}
use zero_node.Jobs.State.{MemoryJob}
use zero_node.Jobs.Dispatcher.{update_job, sort_by_id, insert_by_id}

module _ {J : Type 0} where
  abbrev pub Above : ℕ → List (MemoryJob J) → Type 0
  Above n = All (λ job. n < job.id)

  -- The ids ascend strictly.
  abbrev pub IsAscending : List (MemoryJob J) → Type 0
  IsAscending [] = Unit
  IsAscending (job ∷ jobs) = Above job.id jobs × IsAscending jobs

  abbrev pub Below : ℕ → List (MemoryJob J) → Type 0
  Below n = All (λ job. job.id < n)

  -- A change of other fields.
  abbrev pub KeepsId : (MemoryJob J → MemoryJob J) → Type 0
  KeepsId f = (job : MemoryJob J) → (f job).id ≡ job.id

  -- The first job that passes is replaced.
  abbrev pub modify_first :
      (MemoryJob J → Bool) → (MemoryJob J → MemoryJob J) → List (MemoryJob J) → List (MemoryJob J)
  modify_first p f [] = []
  modify_first p f (job ∷ jobs) = if p job then f job ∷ jobs else job ∷ modify_first p f jobs

  insert-Above :
      (job : MemoryJob J) (jobs : List (MemoryJob J))
      → Above job.id jobs
      → insert_by_id job jobs ≡ job ∷ jobs
  insert-Above job [] h = refl
  insert-Above job (k ∷ ks) h = ground arith

  pub sort-ascending : (jobs : List (MemoryJob J)) → IsAscending jobs → sort_by_id jobs ≡ jobs
  sort-ascending [] h = refl
  sort-ascending (job ∷ jobs) h = rw (sort-ascending jobs h.1) (insert-Above job jobs h.0)

  pub update-Above :
      (k : ℕ) (f : MemoryJob J → MemoryJob J) (jobs : List (MemoryJob J))
      → Above k jobs
      → update_job k f jobs ≡ jobs
  update-Above k f [] h = refl
  update-Above k f (job ∷ jobs) h = ground (arith, update-Above k f jobs h.1)

  pub first-Above :
      (n : ℕ) (p : MemoryJob J → Bool) (jobs : List (MemoryJob J)) (job : MemoryJob J)
      → Above n jobs
      → first p jobs ≡ some job
      → n < job.id
  first-Above n p [] job h e = cc
  first-Above n p (k ∷ ks) job h e = elim (Bool-cases (p k)) [
    | inl hit ↦ ground (arith, h.0)
    | inr miss ↦ first-Above n p ks job h.1 (ground arith)
  ]

  -- Writing to the object that the loop found is replacing the first entry that passes.
  pub update-first :
      (p : MemoryJob J → Bool) (f : MemoryJob J → MemoryJob J) (jobs : List (MemoryJob J))
      (job : MemoryJob J)
      → IsAscending jobs
      → first p jobs ≡ some job
      → update_job job.id f jobs ≡ modify_first p f jobs
  update-first p f [] job h e = cc
  update-first p f (k ∷ ks) job h e = elim (Bool-cases (p k)) [
    | inl hit ↦ ground (arith, update-Above job.id f ks)
    | inr miss ↦ ground (arith, update-first p f ks job h.1, first-Above k.id p ks job h.0)
  ]

  pub map-Above :
      (n : ℕ) (f : MemoryJob J → MemoryJob J) (jobs : List (MemoryJob J))
      → KeepsId f
      → Above n jobs
      → Above n (map f jobs)
  map-Above n f [] k h = tt
  map-Above n f (job ∷ jobs) k h = (rw (k job) h.0, map-Above n f jobs k h.1)

  pub map-IsAscending :
      (f : MemoryJob J → MemoryJob J) (jobs : List (MemoryJob J))
      → KeepsId f
      → IsAscending jobs
      → IsAscending (map f jobs)
  map-IsAscending f [] k h = tt
  map-IsAscending f (job ∷ jobs) k h =
      (rw (k job) (map-Above job.id f jobs k h.0), map-IsAscending f jobs k h.1)

  pub map-Below :
      (n : ℕ) (f : MemoryJob J → MemoryJob J) (jobs : List (MemoryJob J))
      → KeepsId f
      → Below n jobs
      → Below n (map f jobs)
  map-Below n f [] k h = tt
  map-Below n f (job ∷ jobs) k h = (rw (k job) h.0, map-Below n f jobs k h.1)

  pub update-KeepsId :
      (k : ℕ) (f : MemoryJob J → MemoryJob J)
      → KeepsId f
      → KeepsId (λ job. if job.id == k then f job else job)
  update-KeepsId k f h job = ground (arith, h job)

  pub append-IsAscending :
      (n : ℕ) (jobs : List (MemoryJob J)) (job : MemoryJob J)
      → IsAscending jobs
      → Below n jobs
      → job.id ≡ n
      → IsAscending (jobs ++ job ∷ []) × Below (n + 1) (jobs ++ job ∷ [])
  append-IsAscending n [] job h b e = ((tt, tt), (omega arith, tt))
  append-IsAscending n (k ∷ ks) job h b e =
      let ih = append-IsAscending n ks job h.1 b.1 e in
      ((Above-append k.id ks h.0 (omega arith), ih.0), (omega arith, ih.1))
    where
      Above-append :
          (m : ℕ) (js : List (MemoryJob J)) → Above m js → m < job.id → Above m (js ++ job ∷ [])
      Above-append m [] a lt = (lt, tt)
      Above-append m (j ∷ js) a lt = (a.0, Above-append m js a.1 lt)
