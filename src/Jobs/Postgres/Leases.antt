-- ===== src/Jobs/Postgres/Leases.antt =====
-- The extension of a lease by both dispatchers: apps/api/app/jobs/dispatcher.py.
use zero_node.Prelude.{
  ℕ, ◌+◌, ◌≤◌, String, ◌≡◌, refl, sym, ap, ◌∙◌, transport, Bool, true, false, not, ◌&&◌, none, some,
  List, [], ◌∷◌, map, exists, inl, inr, Bool-cases, Option-cases, arith, ◌==◌, if◌then◌else◌,
}
use zero_node.Jobs.State.{is_running, MemoryJob, InMemoryDispatcher}
use zero_node.Jobs.Dispatcher.{find_job, update_job, opt_eq, heartbeat}
use zero_node.Jobs.Dispatcher.Order.{IsAscending, Above, update-Above}
use zero_node.Jobs.Postgres.{
  JobRow, Database, PostgresDispatcher, update_where, count_where, held_by, extend_row,
  pg_heartbeat, heartbeat_job,
}
use zero_node.Jobs.Postgres.Simulation.{Twin, Matches, SameJob, later}
use zero_node.Jobs.Postgres.InStep.{Sim, written}

module _ {J : Type 0} where
  abbrev is_holder : String → MemoryJob J → Bool
  is_holder w j = is_running j.status && opt_eq j.lease_owner w

  Above-eq : (n m : ℕ) (ys : List (MemoryJob J)) → Above n ys → n ≡ m → Above m ys
  Above-eq n m ys h e = transport (ap (λ i. Above i ys) e) h

  abbrev held : ℕ → String → MemoryJob J → Bool
  held k w j = j.id == k && is_holder w j

  abbrev extend : ℕ → ℕ → MemoryJob J → MemoryJob J
  extend now l j = record j { lease_expires_at = some (now + l) }

  -- The call as one pass over the jobs.
  abbrev extend_held : ℕ → ℕ → String → ℕ → List (MemoryJob J) → List (MemoryJob J)
  extend_held now k w l = map (λ j. if held k w j then extend now l j else j)

  nothing-Above :
      (now k : ℕ) (w : String) (l : ℕ) (js : List (MemoryJob J))
      → Above k js
      → (extend_held now k w l js ≡ js) × (exists (held k w) js ≡ false)
  nothing-Above now k w l [] a = (refl, refl)
  nothing-Above now k w l (j ∷ js) a =
      let (same, none_held) = nothing-Above now k w l js a.1 in
      (ground (arith, a.0, same), ground (arith, a.0, none_held))

  missing-job :
      (now k : ℕ) (w : String) (l : ℕ) (js : List (MemoryJob J))
      → find_job k js ≡ none
      → (extend_held now k w l js ≡ js) × (exists (held k w) js ≡ false)
  missing-job now k w l [] e = (refl, refl)
  missing-job now k w l (j ∷ js) e =
      let (same, none_held) = missing-job now k w l js (ground arith) in
      (ground (arith, same), ground (arith, none_held))

  lost-job :
      (now k : ℕ) (w : String) (l : ℕ) (js : List (MemoryJob J)) (j : MemoryJob J)
      → IsAscending js
      → find_job k js ≡ some j
      → is_holder w j ≡ false
      → (extend_held now k w l js ≡ js) × (exists (held k w) js ≡ false)
  lost-job now k w l [] j a e h = cc
  lost-job now k w l (x ∷ xs) j a e h = elim (Bool-cases (x.id == k)) [
    | inl this ↦
        let (same, none_held) =
          nothing-Above now k w l xs (Above-eq x.id k xs a.0 (ground arith)) in
        let is : x ≡ j = ground arith in
        let lost : is_holder w x ≡ false = ap (is_holder w) is ∙ h in
        (ground (arith, same, lost), ground (arith, none_held, lost))
    | inr other ↦
        let (same, none_held) = lost-job now k w l xs j a.1 (ground arith) h in
        (ground (arith, same), ground (arith, none_held))
  ]

  found-job :
      (now k : ℕ) (w : String) (l : ℕ) (js : List (MemoryJob J)) (j : MemoryJob J)
      → IsAscending js
      → find_job k js ≡ some j
      → is_holder w j ≡ true
      → (extend_held now k w l js ≡ update_job k (extend now l) js) × (exists (held k w) js ≡ true)
  found-job now k w l [] j a e h = cc
  found-job now k w l (x ∷ xs) j a e h = elim (Bool-cases (x.id == k)) [
    | inl this ↦
        let above = Above-eq x.id k xs a.0 (ground arith) in
        let (same, none_held) = nothing-Above now k w l xs above in
        let is : x ≡ j = ground arith in
        let hit : is_holder w x ≡ true = ap (is_holder w) is ∙ h in
        (ground (arith, same, hit, update-Above k (extend now l) xs above), ground (arith, hit))
    | inr other ↦
        let (same, some_held) = found-job now k w l xs j a.1 (ground arith) h in
        (ground (arith, same), ground (arith, some_held))
  ]

  heartbeat-eq-map :
      (now k : ℕ) (w : String) (l : ℕ) (s : InMemoryDispatcher J)
      → IsAscending s.jobs
      → heartbeat now k w l s
        ≡ (record s { jobs = extend_held now k w l s.jobs }, exists (held k w) s.jobs)
  unfolding heartbeat
  heartbeat-eq-map now k w l s a = elim (Option-cases (find_job k s.jobs)) [
    | inl missing ↦
        let (same, none_held) = missing-job now k w l s.jobs missing in
        rw (missing, heartbeat) (rw (same, none_held) refl)
    | inr (j, found) ↦ elim (Bool-cases (is_holder w j)) [
      | inl hit ↦
          let (same, some_held) = found-job now k w l s.jobs j a found hit in
          rw (found, heartbeat) (rw hit (rw (same, some_held) refl))
      | inr lost ↦
          let (same, none_held) = lost-job now k w l s.jobs j a found lost in
          rw (found, heartbeat) (rw lost (rw (same, none_held) refl))
    ]
  ]

  held-Twin :
      (now k m : ℕ) (w : String) (j : MemoryJob J) (r : JobRow J)
      → Twin now j r
      → (j.id == k) ≡ (r.id == m)
      → held k w j ≡ held_by m w r
  held-Twin now k m w j r t e = rw e (ground (arith, t.status_eq, t.owner_eq))

  extended_twin :
      (now l : ℕ) (j : MemoryJob J) (r : JobRow J)
      → Twin now j r
      → Twin now (extend now l j) (extend_row now l r)
  extended_twin now l j r t = ground arith

  Matches-extended :
      (clock now k m : ℕ) (w : String) (l : ℕ) (js : List (MemoryJob J)) (rs : List (JobRow J))
      → clock ≤ now
      → SameJob k m js rs
      → Matches clock js rs
      → Matches now (extend_held now k w l js) (update_where (held_by m w) (extend_row now l) rs)
        × (exists (held k w) js ≡ not (count_where (held_by m w) rs == 0))
  Matches-extended clock now k m w l [] [] le same h = (tt, refl)
  Matches-extended clock now k m w l [] (r ∷ rs) le same h = absurd h
  Matches-extended clock now k m w l (j ∷ js) [] le same h = absurd h
  Matches-extended clock now k m w l (j ∷ js) (r ∷ rs) le same h =
      let (rest, answer) = Matches-extended clock now k m w l js rs le same.1 h.1 in
      let t = later clock now j r le h.0 in
      let both = held-Twin now k m w j r t same.0 in
      elim (Bool-cases (held k w j)) [
        | inl this ↦ (
          rw (this, sym both ∙ this) (extended_twin now l j r t, rest),
          ground (arith, answer, sym both ∙ this),
        )
        | inr other ↦
            (rw (other, sym both ∙ other) (t, rest), ground (arith, answer, sym both ∙ other))
      ]

  pub heartbeat_refines :
      (clock now k m : ℕ) (w : String) (l : ℕ) (d : PostgresDispatcher) (s : InMemoryDispatcher J)
      (db : Database J)
      → clock ≤ now
      → Sim clock d s db
      → SameJob k m s.jobs db.investigation_jobs
      → Sim now d (heartbeat now k w l s).0 (pg_heartbeat now m w l db).0
        × ((heartbeat now k w l s).1 ≡ (pg_heartbeat now m w l db).1)
  unfolding pg_heartbeat heartbeat_job
  heartbeat_refines clock now k m w l d s db le h same =
      let (m', answer) =
        Matches-extended clock now k m w l s.jobs db.investigation_jobs le same h.matches in
      rw (heartbeat-eq-map now k w l s h.ascending) (
        written clock now d s db (λ j. if held k w j then extend now l j else j)
            (λ r. if held_by m w r then extend_row now l r else r) (λ j. ground arith)
            (λ r. (ground arith, ground arith)) m' h,
        answer,
      )
