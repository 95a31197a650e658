-- ===== src/Jobs/Postgres/Accepts.antt =====
-- The acceptance of a job by both dispatchers: apps/api/app/jobs/dispatcher.py.
use zero_node.Prelude.{
  ℕ, ◌+◌, ◌≤◌, ◌<◌, String, ◌≡◌, refl, sym, ap, ◌∙◌, Bool, true, false, not, ◌&&◌, ◌||◌, none, some,
  List, [], ◌∷◌, ◌++◌, first, exists, All, inl, inr, Bool-cases, Option-cases, arith, leb, lookup,
  insert, lookup-insert,
}
use zero_node.Jobs.State.{Kind, Status, MemoryJob, InMemoryDispatcher, done, queue_full}
use zero_node.Jobs.Dispatcher.{depth, enqueue}
use zero_node.Jobs.Dispatcher.Order.{append-IsAscending}
use zero_node.Jobs.Postgres.{
  JobRow, Database, PostgresDispatcher, has_key, insert_job, pg_enqueue, queue_depth,
}
use zero_node.Jobs.Postgres.Simulation.{Twin, Matches, RowsAbove, RowsAscend, depth-eq}
use zero_node.Jobs.Postgres.InStep.{is_some, Sim, Sim-later}
use zero_node.Jobs.Postgres.Refines.{SameAnswer}

module _ {J : Type 0} where
  first-none :
      (p : JobRow J → Bool) (rs : List (JobRow J)) → exists p rs ≡ false → first p rs ≡ none
  first-none p [] e = refl
  first-none p (r ∷ rs) e = ground (arith, first-none p rs)

  first-some :
      (p : JobRow J → Bool) (rs : List (JobRow J))
      → exists p rs ≡ true
      → (r : JobRow J) × (first p rs ≡ some r)
  first-some p [] e = cc
  first-some p (r ∷ rs) e = elim (Bool-cases (p r)) [
    | inl hit ↦ (r, ground arith)
    | inr miss ↦ let (q, found) = first-some p rs (ground arith) in (q, ground arith)
  ]

  abbrev new_job : ℕ → ℕ → Kind → String → String → J → MemoryJob J
  new_job id max_attempts kind thread_id key payload = record {
    id = id;
    kind = kind;
    thread_id = thread_id;
    dedupe_key = key;
    payload = payload;
    status = Status.queued;
    attempts = 0;
    max_attempts = max_attempts;
    last_error = "";
    available_at = 0;
    lease_owner = none;
    lease_expires_at = none;
  }

  abbrev new_row : ℕ → ℕ → ℕ → Kind → String → String → J → JobRow J
  new_row now id max_attempts kind thread_id key payload = record {
    id = id;
    entry = record {
      kind = kind;
      thread_id = thread_id;
      dedupe_key = key;
      payload = payload;
      status = Status.queued;
      attempts = 0;
      max_attempts = max_attempts;
      last_error = "";
      lease_owner = none;
      lease_expires_at = none;
    };
    available_at = now;
    created_at = now;
    updated_at = now;
    finished_at = none;
  }

  append-RowsAscend :
      (n : ℕ) (rs : List (JobRow J)) (r : JobRow J)
      → RowsAscend rs
      → All (λ q. q.id < n) rs
      → r.id ≡ n
      → RowsAscend (rs ++ r ∷ []) × All (λ q. q.id < n + 1) (rs ++ r ∷ [])
  append-RowsAscend n [] r h b e = ((tt, tt), (omega arith, tt))
  append-RowsAscend n (q ∷ qs) r h b e =
      let ih = append-RowsAscend n qs r h.1 b.1 e in
      ((above q.id qs h.0 (omega arith), ih.0), (omega arith, ih.1))
    where
      above :
          (m : ℕ) (xs : List (JobRow J)) → RowsAbove m xs → m < r.id → RowsAbove m (xs ++ r ∷ [])
      above m [] a lt = (lt, tt)
      above m (x ∷ xs) a lt = (a.0, above m xs a.1 lt)

  append-Matches :
      (now : ℕ) (js : List (MemoryJob J)) (rs : List (JobRow J)) (j : MemoryJob J) (r : JobRow J)
      → Matches now js rs
      → Twin now j r
      → Matches now (js ++ j ∷ []) (rs ++ r ∷ [])
  append-Matches now [] [] j r h t = (t, tt)
  append-Matches now [] (q ∷ qs) j r h t = absurd h
  append-Matches now (k ∷ ks) [] j r h t = absurd h
  append-Matches now (k ∷ ks) (q ∷ qs) j r h t = (h.0, append-Matches now ks qs j r h.1 t)

  exists-append :
      (p : JobRow J → Bool) (rs : List (JobRow J)) (r : JobRow J)
      → exists p (rs ++ r ∷ []) ≡ (exists p rs || p r)
  exists-append p [] r = ground arith
  exists-append p (q ∷ qs) r = ground (arith, exists-append p qs r)

  known-insert :
      (key j : String) (k : ℕ) (by_key : List (String × ℕ)) (rs : List (JobRow J)) (r : JobRow J)
      → is_some (lookup j by_key) ≡ exists (has_key j) rs
      → r.entry.dedupe_key ≡ key
      → is_some (lookup j (insert key k by_key)) ≡ exists (has_key j) (rs ++ r ∷ [])
  known-insert key j k by_key rs r h e =
      ground (arith, lookup-insert key j k by_key, exists-append (has_key j) rs r)

  -- The queue after an acceptance.
  accepted-Sim :
      (now : ℕ) (kind : Kind) (thread_id key : String) (payload : J) (d : PostgresDispatcher)
      (s : InMemoryDispatcher J) (db : Database J)
      → Sim now d s db
      → Sim now d
          (record s {
            jobs = s.jobs ++ new_job s.next_id s.max_attempts kind thread_id key payload ∷ [];
            by_key = insert key s.next_id s.by_key;
            next_id = s.next_id + 1;
          })
          (record db {
            investigation_jobs =
                db.investigation_jobs
                ++ new_row now db.next_id d.max_attempts kind thread_id key payload ∷ [];
            next_id = db.next_id + 1;
          })
  accepted-Sim now kind thread_id key payload d s db h =
      let j = new_job s.next_id s.max_attempts kind thread_id key payload in
      let r = new_row now db.next_id d.max_attempts kind thread_id key payload in
      let (asc, bel) = append-IsAscending s.next_id s.jobs j h.ascending h.below refl in
      let (rasc, rbel) =
        append-RowsAscend db.next_id db.investigation_jobs r h.rows_ascending h.rows_below refl in
      record {
        capacity_eq = h.capacity_eq;
        max_eq = h.max_eq;
        ascending = asc;
        below = bel;
        rows_ascending = rasc;
        rows_below = rbel;
        matches =
            append-Matches now s.jobs db.investigation_jobs j r h.matches
              (ground (arith, h.max_eq));
        known = λ i. known-insert key i s.next_id s.by_key db.investigation_jobs r (h.known i) refl;
        workers_eq = h.workers_eq;
        executions_eq = h.executions_eq;
      }

  -- A duplicate uses up a number of the sequence and nothing else.
  below_next : (n : ℕ) (rs : List (JobRow J)) → All (λ r. r.id < n) rs → All (λ r. r.id < n + 1) rs
  below_next n [] h = tt
  below_next n (r ∷ rs) h = (omega arith, below_next n rs h.1)

  skipped-Sim :
      (now : ℕ) (d : PostgresDispatcher) (s : InMemoryDispatcher J) (db : Database J)
      → Sim now d s db
      → Sim now d s (record db { next_id = db.next_id + 1 })
  skipped-Sim now d s db h = record {
    capacity_eq = h.capacity_eq;
    max_eq = h.max_eq;
    ascending = h.ascending;
    below = h.below;
    rows_ascending = h.rows_ascending;
    rows_below = below_next db.next_id db.investigation_jobs h.rows_below;
    matches = h.matches;
    known = h.known;
    workers_eq = h.workers_eq;
    executions_eq = h.executions_eq;
  }

  module _ (now : ℕ) (kind : Kind) (thread_id key : String) (payload : J) (d : PostgresDispatcher)
      (s : InMemoryDispatcher J) (db : Database J) where
    abbrev grown : InMemoryDispatcher J
    grown = record s {
      jobs = s.jobs ++ new_job s.next_id s.max_attempts kind thread_id key payload ∷ [];
      by_key = insert key s.next_id s.by_key;
      next_id = s.next_id + 1;
    }

    abbrev pg_grown : Database J
    pg_grown = record db {
      investigation_jobs =
          db.investigation_jobs
          ++ new_row now db.next_id d.max_attempts kind thread_id key payload ∷ [];
      next_id = db.next_id + 1;
    }

    mem_old :
        (k : ℕ)
        → lookup key s.by_key ≡ some k
        → enqueue kind thread_id key payload s ≡ (s, done k false)
    unfolding enqueue
    mem_old k e = rw (e, enqueue) refl

    mem_full :
        lookup key s.by_key ≡ none
        → leb s.capacity (depth s.jobs) ≡ true
        → enqueue kind thread_id key payload s ≡ (s, queue_full (depth s.jobs) s.capacity)
    unfolding enqueue
    mem_full e full = rw (e, enqueue) (rw full refl)

    mem_new :
        lookup key s.by_key ≡ none
        → leb s.capacity (depth s.jobs) ≡ false
        → enqueue kind thread_id key payload s ≡ (grown, done s.next_id true)
    unfolding enqueue
    mem_new e room = rw (e, enqueue) (rw room refl)

    insert_old :
        (r : JobRow J)
        → first (has_key key) db.investigation_jobs ≡ some r
        → insert_job now kind thread_id key payload d.max_attempts db
          ≡ (record db { next_id = db.next_id + 1 }, r.id, false)
    unfolding insert_job
    insert_old r e = rw (e, insert_job) refl

    insert_new :
        first (has_key key) db.investigation_jobs ≡ none
        → insert_job now kind thread_id key payload d.max_attempts db ≡ (pg_grown, db.next_id, true)
    unfolding insert_job
    insert_new e = rw (e, insert_job) refl

    pg_inserts :
        not (exists (has_key key) db.investigation_jobs)
            && leb d.capacity (queue_depth db.investigation_jobs)
          ≡ false
        → pg_enqueue d now kind thread_id key payload db ≡ (
            let (db', id, created) = insert_job now kind thread_id key payload d.max_attempts db in
            (db', done id created))
    unfolding pg_enqueue
    pg_inserts e = rw (e, pg_enqueue) refl

    pg_full :
        not (exists (has_key key) db.investigation_jobs)
            && leb d.capacity (queue_depth db.investigation_jobs)
          ≡ true
        → pg_enqueue d now kind thread_id key payload db
          ≡ (db, queue_full (queue_depth db.investigation_jobs) d.capacity)
    unfolding pg_enqueue
    pg_full e = rw (e, pg_enqueue) refl

  enqueue_now :
      (now : ℕ) (kind : Kind) (thread_id key : String) (payload : J) (d : PostgresDispatcher)
      (s : InMemoryDispatcher J) (db : Database J)
      → Sim now d s db
      → Sim now d
          (enqueue kind thread_id key payload s).0
          (pg_enqueue d now kind thread_id key payload db).0
        × SameAnswer
            (enqueue kind thread_id key payload s).1
            (pg_enqueue d now kind thread_id key payload db).1
  enqueue_now now kind thread_id key payload d s db h = elim (Option-cases (lookup key s.by_key)) [
    | inr (k, old) ↦
        let there : exists (has_key key) db.investigation_jobs ≡ true =
          sym (h.known key) ∙ ap is_some old in
        let (r, found) = first-some (has_key key) db.investigation_jobs there in
        rw
          (
            mem_old now kind thread_id key payload d s db k old,
            pg_inserts now kind thread_id key payload d s db (ground arith),
            insert_old now kind thread_id key payload d s db r found,
          )
          (skipped-Sim now d s db h, refl)
    | inl new ↦
        let missing : exists (has_key key) db.investigation_jobs ≡ false =
          sym (h.known key) ∙ ap is_some new in
        let nowhere = first-none (has_key key) db.investigation_jobs missing in
        let deep = depth-eq now s.jobs db.investigation_jobs h.matches in
        let cap = h.capacity_eq in
        elim (Bool-cases (leb s.capacity (depth s.jobs))) [
          | inl full ↦
              rw
                (
                  mem_full now kind thread_id key payload d s db new full,
                  pg_full now kind thread_id key payload d s db
                      (ground (arith, deep, cap, missing)),
                )
                (h, (deep, cap))
          | inr room ↦
              rw
                (
                  mem_new now kind thread_id key payload d s db new room,
                  pg_inserts now kind thread_id key payload d s db
                      (ground (arith, deep, cap, missing)),
                  insert_new now kind thread_id key payload d s db nowhere,
                )
                (accepted-Sim now kind thread_id key payload d s db h, refl)
        ]
  ]

  pub enqueue_refines :
      (clock now : ℕ) (kind : Kind) (thread_id key : String) (payload : J) (d : PostgresDispatcher)
      (s : InMemoryDispatcher J) (db : Database J)
      → clock ≤ now
      → Sim clock d s db
      → Sim now d
          (enqueue kind thread_id key payload s).0
          (pg_enqueue d now kind thread_id key payload db).0
        × SameAnswer
            (enqueue kind thread_id key payload s).1
            (pg_enqueue d now kind thread_id key payload db).1
  enqueue_refines clock now kind thread_id key payload d s db le h =
      enqueue_now now kind thread_id key payload d s db (Sim-later clock now d s db le h)
