-- ===== src/Jobs/Dispatcher/Dedupe.antt =====
-- The dedupe keys of jobs and the operation keys of execution results:
-- apps/api/app/jobs/dispatcher.py.
use zero_node.Prelude.{
  ℕ, String, ◌≡◌, refl, Bool, false, some, Option-cases, inl, inr, arith, eq_iff, lookup,
  lookup-insert, lookup-insert_known, lookup-set_default,
}
use zero_node.Jobs.State.{Kind, InMemoryDispatcher, done}
use zero_node.Jobs.Dispatcher.{
  enqueue, claim, heartbeat, complete, fail, reclaim_expired, touch_worker, put_execution,
  get_execution,
}
use zero_node.Jobs.Dispatcher.Steps.{
  Step, enqueued, claimed, beaten, completed, failed_job, reclaimed, touched, recorded, Reach, here,
  next,
}

module _ {J : Type 0} where
  key-Step :
      {s t : InMemoryDispatcher J} (key : String) (k : ℕ)
      → Step s t
      → lookup key s.by_key ≡ some k
      → lookup key t.by_key ≡ some k
  unfolding enqueue claim heartbeat complete fail reclaim_expired touch_worker put_execution
  key-Step {s} key k (enqueued kind thread_id key' payload e) h =
      elim (Option-cases (lookup key' s.by_key)) [
        | inl new ↦ ground (arith, lookup-insert_known key' key s.next_id k s.by_key new h)
        | inr (x, old) ↦ ground arith
      ]
  key-Step key k (claimed now w l e) h = ground arith
  key-Step key k (beaten now j w l e) h = ground arith
  key-Step key k (completed j e) h = ground arith
  key-Step key k (failed_job now j error delay st e) h = ground arith
  key-Step key k (reclaimed now e) h = ground arith
  key-Step key k (touched now w c m e) h = ground arith
  key-Step key k (recorded j r e) h = ground arith

  key-Reach :
      {s t : InMemoryDispatcher J} (key : String) (k : ℕ)
      → Reach s t
      → lookup key s.by_key ≡ some k
      → lookup key t.by_key ≡ some k
  key-Reach key k here h = h
  key-Reach key k (next r st) h = key-Step key k st (key-Reach key k r h)

  enqueue_registers :
      (kind : Kind) (thread_id key : String) (payload : J) (s : InMemoryDispatcher J) (k : ℕ)
      (created : Bool)
      → (enqueue kind thread_id key payload s).1 ≡ done k created
      → lookup key (enqueue kind thread_id key payload s).0.by_key ≡ some k
  unfolding enqueue
  enqueue_registers kind thread_id key payload s k created h =
      elim (Option-cases (lookup key s.by_key)) [
        | inl new ↦ ground (arith, lookup-insert key key s.next_id s.by_key, eq_iff key key)
        | inr (x, old) ↦ ground arith
      ]

  -- Once a request with a dedupe key has been accepted as job `k`, then after any calls whatever
  -- another request with that key changes nothing and is answered with `k`, not created.
  pub enqueue_again :
      (kind kind' : Kind) (thread_id thread_id' key : String) (payload payload' : J)
      (s u : InMemoryDispatcher J) (k : ℕ) (created : Bool)
      → (enqueue kind thread_id key payload s).1 ≡ done k created
      → Reach (enqueue kind thread_id key payload s).0 u
      → enqueue kind' thread_id' key payload' u ≡ (u, done k false)
  enqueue_again kind kind' thread_id thread_id' key payload payload' s u k created h r =
      let known = key-Reach key k r (enqueue_registers kind thread_id key payload s k created h) in
      unfold enqueue in rw (known, enqueue) refl

  execution-Step :
      {s t : InMemoryDispatcher J} (key : String) (result : J)
      → Step s t
      → get_execution key s ≡ some result
      → get_execution key t ≡ some result
  unfolding enqueue claim heartbeat complete fail reclaim_expired touch_worker put_execution
      get_execution
  execution-Step key r (enqueued kind thread_id key' payload e) h = ground arith
  execution-Step key r (claimed now w l e) h = ground arith
  execution-Step key r (beaten now j w l e) h = ground arith
  execution-Step key r (completed j e) h = ground arith
  execution-Step key r (failed_job now j error delay st e) h = ground arith
  execution-Step key r (reclaimed now e) h = ground arith
  execution-Step key r (touched now w c m e) h = ground arith
  execution-Step {s} key r (recorded j x e) h = rw e (lookup-set_default j key x r s.executions h)

  -- The first result recorded under an operation key is the one that every later read gives.
  pub execution_kept :
      {s t : InMemoryDispatcher J} (key : String) (result : J)
      → Reach s t
      → get_execution key s ≡ some result
      → get_execution key t ≡ some result
  execution_kept key r here h = h
  execution_kept key r (next p st) h = execution-Step key r st (execution_kept key r p h)
