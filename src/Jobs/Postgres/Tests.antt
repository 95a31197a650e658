-- ===== src/Jobs/Postgres/Tests.antt =====
-- Runs of the PostgreSQL queue, and of both dispatchers side by side.
use Prim.Native.String.{◌++◌ as str_append}
use zero_node.Prelude.{
  ℕ, String, refl, true, false, not, ◌&&◌, ◌||◌, some, List, [], ◌∷◌, arith, ◌==◌,
}
use zero_node.Jobs.State.{Kind, Status, Job, done}
use zero_node.Jobs.Dispatcher.{depth, enqueue, claim, heartbeat, complete, fail, reclaim_expired}
use zero_node.Jobs.Dispatcher.Reads.{latest_error}
use zero_node.Jobs.Postgres.{
  Database, PostgresDispatcher, claim_next, select_for_update, update_claimed, reclaim_rows,
  pg_reclaim_expired, pg_latest_error, latest_job_for_thread, pg_enqueue, pg_claim, pg_heartbeat,
  pg_complete, pg_fail, insert_job, queue_depth, heartbeat_job, complete_job, fail_job,
}
use zero_node.Jobs.Postgres.Locks.{
  Distinct, Tables, idle, Steps, done as no_step, next, selects, commits, claims_differ,
}
use zero_node.Jobs.Postgres.Calls.{
  to_enqueue, to_claim, to_heartbeat, to_complete, to_fail, to_reclaim, to_depth, to_latest, Answer,
  given, accepted, held, nothing, status, counted, last_error, AllAgree, stop, call,
}
use zero_node.Jobs.Postgres.Replay.{dispatchers_agree, empty}

abbrev small : PostgresDispatcher
small = record { capacity = 2; max_attempts = 3 }

abbrev two_rows : Database ℕ
two_rows =
    (pg_enqueue small 6 Kind.start "t2" "start:t2" 8
      (pg_enqueue small 5 Kind.start "t1" "start:t1" 7 empty).0).0

abbrev the_job : ℕ → String → ℕ → Job ℕ
the_job k thread payload = record {
  id = k;
  kind = Kind.start;
  thread_id = thread;
  dedupe_key = str_append "start:" thread;
  payload = payload;
  status = Status.running;
  attempts = 1;
  max_attempts = 3;
  last_error = "";
}

-- Two workers select before either commits, and the second commits first.
abbrev served : Tables ℕ
served = record {
  rows = update_claimed 9 "w1" 30 1 (update_claimed 9 "w2" 30 2 two_rows.investigation_jobs);
  locked = λ j. not (j == 1) && (not (j == 2) && (j == 2 || (j == 1 || false)));
  pending = [];
  answered = 1 ∷ 2 ∷ [];
}

served_lem : Steps (idle two_rows.investigation_jobs) served
unfolding pg_enqueue insert_job queue_depth select_for_update
served_lem =
    next
      (next (next (next no_step (selects 9 _ _ refl refl)) (selects 9 _ _ refl refl))
        (commits 9 "w2" 30 2 refl refl))
      (commits 9 "w1" 30 1 refl refl)

claims_differ_example : Distinct (1 ∷ 2 ∷ []) × Distinct []
claims_differ_example = claims_differ two_rows.investigation_jobs served served_lem

-- A job is accepted twice, claimed, kept, failed, claimed again, left until its lease runs out, claimed
-- a third time, buried, and completed.
abbrev mem_answers : List (Answer ℕ)
mem_answers =
    accepted (done 1 true)
    ∷ accepted (done 1 false)
    ∷ given (some (the_job 1 "t1" 7))
    ∷ held true
    ∷ status Status.queued
    ∷ given (some (record (the_job 1 "t1" 7) { attempts = 2 }))
    ∷ counted 1
    ∷ counted 1
    ∷ given (some (record (the_job 1 "t1" 7) { attempts = 3 }))
    ∷ status Status.dead
    ∷ last_error "timeout"
    ∷ nothing
    ∷ []

dispatchers_agree_example : AllAgree mem_answers mem_answers
unfolding depth enqueue claim heartbeat complete fail reclaim_expired latest_error pg_enqueue
    pg_claim pg_heartbeat pg_complete pg_fail insert_job queue_depth claim_next select_for_update
    reclaim_rows heartbeat_job complete_job fail_job pg_reclaim_expired pg_latest_error
    latest_job_for_thread
dispatchers_agree_example =
    dispatchers_agree {J = ℕ} {d = small} {mine = mem_answers} {others = mem_answers} (
      call {now = 10} (to_enqueue Kind.start "t1" "start:t1" 7) (omega arith) tt refl (
        call {now = 20} (to_enqueue Kind.start "t1" "start:t1" 7) (omega arith) tt refl (
          call {now = 30} (to_claim "w1" 30) (omega arith) tt refl (
            call {now = 35} (to_heartbeat 1 1 "w1" 30) (omega arith) (refl, tt) refl
              (call {now = 40} (to_fail 1 (the_job 1 "t1" 7) "timeout" 5) (omega arith)
                ((refl, tt), ((λ _. (refl, refl)), tt)) refl
                (call {now = 50} (to_claim "w2" 30) (omega arith) tt refl (
                  call {now = 90} to_reclaim (omega arith) tt refl (
                    call {now = 91} to_depth (omega arith) tt refl (
                      call {now = 92} (to_claim "w3" 30) (omega arith) tt refl (
                        call {now = 93}
                          (to_fail 1 (record (the_job 1 "t1" 7) { attempts = 3 }) "timeout" 5)
                          (omega arith) ((refl, tt), ((λ _. (refl, refl)), tt)) refl
                          (call {now = 94} (to_latest "t1") (omega arith) tt refl (
                            call {now = 95} (to_complete 1 1) (omega arith) (refl, tt) refl
                              stop))))))))))))
