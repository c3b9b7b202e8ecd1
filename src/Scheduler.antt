-- ===== src/Scheduler.antt =====
-- The runs of the notices' synchronization: apps/desktop/src/main/scheduler.ts.
pub mod Runs
use aion2_hub.Prelude.{ℕ, suc, String, Bool, true, false, Option, none, some}

pub data Reason : Type 0 where
  startup interval manual : Reason

-- `lastResult` is the reason, with what the synchronization gives where it does.
pub record NoticesSchedulerStatus : Type 0 where
  pub running : Bool
  pub last_run_at : Option ℕ
  pub last_result : Option (Reason × Option String)
  pub last_error : Option String

-- The variables of `startNoticesScheduler`: the status, the reason of the run whose promise is in
-- `inFlight`, and whether the timer runs; and how often `sync` was called and has ended.
pub record Scheduler : Type 0 where
  pub status : NoticesSchedulerStatus
  pub in_flight : Option Reason
  pub timer : Bool
  pub calls : ℕ
  pub ended : ℕ

abbrev pub initial_scheduler : Scheduler
initial_scheduler = record {
  status = record { running = false; last_run_at = none; last_result = none; last_error = none };
  in_flight = none;
  timer = false;
  calls = 0;
  ended = 0;
}

-- The `try` block's end, or the `catch` block, and then the `finally` block.
unfoldable pub settle_ok : Reason → String → ℕ → Scheduler → Scheduler
settle_ok reason result now s = record s {
  status = record {
    running = false;
    last_run_at = some now;
    last_result = some (reason, some result);
    last_error = none;
  };
  in_flight = none;
  ended = suc s.ended;
}

unfoldable pub settle_failed : Reason → String → ℕ → Scheduler → Scheduler
settle_failed reason error now s = record s {
  status = record {
    running = false;
    last_run_at = some now;
    last_result = some (reason, none);
    last_error = some error;
  };
  in_flight = none;
  ended = suc s.ended;
}

abbrev pub begun : Scheduler → Scheduler
begun s = record s {
  status = record s.status { running = true; last_error = none };
  calls = suc s.calls;
}

-- The async function up to its first `await`. `thrown` is what `sync` throws at once, if it does
-- not give a promise, with the time; then the blocks are left before `inFlight` is set.
unfoldable pub enter : Reason → Option (String × ℕ) → Scheduler → Scheduler
unfolding settle_failed
enter reason none s = begun s
enter reason (some (error, now)) s = settle_failed reason error now (begun s)

unfoldable pub run_with : Option Reason → Reason → Option (String × ℕ) → Scheduler → Scheduler
unfolding enter
run_with (some r) reason thrown s = s
run_with none reason thrown s = record (enter reason thrown s) { in_flight = some reason }

-- `run`, which gives the promise that is in flight, if there is one.
unfoldable pub run : Reason → Option (String × ℕ) → Scheduler → Scheduler
unfolding run_with
run reason thrown s = run_with s.in_flight reason thrown s

-- The first run, and the timer.
unfoldable pub start_notices_scheduler : Option (String × ℕ) → Scheduler
unfolding run
start_notices_scheduler thrown = record (run Reason.startup thrown initial_scheduler) {
  timer = true;
}

abbrev pub stop : Scheduler → Scheduler
stop s = record s { timer = false }
