-- ===== src/Scheduler/Runs.antt =====
-- At most one synchronization runs at a time: apps/desktop/src/main/scheduler.ts.
use aion2_hub.Prelude.{
  ℕ, suc, ◌≡◌, refl, ap, String, true, false, Option, none, some, ◌⊎◌, inl, inr,
}
use aion2_hub.Scheduler.{
  Reason, Scheduler, settle_ok, settle_failed, enter, run_with, run, start_notices_scheduler, stop,
}

-- A call of `run`, by the timer or by hand, or the end of the run whose promise is in flight.
pub data Step : Scheduler → Scheduler → Type 0 where
  runs : (reason : Reason) (s : Scheduler) → Step s (run reason none s)
  resolves :
      (reason : Reason) (result : String) (now : ℕ) (s : Scheduler)
      → s.in_flight ≡ some reason
      → Step s (settle_ok reason result now s)
  rejects :
      (reason : Reason) (error : String) (now : ℕ) (s : Scheduler)
      → s.in_flight ≡ some reason
      → Step s (settle_failed reason error now s)
  stops : (s : Scheduler) → Step s (stop s)

pub data Reach : Scheduler → Type 0 where
  started : Reach (start_notices_scheduler none)
  then : {s t : Scheduler} → Reach s → Step s t → Reach t

-- Either nothing runs and all calls have ended, or one runs and is in flight.
abbrev pub IsSingle : Scheduler → Type 0
IsSingle s =
    ((s.in_flight ≡ none) × (s.status.running ≡ false) × (s.calls ≡ s.ended))
    ⊎ ((reason : Reason) × (s.in_flight ≡ some reason)
        × (s.status.running ≡ true)
        × (s.calls ≡ suc s.ended))

run_with-IsSingle :
    (o : Option Reason) (reason : Reason) (s : Scheduler)
    → s.in_flight ≡ o
    → IsSingle s
    → IsSingle (run_with o reason none s)
unfolding run_with enter
run_with-IsSingle (some r) reason s e h = h
run_with-IsSingle none reason s e (inl (a, b, c)) = inr (reason, refl, refl, ap suc c)
run_with-IsSingle none reason s e (inr (r, a, b, c)) = cc

settled :
    (s : Scheduler) (reason : Reason)
    → s.in_flight ≡ some reason
    → IsSingle s
    → s.calls ≡ suc s.ended
settled s reason e (inl (a, b, c)) = cc
settled s reason e (inr (r, a, b, c)) = c

Step-IsSingle : {s t : Scheduler} → Step s t → IsSingle s → IsSingle t
unfolding run settle_ok settle_failed
Step-IsSingle (Step.runs reason s) h = run_with-IsSingle s.in_flight reason s refl h
Step-IsSingle (Step.resolves reason result now s e) h = inl (refl, refl, settled s reason e h)
Step-IsSingle (Step.rejects reason error now s e) h = inl (refl, refl, settled s reason e h)
Step-IsSingle (Step.stops s) h = h

-- As long as no call of `sync` throws before it gives its promise, at most one synchronization runs
-- at any time, whatever calls of `run` are made: either none is in flight, the status says
-- so and every call of `sync` has ended, or one is, the status says that it runs, and all
-- calls but this one have ended.
pub Reach-IsSingle : {s : Scheduler} → Reach s → IsSingle s
unfolding start_notices_scheduler run run_with enter
Reach-IsSingle Reach.started = inr (Reason.startup, refl, refl, refl)
Reach-IsSingle (Reach.then r step) = Step-IsSingle step (Reach-IsSingle r)

-- After a run that is in flight for no other, in which `sync` throws at once, the status says that
-- nothing runs, but the promise stays in flight, and every later call of `run` does nothing.
pub run-stuck :
    (reason : Reason) (error : String) (now : ℕ) (s : Scheduler)
    → s.in_flight ≡ none
    → let after = run reason (some (error, now)) s in
      (after.status.running ≡ false)
      × (after.calls ≡ suc s.calls)
      × ((next : Reason) (thrown : Option (String × ℕ)) → run next thrown after ≡ after)
unfolding run run_with enter settle_failed
run-stuck reason error now s e = rw e (refl, refl, λ next thrown. refl)
