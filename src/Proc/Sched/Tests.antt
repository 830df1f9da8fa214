-- ===== src/Proc/Sched/Tests.antt =====
-- Runs of kernel/proc/scheduler.c on three threads.
use northstar_os.Base.{ℕ, ◌≡◌, refl, false, none, some, [], ◌∷◌, arith, if◌then◌else◌, ◌==◌}
use northstar_os.Proc.Sched.{Thread, Scheduler, sleeping}
use northstar_os.Proc.Sched.Steps.{fall_asleep, wake_due, insert_sleeper}
use northstar_os.Proc.Sched.Steps.Sleepers.{Sleeps, Asleep, fall_asleep-InOrder, wake_due-Asleep}

abbrev thread : ℕ → Thread
thread t = record {
  state = sleeping;
  flags = 0;
  on_run_queue = false;
  quantum_left = 0;
  wait_kind = 0;
  wait_key = 0;
  wake_deadline = if t == 1 then 10 else 20;
  runtime_ticks = 0;
  switches = 0;
}

-- Thread 1 sleeps until 10, thread 2 until 20; thread 3 runs.
abbrev sample : Scheduler
sample = record {
  threads = thread;
  current = some 3;
  idle = none;
  ready_queue = [];
  blocked_queue = [];
  sleep_queue = 1 ∷ 2 ∷ [];
  quantum_ticks = 5;
  preempt_disable_depth = 0;
  reschedule_pending = false;
  ticks = 0;
  context_switches = 0;
  idle_ticks = 0;
  wakeups = 0;
}

fall_asleep-InOrder_example : Sleeps sample 3 15 (fall_asleep sample 3 15)
fall_asleep-InOrder_example =
    fall_asleep-InOrder sample 3 15 (omega arith, (omega arith, tt)) ((omega arith, tt), (tt, tt))

between : (fall_asleep sample 3 15).sleep_queue ≡ 1 ∷ 3 ∷ 2 ∷ []
unfolding insert_sleeper
between = refl

wake_due-Asleep_example : Asleep 12 sample (wake_due 12 (1 ∷ 2 ∷ []) sample)
wake_due-Asleep_example =
    wake_due-Asleep 12 (1 ∷ 2 ∷ []) sample refl ((omega arith, tt), (tt, tt))
      ((omega arith, tt), (tt, tt))
