-- ===== src/Proc/Sched/Steps.antt =====
-- kernel/proc/scheduler.c: the ticks, waits, wake-ups and the choice of the next thread.
pub mod Queues
pub mod Sleepers
use northstar_os.Base.{
  ℕ, zero, suc, ◌+◌, ◌-◌, Bool, true, false, not, ◌&&◌, ◌||◌, Option, none, some, List, [], ◌∷◌,
  ◌++◌, ltb, leb, ◌==◌, if◌then◌else◌,
}
use northstar_os.Base.Words.{add32, add64}
use northstar_os.Base.Errno.{ℤ, zero_result, einval}
use northstar_os.Proc.Sched.{
  ThreadState, ready, running, blocked, sleeping, zombie, is_running, is_blocked, is_sleeping,
  is_ready, Thread, Scheduler, put, same, is_empty, ready_insert_tail, ready_remove, blocked_remove,
  sleep_remove, set_thread, switch_to,
}

-- What becomes of the thread that runs, at the start of `ns_sched_reschedule`. Where there is neither
-- a current nor an idle thread, the source writes through the null pointer; here nothing changes.
abbrev pub requeue : Scheduler → Option ℕ → Scheduler
requeue s none = s
requeue s (some t) =
    if same (some t) s.idle
    then set_thread s t (record (s.threads t) { state = ready })
    else if is_running (s.threads t).state
    then ready_insert_tail (set_thread s t (record (s.threads t) { state = ready })) t
    else s

-- `ready_pop`, then the switch.
abbrev pub choose : Scheduler → List ℕ → Scheduler
choose s [] = switch_to (record s { reschedule_pending = false }) s.idle
choose s (t ∷ rest) = switch_to (record (ready_remove s t) { reschedule_pending = false }) (some t)

-- `ns_sched_reschedule`
pub reschedule : Scheduler → Scheduler
reschedule s =
    if not (s.preempt_disable_depth == 0)
    then record s { reschedule_pending = true }
    else let r = requeue s s.current in choose r r.ready_queue

abbrev pub reschedule_if_enabled : Scheduler → Scheduler
reschedule_if_enabled s = if s.preempt_disable_depth == 0 then reschedule s else s

-- The thread at the head of the sleepers becomes ready.
abbrev pub wake_sleeper : Scheduler → ℕ → List ℕ → Scheduler
wake_sleeper s t rest =
    let r =
      ready_insert_tail
        (record s {
          threads = put s.threads t (record (s.threads t) { wake_deadline = 0; state = ready });
          sleep_queue = rest;
        })
        t in
    record r { wakeups = add64 r.wakeups 1 }

-- The loop of `ns_sched_tick`, over the sleepers.
pub wake_due : ℕ → List ℕ → Scheduler → Scheduler
wake_due now [] s = s
wake_due now (t ∷ rest) s = elim (leb (s.threads t).wake_deadline now) [
  | true ↦ wake_due now rest (wake_sleeper s t rest)
  | false ↦ s
]

-- The thread that runs has used a tick.
abbrev pub charge : Scheduler → Option ℕ → Scheduler
charge s none = s
charge s (some t) =
    let left = (s.threads t).quantum_left - 1 in
    record s {
      threads = put s.threads t (record (s.threads t) {
        runtime_ticks = add64 (s.threads t).runtime_ticks 1;
        quantum_left = left;
      });
      reschedule_pending = (left == 0) || s.reschedule_pending;
    }

abbrev pub account : Scheduler → Scheduler
account s =
    if same s.current s.idle
    then record s {
      idle_ticks = add64 s.idle_ticks 1;
      reschedule_pending = not (is_empty s.ready_queue) || s.reschedule_pending;
    }
    else charge s s.current

-- `ns_sched_tick`
pub tick : Scheduler → ℕ → Scheduler
tick s now =
    let r = account (wake_due now s.sleep_queue (record s { ticks = add64 s.ticks 1 })) in
    if r.reschedule_pending && (r.preempt_disable_depth == 0) then reschedule r else r

-- `ns_sched_yield`
pub yield_now : Scheduler → Scheduler
yield_now s = reschedule_if_enabled (record s { reschedule_pending = true })

abbrev pub runs_user : Scheduler → ℕ → Bool
runs_user s t = not (same (some t) s.idle)

abbrev pub enter_wait : Scheduler → Option ℕ → ℕ → ℕ → Scheduler
enter_wait s none kind key = s
enter_wait s (some t) kind key = if (kind == 0) || not (runs_user s t) then s else record s {
  threads =
      put s.threads t (record (s.threads t) { state = blocked; wait_kind = kind; wait_key = key });
  blocked_queue = t ∷ s.blocked_queue;
}

-- `ns_sched_prepare_block`
pub prepare_block : Scheduler → ℕ → ℕ → Scheduler
prepare_block s kind key = enter_wait s s.current kind key

abbrev pub leave_wait : Scheduler → Option ℕ → Scheduler
leave_wait s none = s
leave_wait s (some t) =
    if is_blocked (s.threads t).state
    then reschedule_if_enabled (record s { reschedule_pending = true })
    else if is_ready (s.threads t).state && (s.threads t).on_run_queue
    then (let r = ready_remove s t in set_thread r t (record (r.threads t) { state = running }))
    else s

-- `ns_sched_commit_block`
pub commit_block : Scheduler → Scheduler
commit_block s = leave_wait s s.current

-- `ns_sched_block`
pub block : Scheduler → ℕ → ℕ → Scheduler
block s kind key = commit_block (prepare_block s kind key)

-- The place of a thread among the sleepers: behind all that wake no later.
unfoldable pub insert_sleeper : (ℕ → Thread) → ℕ → ℕ → List ℕ → List ℕ
insert_sleeper threads t deadline [] = t ∷ []
insert_sleeper threads t deadline (u ∷ rest) =
    if leb (threads u).wake_deadline deadline
    then u ∷ insert_sleeper threads t deadline rest
    else t ∷ u ∷ rest

abbrev pub fall_asleep : Scheduler → ℕ → ℕ → Scheduler
fall_asleep s t deadline =
    let threads =
      put s.threads t (record (s.threads t) { state = sleeping; wake_deadline = deadline }) in
    record s {
      threads = threads;
      sleep_queue = insert_sleeper threads t deadline s.sleep_queue;
      reschedule_pending = true;
    }

abbrev pub sleep_from : Scheduler → Option ℕ → ℕ → Scheduler
sleep_from s none deadline = s
sleep_from s (some t) deadline =
    if not (runs_user s t) then s else reschedule_if_enabled (fall_asleep s t deadline)

-- `ns_sched_sleep_until`
pub sleep_until : Scheduler → ℕ → Scheduler
sleep_until s deadline = sleep_from s s.current deadline

abbrev pub waits_for : Scheduler → ℕ → ℕ → ℕ → Bool
waits_for s kind key t = ((s.threads t).wait_kind == kind) && ((s.threads t).wait_key == key)

-- A blocked thread becomes ready.
abbrev pub wake_blocked : Scheduler → ℕ → Scheduler
wake_blocked s t =
    let r =
      ready_insert_tail
        (set_thread s t (record (s.threads t) { wait_kind = 0; wait_key = 0; state = ready })) t in
    record r { wakeups = add64 r.wakeups 1 }

-- The loop of `ns_sched_wake`: the number of threads woken, those that stay, and the scheduler.
pub wake_loop : ℕ → ℕ → ℕ → List ℕ → Scheduler → ℕ × (List ℕ × Scheduler)
wake_loop kind key left [] s = (0, ([], s))
wake_loop kind key zero (t ∷ rest) s = (0, (t ∷ rest, s))
wake_loop kind key (suc left) (t ∷ rest) s = elim (waits_for s kind key t) [
  | true ↦ let r = wake_loop kind key left rest (wake_blocked s t) in (r.0 + 1, r.1)
  | false ↦ let r = wake_loop kind key (suc left) rest s in (r.0, (t ∷ r.1.0, r.1.1))
]

-- `ns_sched_wake`
pub wake : Scheduler → ℕ → ℕ → ℕ → ℕ × Scheduler
wake s kind key maximum =
    if (kind == 0) || (maximum == 0)
    then (0, s)
    else (let r = wake_loop kind key maximum s.blocked_queue s in
        (r.0, record r.1.1 { blocked_queue = r.1.0 }))

-- `ns_sched_wake_thread`
pub wake_thread : Scheduler → ℕ → ℤ × Scheduler
wake_thread s t =
    if not (is_blocked (s.threads t).state) && not (is_sleeping (s.threads t).state)
    then (einval, s)
    else (let r = sleep_remove (blocked_remove s t) t in
        (zero_result, wake_blocked (set_thread r t (record (r.threads t) { wake_deadline = 0 })) t))

abbrev pub terminate_from : Scheduler → Option ℕ → Scheduler
terminate_from s none = s
terminate_from s (some t) =
    if not (runs_user s t)
    then s
    else reschedule_if_enabled (record (set_thread s t (record (s.threads t) { state = zombie })) {
      reschedule_pending = true;
    })

-- `ns_sched_terminate_current`
pub terminate_current : Scheduler → Scheduler
terminate_current s = terminate_from s s.current

-- `ns_sched_preempt_disable`
pub preempt_disable : Scheduler → Scheduler
preempt_disable s = record s { preempt_disable_depth = add32 s.preempt_disable_depth 1 }

-- `ns_sched_preempt_enable`
pub preempt_enable : Scheduler → Scheduler
preempt_enable s =
    let r = record s { preempt_disable_depth = s.preempt_disable_depth - 1 } in
    if (r.preempt_disable_depth == 0) && r.reschedule_pending then reschedule r else r
