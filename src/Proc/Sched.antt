-- ===== src/Proc/Sched.antt =====
-- include/northstar/sched_rr.h and kernel/proc/scheduler.c: the round-robin scheduler. Threads are
-- numbers into a store; a queue, which the source links through the threads, is the list of its
-- members. A critical section is one step. A context switch sets the current thread; what the
-- processor does then is not modelled. Counters wrap around at their width.
pub mod Steps
mod Tests
use Prim.Native.Nat.{bit_and, bit_or}
use northstar_os.Base.{
  ℕ, zero, suc, ◌+◌, ◌-◌, Bool, true, false, not, ◌&&◌, ◌||◌, Option, none, some, List, [], ◌∷◌,
  ◌++◌, ltb, leb, ◌==◌, if◌then◌else◌,
}
use northstar_os.Base.Words.{add64}
use northstar_os.Base.Errno.{ℤ, zero_result, einval, ebusy}

-- `ns_thread_state`
pub data ThreadState : Type 0 where
  embryo ready running blocked sleeping zombie : ThreadState

abbrev pub is_running : ThreadState → Bool
is_running running = true
is_running other = false

abbrev pub is_zombie : ThreadState → Bool
is_zombie zombie = true
is_zombie other = false

abbrev pub is_blocked : ThreadState → Bool
is_blocked blocked = true
is_blocked other = false

abbrev pub is_sleeping : ThreadState → Bool
is_sleeping sleeping = true
is_sleeping other = false

abbrev pub is_ready : ThreadState → Bool
is_ready ready = true
is_ready other = false

-- `ns_thread`: the fields that the scheduler uses. The wait kind 0 is none.
pub record Thread : Type 0 where
  pub state : ThreadState
  pub flags : ℕ
  pub on_run_queue : Bool
  pub quantum_left : ℕ
  pub wait_kind : ℕ
  pub wait_key : ℕ
  pub wake_deadline : ℕ
  pub runtime_ticks : ℕ
  pub switches : ℕ

-- `ns_scheduler`
pub record Scheduler : Type 0 where
  pub threads : ℕ → Thread
  pub current : Option ℕ
  pub idle : Option ℕ
  pub ready_queue : List ℕ
  pub blocked_queue : List ℕ
  pub sleep_queue : List ℕ
  pub quantum_ticks : ℕ
  pub preempt_disable_depth : ℕ
  pub reschedule_pending : Bool
  pub ticks : ℕ
  pub context_switches : ℕ
  pub idle_ticks : ℕ
  pub wakeups : ℕ

-- A store with one thread changed.
abbrev pub put : (ℕ → Thread) → ℕ → Thread → ℕ → Thread
put threads t v other = if other == t then v else threads other

abbrev pub same : Option ℕ → Option ℕ → Bool
same none none = true
same none (some b) = false
same (some a) none = false
same (some a) (some b) = a == b

abbrev pub is_empty : List ℕ → Bool
is_empty [] = true
is_empty (t ∷ rest) = false

-- A queue without the first occurrence of a thread.
unfoldable pub without : List ℕ → ℕ → List ℕ
without [] target = []
without (t ∷ rest) target = if t == target then rest else t ∷ without rest target

-- `ready_insert_tail`
abbrev pub ready_insert_tail : Scheduler → ℕ → Scheduler
ready_insert_tail s t = record s {
  threads = put s.threads t (record (s.threads t) { on_run_queue = true });
  ready_queue = s.ready_queue ++ (t ∷ []);
}

-- `ready_remove`
pub ready_remove : Scheduler → ℕ → Scheduler
ready_remove s t = if not (s.threads t).on_run_queue then s else record s {
  threads = put s.threads t (record (s.threads t) { on_run_queue = false });
  ready_queue = without s.ready_queue t;
}

-- `blocked_remove` and `sleep_remove`
pub blocked_remove : Scheduler → ℕ → Scheduler
blocked_remove s t = record s { blocked_queue = without s.blocked_queue t }

pub sleep_remove : Scheduler → ℕ → Scheduler
sleep_remove s t = record s { sleep_queue = without s.sleep_queue t }

abbrev pub set_thread : Scheduler → ℕ → Thread → Scheduler
set_thread s t v = record s { threads = put s.threads t v }

-- `switch_to`
pub switch_on : Scheduler → ℕ → Scheduler
switch_on s next =
    if same (some next) s.current
    then set_thread s next
        (record (s.threads next) { state = running; quantum_left = s.quantum_ticks })
    else record s {
      threads = put s.threads next (record (s.threads next) {
        state = running;
        quantum_left = s.quantum_ticks;
        switches = add64 (s.threads next).switches 1;
      });
      current = some next;
      context_switches = add64 s.context_switches 1;
    }

pub switch_to : Scheduler → Option ℕ → Scheduler
switch_to s (some next) = switch_on s next
switch_to s none = elim s.idle [ some next ↦ switch_on s next | none ↦ s ]

-- `ns_sched_init`, with the store that there is.
pub sched_init : (ℕ → Thread) → ℕ → Scheduler → ℤ × Scheduler
sched_init threads quantum old = if quantum == 0 then (einval, old) else (
  zero_result,
  record {
    threads = threads;
    current = none;
    idle = none;
    ready_queue = [];
    blocked_queue = [];
    sleep_queue = [];
    quantum_ticks = quantum;
    preempt_disable_depth = 0;
    reschedule_pending = false;
    ticks = 0;
    context_switches = 0;
    idle_ticks = 0;
    wakeups = 0;
  },
)

-- `ns_sched_set_idle`; NS_THREAD_KERNEL and NS_THREAD_IDLE are 1 and 2.
pub set_idle : Scheduler → ℕ → ℤ × Scheduler
set_idle s t = if not (same s.idle none) || (s.threads t).on_run_queue then (ebusy, s) else (
  zero_result,
  record s {
    threads = put s.threads t (record (s.threads t) {
      flags = bit_or (s.threads t).flags 3;
      state = ready;
      quantum_left = s.quantum_ticks;
    });
    idle = some t;
  },
)

-- `ns_sched_add`
pub add : Scheduler → ℕ → ℤ × Scheduler
add s t =
    if (s.threads t).on_run_queue
      || is_running (s.threads t).state
      || is_zombie (s.threads t).state
      || not (bit_and (s.threads t).flags 2 == 0)
    then (einval, s)
    else (
      zero_result,
      ready_insert_tail
          (set_thread (sleep_remove (blocked_remove s t) t) t
            (record (s.threads t) { wait_kind = 0; wait_key = 0; state = ready }))
          t,
    )

-- `ns_sched_remove`
pub remove : Scheduler → ℕ → Scheduler
remove s t =
    let r = sleep_remove (blocked_remove (ready_remove s t) t) t in
    if same r.current (some t) then record r { reschedule_pending = true } else r
