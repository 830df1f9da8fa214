-- ===== src/Proc/Sched/Steps/Sleepers.antt =====
-- The order of the sleepers of kernel/proc/scheduler.c, and which of them a tick wakes.
use northstar_os.Base.{
  ℕ, ◌+◌, ◌%◌, ◌^◌, ◌≤◌, ◌<◌, ◌≡◌, refl, sym, ap, ◌∙◌, ◌≢◌, true, false, List, [], ◌∷◌, ◌++◌,
  length, append-nil, append_assoc, arith, leb, ◌==◌, if_intro, Bool-cases, inl, inr,
}
use mathlib.Core.Path.{subst}
use northstar_os.Proc.Sched.{Thread, Scheduler, ready, sleeping, put}
use northstar_os.Proc.Sched.Steps.{insert_sleeper, wake_due, wake_sleeper, fall_asleep}
use northstar_os.Proc.Sched.Steps.Queues.{
  InOrder, Absent, Absent-append, Each, Each-map, Distinct, insert-InOrder, InOrder-put,
  Each-NoEarlier,
}

-- A queue in which a thread stands behind those that wake no later and before those that wake later.
pub record Placed (threads : ℕ → Thread) (t deadline : ℕ) (before after : List ℕ) : Type 0 where
  pub front : List ℕ
  pub back : List ℕ
  pub taken_apart : before ≡ front ++ back
  pub joined : after ≡ front ++ (t ∷ back)
  pub no_later : Each (λ u. (threads u).wake_deadline ≤ deadline) front
  pub later : Each (λ u. deadline < (threads u).wake_deadline) back

insert-Placed :
    (threads : ℕ → Thread) (t deadline : ℕ) (q : List ℕ)
    → InOrder threads q
    → Placed threads t deadline q (insert_sleeper threads t deadline q)
unfolding insert_sleeper
insert-Placed threads t deadline [] o = record {
  front = [];
  back = [];
  taken_apart = refl;
  joined = refl;
  no_later = tt;
  later = tt;
}
insert-Placed threads t deadline (u ∷ q) (n, o) =
    if_intro (Placed threads t deadline (u ∷ q)) (leb (threads u).wake_deadline deadline) _ _
      (λ before.
        let c = insert-Placed threads t deadline q o in
        record {
          front = u ∷ c.front;
          back = c.back;
          taken_apart = ap (λ x. u ∷ x) c.taken_apart;
          joined = ap (λ x. u ∷ x) c.joined;
          no_later = (ground (arith, before), c.no_later);
          later = c.later;
        })
      (λ after.
        let l : deadline < (threads u).wake_deadline = ground (arith, after) in
        record {
          front = [];
          back = u ∷ q;
          taken_apart = refl;
          joined = refl;
          no_later = tt;
          later = (l, Each-NoEarlier threads _ deadline q l n);
        })

-- What falling asleep does.
pub record Sleeps (s : Scheduler) (t deadline : ℕ) (r : Scheduler) : Type 0 where
  pub order : InOrder r.threads r.sleep_queue
  pub place : Placed r.threads t deadline s.sleep_queue r.sleep_queue
  pub state : (r.threads t).state ≡ sleeping
  pub until : (r.threads t).wake_deadline ≡ deadline
  pub others : (u : ℕ) → u ≢ t → r.threads u ≡ s.threads u
  pub pending : r.reschedule_pending ≡ true
  pub ready_kept : r.ready_queue ≡ s.ready_queue
  pub blocked_kept : r.blocked_queue ≡ s.blocked_queue

put_self : (threads : ℕ → Thread) (t : ℕ) (v : Thread) → put threads t v t ≡ v
put_self threads t v = let e : (t == t) ≡ true = ground arith in rw e refl

put_other :
    (threads : ℕ → Thread) (t : ℕ) (v : Thread) (u : ℕ) → u ≢ t → put threads t v u ≡ threads u
put_other threads t v u ne = let e : (u == t) ≡ false = ground arith in rw e refl

-- Where the sleepers are in order, a thread that is not among them and goes to sleep takes its place in the
-- order, behind the sleepers that wake no later than it and before the others, none of which is lost; it is
-- then sleeping with that deadline, every other thread, the ready and the blocked queue are as before, and a
-- rescheduling is pending.
pub fall_asleep-InOrder :
    (s : Scheduler) (t deadline : ℕ)
    → Absent t s.sleep_queue
    → InOrder s.threads s.sleep_queue
    → Sleeps s t deadline (fall_asleep s t deadline)
fall_asleep-InOrder s t deadline a o = record {
  order =
      subst (λ x. InOrder now (insert_sleeper now t x s.sleep_queue)) until
        (insert-InOrder now t s.sleep_queue kept);
  place = insert-Placed now t deadline s.sleep_queue kept;
  state = ap (λ (v : Thread). v.state) (put_self s.threads t _);
  until = until;
  others = put_other s.threads t _;
  pending = refl;
  ready_kept = refl;
  blocked_kept = refl;
}
  where
    now : ℕ → Thread
    now = put s.threads t (record (s.threads t) { state = sleeping; wake_deadline = deadline })

    until : (now t).wake_deadline ≡ deadline
    until = ap (λ (v : Thread). v.wake_deadline) (put_self s.threads t _)

    kept : InOrder now s.sleep_queue
    kept = InOrder-put s.threads t _ s.sleep_queue a o

-- A thread that has been woken.
abbrev pub IsAwake : Thread → Type 0
IsAwake v = (v.state ≡ ready) × (v.on_run_queue ≡ true) × (v.wake_deadline ≡ 0)

-- What a tick at `now` does to the sleepers of `s`.
pub record Asleep (now : ℕ) (s r : Scheduler) : Type 0 where
  pub woken : List ℕ
  pub taken_apart : s.sleep_queue ≡ woken ++ r.sleep_queue
  pub due : Each (λ u. (s.threads u).wake_deadline ≤ now) woken
  pub not_due : Each (λ u. now < (s.threads u).wake_deadline) r.sleep_queue
  pub queued : r.ready_queue ≡ s.ready_queue ++ woken
  pub awake : Each (λ u. IsAwake (r.threads u)) woken
  pub others : (u : ℕ) → Absent u woken → r.threads u ≡ s.threads u
  pub counted : r.wakeups % 2 ^ 64 ≡ (s.wakeups + length woken) % 2 ^ 64
  pub order : InOrder r.threads r.sleep_queue
  pub blocked_kept : r.blocked_queue ≡ s.blocked_queue
  pub current_kept : r.current ≡ s.current

-- Nobody is due.
rests-Asleep :
    (now : ℕ) (s : Scheduler)
    → Each (λ u. now < (s.threads u).wake_deadline) s.sleep_queue
    → InOrder s.threads s.sleep_queue
    → Asleep now s s
rests-Asleep now s n o = record {
  woken = [];
  taken_apart = refl;
  due = tt;
  not_due = n;
  queued = sym (append-nil s.ready_queue);
  awake = tt;
  others = λ u a. refl;
  counted = ap (λ (x : ℕ). x % 2 ^ 64) (omega arith);
  order = o;
  blocked_kept = refl;
  current_kept = refl;
}

module _ (now : ℕ) (s : Scheduler) (t : ℕ) (rest : List ℕ) (e : s.sleep_queue ≡ t ∷ rest)
    (a : Absent t rest) (l : (s.threads t).wake_deadline ≤ now) where
  woken_other : (u : ℕ) → u ≢ t → (wake_sleeper s t rest).threads u ≡ s.threads u
  woken_other u ne = let x : (u == t) ≡ false = ground arith in rw x refl

  woken-IsAwake : IsAwake ((wake_sleeper s t rest).threads t)
  woken-IsAwake = let x : (t == t) ≡ true = ground arith in rw x (refl, refl, refl)

  -- The first sleeper is due, and the others are dealt with behind it.
  wakes-Asleep : (r : Scheduler) → Asleep now (wake_sleeper s t rest) r → Asleep now s r
  wakes-Asleep r c = record {
    woken = t ∷ c.woken;
    taken_apart = e ∙ ap (λ x. t ∷ x) c.taken_apart;
    due = (
      l,
      Each-map _ (λ u. (s.threads u).wake_deadline ≤ now) t c.woken
          (λ u ne h. subst (λ (v : Thread). v.wake_deadline ≤ now) (woken_other u ne) h) gone.0
          c.due,
    );
    not_due =
        Each-map _ (λ u. now < (s.threads u).wake_deadline) t r.sleep_queue
          (λ u ne h. subst (λ (v : Thread). now < v.wake_deadline) (woken_other u ne) h) gone.1
          c.not_due;
    queued = c.queued ∙ append_assoc s.ready_queue (t ∷ []) c.woken;
    awake = (subst IsAwake (sym (c.others t gone.0)) woken-IsAwake, c.awake);
    others = λ u (ne, n). c.others u n ∙ woken_other u (λ x. ne (sym x));
    counted = omega (arith, c.counted);
    order = c.order;
    blocked_kept = c.blocked_kept;
    current_kept = c.current_kept;
  }
    where
      gone : Absent t c.woken × Absent t r.sleep_queue
      gone = Absent-append t c.woken r.sleep_queue (subst (Absent t) c.taken_apart a)

-- From sleepers in order and each there once, the loop of a tick divides them into those whose deadline has
-- come, which become ready in this order behind the ready threads and are counted as wake-ups, and those
-- that wake later, which stay asleep in order; every other thread, the blocked queue and the choice of the
-- current thread are as before.
pub wake_due-Asleep :
    (now : ℕ) (q : List ℕ) (s : Scheduler)
    → s.sleep_queue ≡ q
    → Distinct q
    → InOrder s.threads q
    → Asleep now s (wake_due now q s)
unfolding wake_due
wake_due-Asleep now [] s e d o = rests-Asleep now s (rw e tt) (rw e tt)
wake_due-Asleep now (t ∷ rest) s e (a, d) (n, o) =
    elim (Bool-cases (leb (s.threads t).wake_deadline now)) [
      | inl due ↦
          rw (due, wake_due)
            (wakes-Asleep now s t rest e a (ground (arith, due)) _ (
              wake_due-Asleep now rest (wake_sleeper s t rest) refl d
                (InOrder-put _ t _ rest a (InOrder-put s.threads t _ rest a o))))
      | inr not_due ↦
          let l : now < (s.threads t).wake_deadline = ground (arith, not_due) in
          rw (not_due, wake_due)
            (rests-Asleep now s (rw e (l, Each-NoEarlier s.threads _ now rest l n)) (rw e (n, o)))
    ]
