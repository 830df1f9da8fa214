-- ===== src/Proc/Sched/Steps/Queues.antt =====
-- Lemmas on the queue of the sleepers of kernel/proc/scheduler.c, whose threads stand in the order in which
-- they wake.
use northstar_os.Base.{
  ℕ, ◌≤◌, ◌<◌, ◌≡◌, refl, ◌≢◌, false, List, [], ◌∷◌, ◌++◌, arith, leb, ◌==◌, Bool-cases, inl, inr,
}
use northstar_os.Proc.Sched.{Thread, put}
use northstar_os.Proc.Sched.Steps.{insert_sleeper}

-- Every thread of a queue wakes at `from` or later.
abbrev pub NoEarlier : (ℕ → Thread) → ℕ → List ℕ → Type 0
NoEarlier threads from [] = Unit {0}
NoEarlier threads from (t ∷ rest) = (from ≤ (threads t).wake_deadline) × NoEarlier threads from rest

-- The sleepers stand in the order in which they wake.
abbrev pub InOrder : (ℕ → Thread) → List ℕ → Type 0
InOrder threads [] = Unit {0}
InOrder threads (t ∷ rest) = NoEarlier threads (threads t).wake_deadline rest × InOrder threads rest

-- No thread of the queue is this one.
abbrev pub Absent : ℕ → List ℕ → Type 0
Absent t [] = Unit {0}
Absent t (u ∷ rest) = (u ≢ t) × Absent t rest

pub Absent-append : (t : ℕ) (a b : List ℕ) → Absent t (a ++ b) → Absent t a × Absent t b
Absent-append t [] b h = (tt, h)
Absent-append t (u ∷ a) b (ne, h) = let (x, y) = Absent-append t a b h in ((ne, x), y)

-- All threads of a queue have the property.
abbrev pub Each : (ℕ → Type 0) → List ℕ → Type 0
Each P [] = Unit {0}
Each P (t ∷ rest) = P t × Each P rest

pub Each-map :
    (P Q : ℕ → Type 0) (t : ℕ) (q : List ℕ)
    → ((u : ℕ) → u ≢ t → P u → Q u)
    → Absent t q
    → Each P q
    → Each Q q
Each-map P Q t [] f a e = tt
Each-map P Q t (u ∷ q) f (ne, a) (x, e) = (f u ne x, Each-map P Q t q f a e)

abbrev pub Distinct : List ℕ → Type 0
Distinct [] = Unit {0}
Distinct (t ∷ rest) = Absent t rest × Distinct rest

pub NoEarlier-le :
    (threads : ℕ → Thread) (a b : ℕ) (q : List ℕ)
    → a ≤ b
    → NoEarlier threads b q
    → NoEarlier threads a q
NoEarlier-le threads a b [] h n = tt
NoEarlier-le threads a b (t ∷ q) h (l, n) = (omega arith, NoEarlier-le threads a b q h n)

pub NoEarlier-insert :
    (threads : ℕ → Thread) (t from : ℕ) (q : List ℕ)
    → from ≤ (threads t).wake_deadline
    → NoEarlier threads from q
    → NoEarlier threads from (insert_sleeper threads t (threads t).wake_deadline q)
unfolding insert_sleeper
NoEarlier-insert threads t from [] h n = (h, tt)
NoEarlier-insert threads t from (u ∷ q) h (l, n) =
    elim (Bool-cases (leb (threads u).wake_deadline (threads t).wake_deadline)) [
      | inl before ↦ rw before (l, NoEarlier-insert threads t from q h n)
      | inr after ↦ rw after (h, (l, n))
    ]

pub insert-InOrder :
    (threads : ℕ → Thread) (t : ℕ) (q : List ℕ)
    → InOrder threads q
    → InOrder threads (insert_sleeper threads t (threads t).wake_deadline q)
unfolding insert_sleeper
insert-InOrder threads t [] o = (tt, tt)
insert-InOrder threads t (u ∷ q) (n, o) =
    elim (Bool-cases (leb (threads u).wake_deadline (threads t).wake_deadline)) [
      | inl before ↦
          rw before (
            NoEarlier-insert threads t _ q (ground (arith, before)) n,
            insert-InOrder threads t q o,
          )
      | inr after ↦
          let l : (threads t).wake_deadline ≤ (threads u).wake_deadline = ground (arith, after) in
          rw after ((l, NoEarlier-le threads _ _ q l n), (n, o))
    ]

-- Another thread's entry does not matter.
pub put-deadline :
    (threads : ℕ → Thread) (t u : ℕ) (v : Thread)
    → u ≢ t
    → (put threads t v u).wake_deadline ≡ (threads u).wake_deadline
put-deadline threads t u v ne = let e : (u == t) ≡ false = ground arith in rw e refl

pub NoEarlier-put :
    (threads : ℕ → Thread) (t from : ℕ) (v : Thread) (q : List ℕ)
    → Absent t q
    → NoEarlier threads from q
    → NoEarlier (put threads t v) from q
NoEarlier-put threads t from v [] a n = tt
NoEarlier-put threads t from v (u ∷ q) (ne, a) (l, n) =
    (omega (arith, put-deadline threads t u v ne), NoEarlier-put threads t from v q a n)

pub InOrder-put :
    (threads : ℕ → Thread) (t : ℕ) (v : Thread) (q : List ℕ)
    → Absent t q
    → InOrder threads q
    → InOrder (put threads t v) q
InOrder-put threads t v [] a o = tt
InOrder-put threads t v (u ∷ q) (ne, a) (n, o) = (
  NoEarlier-le (put threads t v) _ _ q (omega (arith, put-deadline threads t u v ne))
      (NoEarlier-put threads t _ v q a n),
  InOrder-put threads t v q a o,
)

pub Each-NoEarlier :
    (threads : ℕ → Thread) (from now : ℕ) (q : List ℕ)
    → now < from
    → NoEarlier threads from q
    → Each (λ u. now < (threads u).wake_deadline) q
Each-NoEarlier threads from now [] h n = tt
Each-NoEarlier threads from now (u ∷ q) h (l, n) =
    (omega arith, Each-NoEarlier threads from now q h n)
