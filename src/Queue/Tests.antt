-- ===== src/Queue/Tests.antt =====
-- prop.c on a concrete queue: the witnesses of the theorems, and a run.
use smchr.Prelude.{
  length, ◌≤◌, ℕ, ◌≡◌, refl, true, false, none, some, List, [], arith, if◌then◌else◌, ◌==◌,
}
use smchr.Queue.{
  Queue, solver_schedule_prop, enqueue, dequeue, advance, solver_wake_prop, pick, after_handler,
}
use smchr.Queue.Fifo.{Represents, append_at, schedule-Represents}
use smchr.Queue.Flush.{flush_list, flush_lists, solver_flush_queue, flush-unschedules}
use smchr.Queue.Dequeue.{drop_at, dequeue-Represents}

abbrev blank : Queue
blank = record {
  next = λ p. none;
  head = λ k. none;
  tail = λ k. none;
  priority = 8;
  current = none;
  killed = λ p. false;
  purged = λ p. p == 30;
}

-- Propagators 10 and 11 have priority 2, propagator 20 priority 1.
abbrev priorities : ℕ → ℕ
priorities p = if p == 20 then 1 else 2

abbrev no_lists : ℕ → List ℕ
no_lists k = []

blank-Represents : Represents blank no_lists
blank-Represents = record {
  heads = λ k. refl;
  tails = λ k. refl;
  chains = λ k. tt;
  once = λ k p. omega arith;
  one_list = λ j k p h. omega arith;
  unscheduled = λ k p h. refl;
  least = λ k h. refl;
  ready = λ h. ground arith;
}

abbrev one : Queue
one = solver_schedule_prop priorities blank 10

one-Represents : Represents one (append_at no_lists 2 10)
one-Represents =
    schedule-Represents priorities blank no_lists 10 blank-Represents refl refl (omega arith)

schedule-Represents_example :
    Represents (solver_schedule_prop priorities one 11) (append_at (append_at no_lists 2 10) 2 11)
unfolding solver_schedule_prop enqueue
schedule-Represents_example =
    schedule-Represents priorities one (append_at no_lists 2 10) 11 one-Represents refl refl
      (omega arith)

dequeue-Represents_example : Represents (dequeue one 10) (drop_at (append_at no_lists 2 10) 2 [])
unfolding solver_schedule_prop enqueue
dequeue-Represents_example =
    dequeue-Represents one (append_at no_lists 2 10) 10 [] one-Represents (omega arith) refl

abbrev three : Queue
three = solver_schedule_prop priorities (solver_schedule_prop priorities one 11) 20

-- The propagator of the lower number runs first, and then the first of the other list.
abbrev ignore : ℕ → Queue → Queue
ignore p s = s

run_wake :
    ((solver_wake_prop ignore 3 three).1.head 1 ≡ none)
    × ((solver_wake_prop ignore 3 three).1.head 2 ≡ some 10)
    × ((solver_wake_prop ignore 3 three).0 ≡ true)
unfolding solver_wake_prop pick after_handler dequeue advance solver_schedule_prop enqueue
run_wake = (refl, refl, refl)

one_list_length : (j : ℕ) → length (append_at no_lists 2 10 j) ≤ 1
one_list_length j = ground arith

flush-unschedules_example : (solver_flush_queue 1 one).next 10 ≡ none
flush-unschedules_example =
    flush-unschedules 1 one (append_at no_lists 2 10) 2 10 one-Represents one_list_length
      (omega arith) (omega arith)

run_flush : (solver_flush_queue 3 three).priority ≡ 8
unfolding solver_flush_queue flush_lists flush_list solver_schedule_prop enqueue
run_flush = refl
