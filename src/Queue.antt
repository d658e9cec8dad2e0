-- ===== src/Queue.antt =====
-- prop.c: the propagator queue, eight lists threaded through `prop->next` in which the last entry points
-- to itself. Propagators are addresses; NULL is `none`. `priority_of` gives the priority of the first
-- propagator of the symbol of the propagator's constraint, and the handlers are a parameter.
pub mod Chains
pub mod Fifo
pub mod Dequeue
pub mod Flush
mod Tests
use smchr.Prelude.{
  ℕ, zero, suc, ◌+◌, Bool, true, false, not, ◌||◌, Option, none, some, leb, ◌==◌, if◌then◌else◌,
  update,
}

-- The file's static variables, with `prop->next`, the kill mark of each propagator and the purge mark
-- of its constraint.
pub record Queue : Type 0 where
  pub next : ℕ → Option ℕ
  pub head : ℕ → Option ℕ
  pub tail : ℕ → Option ℕ
  pub priority : ℕ
  pub current : Option ℕ
  pub killed : ℕ → Bool
  pub purged : ℕ → Bool

-- MAX_PRIORITY
abbrev pub max_priority : ℕ
max_priority = 8

abbrev pub is_null : Option ℕ → Bool
is_null none = true
is_null (some p) = false

abbrev pub points_to : Option ℕ → ℕ → Bool
points_to none p = false
points_to (some q) p = q == p

-- `solver_is_prop_scheduled`
abbrev pub solver_is_prop_scheduled : Queue → ℕ → Bool
solver_is_prop_scheduled s p = not (is_null (s.next p))

unfoldable pub solver_reset_prop_queue : Queue → Queue
solver_reset_prop_queue s = record s {
  head = λ i. if leb max_priority i then s.head i else none;
  tail = λ i. if leb max_priority i then s.tail i else none;
  current = none;
  priority = max_priority;
}

-- From `prop->next = prop` on. (Where the head is set, so is the tail.)
unfoldable pub enqueue : Queue → ℕ → ℕ → Queue
enqueue s k p =
    let own = update s.next p (some p) in
    let least = if leb s.priority k then s.priority else k in
    elim (s.head k) [
      | none ↦ record s {
        next = own;
        head = update s.head k (some p);
        tail = update s.tail k (some p);
        priority = least;
      }
      | some h ↦ elim (s.tail k) [
        | none ↦ s
        | some t ↦ record s {
          next = update own t (some p);
          tail = update s.tail k (some p);
          priority = least;
        }
      ]
    ]

abbrev pub schedule_unless_purged : Queue → ℕ → ℕ → Queue
schedule_unless_purged s k p = if s.purged p then s else enqueue s k p

-- A scheduled propagator is left alone, but for the running one, which may schedule itself again.
unfoldable pub solver_schedule_prop : (ℕ → ℕ) → Queue → ℕ → Queue
solver_schedule_prop priority_of s p =
    let again = schedule_unless_purged (record s { current = none }) (priority_of p) p in
    if solver_is_prop_scheduled s p
    then (if points_to s.current p then again else s)
    else schedule_unless_purged s (priority_of p) p

-- `while (priority < MAX_PRIORITY && propqueue[priority].head == NULL) priority++;` in `n` rounds.
unfoldable pub advance : ℕ → Queue → Queue
advance zero s = s
advance (suc n) s =
    let later = advance n (record s { priority = s.priority + 1 }) in
    if leb max_priority s.priority || not (is_null (s.head s.priority)) then s else later

-- The head of the queue at `priority` leaves it.
unfoldable pub dequeue : Queue → ℕ → Queue
dequeue s p =
    let k = s.priority in
    let emptied = record s { head = update s.head k none; tail = update s.tail k none } in
    if points_to (s.next p) p
    then advance max_priority emptied
    else record s { head = update s.head k (s.next p) }

-- The loop of `solver_wake_prop` ends with no propagator, or with one that is to run.
pub data Picked : Type 0 where
  idle : Queue → Picked
  picked : ℕ → Queue → Picked

-- `n` bounds the rounds, of which each takes an entry off the queue.
unfoldable pub pick : ℕ → Queue → Picked
pick zero s = idle s
pick (suc n) s = elim (s.priority == max_priority) [
  | true ↦ idle s
  | false ↦ elim (s.head s.priority) [
    | none ↦ idle s
    | some p ↦
        let s1 = dequeue s p in
        let skipped = pick n (record s1 { next = update s1.next p none }) in
        if s.killed p || s.purged p then skipped else picked p s1
  ]
]

-- After the handler of `p`: it is marked as not scheduled unless it scheduled itself.
unfoldable pub after_handler : Queue → ℕ → Bool × Queue
after_handler s p =
    let ended = record s { current = none; next = update s.next p none } in
    let s1 = advance max_priority (if is_null s.current then s else ended) in
    (not (s1.priority == max_priority), s1)

unfoldable pub solver_wake_prop : (ℕ → Queue → Queue) → ℕ → Queue → Bool × Queue
solver_wake_prop handler n s = elim (pick n s) [
  | idle s1 ↦ (false, s1)
  | picked p s1 ↦ after_handler (handler p (record s1 { current = some p })) p
]

-- `solver_is_queue_empty`
abbrev pub solver_is_queue_empty : Queue → Bool
solver_is_queue_empty s = s.priority == max_priority
