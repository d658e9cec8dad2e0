-- ===== src/Lib.antt =====
-- SMCHR: satisfiability modulo constraint handling rules. The program flattens a goal to literals
-- and clauses, a CDCL solver (sat.c) searches for an assignment, and the assigned constraints wake
-- the propagators of the theory solvers through a queue (prop.c) with a trail (trail.c) of what to
-- restore on backtracking; maps and sets throughout are 2-3-4 trees (tree.c). This library models
-- the Boolean expressions and their clause form, unit propagation, decisions, clause learning and
-- the clause store of the SAT solver, the trail, the propagator queue, the table of names and the trees, each
-- part on its own state.
--
-- Prelude: Boolean tests, lists and arrays under native indices, and the names passed on.
--
-- Sat: sat.h and sat.c.
--   Sat/Literal, Sat/State: literal_t, struct variable_s, struct watch_s, the file's static
--     variables as one record `Sat`, and the accessors `literal_*`. A clause is shared by watch
--     lists and reasons and reordered in place, so clauses live in a heap under their addresses.
--   Sat/Propagate: the loops of `sat_propagate` between the assignment of a literal and the calls of
--     the theory solvers, `sat_watch_delete`.
--     Sat/Propagate/Watches, Loop, Ends, Quiet, QuietRound, Settles: what each round keeps, and
--     the state at the end.
--   Sat/Clause: `sat_reset`, `sat_make_var`, `sat_init_clause`, `sat_new_clause`.
--   Sat/Order: the activity order, `sat_bump_literal`, `sat_bump_clause`, `sat_decay`.
--   Sat/Select: `sat_select_literal`, `sat_should_select_literal`, `sat_rand`; the literals that the
--     fall-back meets in the constraint store are a parameter. Sat/Select/Scan: what the loop passes
--     over; Sat/Select/Solved: its answers.
--   Sat/Luby: `sat_luby`, with a number of calls and the range of the `int` it shifts, and the sequence as an indexed data type.
--   Sat/Backtrack: `sat_backtrack`, conflict analysis and backjumping.
--   Sat/Lazy: `sat_clause_insert_literal` and `sat_clause_istrue` (Sat/Lazy/Subsumed), with which
--     `sat_lazy_clause` builds and tests a clause.
--   Sat/Model, Sat/Assignment: the specification side, models of the clauses and frame conditions.
--
-- Tree: tree.c, the 2-3-4 trees under map.h and set.h. The order `compare` is a parameter, given as a
-- rank of the keys; `abort()` is `none`.
--   Tree: the nodes and searches; Tree/Entries: the entries in order, the abstract view of a tree;
--   Tree/Insert: `tree_insert`, `tree2_insert`, `tree3_insert`; Tree/Fix: `tree2_fix_t0` to
--   `tree4_fix_t3`; Tree/Delete: `tree_delete`, `tree_delete_min`, `tree_delete_max`;
--   Tree/Neighbour: `tree_search_lt`, `tree_search_gt`, `tree_search_max`; Tree/Map: `tree_map`,
--   `tree_destructive_map`; Tree/InPlace: `tree_destructive_insert`, `tree_destructive_delete`, as the
--   trees that they return; Tree/Iterator: `tree_itrinit`, `tree_itrinit_geq`, `tree_get`, `tree_next`
--   on a list for the stack; Tree/Search, Tree/Laws: trees as maps.
--
-- Trail: trail.c and its part of solver.h: `solver_trail`, `solver_trail_func`, `solver_backtrack`. The
-- trailed functions are a parameter, `call`; Trail/Restore has the step relation of what the solver
-- does between a choice point and its backtracking.
--
-- Queue: prop.c, the propagator queue: `solver_schedule_prop`, `solver_wake_prop`,
-- `solver_flush_queue` (Queue/Flush) and `solver_reset_prop_queue` on lists threaded through
-- `prop->next`; the handlers are a parameter. Queue/Chains, Queue/Fifo and Queue/Dequeue: the queues
-- they represent.
--
-- Expr: the Boolean part of expr.c, `expr_and`, `expr_or`, `expr_not`, `expr_iff` and the functions under
-- them, on expressions whose maps and_t and or_t are sorted lists. `expr_compare` is a parameter:
-- it tells trees of different depth apart, which a list does not show, and takes different atoms for
-- equal. So the theorems are about valuations in which what it takes for equal has the same value.
-- Expr/Meaning: truth values; Expr/Canonical: the shape of the
-- expressions built; Expr/Adds: updates of a map; Expr/Connectives; Expr/Equality: a comparison for concrete runs.
--
-- Cnf: pass_cnf.c, `pass_cnf_expr`, with the context passed from call to call. Cnf/Steps, Cnf/Sound,
-- Cnf/Leaves, Cnf/Correct: from the clauses back to the expression; Cnf/Fresh, Cnf/Extend, Cnf/Rounds,
-- Cnf/ExtendArg, Cnf/ExtendTop, Cnf/Complete: valuations that are changed at the new variables.
--
-- Names: names.c, the hash table of names: `table_lookup`, `table_insert`, `table_grow`, `unique_name`,
-- `register_name`, with the hash function and snprintf as parameters, and `hash_iseq` of hash.h in its two builds:
-- equality with VINTAGE_AMD64, and a test of bits with MODERN_AMD64 (Names/Modern). Names/Probe, Names/Insert,
-- Names/Grow, Names/Table: the table as a set of keys; Names/Lookup, Names/Fresh.
--
-- The modules named Tests hold concrete inputs for the theorems, and runs.
--
-- Bounds. A `for` or `while` loop over a counter is a recursion on the rounds left. The loop over a
-- watch list gets its length, the loop over the trail of `sat_propagate` as many rounds as there
-- are free variables, since each round takes a literal that was assigned. The walk down the
-- trail is a recursion on its length. `insert_node` of the trees gets the depth of the tree, and the
-- loops over a propagator list a bound on its length. A probe of the name table gets the slots left
-- in its buffer, `unique_name` a number of rounds. The choice of a decision gets the places left,
-- `sat_luby` as many calls as its argument, and its loops as many rounds as the number they halve. Activities, `count` and watch capacities wrap
-- round as the source's unsigned integers do.
--
-- Not modelled: the search loop `sat_solve` and `sat_restart`, the calls of
-- the theory solvers in `sat_propagate`, `sat_lazy_clause` itself, and the passes, solvers and front end around these parts.
-- Left out on purpose: the names and terms of variables that only printing reads, debug output and
-- statistics, memory management, and the theory solvers' own reasoning.
pub mod Cnf
pub mod Expr
pub mod Names
pub mod Prelude
pub mod Queue
pub mod Sat
pub mod Trail
pub mod Tree
