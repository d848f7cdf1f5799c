-- ===== src/Governor/Throttle.antt =====
-- The spacing of the operations.
use r60v_home_assistant.Base.{ℕ, ◌+◌, ◌≤◌, ◌≡◌, some, arith}
use r60v_home_assistant.Base.Results.{Result}
use r60v_home_assistant.Governor.{Op, Fault, Reply, Job, Governor, perform, finish, throttle}

throttle-spaced :
    (now : ℕ) (g : Governor)
    → g.last_op_at ≤ now
    → (g.last_op_at + g.min_interval ≤ now + throttle now g) × (throttle now g ≤ g.min_interval)
unfolding throttle
throttle-spaced now g h = ground arith

-- The operation of a job in hand starts at least the minimum interval after the operation before
-- it, and the worker never waits longer than that interval for it, on a clock that does not run
-- backwards.
finish-spaced :
    (now : ℕ) (client : Op → Result Fault Reply) (g : Governor) (j : Job)
    → g.in_hand ≡ some j
    → g.last_op_at ≤ now
    → (g.last_op_at + g.min_interval ≤ (finish now client g).last_op_at)
      × ((finish now client g).last_op_at ≤ now + g.min_interval)
unfolding finish perform
finish-spaced now client g j e h = let s = throttle-spaced now g h in rw e (s.0, omega arith)
