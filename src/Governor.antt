-- ===== src/Governor.antt =====
-- The device governor (bridge/r60v_broker/governor.py): one worker and a priority queue. The future
-- of a job is named by the number that the counter gave it.
pub mod Queue
pub mod Service
pub mod Order
pub mod Isolation
pub mod Throttle
pub mod Drain
use r60v_home_assistant.Base.{
  ℕ, zero, suc, ◌+◌, ◌-◌, Bool, true, false, ◌&&◌, ◌||◌, Option, none, some, List, [], ◌∷◌, ◌++◌,
  ltb, leb, ◌==◌, if◌then◌else◌,
}
use r60v_home_assistant.Base.Int.{ℤ}
use r60v_home_assistant.Base.Results.{Result, ok, err}
use r60v_home_assistant.Base.Dict.{Dict}
use r60v_home_assistant.Base.Dict
use r60v_home_assistant.Protocol.Frame.{Frame}

abbrev pub priority_command : ℕ
priority_command = 0

abbrev pub priority_poll : ℕ
priority_poll = 10

-- `("read", address, length)` and `("write", address, data)`
pub data Op : Type 0 where
  read : ℤ → ℤ → Op
  write : ℤ → List ℤ → Op

-- What the client raised: its own `R60VConnectionError`, or anything else.
pub data Fault : Type 0 where
  connection other : Fault

pub data Reply : Type 0 where
  bytes : List ℤ → Reply
  frame : Frame → Reply

pub data Future : Type 0 where
  waiting cancelled : Future
  done : Result Fault Reply → Future

pub record Job : Type 0 where
  pub priority : ℕ
  pub seq : ℕ
  pub op : Op

pub record Governor : Type 0 where
  pub min_interval : ℕ
  pub queue : List Job
  pub in_hand : Option Job
  pub counter : ℕ
  pub futures : Dict Future
  pub last_op_at : ℕ
  pub performed : List Job

unfoldable pub init : ℕ → Governor
init interval = record {
  min_interval = interval;
  queue = [];
  in_hand = none;
  counter = 0;
  futures = [];
  last_op_at = 0;
  performed = [];
}

unfoldable pub submit : ℕ → Op → Governor → Governor
submit priority op g = record g {
  queue = record { priority = priority; seq = g.counter; op = op } ∷ g.queue;
  counter = g.counter + 1;
  futures = Dict.put g.counter waiting g.futures;
}

unfoldable pub submit_read : ℤ → ℤ → Governor → Governor
unfolding submit
submit_read address count g = submit priority_poll (read address count) g

unfoldable pub submit_write : ℤ → List ℤ → Governor → Governor
unfolding submit
submit_write address data' g = submit priority_command (write address data') g

cancel_future : Option Future → ℕ → Dict Future → Dict Future
cancel_future (some waiting) seq futures = Dict.put seq cancelled futures
cancel_future _ seq futures = futures

-- The caller stops waiting; its job stays in the queue.
unfoldable pub cancel : ℕ → Governor → Governor
unfolding cancel_future
cancel seq g = record g { futures = cancel_future (Dict.get seq g.futures) seq g.futures }

-- The order of the tuples in the queue; the numbers differ, so the comparison ends there.
unfoldable pub precedes : Job → Job → Bool
precedes j k = ltb j.priority k.priority || (j.priority == k.priority && ltb j.seq k.seq)

least : Job → List Job → Option (Job × List Job) → Job × List Job
least j js none = (j, [])
least j js (some (k, rest)) = if precedes k j then (k, j ∷ rest) else (j, js)

-- `PriorityQueue.get`: the least entry, and the entries that stay.
unfoldable pub take_least : List Job → Option (Job × List Job)
unfolding least
take_least [] = none
take_least (j ∷ js) = some (least j js (take_least js))

-- How long `_throttle` sleeps.
unfoldable pub throttle : ℕ → Governor → ℕ
throttle now g =
    if g.min_interval == 0
    then 0
    else if ltb now (g.last_op_at + g.min_interval)
    then g.last_op_at + g.min_interval - now
    else 0

-- `if not fut.done(): fut.set_result(…)`, or `set_exception`.
settle : Option Future → ℕ → Result Fault Reply → Dict Future → Dict Future
settle (some waiting) seq r futures = Dict.put seq (done r) futures
settle _ seq r futures = futures

pub take : Governor → Option (Job × List Job) → Governor
take g none = g
take g (some (j, rest)) = record g { queue = rest; in_hand = some j }

begin_with : Option Job → Governor → Governor
unfolding take
begin_with none g = take g (take_least g.queue)
begin_with (some j) g = g

-- The worker's `await self._queue.get()`, for a worker with no job in hand; on an empty queue it
-- waits.
unfoldable pub begin : Governor → Governor
unfolding begin_with
begin g = begin_with g.in_hand g

perform : ℕ → (Op → Result Fault Reply) → Option Job → Governor → Governor
unfolding settle throttle
perform now client none g = g
perform now client (some j) g = record g {
  in_hand = none;
  last_op_at = now + throttle now g;
  futures = settle (Dict.get j.seq g.futures) j.seq (client j.op) g.futures;
  performed = g.performed ++ j ∷ [];
}

-- The rest of the turn, for the job in hand: `_throttle`, the client's operation, and the future.
-- The worker reaches the throttle at the time `now`.
unfoldable pub finish : ℕ → (Op → Result Fault Reply) → Governor → Governor
unfolding perform
finish now client g = perform now client g.in_hand g
