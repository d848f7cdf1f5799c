-- ===== src/Broker/Write/Retry.antt =====
-- How often a write is attempted.
use r60v_home_assistant.Base.{ℕ, zero, suc, ◌≤◌, ◌≡◌, ◌≢◌, ◌⊎◌, Bool, false, List, [], ◌∷◌, ◌++◌}
use r60v_home_assistant.Base.Int.{ℤ}
use r60v_home_assistant.Base.Results.{Result, ok}
use r60v_home_assistant.Protocol.Frame.{Frame}
use r60v_home_assistant.Governor.{Fault}
use r60v_home_assistant.Broker.{Action, writes, sleeps, Broker}
use r60v_home_assistant.Broker.Write.{write_retry_backoff}

-- One write, and then as many pauses with a further write.
abbrev pub tries : ℤ → List ℤ → ℕ → List Action
tries address bytes zero = writes address bytes ∷ []
tries address bytes (suc k) =
    writes address bytes ∷ sleeps write_retry_backoff ∷ tries address bytes k

-- How a write that may be retried `n` times went: after `k` retries, which are all of them when it
-- failed.
abbrev pub Tried : ℤ → List ℤ → ℕ → Broker → Broker × Result Fault Bool → Type 0
Tried address bytes n b (t, r) =
    (k : ℕ) × (k ≤ n)
    × (t.log ≡ b.log ++ tries address bytes k)
    × (((r ≡ ok false) × (k ≡ n)) ⊎ (r ≢ ok false))
