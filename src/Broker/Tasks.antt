-- ===== src/Broker/Tasks.antt =====
-- What a coroutine keeps, step by step.
use r60v_home_assistant.Base.Results.{Result, ok, err}
use r60v_home_assistant.Governor.{Fault}
use r60v_home_assistant.Broker.{Broker, Task, follow, ◌>>=◌, ◌>>◌}

-- A property that the coroutine keeps, whether it ends with a value or raises.
abbrev pub Keeps {ℓ} : {A : Type ℓ} → (Broker → Type 0) → Task A → Type 0
Keeps P m = (b : Broker) → P b → P (m b).0

follow-Keeps {ℓ κ} :
    {A : Type ℓ} {B : Type κ} (P : Broker → Type 0) (f : A → Task B) (r : Broker × Result Fault A)
    → ((a : A) → Keeps P (f a))
    → P r.0
    → P (follow f r).0
unfolding follow
follow-Keeps P f (b, ok a) k h = k a b h
follow-Keeps P f (b, err e) k h = h

pub bind-Keeps {ℓ κ} :
    {A : Type ℓ} {B : Type κ} (P : Broker → Type 0) (m : Task A) (f : A → Task B)
    → Keeps P m
    → ((a : A) → Keeps P (f a))
    → Keeps P (m >>= f)
unfolding ◌>>=◌
bind-Keeps P m f k k' b h = follow-Keeps P f (m b) k' (k b h)

pub then-Keeps {ℓ} :
    {B : Type ℓ} (P : Broker → Type 0) (m : Task (Unit {0})) (m' : Task B)
    → Keeps P m
    → Keeps P m'
    → Keeps P (m >> m')
unfolding ◌>>◌
then-Keeps P m m' k k' = bind-Keeps P m (λ _. m') k (λ _. k')
