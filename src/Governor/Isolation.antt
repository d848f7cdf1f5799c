-- ===== src/Governor/Isolation.antt =====
-- Failures stay with the job that failed.
use r60v_home_assistant.Base.{
  ℕ, ◌≡◌, refl, Option, none, some, [], ◌∷◌, ◌++◌, arith, ◌==◌, if◌then◌else◌,
}
use r60v_home_assistant.Base.Results.{Result}
use r60v_home_assistant.Base.Dict
use r60v_home_assistant.Base.Dict.{get-put}
use r60v_home_assistant.Governor.{
  Op, Fault, Reply, Future, waiting, cancelled, done, Job, Governor, perform, finish, settle,
}

-- What becomes of a future when its job ends with a result: it is resolved if its caller waits.
abbrev pub settled : Result Fault Reply → Option Future → Option Future
settled r (some waiting) = some (done r)
settled r o = o

settle-get :
    (o : Option Future) (seq k : ℕ) (r : Result Fault Reply) (futures : Dict.Dict Future)
    → Dict.get seq futures ≡ o
    → Dict.get k (settle o seq r futures) ≡ (if seq == k then settled r o else Dict.get k futures)
unfolding settle
settle-get none seq k r futures e = ground arith
settle-get (some waiting) seq k r futures e = get-put seq k (done r) futures
settle-get (some cancelled) seq k r futures e = ground arith
settle-get (some (done r')) seq k r futures e = ground arith

-- When the job in hand ends, the client's result, be it a value or an exception, goes to the future
-- of that job only, and only while its caller still waits; every other future, the queue and the
-- numbering are as before, and the worker is free for the next job.
finish-isolated :
    (now : ℕ) (client : Op → Result Fault Reply) (g : Governor) (j : Job)
    → g.in_hand ≡ some j
    → ((k : ℕ)
        → Dict.get k (finish now client g).futures ≡ (
            if j.seq == k
            then settled (client j.op) (Dict.get j.seq g.futures)
            else Dict.get k g.futures))
      × (((finish now client g).queue ≡ g.queue) × ((finish now client g).counter ≡ g.counter))
      × (((finish now client g).in_hand ≡ none)
          × ((finish now client g).performed ≡ g.performed ++ j ∷ []))
unfolding finish perform
finish-isolated now client g j e = rw e (
  λ k. settle-get (Dict.get j.seq g.futures) j.seq k (client j.op) g.futures refl,
  (refl, refl),
  (refl, refl),
)
