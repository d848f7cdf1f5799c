-- ===== src/Governor/Order.antt =====
-- What the governor serves and in which order, over whole histories.
use mathlib.Core.List.{Perm}
use mathlib.Core.List.Perm
use r60v_home_assistant.Base.{
  ℕ, ◌<◌, ◌≡◌, sym, subst, ◌⊎◌, true, Option, none, some, List, [], ◌∷◌, arith, All,
}
use r60v_home_assistant.Governor.{Job, Governor, take, begin_with, begin, precedes, take_least}
use r60v_home_assistant.Governor.Queue.{Numbered, First, Takes, take_least-Takes, Numbered-perm}
use r60v_home_assistant.Governor.Service.{
  Event, run, jobs, held, run-Inv, queue-Numbered, begin-none,
}

-- Over any history, the jobs performed, the job in hand and the jobs waiting are together exactly
-- the jobs that were submitted, and each of them stands there once: nothing is lost, invented or
-- performed twice, whatever the callers cancel and the client answers.
pub conserved :
    (interval : ℕ) (es : List Event)
    → Perm (held (run interval es)) (jobs es) × Numbered (held (run interval es))
conserved interval es =
    let v = run-Inv interval es in (v.kept, Numbered-perm (Perm.symm v.kept) v.numbered)

-- A job goes before another: a smaller priority number, or the same one and an earlier submission.
abbrev pub Before : Job → Job → Type 0
Before j k = (j.priority < k.priority) ⊎ ((j.priority ≡ k.priority) × (j.seq < k.seq))

precedes-Before : (j k : Job) → precedes j k ≡ true → Before j k
unfolding precedes
precedes-Before j k h = ground arith

First-Before : (j : Job) (js : List Job) → First j js → All (Before j) js
First-Before j [] f = tt
First-Before j (k ∷ js) f = (precedes-Before j k f.0, First-Before j js f.1)

take-Before :
    (g : Governor) (o : Option (Job × List Job)) (j : Job)
    → Takes g.queue o
    → g.in_hand ≡ none
    → (take g o).in_hand ≡ some j
    → Perm g.queue (j ∷ (take g o).queue) × All (Before j) (take g o).queue
unfolding take
take-Before g none j t e e' = cc
take-Before g (some (k, rest)) j t e e' =
    let same : k ≡ j = cc in
    (
      subst (λ i. Perm g.queue (i ∷ rest)) same t.0,
      First-Before j rest (subst (λ i. First i rest) same t.1),
    )

-- After any history, a worker without a job takes from the queue a job that goes before every job
-- that stays there: a command before every poll, and jobs of one priority in the order of their
-- submission.
pub served_first :
    (interval : ℕ) (es : List Event) (j : Job)
    → (run interval es).in_hand ≡ none
    → (begin (run interval es)).in_hand ≡ some j
    → Perm (run interval es).queue (j ∷ (begin (run interval es)).queue)
      × All (Before j) (begin (run interval es)).queue
unfolding begin begin_with
served_first interval es j e e' =
    let g = run interval es in
    subst (λ h. Perm g.queue (j ∷ h.queue) × All (Before j) h.queue) (sym (begin-none g e))
      (take-Before g (take_least g.queue) j
        (take_least-Takes g.queue (queue-Numbered g (run-Inv interval es))) e
        (subst (λ h. h.in_hand ≡ some j) (begin-none g e) e'))
