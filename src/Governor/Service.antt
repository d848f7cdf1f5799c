-- ===== src/Governor/Service.antt =====
-- The worker over whole histories of submissions, cancellations and turns.
use mathlib.Core.List.{Perm, perm_middle}
use mathlib.Core.List.Perm
use r60v_home_assistant.Base.{
  ℕ, ◌+◌, ◌<◌, ◌≡◌, refl, sym, subst, ap, ◌∙◌, inl, inr, Option, none, some, List, [], ◌∷◌, ◌++◌,
  append_assoc, arith, Option-cases, All, length,
}
use r60v_home_assistant.Base.Results.{Result}
use r60v_home_assistant.Governor.{
  Op, Fault, Reply, Job, Governor, init, submit, cancel, take_least, take, begin_with, begin,
  perform, finish,
}
use r60v_home_assistant.Governor.Queue.{
  Numbered, Fresh, Takes, take_least-Takes, Numbered-perm, Numbered-append,
}

-- What happens at the governor: a caller's submission or cancellation, the worker's taking a job,
-- and its finishing the job in hand.
pub data Event : Type 0 where
  submits : ℕ → Op → Event
  cancels : ℕ → Event
  begins : Event
  finishes : ℕ → (Op → Result Fault Reply) → Event

unfoldable pub step : Event → Governor → Governor
step (submits priority op) g = submit priority op g
step (cancels seq) g = cancel seq g
step begins g = begin g
step (finishes now client) g = finish now client g

-- A history, newest event first.
unfoldable pub run : ℕ → List Event → Governor
run interval [] = init interval
run interval (e ∷ es) = step e (run interval es)

-- The jobs that a history submitted, newest first, numbered from 0.
abbrev pub jobs_with : Event → List Job → List Job
jobs_with (submits priority op) js = record { priority = priority; seq = length js; op = op } ∷ js
jobs_with _ js = js

abbrev pub jobs : List Event → List Job
jobs [] = []
jobs (e ∷ es) = jobs_with e (jobs es)

abbrev pub in_hand_list : Option Job → List Job
in_hand_list none = []
in_hand_list (some j) = j ∷ []

-- Every job the governor has been given: done, in hand, and waiting.
abbrev pub held : Governor → List Job
held g = g.performed ++ (in_hand_list g.in_hand ++ g.queue)

abbrev pub Below : ℕ → List Job → Type 0
Below n = All (λ j. j.seq < n)

pub record Inv (js : List Job) (g : Governor) : Type 0 where
  pub numbered : Numbered js
  pub below : Below g.counter js
  pub count : g.counter ≡ length js
  pub kept : Perm (held g) js

Below-Fresh : (n : ℕ) (js : List Job) → Below n js → Fresh n js
Below-Fresh n [] h = tt
Below-Fresh n (j ∷ js) h = (λ e. omega arith, Below-Fresh n js h.1)

Below-suc : (n : ℕ) (js : List Job) → Below n js → Below (n + 1) js
Below-suc n [] h = tt
Below-suc n (j ∷ js) h = (omega arith, Below-suc n js h.1)

take-held :
    (g : Governor) (o : Option (Job × List Job))
    → g.in_hand ≡ none
    → Takes g.queue o
    → Perm (held (take g o)) (held g)
unfolding take
take-held g none e t = Perm.rfl
take-held g (some (j, rest)) e t = rw e (Perm.append_left g.performed (Perm.symm t.0))

pub queue-Numbered : {js : List Job} (g : Governor) → Inv js g → Numbered g.queue
queue-Numbered g v =
    Numbered-append (in_hand_list g.in_hand) g.queue
      (Numbered-append g.performed _ (Numbered-perm (Perm.symm v.kept) v.numbered))

pub begin-none : (g : Governor) → g.in_hand ≡ none → begin g ≡ take g (take_least g.queue)
unfolding begin begin_with
begin-none g e = ap (λ o. begin_with o g) e

pub begin-some : (g : Governor) (j : Job) → g.in_hand ≡ some j → begin g ≡ g
unfolding begin begin_with
begin-some g j e = ap (λ o. begin_with o g) e

begin-held :
    {js : List Job} (g : Governor) (hand : Option Job)
    → g.in_hand ≡ hand
    → Inv js g
    → Perm (held (begin_with hand g)) (held g)
unfolding begin_with
begin-held g none e v =
    take-held g (take_least g.queue) e (take_least-Takes g.queue (queue-Numbered g v))
begin-held g (some j) e v = Perm.rfl

perform-held :
    (now : ℕ) (client : Op → Result Fault Reply) (g : Governor) (hand : Option Job)
    → g.in_hand ≡ hand
    → Perm (held (perform now client hand g)) (held g)
unfolding perform
perform-held now client g none e = Perm.rfl
perform-held now client g (some j) e = rw e (
    subst (λ l. Perm l (g.performed ++ (j ∷ g.queue)))
      (sym (append_assoc g.performed (j ∷ []) g.queue)) Perm.rfl)

pub begin-counter : (g : Governor) → (begin g).counter ≡ g.counter
unfolding begin begin_with take
begin-counter g = elim (Option-cases g.in_hand) [
  | inl e ↦ elim (Option-cases (take_least g.queue)) [
    | inl e' ↦ rw e (rw e' refl)
    | inr (_, e') ↦ rw e (rw e' refl)
  ]
  | inr (_, e) ↦ rw e refl
]

pub finish-counter :
    (now : ℕ) (client : Op → Result Fault Reply) (g : Governor)
    → (finish now client g).counter ≡ g.counter
unfolding finish perform
finish-counter now client g = elim (Option-cases g.in_hand) [
  | inl e ↦ rw e refl
  | inr (_, e) ↦ rw e refl
]

pub kept-Inv :
    {js : List Job} (g g' : Governor)
    → g'.counter ≡ g.counter
    → Perm (held g') (held g)
    → Inv js g
    → Inv js g'
kept-Inv {js} g g' e p v = record {
  numbered = v.numbered;
  below = rw e v.below;
  count = e ∙ v.count;
  kept = Perm.trans p v.kept;
}

submit-held :
    (priority : ℕ) (op : Op) (g : Governor)
    → Perm
        (held (submit priority op g))
        (record { priority = priority; seq = g.counter; op = op } ∷ held g)
unfolding submit
submit-held priority op g =
    Perm.trans (Perm.append_left g.performed (perm_middle (in_hand_list g.in_hand) g.queue))
      (perm_middle g.performed (in_hand_list g.in_hand ++ g.queue))

submit-Inv :
    (priority : ℕ) (op : Op) {js : List Job} (g : Governor)
    → Inv js g
    → Inv (jobs_with (submits priority op) js) (submit priority op g)
unfolding submit
submit-Inv priority op {js} g v = record {
  numbered = (rw (sym v.count) (Below-Fresh g.counter js v.below), v.numbered);
  below = let c = v.count in (omega arith, Below-suc g.counter js v.below);
  count = let c = v.count in omega arith;
  kept = rw (sym v.count) (Perm.trans (submit-held priority op g) (Perm.cons _ v.kept));
}

cancel-Inv : (seq : ℕ) {js : List Job} (g : Governor) → Inv js g → Inv js (cancel seq g)
unfolding cancel
cancel-Inv seq {js} g v = record {
  numbered = v.numbered;
  below = v.below;
  count = v.count;
  kept = v.kept;
}

pub begin_lem : {js : List Job} (g : Governor) → Inv js g → Perm (held (begin g)) (held g)
unfolding begin
begin_lem g v = begin-held g g.in_hand refl v

pub finish_lem :
    (now : ℕ) (client : Op → Result Fault Reply) (g : Governor)
    → Perm (held (finish now client g)) (held g)
unfolding finish
finish_lem now client g = perform-held now client g g.in_hand refl

step-Inv : (e : Event) {js : List Job} (g : Governor) → Inv js g → Inv (jobs_with e js) (step e g)
unfolding step
step-Inv (submits priority op) {js} g v = submit-Inv priority op g v
step-Inv (cancels seq) g v = cancel-Inv seq g v
step-Inv begins g v = kept-Inv g (begin g) (begin-counter g) (begin_lem g v) v
step-Inv (finishes now client) g v =
    kept-Inv g (finish now client g) (finish-counter now client g) (finish_lem now client g) v

init-Inv : (interval : ℕ) → Inv [] (init interval)
unfolding init
init-Inv interval = record { numbered = tt; below = tt; count = refl; kept = Perm.rfl }

pub run-Inv : (interval : ℕ) (es : List Event) → Inv (jobs es) (run interval es)
unfolding run
run-Inv interval [] = init-Inv interval
run-Inv interval (e ∷ es) = step-Inv e (run interval es) (run-Inv interval es)
