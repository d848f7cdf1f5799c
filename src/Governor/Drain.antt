-- ===== src/Governor/Drain.antt =====
-- The worker gets through its queue.
use mathlib.Core.List.{Perm}
use r60v_home_assistant.Base.{
  ℕ, suc, ◌+◌, ◌-◌, ◌≤◌, ◌≡◌, refl, sym, subst, ap, ◌∙◌, inl, inr, Option, none, some, List, [],
  ◌∷◌, ◌++◌, append-nil, arith, Bool-cases, Option-cases, length,
}
use r60v_home_assistant.Base.Results.{Result}
use r60v_home_assistant.Governor.{
  Op, Fault, Reply, Job, Governor, least, take_least, take, begin, perform, finish, precedes,
}
use r60v_home_assistant.Governor.Service.{
  Event, begins, finishes, step, run, jobs, in_hand_list, run-Inv, begin-none, begin-some,
}

-- How many entries there were, for what the queue hands out and keeps.
abbrev size : Option (Job × List Job) → ℕ
size none = 0
size (some (j, rest)) = suc (length rest)

least-size :
    (x : Job) (js : List Job) (o : Option (Job × List Job))
    → size o ≡ length js
    → size (some (least x js o)) ≡ suc (length js)
unfolding least
least-size x js none e = ap suc e
least-size x js (some (k, rest)) e = elim (Bool-cases (precedes k x)) [
  | inl h ↦ rw h (ap suc e)
  | inr h ↦ rw h refl
]

take_least-size : (js : List Job) → size (take_least js) ≡ length js
unfolding take_least
take_least-size [] = refl
take_least-size (j ∷ js) = least-size j js (take_least js) (take_least-size js)

unfoldable pub pending : Governor → ℕ
pending g = length (in_hand_list g.in_hand) + length g.queue

turn_with :
    (now : ℕ) (client : Op → Result Fault Reply) (g : Governor) (o : Option (Job × List Job))
    → g.in_hand ≡ none
    → size o ≡ length g.queue
    → pending (finish now client (take g o)) ≡ pending g - 1
unfolding pending finish perform take
turn_with now client g none e h = rw e (rw (sym h) refl)
turn_with now client g (some (j, rest)) e h = rw e (rw (sym h) (omega arith))

finish-pending :
    (now : ℕ) (client : Op → Result Fault Reply) (g : Governor) (j : Job)
    → g.in_hand ≡ some j
    → pending (finish now client g) ≡ pending g - 1
unfolding pending finish perform
finish-pending now client g j e =
    let one : length (in_hand_list g.in_hand) ≡ 1 = ap (λ o. length (in_hand_list o)) e in
    ap (λ o. pending (perform now client o g)) e ∙ omega arith

turn-pending :
    (now : ℕ) (client : Op → Result Fault Reply) (g : Governor)
    → pending (finish now client (begin g)) ≡ pending g - 1
turn-pending now client g = elim (Option-cases g.in_hand) [
  | inl e ↦
      ap (λ h. pending (finish now client h)) (begin-none g e)
      ∙ turn_with now client g (take_least g.queue) e (take_least-size g.queue)
  | inr (j, e) ↦
      ap (λ h. pending (finish now client h)) (begin-some g j e) ∙ finish-pending now client g j e
]

-- A history followed by turns of the worker, each with the time and the client of its operation.
abbrev pub turns : List (ℕ × (Op → Result Fault Reply)) → List Event → List Event
turns [] es = es
turns ((now, client) ∷ ts) es = finishes now client ∷ begins ∷ turns ts es

turns-pending :
    (interval : ℕ) (ts : List (ℕ × (Op → Result Fault Reply))) (es : List Event)
    → pending (run interval (turns ts es)) ≡ pending (run interval es) - length ts
unfolding run step
turns-pending interval [] es = omega arith
turns-pending interval ((now, client) ∷ ts) es =
    let g = run interval (turns ts es) in
    let h = turns-pending interval ts es in turn-pending now client g ∙ rw h (omega arith)

turns-jobs :
    (ts : List (ℕ × (Op → Result Fault Reply))) (es : List Event) → jobs (turns ts es) ≡ jobs es
turns-jobs [] es = refl
turns-jobs (t ∷ ts) es = turns-jobs ts es

none_left :
    (hand : Option Job) (js : List Job)
    → length (in_hand_list hand) + length js ≡ 0
    → in_hand_list hand ++ js ≡ []
none_left none [] h = refl
none_left none (j ∷ js) h = absurd (omega arith)
none_left (some k) js h = absurd (omega arith)

-- After any history, as many further turns of the worker as there are jobs in hand and waiting
-- perform every job that was submitted, each once, whatever the client answers or raises.
pub turns-perform :
    (interval : ℕ) (es : List Event) (ts : List (ℕ × (Op → Result Fault Reply)))
    → pending (run interval es) ≤ length ts
    → Perm (run interval (turns ts es)).performed (jobs es)
unfolding pending
turns-perform interval es ts h =
    let g = run interval (turns ts es) in
    let nothing : in_hand_list g.in_hand ++ g.queue ≡ [] =
      let p = turns-pending interval ts es in none_left g.in_hand g.queue (omega arith) in
    let kept = (run-Inv interval (turns ts es)).kept in
    subst (Perm g.performed) (turns-jobs ts es) (
      subst (λ l. Perm l (jobs (turns ts es)))
        (ap (λ l. g.performed ++ l) nothing ∙ append-nil g.performed) kept)
