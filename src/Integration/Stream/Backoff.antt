-- ===== src/Integration/Stream/Backoff.antt =====
-- Losing the stream and connecting again.
use r60v_home_assistant.Base.{
  ℕ, zero, suc, ◌≡◌, refl, ap, sym, ◌∙◌, true, false, List, [], ◌∷◌, ◌++◌, append_assoc, append-nil,
  arith, min, replicate, if◌then◌else◌,
}
use r60v_home_assistant.Client.Backoff.{doubled}
use r60v_home_assistant.Integration.Coordinator.{Coordinator}
use r60v_home_assistant.Integration.Stream.{
  Message, messages, set_update_error, Stream, Session, fails, delivers, dropped, delivered, turn,
  run, backoff_start, backoff_max,
}

-- The pauses from the i-th on: each is twice the one before, up to the maximum.
abbrev pub pauses_from : ℕ → ℕ → List ℕ
pauses_from i zero = []
pauses_from i (suc n) = min (doubled backoff_start i) backoff_max ∷ pauses_from (suc i) n

-- A stream that is down, and has paused i times since it was last up.
record IsDown (i : ℕ) (c : Coordinator) (sleeps : List ℕ) (s : Stream) : Type 0 where
  marked : s.coordinator ≡ set_update_error c
  paused : s.backoff ≡ min (doubled backoff_start i) backoff_max
  slept : s.sleeps ≡ sleeps
  going : s.over ≡ false

set_update_error-twice :
    (c : Coordinator) → set_update_error (set_update_error c) ≡ set_update_error c
unfolding set_update_error
set_update_error-twice c = refl

dropped-IsDown :
    (i : ℕ) (c : Coordinator) (sleeps : List ℕ) (s : Stream)
    → set_update_error s.coordinator ≡ set_update_error c
    → s.backoff ≡ min (doubled backoff_start i) backoff_max
    → s.sleeps ≡ sleeps
    → s.over ≡ false
    → IsDown (suc i) c (sleeps ++ min (doubled backoff_start i) backoff_max ∷ []) (dropped s)
unfolding dropped
dropped-IsDown i c sleeps s marked paused slept going = record {
  marked = marked;
  paused = omega (arith, paused);
  slept =
      ap (λ b. s.sleeps ++ min b backoff_max ∷ []) paused
      ∙ (ap (λ b. s.sleeps ++ b ∷ []) (omega arith)
          ∙ ap (λ l. l ++ min (doubled backoff_start i) backoff_max ∷ []) slept);
  going = going;
}

run-next :
    (session : Session) (rest : List Session) (s : Stream)
    → s.over ≡ false
    → run (session ∷ rest) s ≡ run rest (turn session s)
unfolding run
run-next session rest s going = ap (λ b. if b then s else run rest (turn session s)) going

run-fails :
    (n i : ℕ) (c : Coordinator) (sleeps : List ℕ) (s : Stream)
    → IsDown i c sleeps s
    → ((run (replicate n fails) s).sleeps ≡ sleeps ++ pauses_from i n)
      × ((run (replicate n fails) s).coordinator ≡ set_update_error c)
      × ((run (replicate n fails) s).over ≡ false)
unfolding run
run-fails zero i c sleeps s down = (down.slept ∙ sym (append-nil sleeps), down.marked, down.going)
run-fails (suc n) i c sleeps s down =
    let marked = ap set_update_error down.marked ∙ set_update_error-twice c in
    let next = dropped-IsDown i c sleeps s marked down.paused down.slept down.going in
    let (slept, kept, going) = run-fails n (suc i) c _ (dropped s) next in
    let same = run-next fails (replicate n fails) s down.going ∙ (unfold turn in refl) in
    (
      ap (λ (r : Stream). r.sleeps) same ∙ (slept ∙ append_assoc sleeps _ _),
      ap (λ (r : Stream). r.coordinator) same ∙ kept,
      ap (λ (r : Stream). r.over) same ∙ going,
    )

turn-delivers :
    (ms : List Message) (s : Stream)
    → (messages ms s.coordinator).1 ≡ true
    → turn (delivers ms) s
      ≡ dropped (record s { coordinator = (messages ms s.coordinator).0; backoff = backoff_start })
unfolding turn delivered
turn-delivers ms s fine =
    ap (λ b. delivered ((messages ms s.coordinator).0, b) (record s { backoff = backoff_start }))
      fine

-- When a stream that was up ends, and the next n attempts to connect fail, the coordinator keeps
-- the data of the last frame and marks it stale, and the loop sleeps one second and then each time
-- twice as long as before, up to thirty seconds. No frame of the stream may have raised.
pub run-reconnects :
    (ms : List Message) (n : ℕ) (s : Stream)
    → s.over ≡ false
    → (messages ms s.coordinator).1 ≡ true
    → ((run (delivers ms ∷ replicate n fails) s).sleeps ≡ s.sleeps ++ pauses_from 0 (suc n))
      × ((run (delivers ms ∷ replicate n fails) s).coordinator
          ≡ set_update_error (messages ms s.coordinator).0)
      × ((run (delivers ms ∷ replicate n fails) s).over ≡ false)
run-reconnects ms n s going fine =
    let c = (messages ms s.coordinator).0 in
    let up : Stream = record s { coordinator = c; backoff = backoff_start } in
    let same =
      run-next (delivers ms) (replicate n fails) s going
      ∙ ap (run (replicate n fails)) (turn-delivers ms s fine) in
    let down = dropped-IsDown 0 c s.sleeps up refl refl refl going in
    let (slept, kept, over) = run-fails n 1 c _ (dropped up) down in
    (
      ap (λ (r : Stream). r.sleeps) same ∙ (slept ∙ append_assoc s.sleeps _ _),
      ap (λ (r : Stream). r.coordinator) same ∙ kept,
      ap (λ (r : Stream). r.over) same ∙ over,
    )
