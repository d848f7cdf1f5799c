-- ===== src/Client/Backoff.antt =====
-- Connecting again and again, with pauses that double.
use r60v_home_assistant.Base.{
  ℕ, zero, suc, ◌+◌, ◌*◌, ◌<◌, ◌≡◌, refl, ap, subst, ◌∙◌, true, false, some, List, [], ◌∷◌, ◌++◌,
  append_assoc, arith, min, if◌then◌else◌,
}
use r60v_home_assistant.Base.Results.{Result, ok, err}
use r60v_home_assistant.Protocol.Frame.{ProtocolError, build_read}
use r60v_home_assistant.Protocol.Address.{settings_base, settings_len}
use r60v_home_assistant.Base.Int.{pos}
use r60v_home_assistant.Protocol.Text.{Text}
use r60v_home_assistant.Client.Retry.{here, later}
use r60v_home_assistant.Client.{
  Opening, refused, greeted, io, garbled, Wire, opens, closes, pauses, open_from, exchange, warmed,
  Client, Line, drop_link, opened, warm_up, connect, reconnect, connect_until,
}

-- `2 ^ i` times the first pause.
abbrev pub doubled : ℕ → ℕ → ℕ
doubled first zero = first
doubled first (suc i) = doubled first i * 2

-- What the line carries from the i-th attempt on, when j attempts are refused and the next one is
-- not: a pause after each refusal, twice as long as the one before, up to a maximum.
abbrev pub attempts_log : ℕ → ℕ → ℕ → ℕ → List Wire
attempts_log most first i zero = opens ∷ []
attempts_log most first i (suc j) =
    opens ∷ pauses (min (doubled first i) most) ∷ attempts_log most first (suc i) j

next_pause :
    (most first i : ℕ)
    → min (min (doubled first i) most * 2) most ≡ min (doubled first (suc i)) most
next_pause most first i = omega arith

-- The client after one more attempt.
abbrev attempted : Client → Client
attempted c = record c { log = c.log ++ opens ∷ []; steps = c.steps + 1 }

abbrev paused : ℕ → Client → Client
paused backoff c = record c { log = c.log ++ pauses backoff ∷ [] }

connect-down :
    (line : Line) (c : Client)
    → c.connected ≡ false
    → connect line c ≡ opened line (line.opening c.steps) (attempted c)
unfolding connect drop_link open_from
connect-down line c down =
    ap
      (λ b.
        open_from line
          (if b then record c { connected = false; log = c.log ++ closes ∷ [] } else c))
      down

opened-refused :
    (line : Line) (o : Opening) (c : Client) → o ≡ refused → opened line o c ≡ (c, err io)
unfolding opened
opened-refused line o c e = rw e refl

warm_up-cold :
    (line : Line) (r : Result ProtocolError Text) (c : Client)
    → c.warmup ≡ false
    → warm_up line r c ≡ (c, ok tt)
unfolding warm_up
warm_up-cold line (ok frame) c cold =
    ap (λ b. if b then warmed (exchange line frame c) else (c, ok tt)) cold
warm_up-cold line (err e) c cold = ap (λ b. if b then (c, err (garbled e)) else (c, ok tt)) cold

opened-greeted :
    (line : Line) (o : Opening) (c : Client)
    → o ≡ greeted
    → c.warmup ≡ false
    → opened line o c ≡ (record c { connected = true }, ok tt)
unfolding opened
opened-greeted line o c e cold =
    ap (λ x. opened line x c) e
    ∙ warm_up-cold line (build_read (pos settings_base) (pos settings_len))
        (record c { connected = true }) cold

-- When the machine refuses a number of connections and then greets, the loop ends connected, with
-- fuel of one more than the refusals. It has paused after each refusal, twice as long as before, up
-- to the maximum, and closed nothing. This is for a client that is down and sends no warm-up.
pub connect_until-greeted :
    (j i : ℕ) (line : Line) (c : Client)
    → c.connected ≡ false
    → c.warmup ≡ false
    → ((k : ℕ) → k < j → line.opening (c.steps + k) ≡ refused)
    → line.opening (c.steps + j) ≡ greeted
    → (d : Client) × (connect_until (suc j) (min (doubled c.backoff_initial i) c.backoff_max) line c
        ≡ some (d, ok tt))
      × (d.connected ≡ true)
      × (d.log ≡ c.log ++ attempts_log c.backoff_max c.backoff_initial i j)
unfolding connect_until
connect_until-greeted zero i line c down cold refusals up =
    let greets = subst (λ k. line.opening k ≡ greeted) (here c.steps) up in
    (
      record (attempted c) { connected = true },
      ap
          (reconnect
            (connect_until 0
              (min (min (doubled c.backoff_initial i) c.backoff_max * 2) c.backoff_max) line)
            (min (doubled c.backoff_initial i) c.backoff_max))
          (connect-down line c down ∙ opened-greeted line _ (attempted c) greets cold),
      refl,
      refl,
    )
connect_until-greeted (suc j) i line c down cold refusals up =
    let refuses = subst (λ k. line.opening k ≡ refused) (here c.steps) (refusals 0 (omega arith)) in
    let b = min (doubled c.backoff_initial i) c.backoff_max in
    let next = paused b (attempted c) in
    let (d, ends, on, log) =
      connect_until-greeted j (suc i) line next down cold
        (λ k lt.
          subst (λ n. line.opening n ≡ refused) (later c.steps k) (refusals (suc k) (omega arith)))
        (subst (λ n. line.opening n ≡ greeted) (later c.steps j) up) in
    (
      d,
      ap (reconnect (connect_until (suc j) (min (b * 2) c.backoff_max) line) b)
            (connect-down line c down ∙ opened-refused line _ (attempted c) refuses)
          ∙ ap (λ n. connect_until (suc j) n line next)
              (next_pause c.backoff_max c.backoff_initial i)
          ∙ ends,
      on,
      log ∙ append_assoc (c.log ++ opens ∷ []) _ _ ∙ append_assoc c.log _ _,
    )
