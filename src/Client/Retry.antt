-- ===== src/Client/Retry.antt =====
-- A swallowed request is sent again on the same connection.
use r60v_home_assistant.Base.{
  ℕ, zero, suc, ◌+◌, ◌≤◌, ◌<◌, ◌≡◌, refl, ap, subst, ◌∙◌, true, Option, some, ◌++◌, append_assoc,
  arith, replicate, if◌then◌else◌,
}
use r60v_home_assistant.Base.Int.{ℤ}
use r60v_home_assistant.Base.Results.{Result, ok, err}
use r60v_home_assistant.Protocol.Text.{Text}
use r60v_home_assistant.Protocol.Frame.{Frame, parse_frame}
use r60v_home_assistant.Client.{
  Heard, bytes, silence, short_read, broken, Trouble, lost, sends, Client, Line,
  expected_response_len, send, parsed, after_try, tries, exchange_for, exchange, connect_until,
  ensure_connected, exchanged, over_link, request_turns, request,
}

-- The same frame some times over, on the connection as it was.
abbrev pub Resent : Text → ℤ → ℕ → Client → Client → Type 0
Resent frame want k c d =
    (d.log ≡ c.log ++ replicate k (sends frame want)) × (d.connected ≡ c.connected)

send-Resent :
    (line : Line) (frame : Text) (want : ℤ) (c : Client)
    → Resent frame want 1 c (send line frame want c)
unfolding send
send-Resent line frame want c = (refl, refl)

Resent-next :
    (line : Line) (frame : Text) (want : ℤ) (k : ℕ) (c d : Client)
    → Resent frame want k (send line frame want c) d
    → Resent frame want (suc k) c d
unfolding send
Resent-next line frame want k c d (log, link) = (log ∙ append_assoc c.log _ _, link)

abbrev Bounded : Text → ℤ → ℕ → Client → Client → Type 0
Bounded frame want n c d = (k : ℕ) × (k ≤ n) × Resent frame want (suc k) c d

after_try-Bounded :
    (frame : Text) (want : ℤ) (n : ℕ) (c d : Client) (h : Heard)
    (again : Client × Result Trouble Frame)
    → Bounded frame want n c again.0
    → Bounded frame want n c d
    → Bounded frame want n c (after_try h again d).0
unfolding after_try
after_try-Bounded frame want n c d (bytes raw) again more here = here
after_try-Bounded frame want n c d silence again more here = more
after_try-Bounded frame want n c d short_read again more here = here
after_try-Bounded frame want n c d broken again more here = here

-- However the tries of an exchange end, the line has carried nothing but the one frame, once and
-- at most as often again as the retries allow, and the connection was neither opened nor closed.
tries-bounded :
    (line : Line) (frame : Text) (want : ℤ) (n : ℕ) (c : Client)
    → (k : ℕ) × (k ≤ n) × Resent frame want (suc k) c (tries line frame want n c).0
unfolding tries
tries-bounded line frame want zero c =
    let d = send line frame want c in
    let here : Bounded frame want 0 c d = (0, omega arith, send-Resent line frame want c) in
    after_try-Bounded frame want 0 c d (line.hears c.steps) (d, err lost) here here
tries-bounded line frame want (suc n) c =
    let d = send line frame want c in
    let (k, le, resent) = tries-bounded line frame want n d in
    after_try-Bounded frame want (suc n) c d (line.hears c.steps) (tries line frame want n d)
      (
        suc k,
        omega arith,
        Resent-next line frame want (suc k) c (tries line frame want n d).0 resent,
      )
      (0, omega arith, send-Resent line frame want c)

-- An exchange that ends with a frame.
abbrev Ends : Text → ℤ → ℕ → Frame → Client → Client × Result Trouble Frame → Type 0
Ends frame want j f c (d, r) = Resent frame want (suc j) c d × (r ≡ ok f)

heard-Ends :
    (line : Line) (frame : Text) (want : ℤ) (raw : Text) (f : Frame) (c : Client)
    (again : Client × Result Trouble Frame) (h : Heard)
    → h ≡ bytes raw
    → parse_frame true raw ≡ ok f
    → Ends frame want 0 f c (after_try h again (send line frame want c))
unfolding after_try parsed
heard-Ends line frame want raw f c again h heard good =
    rw heard (send-Resent line frame want c, ap parsed good)

pub here : (n : ℕ) → n + 0 ≡ n
here n = omega arith

pub later : (n i : ℕ) → n + suc i ≡ n + 1 + i
later n i = omega arith

swallowed-Ends :
    (line : Line) (frame : Text) (want : ℤ) (j : ℕ) (f : Frame) (c : Client) (h : Heard)
    (again : Client × Result Trouble Frame)
    → h ≡ silence
    → Resent frame want (suc j) c again.0
    → again.1 ≡ ok f
    → Ends frame want j f c (after_try h again (send line frame want c))
unfolding after_try
swallowed-Ends line frame want j f c h again silent resent ended = rw silent (resent, ended)

tries-Ends :
    (line : Line) (frame : Text) (want : ℤ) (n j : ℕ) (raw : Text) (f : Frame) (c : Client)
    → j ≤ n
    → ((i : ℕ) → i < j → line.hears (c.steps + i) ≡ silence)
    → line.hears (c.steps + j) ≡ bytes raw
    → parse_frame true raw ≡ ok f
    → Ends frame want j f c (tries line frame want n c)
unfolding tries
tries-Ends line frame want zero zero raw f c le quiet heard good =
    heard-Ends line frame want raw f c _ (line.hears c.steps)
      (subst (λ k. line.hears k ≡ bytes raw) (here c.steps) heard) good
tries-Ends line frame want (suc n) zero raw f c le quiet heard good =
    heard-Ends line frame want raw f c _ (line.hears c.steps)
      (subst (λ k. line.hears k ≡ bytes raw) (here c.steps) heard) good
tries-Ends line frame want zero (suc j) raw f c le quiet heard good = absurd (omega arith)
tries-Ends line frame want (suc n) (suc j) raw f c le quiet heard good =
    let d = send line frame want c in
    let (resent, ended) =
      tries-Ends line frame want n j raw f d (omega arith)
        (λ i lt.
          subst (λ k. line.hears k ≡ silence) (later c.steps i) (quiet (suc i) (omega arith)))
        (subst (λ k. line.hears k ≡ bytes raw) (later c.steps j) heard) good in
    let swallowed = subst (λ k. line.hears k ≡ silence) (here c.steps) (quiet 0 (omega arith)) in
    swallowed-Ends line frame want (suc j) f c (line.hears c.steps) (tries line frame want n d)
      swallowed (Resent-next line frame want (suc j) c (tries line frame want n d).0 resent) ended

exchanged-ok :
    (next : Client → Option (Client × Result Trouble Frame)) (p : Client × Result Trouble Frame)
    (f : Frame)
    → p.1 ≡ ok f
    → exchanged next p ≡ some (p.0, ok f)
unfolding exchanged
exchanged-ok next (d, r) f e = rw e refl

exchange-tries :
    (line : Line) (frame : Text) (want : ℤ) (c : Client)
    → expected_response_len frame ≡ some want
    → exchange line frame c ≡ tries line frame want c.max_retries c
unfolding exchange exchange_for
exchange-tries line frame want c size = ap (λ o. exchange_for line frame o c) size

ensure_connected-up :
    (fuel : ℕ) (line : Line) (c : Client)
    → c.connected ≡ true
    → ensure_connected fuel line c ≡ some (c, ok tt)
unfolding ensure_connected
ensure_connected-up fuel line c up =
    ap (λ b. if b then some (c, ok tt) else connect_until fuel c.backoff_initial line c) up

request-exchange :
    (fuel : ℕ) (line : Line) (frame : Text) (c : Client)
    → c.connected ≡ true
    → request fuel line frame c
      ≡ exchanged (request_turns 1 fuel line frame) (exchange line frame c)
unfolding request request_turns over_link
request-exchange fuel line frame c up =
    ap (over_link (request_turns 1 fuel line frame) line frame) (ensure_connected-up fuel line c up)

-- A request on a connection that is up, whose first tries are swallowed and which is answered
-- within the retries by a frame that parses, returns that frame. The request went out once for each
-- swallowed try and once more; the connection was neither closed nor opened, and is still up.
pub request-swallowed :
    (fuel j : ℕ) (line : Line) (frame raw : Text) (want : ℤ) (f : Frame) (c : Client)
    → c.connected ≡ true
    → expected_response_len frame ≡ some want
    → j ≤ c.max_retries
    → ((i : ℕ) → i < j → line.hears (c.steps + i) ≡ silence)
    → line.hears (c.steps + j) ≡ bytes raw
    → parse_frame true raw ≡ ok f
    → (d : Client) × (request fuel line frame c ≡ some (d, ok f))
      × (d.log ≡ c.log ++ replicate (suc j) (sends frame want))
      × (d.connected ≡ true)
request-swallowed fuel j line frame raw want f c up size le quiet heard good =
    let p = tries line frame want c.max_retries c in
    let (resent, ended) = tries-Ends line frame want c.max_retries j raw f c le quiet heard good in
    (
      p.0,
      request-exchange fuel line frame c up
          ∙ exchanged-ok (request_turns 1 fuel line frame) (exchange line frame c) f
              (ap (λ r. r.1) (exchange-tries line frame want c size) ∙ ended)
          ∙ ap (λ r. some (r.0, ok f)) (exchange-tries line frame want c size),
      resent.0,
      resent.1 ∙ up,
    )
