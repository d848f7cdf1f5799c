-- ===== src/Integration/Client/Garbled.antt =====
-- A reply whose data field is no hexadecimal.
use r60v_home_assistant.Base.{
  ℕ, zero, suc, ◌≡◌, refl, ap, ◌∙◌, Bool, true, false, some, if◌then◌else◌,
}
use r60v_home_assistant.Base.Int.{ℤ}
use r60v_home_assistant.Base.Results.{Result, ok, err}
use r60v_home_assistant.Protocol.Text.{Text}
use r60v_home_assistant.Protocol.Frame.{Frame}
use r60v_home_assistant.Client.{bytes, expected_response_len}
use r60v_home_assistant.Integration.Frames.{value_error, parse_frame}
use r60v_home_assistant.Integration.Client.{
  Trouble, lost, not_hex, R60vClient, Line, send, read_as, after_try, drained, tries, exchange_for,
  exchange, exchanged, over_link, connected_first, attempts, request,
}

module _ (line : Line) (frame : Text) (want : ℤ) (raw : Text) (c : R60vClient)
    (clear : line.stale_broken c.steps ≡ false) (heard : line.hears c.steps ≡ bytes raw)
    (bad : parse_frame true raw ≡ err value_error) where
  after_try-garbled :
      (again : R60vClient × Result Trouble Frame) (d : R60vClient)
      → after_try (bytes raw) again d ≡ (d, err not_hex)
  unfolding after_try read_as
  after_try-garbled again d = rw bad refl

  tries-garbled : (n : ℕ) → tries line frame want n c ≡ (send line frame want c, err not_hex)
  unfolding tries drained
  tries-garbled zero =
      let d = send line frame want c in rw (clear, heard) (after_try-garbled (d, err lost) d)
  tries-garbled (suc n) =
      let d = send line frame want c in
      rw (clear, heard) (after_try-garbled (tries line frame want n d) d)

  exchange-garbled :
      expected_response_len frame ≡ some want
      → exchange line frame c ≡ (send line frame want c, err not_hex)
  unfolding exchange exchange_for
  exchange-garbled known = rw known (tries-garbled c.max_retries)

if-true : {A : Type 0} (b : Bool) (x y : A) → b ≡ true → (if b then x else y) ≡ x
if-true b x y h = rw h refl

connected_first-up :
    (line : Line) (c : R60vClient) → c.connected ≡ true → connected_first line c ≡ (c, ok tt)
unfolding connected_first
connected_first-up line c up = if-true c.connected (c, ok tt) _ up

-- When the reply to the first try carries data that is no hexadecimal, the request ends there with
-- the `ValueError`: one frame was written, no other attempt is made, and the connection is left
-- standing.
pub request-garbled :
    (line : Line) (frame : Text) (want : ℤ) (raw : Text) (c : R60vClient)
    → c.connected ≡ true
    → expected_response_len frame ≡ some want
    → line.stale_broken c.steps ≡ false
    → line.hears c.steps ≡ bytes raw
    → parse_frame true raw ≡ err value_error
    → request line frame c ≡ (send line frame want c, err not_hex)
unfolding request attempts over_link connected_first exchanged
request-garbled line frame want raw c up known clear heard bad =
    let next = attempts 2 line frame in
    ap (λ r. over_link next line frame r) (connected_first-up line c up)
    ∙ ap (λ r. exchanged next r) (exchange-garbled line frame want raw c clear heard bad known)
