-- ===== src/Integration/Client/Bounds.antt =====
-- A request ends, and spends little on the line whatever the machine does.
use r60v_home_assistant.Base.{
  ℕ, zero, suc, ◌+◌, ◌*◌, ◌≤◌, ◌≡◌, refl, sym, subst, Bool, true, false, Option, none, some, [],
  ◌∷◌, ◌++◌, arith,
}
use r60v_home_assistant.Base.Int.{ℤ, pos}
use r60v_home_assistant.Base.Results.{Result, ok, err}
use r60v_home_assistant.Protocol.Text.{Text}
use r60v_home_assistant.Protocol.Frame.{ProtocolError, Frame, build_read}
use r60v_home_assistant.Protocol.Address.{settings_base, settings_len}
use r60v_home_assistant.Client.{
  Heard, bytes, silence, short_read, broken, Opening, refused, mute, severed, greeted, sends, opens,
  closes, expected_response_len,
}
use r60v_home_assistant.Integration.Client.{
  Trouble, lost, io, not_hex, garbled, R60vClient, Line, send, after_try, drained, tries,
  exchange_for, exchange, drop_link, warmed, warm_up, opened, open_from, connect, exchanged,
  over_link, connected_first, attempts, request,
}
use r60v_home_assistant.Integration.Client.Spends.{
  frames_in, openings_in, Spends, nothing, chain, widen, logged, either-Spends, pair-Spends, idle,
}

send-Spends :
    (line : Line) (frame : Text) (want : ℤ) (c : R60vClient) → Spends 1 0 c (send line frame want c)
unfolding send
send-Spends line frame want c = logged c _ (sends frame want) refl refl

drop_link-Spends : (c : R60vClient) → Spends 0 0 c (drop_link c)
unfolding drop_link
drop_link-Spends c = either-Spends 0 0 c.connected c _ c (logged c _ closes refl refl) (nothing c)

module _ (a b : ℕ) (c d : R60vClient) (again : R60vClient × Result Trouble Frame)
    (one : Spends a b c d) (more : Spends a b c again.0) where
  after_try-Spends : (h : Heard) → Spends a b c (after_try h again d).0
  unfolding after_try
  after_try-Spends (bytes raw) = one
  after_try-Spends silence = more
  after_try-Spends short_read = one
  after_try-Spends broken = one

drained-Spends :
    (a : ℕ) (stale : Bool) (c : R60vClient) (sent : R60vClient × Result Trouble Frame)
    → Spends a 0 c sent.0
    → Spends a 0 c (drained stale sent c).0
unfolding drained
drained-Spends a true c sent h = record {
  few_frames = omega arith;
  few_openings = omega arith;
  same_retries = refl;
}
drained-Spends a false c sent h = h

tries-Spends :
    (line : Line) (frame : Text) (want : ℤ) (n : ℕ) (c : R60vClient)
    → Spends (suc n) 0 c (tries line frame want n c).0
unfolding tries
tries-Spends line frame want zero c =
    let one = send-Spends line frame want c in
    drained-Spends 1 (line.stale_broken c.steps) c _
      (after_try-Spends 1 0 c (send line frame want c) _ one one (line.hears c.steps))
tries-Spends line frame want (suc n) c =
    let d = send line frame want c in
    let one = send-Spends line frame want c in
    drained-Spends (suc (suc n)) (line.stale_broken c.steps) c _ (
      after_try-Spends (suc (suc n)) 0 c d _
        (widen 1 0 (suc (suc n)) 0 c d (omega arith) (omega arith) one)
        (widen (1 + suc n) (0 + 0) (suc (suc n)) 0 c _ (omega arith) (omega arith)
          (chain c d _ one (tries-Spends line frame want n d)))
        (line.hears c.steps))

exchange_for-Spends :
    (line : Line) (frame : Text) (want : Option ℤ) (c : R60vClient)
    → Spends (suc c.max_retries) 0 c (exchange_for line frame want c).0
unfolding exchange_for
exchange_for-Spends line frame none c =
    widen 0 0 (suc c.max_retries) 0 c c (omega arith) (omega arith) (nothing c)
exchange_for-Spends line frame (some want) c = tries-Spends line frame want c.max_retries c

exchange-Spends :
    (line : Line) (frame : Text) (c : R60vClient)
    → Spends (suc c.max_retries) 0 c (exchange line frame c).0
unfolding exchange
exchange-Spends line frame c = exchange_for-Spends line frame (expected_response_len frame) c

warmed-same : (r : R60vClient × Result Trouble Frame) → (warmed r).0 ≡ r.0
unfolding warmed
warmed-same (c, ok f) = refl
warmed-same (c, err lost) = refl
warmed-same (c, err io) = refl
warmed-same (c, err not_hex) = refl
warmed-same (c, err (garbled e)) = refl

module _ (line : Line) where
  warm_up-Spends :
      (frame : Result ProtocolError Text) (c : R60vClient)
      → Spends (suc c.max_retries) 0 c (warm_up line frame c).0
  unfolding warm_up
  warm_up-Spends (ok frame) c =
      pair-Spends (suc c.max_retries) 0 c.warmup c (warmed (exchange line frame c)) (c, ok tt)
        (subst (λ d. Spends (suc c.max_retries) 0 c d) (sym (warmed-same (exchange line frame c)))
          (exchange-Spends line frame c))
        (idle c)
  warm_up-Spends (err e) c =
      pair-Spends (suc c.max_retries) 0 c.warmup c (c, err (garbled e)) (c, ok tt) (idle c) (idle c)

  opened-Spends :
      (o : Opening) (c : R60vClient) → Spends (suc c.max_retries) 0 c (opened line o c).0
  unfolding opened
  opened-Spends refused c =
      widen 0 0 (suc c.max_retries) 0 c c (omega arith) (omega arith) (nothing c)
  opened-Spends mute c = record {
    few_frames = omega arith;
    few_openings = omega arith;
    same_retries = refl;
  }
  opened-Spends severed c = record {
    few_frames = omega arith;
    few_openings = omega arith;
    same_retries = refl;
  }
  opened-Spends greeted c =
      let s =
        warm_up-Spends (build_read (pos settings_base) (pos settings_len))
          (record c { connected = true }) in
      record {
        few_frames = s.few_frames;
        few_openings = s.few_openings;
        same_retries = s.same_retries;
      }

  connect-Spends : (c : R60vClient) → Spends (suc c.max_retries) 1 c (connect line c).0
  unfolding connect open_from
  connect-Spends c =
      let d = drop_link c in
      let e : R60vClient = record d { log = d.log ++ opens ∷ []; steps = d.steps + 1 } in
      let first = chain c d e (drop_link-Spends c) (logged d e opens refl refl) in
      let second = opened-Spends (line.opening d.steps) e in
      widen _ _ (suc c.max_retries) 1 c _ (omega (arith, first.same_retries)) (omega arith)
        (chain c e _ first second)

  connected_first-Spends :
      (c : R60vClient) → Spends (suc c.max_retries) 1 c (connected_first line c).0
  unfolding connected_first
  connected_first-Spends c =
      pair-Spends (suc c.max_retries) 1 c.connected c (c, ok tt) (connect line c) (idle c)
        (connect-Spends c)

-- What so many attempts may spend, each as much.
abbrev budget : ℕ → ℕ → ℕ
budget zero each = 0
budget (suc n) each = each + budget n each

module _ (line : Line) (frame : Text) (n : ℕ)
    (next : R60vClient → R60vClient × Result Trouble Frame)
    (later : (c : R60vClient) → Spends (budget n (2 * suc c.max_retries)) n c (next c).0) where
  dropped-Spends :
      (a b : ℕ) (c d : R60vClient)
      → Spends a b c d
      → Spends (a + budget n (2 * suc c.max_retries)) (b + n) c (next (drop_link d)).0
  dropped-Spends a b c d s =
      let e = drop_link d in
      let t = chain c d e s (drop_link-Spends d) in
      let u = subst (λ m. Spends (budget n (2 * suc m)) n e (next e).0) t.same_retries (later e) in
      widen _ _ _ _ c (next e).0 (omega arith) (omega arith) (chain c e (next e).0 t u)

  wide :
      (a b : ℕ) (c d : R60vClient)
      → Spends a b c d
      → Spends (a + budget n (2 * suc c.max_retries)) (b + n) c d
  wide a b c d s = widen a b _ _ c d (omega arith) (omega arith) s

  exchanged-Spends :
      (a b : ℕ) (c : R60vClient) (r : R60vClient × Result Trouble Frame)
      → Spends a b c r.0
      → Spends (a + budget n (2 * suc c.max_retries)) (b + n) c (exchanged next r).0
  unfolding exchanged
  exchanged-Spends a b c (d, ok f) s = wide a b c d s
  exchanged-Spends a b c (d, err not_hex) s = wide a b c d s
  exchanged-Spends a b c (d, err lost) s = dropped-Spends a b c d s
  exchanged-Spends a b c (d, err io) s = dropped-Spends a b c d s
  exchanged-Spends a b c (d, err (garbled e)) s = dropped-Spends a b c d s

  over_link-Spends :
      (c : R60vClient) (r : R60vClient × Result Trouble (Unit {0}))
      → Spends (suc c.max_retries) 1 c r.0
      → Spends
          (2 * suc c.max_retries + budget n (2 * suc c.max_retries))
          (1 + n)
          c
          (over_link next line frame r).0
  unfolding over_link
  over_link-Spends c (d, ok _) s =
      let x = exchange line frame d in
      let t = subst (λ m. Spends (suc m) 0 d x.0) s.same_retries (exchange-Spends line frame d) in
      exchanged-Spends (2 * suc c.max_retries) 1 c x
        (widen _ _ _ _ c x.0 (omega arith) (omega arith) (chain c d x.0 s t))
  over_link-Spends c (d, err not_hex) s =
      wide _ _ c d (widen _ _ (2 * suc c.max_retries) 1 c d (omega arith) (omega arith) s)
  over_link-Spends c (d, err lost) s =
      dropped-Spends _ _ c d (widen _ _ (2 * suc c.max_retries) 1 c d (omega arith) (omega arith) s)
  over_link-Spends c (d, err io) s =
      dropped-Spends _ _ c d (widen _ _ (2 * suc c.max_retries) 1 c d (omega arith) (omega arith) s)
  over_link-Spends c (d, err (garbled e)) s =
      dropped-Spends _ _ c d (widen _ _ (2 * suc c.max_retries) 1 c d (omega arith) (omega arith) s)

attempts-Spends :
    (n : ℕ) (line : Line) (frame : Text) (c : R60vClient)
    → Spends (budget n (2 * suc c.max_retries)) n c (attempts n line frame c).0
unfolding attempts
attempts-Spends zero line frame c = idle c
attempts-Spends (suc n) line frame c = widen _ _ _ (suc n) c _ (omega arith) (omega arith) (
    over_link-Spends line frame n (attempts n line frame) (attempts-Spends n line frame) c
      (connected_first line c) (connected_first-Spends line c))

-- However the machine behaves, a request comes to an end, and until then it opens three connections
-- at most and writes six frames at most for each try that an exchange may take, the warm-up reads
-- included.
pub request-Spends :
    (line : Line) (frame : Text) (c : R60vClient)
    → (openings_in (request line frame c).0.log ≤ openings_in c.log + 3)
      × (frames_in (request line frame c).0.log ≤ frames_in c.log + 6 * suc c.max_retries)
unfolding request
request-Spends line frame c =
    let s = attempts-Spends 3 line frame c in (s.few_openings, omega (arith, s.few_frames))
