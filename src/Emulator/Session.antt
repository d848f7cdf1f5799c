-- ===== src/Emulator/Session.antt =====
-- A client's session with the emulator: `_read_rest` and the loop of `_handle_client`, on everything
-- that the client will send.
use r60v_home_assistant.Base.{
  ℕ, zero, suc, ◌≤◌, ◌≡◌, refl, ap, sym, ◌∙◌, Bool, true, false, Option, none, some, List, [], ◌∷◌,
  ◌++◌, arith, ltb, if◌then◌else◌, length, length-append, take, drop, map, All,
}
use r60v_home_assistant.Base.Int.{ℤ}
use r60v_home_assistant.Base.Results.{ok}
use r60v_home_assistant.Protocol.Text.{Text, text_eq}
use r60v_home_assistant.Protocol.Hex.{int_hex}
use r60v_home_assistant.Protocol.Frame.{hello, write, slice}
use r60v_home_assistant.Frontend.{Taken, got, incomplete, invalid, cut_at, read_request}
use r60v_home_assistant.Frontend.Stream.{
  Request, print, InRange, joined, request-cut, request-readable,
}
use r60v_home_assistant.Emulator.{MachineModel, Outcome, replies, drops, raises, process}

is_number : Option ℤ → Bool
is_number none = false
is_number (some n) = true

-- The rest of a request is read as the front end reads it, but nothing follows a write whose length
-- is no number.
unfoldable pub read_rest : Text → Text → Taken
unfolding is_number
read_rest envelope stream =
    if text_eq (take 1 envelope) write
    then if is_number (int_hex (slice 5 9 envelope))
      then cut_at envelope stream
      else got envelope stream
    else cut_at envelope stream

unfoldable pub read_frame : Text → Taken
unfolding read_rest
read_frame stream =
    if ltb (length stream) 9 then incomplete else read_rest (take 9 stream) (drop 9 stream)

-- What follows a request that was processed, where `more` is the rest of the session.
answered :
    MachineModel × Outcome → (MachineModel → MachineModel × List Text) → MachineModel × List Text
answered (m, replies text) more = let (m', texts) = more m in (m', text ∷ texts)
answered (m, drops) more = (m, [])
answered (m, raises) more = (m, [])

-- The end of the stream inside a request, and the `ValueError` of a negative count, end the session.
taken : Taken → (Text → Text → MachineModel × List Text) → MachineModel → MachineModel × List Text
taken (got request stream) more m = more request stream
taken incomplete more m = (m, [])
taken invalid more m = (m, [])

unfoldable pub serve : ℕ → Text → MachineModel → MachineModel × List Text
unfolding answered taken read_frame
serve zero stream m = (m, [])
serve (suc fuel) stream m =
    taken (read_frame stream)
      (λ request rest. answered (process request m) (λ m'. serve fuel rest m')) m

-- `_handle_client`: the machine after the session, and what was sent. A request takes nine
-- characters at least, so there are fewer than characters.
unfoldable pub handle_client : Text → MachineModel → MachineModel × List Text
unfolding serve
handle_client stream m =
    let (m', texts) = serve (suc (length stream)) stream m in (m', hello ∷ texts)

either-same {ℓ} : {A : Type ℓ} (b : Bool) (x : A) → (if b then x else x) ≡ x
either-same true x = refl
either-same false x = refl

read_frame-cut :
    (stream : Text) (n : ℤ)
    → int_hex (slice 5 9 (take 9 stream)) ≡ some n
    → read_frame stream ≡ read_request stream
unfolding read_frame read_rest read_request is_number
read_frame-cut stream n readable =
    let short = ltb (length stream) 9 in
    let cut = cut_at (take 9 stream) (drop 9 stream) in
    let is_write = text_eq (take 1 (take 9 stream)) write in
    ap
      (λ o.
        if short
        then incomplete
        else if is_write
        then if is_number o then cut else got (take 9 stream) (drop 9 stream)
        else cut)
      readable
    ∙ ap (λ t. if short then incomplete else t) (either-same is_write cut)

-- The machine and its replies to requests, one after another, each of which is answered.
abbrev pub Answers : List Text → MachineModel → MachineModel → List Text → Type 0
Answers [] m m' texts = (m ≡ m') × (texts ≡ [])
Answers (request ∷ requests) m m' texts =
    (next : MachineModel) × (reply : Text) × (more : List Text) × (process request m
      ≡ (next, replies reply))
    × (texts ≡ reply ∷ more)
    × Answers requests next m' more

serve-joined :
    (rs : List Request) (requests : List Text) (fuel : ℕ) (m m' : MachineModel) (texts : List Text)
    → All InRange rs
    → map print rs ≡ map ok requests
    → length rs ≤ fuel
    → Answers requests m m' texts
    → serve fuel (joined requests []) m ≡ (m', texts)
unfolding serve
serve-joined [] [] zero m m' texts h printed enough (same, none_left) = rw (same, none_left) refl
serve-joined [] [] (suc fuel) m m' texts h printed enough (same, none_left) =
    rw (same, none_left) (unfold taken read_frame in refl)
serve-joined [] (request ∷ requests) fuel m m' texts h printed enough answers = absurd cc
serve-joined (r ∷ rs) [] fuel m m' texts h printed enough answers = absurd cc
serve-joined (r ∷ rs) (request ∷ requests) zero m m' texts h printed enough answers =
    absurd (omega arith)
serve-joined (r ∷ rs) (request ∷ requests) (suc fuel) m m' texts (h, hs) printed enough
      (next, reply, more, processed, split, rest) =
    let stream = joined requests [] in
    let print_r : print r ≡ ok request = cc in
    let print_rs : map print rs ≡ map ok requests = cc in
    let (text, text_printed, cut) = request-cut r h in
    let same : text ≡ request = cc in
    let (n, readable, size) = request-readable r request stream h print_r in
    let read : read_frame (request ++ stream) ≡ got request stream =
      read_frame-cut (request ++ stream) n readable
      ∙ (ap (λ t. read_request (t ++ stream)) (sym same)
          ∙ (cut stream ∙ ap (λ t. got t stream) same)) in
    let later = serve-joined rs requests fuel next m' more hs print_rs (omega arith) rest in
    ap (λ t. taken t (λ q left. answered (process q m) (λ d. serve fuel left d)) m) read
    ∙ (unfold taken in ap (λ o. answered o (λ d. serve fuel stream d)) processed)
    ∙ (unfold answered in ap (λ (p : MachineModel × List Text). (p.0, reply ∷ p.1)) later)
    ∙ ap (λ l. (m', l)) (sym split)

request-long :
    (r : Request) (request : Text) → InRange r → print r ≡ ok request → 1 ≤ length request
request-long r request h printed =
    let (n, readable, size) = request-readable r request [] h printed in
    omega (arith, length-append request [])

joined-long :
    (rs : List Request) (requests : List Text)
    → All InRange rs
    → map print rs ≡ map ok requests
    → length rs ≤ length (joined requests [])
joined-long [] requests h printed = omega arith
joined-long (r ∷ rs) [] h printed = absurd cc
joined-long (r ∷ rs) (request ∷ requests) (h, hs) printed =
    let print_r : print r ≡ ok request = cc in
    let print_rs : map print rs ≡ map ok requests = cc in
    omega (
      arith,
      length-append request (joined requests []),
      request-long r request h print_r,
      joined-long rs requests hs print_rs,
    )

-- A client that sends any number of printed requests in one go, each of which the machine answers,
-- is sent the greeting and then exactly one reply to each, in their order; the machine is left as
-- the requests leave it one after another.
pub handle_client-replies :
    (rs : List Request) (requests : List Text) (m m' : MachineModel) (texts : List Text)
    → All InRange rs
    → map print rs ≡ map ok requests
    → Answers requests m m' texts
    → handle_client (joined requests []) m ≡ (m', hello ∷ texts)
unfolding handle_client
handle_client-replies rs requests m m' texts h printed answers =
    let long = joined-long rs requests h printed in
    ap (λ (p : MachineModel × List Text). (p.0, hello ∷ p.1))
      (serve-joined rs requests (suc (length (joined requests []))) m m' texts h printed
        (omega (arith, long)) answers)
