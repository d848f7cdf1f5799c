-- ===== src/Integration/Frames/Bridge.antt =====
-- The integration's parser beside the bridge's.
use r60v_home_assistant.Base.{
  ◌%◌, ◌==◌, ◌≡◌, refl, ap, ◌∙◌, Bool, true, false, not, Option, none, some, List, ltb, length,
  take, Bool-cases, inl, inr,
}
use r60v_home_assistant.Base.Int.{ℤ}
use r60v_home_assistant.Base.Results.{Result, ok, err, ◌>>=◌, ◌>>◌, guard, or_fail}
use r60v_home_assistant.Protocol.Text.{Text, text_eq}
use r60v_home_assistant.Protocol.Hex.{int_hex}
use r60v_home_assistant.Protocol.Frame.{
  ProtocolError, non_hex, Frame, ack, checksum, is_command, decode_pairs, slice, body_of,
  supplied_of, payload_of,
}
use r60v_home_assistant.Protocol.Frame
use r60v_home_assistant.Integration.Frames.{
  Misread, protocol_error, value_error, decode_data, data_of, parse_frame,
}

-- What the bridge makes of a misread frame.
abbrev pub as_bridge {ℓ} : {A : Type ℓ} → Result Misread A → Result ProtocolError A
as_bridge (ok a) = ok a
as_bridge (err (protocol_error e)) = err e
as_bridge (err value_error) = err non_hex

then-as_bridge {ℓ κ} :
    {A : Type ℓ} {B : Type κ} (m : Result Misread A) (f : A → Result Misread B)
    (g : A → Result ProtocolError B)
    → ((a : A) → as_bridge (f a) ≡ g a)
    → as_bridge (m >>= f) ≡ (as_bridge m >>= g)
then-as_bridge (ok a) f g h = h a
then-as_bridge (err (protocol_error e)) f g h = refl
then-as_bridge (err value_error) f g h = refl

-- A chain of steps that agree, agrees.
bind-as_bridge {ℓ κ} :
    {A : Type ℓ} {B : Type κ} (m : Result Misread A) (n : Result ProtocolError A)
    (f : A → Result Misread B) (g : A → Result ProtocolError B)
    → as_bridge m ≡ n
    → ((a : A) → as_bridge (f a) ≡ g a)
    → as_bridge (m >>= f) ≡ (n >>= g)
bind-as_bridge m n f g e h = then-as_bridge m f g h ∙ ap (λ k. k >>= g) e

guard-as_bridge :
    (b : Bool) (e : ProtocolError) → as_bridge (guard b (protocol_error e)) ≡ guard b e
guard-as_bridge true e = refl
guard-as_bridge false e = refl

checked-as_bridge :
    (b : Bool) (e : ProtocolError) (f : Frame)
    → as_bridge (guard b (protocol_error e) >> ok f) ≡ (guard b e >> ok f)
checked-as_bridge true e f = refl
checked-as_bridge false e f = refl

or_fail-as_bridge {ℓ} :
    {A : Type ℓ} (o : Option A) (e : ProtocolError)
    → as_bridge (or_fail o (protocol_error e)) ≡ or_fail o e
or_fail-as_bridge none e = refl
or_fail-as_bridge (some a) e = refl

pairs-as_bridge : (o : Option (List ℤ)) → as_bridge (or_fail o value_error) ≡ or_fail o non_hex
pairs-as_bridge none = refl
pairs-as_bridge (some bytes) = refl

decode_data-as_bridge : (s : Text) → as_bridge (decode_data s) ≡ Frame.decode_data s
unfolding decode_data Frame.decode_data
decode_data-as_bridge s = elim (Bool-cases (length s % 2 == 1)) [
  | inl odd ↦ rw odd refl
  | inr even ↦ rw even (pairs-as_bridge (decode_pairs s))
]

data_of-as_bridge : (payload : Text) → as_bridge (data_of payload) ≡ Frame.data_of payload
unfolding data_of Frame.data_of
data_of-as_bridge payload = elim (Bool-cases (text_eq payload ack)) [
  | inl acked ↦ rw acked refl
  | inr bytes ↦ rw bytes (decode_data-as_bridge payload)
]

-- The integration reads every frame as the bridge does, whether it verifies the checksum or not,
-- but for a data field that is no hexadecimal: there the bridge raises a `ProtocolError`, and the
-- integration a `ValueError`.
pub parse_frame-as_bridge :
    (verify : Bool) (raw : Text) → as_bridge (parse_frame verify raw) ≡ Frame.parse_frame verify raw
unfolding parse_frame Frame.parse_frame
parse_frame-as_bridge verify raw =
    bind-as_bridge _ _ _ _ (guard-as_bridge (not (ltb (length raw) 11)) _) (λ _.
      bind-as_bridge _ _ _ _ (guard-as_bridge (is_command (take 1 raw)) _) (λ _.
        bind-as_bridge _ _ _ _ (or_fail-as_bridge (int_hex (slice 1 5 raw)) _) (λ address.
          bind-as_bridge _ _ _ _ (or_fail-as_bridge (int_hex (slice 5 9 raw)) _) (λ count.
            bind-as_bridge _ _ _ _ (data_of-as_bridge (payload_of raw))
              (λ bytes. checked-as_bridge _ _ _)))))
