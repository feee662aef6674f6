-- ===== src/Frame.antt =====
-- `Frame` of types.go: a header of six bytes, a payload and the TLV fields.
pub mod Tlv
pub mod RoundTrip
pub mod Order
pub mod Fields
pub mod Loop
pub mod Twice
pub mod Stream
use stratumv.Prelude.{
  ℕ, zero, suc, ◌+◌, ◌-◌, ◌%◌, Bool, true, false, ◌||◌, Option, none, some, List, [], ◌∷◌, ◌++◌,
  length, take, drop, replicate, ltb, leb, ◌==◌, not, if◌then◌else◌,
}
use stratumv.Binary.Failure.{Failure, Result, ok, err, frame_too_long, length_mismatch}
use stratumv.Binary.Outcome.{Outcome, returns, panics, Slice, nil, view, contents}
use stratumv.Binary.Builder
use stratumv.Binary.Builder.{◌▷◌, bytes, len, add_u8, add_u16, add_u24, add_bytes}
use stratumv.Binary.Reader.{◌>>=◌, pure, contents_of, read_u8, read_u16, read_u24, read_bytes}
use stratumv.Binary.Stream.{receive}
use stratumv.Binary.Codec.{run, RoundTrips}

pub record Frame : Type 0 where
  pub extension_type : ℕ
  pub message_type : ℕ
  pub message_length : ℕ
  pub payload : List ℕ
  pub tlvs : List Tlv.Tlv

-- `Frame{}`
abbrev pub empty : Frame
empty = record { extension_type = 0; message_type = 0; message_length = 0; payload = []; tlvs = [] }

-- `Codable` of types.go, for one type of messages. `decode` gives the value that `Decode` leaves in
-- its receiver, and its error.
pub record Codable (A : Type 0) : Type 0 where
  pub encode : A → List ℕ × Option Failure
  pub decode : Slice → Outcome (A × Option Failure)

-- A type of messages whose encoding is read back. The values that fit are `Fits`.
pub record LawfulCodable (A : Type 0) : Type 1 where
  pub codable : Codable A
  pub Fits : A → Type 0
  pub round_trips : (m : A) → Fits m → RoundTrips (codable.encode m) codable.decode m

abbrev pub frame_header_size : ℕ
frame_header_size = 6

-- `MaxU24`
abbrev pub max_u24 : ℕ
max_u24 = 16777215

abbrev pub extension_type_core : ℕ
extension_type_core = 0

abbrev from_encoded : ℕ → ℕ → List ℕ × Option Failure → Result Frame
from_encoded message_type extension_type (b, some e) = err e
from_encoded message_type extension_type (b, none) =
    if ltb max_u24 (length b)
    then err frame_too_long
    else ok (record {
      message_type = message_type;
      extension_type = extension_type;
      message_length = length b % 4294967296;
      payload = b;
      tlvs = [];
    })

-- `*f = *frame`, unless there is an error.
abbrev assign : Frame → Result Frame → Frame × Option Failure
assign f (err e) = (f, some e)
assign f (ok frame) = (frame, none)

module _ {A : Type 0} (c : Codable A) where
  unfoldable pub new_frame_from_params : ℕ → ℕ → A → Result Frame
  new_frame_from_params message_type extension_type params =
      from_encoded message_type extension_type (c.encode params)

  unfoldable pub from_params : ℕ → A → Frame → Frame × Option Failure
  unfolding new_frame_from_params
  from_params message_type params f =
      assign f (new_frame_from_params message_type extension_type_core params)

  unfoldable pub from_params_extension : ℕ → ℕ → A → Frame → Frame × Option Failure
  unfolding new_frame_from_params
  from_params_extension message_type extension_type params f =
      assign f (new_frame_from_params message_type extension_type params)

  -- The payload is taken to be set: a nil payload, as in `Frame{}`, is not told from an empty one.
  unfoldable pub to_params : Frame → Outcome (A × Option Failure)
  to_params f = c.decode (view f.payload)

-- `slices.SortStableFunc` by the extension type: an earlier field stays before an equal one.
abbrev pub insert : Tlv.Tlv → List Tlv.Tlv → List Tlv.Tlv
insert t [] = t ∷ []
insert t (u ∷ us) = if leb t.extension_type u.extension_type then t ∷ u ∷ us else u ∷ insert t us

unfoldable pub sort : List Tlv.Tlv → List Tlv.Tlv
sort [] = []
sort (t ∷ ts) = insert t (sort ts)

-- The loop over the sorted fields: the bytes of all, or the first error.
abbrev extend_tlvs : List ℕ × Option Failure → Result (List ℕ) → Result (List ℕ)
extend_tlvs (enc, some e) rest = err e
extend_tlvs (enc, none) (ok bs) = ok (enc ++ bs)
extend_tlvs (enc, none) (err e) = err e

unfoldable pub encode_tlvs : List Tlv.Tlv → Result (List ℕ)
encode_tlvs [] = ok []
encode_tlvs (t ∷ ts) = extend_tlvs (Tlv.encode t) (encode_tlvs ts)

abbrev pub header_and_payload : Frame → List ℕ × Option Failure
header_and_payload f = bytes (
    Builder.new
    ▷ add_u16 f.extension_type
    ▷ add_u8 f.message_type
    ▷ add_u24 f.message_length
    ▷ add_bytes f.payload)

-- The payload with the fields behind it; `f` holds the sorted fields. `MessageLength` is a uint32.
abbrev with_tlvs : Frame → Result (List ℕ) → Frame × (List ℕ × Option Failure)
with_tlvs f (err e) = (f, ([], some e))
with_tlvs f (ok bs) =
    let g = record f {
      message_length = (f.message_length + length bs % 4294967296) % 4294967296;
      payload = f.payload ++ bs;
    } in
    (g, header_and_payload g)

abbrev pub encode_body : List Tlv.Tlv → Frame → Frame × (List ℕ × Option Failure)
encode_body [] f = (f, header_and_payload f)
encode_body (t ∷ ts) f =
    let sorted = sort (t ∷ ts) in with_tlvs (record f { tlvs = sorted }) (encode_tlvs sorted)

-- The frame that `Encode` leaves behind, the bytes and the error.
unfoldable pub encode : Frame → Frame × (List ℕ × Option Failure)
unfolding bytes
encode f =
    if f.message_length == length f.payload
    then encode_body f.tlvs f
    else (f, ([], some length_mismatch))

-- `DecodeHeader`: the header fields are assigned one by one.
unfoldable pub decode_header : Slice → Frame → Outcome (Frame × Option Failure)
unfolding run
decode_header b f =
    run
      (do
        extension_type ← read_u16
        message_type ← read_u8
        message_length ← read_u24
        pure (record f {
          extension_type = extension_type;
          message_type = message_type;
          message_length = message_length;
        }))
      b

unfoldable pub read_payload : Slice → Frame → Outcome (Frame × Option Failure)
unfolding run
read_payload b f =
    run
      (do
        payload ← contents_of (read_bytes f.message_length)
        pure (record f { payload = payload }))
      b

-- What follows a step that returned no error; a step's error ends the call.
infixl 5 ◌then_try◌
abbrev pub ◌then_try◌ :
    Outcome (Frame × Option Failure)
    → (Frame → Outcome (Frame × Option Failure))
    → Outcome (Frame × Option Failure)
returns (f, none) then_try k = k f
returns (f, some e) then_try k = returns (f, some e)
panics then_try k = panics

-- What `Decode` returns, or `none` where the fuel of its loop runs out.
abbrev pub Decoding : Type 0
Decoding = Option (Outcome (Frame × Option Failure))

abbrev pub add_tlv :
    Frame → Outcome (Tlv.Tlv × Option Failure) → (Tlv.Tlv → Frame → Decoding) → Decoding
add_tlv f (returns (t, some e)) k = some (returns (f, some e))
add_tlv f (returns (t, none)) k = k t (record f { tlvs = f.tlvs ++ t ∷ [] })
add_tlv f panics k = some panics

-- The loop over the fields behind the payload, on fuel. `b` is what `b[n+lastLen:]` is.
unfoldable pub decode_tlvs : ℕ → List ℕ → Frame → Decoding
decode_tlvs zero b f = none
decode_tlvs (suc fuel) b f =
    let rest =
      add_tlv f (Tlv.decode (view b)) (λ t f'. decode_tlvs fuel (drop (t.size + 5) b) f') in
    if ltb (length b) 5 then some (returns (f, none)) else rest

-- `b[lo:hi]`, where a slice's capacity is its length: out of range is a panic.
abbrev pub sub_slice :
    List ℕ → ℕ → ℕ → (List ℕ → Outcome (Frame × Option Failure)) → Outcome (Frame × Option Failure)
sub_slice b lo hi k = if ltb (length b) hi then panics else k (take (hi - lo) (drop lo b))

-- What follows the payload.
abbrev pub behind_payload : List ℕ → Outcome (Frame × Option Failure) → Decoding
behind_payload b (returns (f, none)) =
    let n = frame_header_size + f.message_length in
    if ltb (n + 5) (length b) then decode_tlvs (length b) (drop n b) f else some (returns (f, none))
behind_payload b (returns (f, some e)) = some (returns (f, some e))
behind_payload b panics = some panics

unfoldable pub decode : List ℕ → Frame → Decoding
unfolding decode_header read_payload decode_tlvs
decode b f = behind_payload b (
    sub_slice b 0 frame_header_size (λ header. decode_header (view header) f) then_try λ f.
    sub_slice b frame_header_size (frame_header_size + f.message_length)
      (λ body. read_payload (view body) f))

-- `f.Payload` after io.ReadFull has read up to `n` bytes of the stream into it: zeros where nothing
-- has arrived.
abbrev filled : ℕ → List ℕ → List ℕ
filled n stream = take n stream ++ replicate (n - length stream) 0

-- The frame that `DecodeFromReader` leaves behind, its error and the rest of the stream.
abbrev FromReader : Type 0
FromReader = Outcome ((Frame × Option Failure) × List ℕ)

abbrev payload_received : Frame → Outcome (Result (List ℕ) × List ℕ) → FromReader
payload_received f (returns (ok payload, stream)) = returns ((f, none), stream)
payload_received f (returns (err e, stream)) = returns ((f, some e), stream)
payload_received f panics = panics

abbrev header_received : List ℕ → Outcome (Frame × Option Failure) → FromReader
header_received stream (returns (f, some e)) = returns ((f, some e), stream)
header_received stream (returns (f, none)) =
    payload_received (record f { payload = filled f.message_length stream })
      (receive f.message_length stream)
header_received stream panics = panics

abbrev after_header : Frame → Outcome (Result (List ℕ) × List ℕ) → FromReader
after_header f (returns (err e, stream)) = returns ((f, some e), stream)
after_header f (returns (ok header, stream)) =
    header_received stream (decode_header (view header) f)
after_header f panics = panics

unfoldable pub decode_from_reader : List ℕ → Frame → FromReader
unfolding decode_header receive
decode_from_reader stream f = after_header f (receive frame_header_size stream)
