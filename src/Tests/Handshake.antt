-- ===== src/Tests/Handshake.antt =====
-- Keys, certificates and handshakes of noise.go at concrete inputs.
pub mod Toys
use stratumv.Prelude.{
  ℕ, ◌≡◌, ◌↔◌, refl, ap, arith, true, some, none, List, [], ◌∷◌, ◌++◌, length, replicate,
}
use stratumv.Binary.Failure.{ok, err}
use stratumv.Binary.Outcome.{returns, view}
use stratumv.Binary.Builder.{add_u16, add_u32}
use stratumv.Noise.Cipher
use stratumv.Noise.Keys.{
  serialize_ellswift, serialize_ellswift_bytes, public_key, public_key_bytes, Keypair, new_keypair,
  new_keypair_from, serialize_authority_key, deserialize_authority_key,
}
use stratumv.Noise.Keys
use stratumv.Noise.Certificate
use stratumv.Noise.Certificate.{
  SignatureNoiseMessage, new_signed_certificate, verify_server_certificate, encode, decode,
}
use stratumv.Noise.Certificate.Verified.{IsGood, decode-encode_cert, verified_iff}
use stratumv.Noise.Proc.{done, lhs, rhs, run, run_alone, Side}
use stratumv.Noise.Handshake.{
  HandshakeState, begin, send_part_1, perform_handshake_initiator, perform_handshake_responder,
  verify_server,
}
use stratumv.Noise.Handshake.Transcript.{Parties, IsKeypair}
use stratumv.Noise.Handshake.Schedules.{Embeds, empty, skip, keep}
use stratumv.Noise.Handshake.Completion.{IsComplete, meeting, handshake_completes, handshake_agrees}
use stratumv.Noise.Handshake.Truncated.{truncated_handshake, too_early}
use stratumv.Noise.Handshake.Authenticated.{verify-handshake}
use stratumv.Tests.Noise.{tagging, last_nonce}
use stratumv.Tests.Keys.{draw_of}
use Toys.{truncating, open_curve, plain_base58}

abbrev pub certificate : SignatureNoiseMessage
certificate = record {
  version = 0;
  valid_from = 100;
  not_valid_after = 200;
  signature = replicate 64 8;
}

pub certificate-IsValid : Certificate.IsValid certificate
certificate-IsValid = omega arith

verified_iff_example :
    (verify_server_certificate truncating open_curve 150 certificate
        (replicate 32 8)
        (replicate 32 6)
      ≡ (true, none))
    ↔ IsGood truncating open_curve 150 certificate (replicate 32 8) (replicate 32 6)
verified_iff_example =
    verified_iff truncating open_curve 150 certificate (replicate 32 8) (replicate 32 6)

-- The authority 8 signs the static key 6.
signed : new_signed_certificate truncating open_curve 8 (replicate 32 6) 100 200 ≡ ok certificate
unfolding new_signed_certificate add_u32 add_u16
signed = refl

pub draw-IsKeypair :
    (k : ℕ)
    → IsKeypair truncating tagging last_nonce open_curve (new_keypair open_curve (draw_of k))
unfolding new_keypair
draw-IsKeypair k = record { key = k; has_key = refl; encodes = refl }

abbrev pub parties : Parties truncating tagging last_nonce open_curve
parties = record {
  initiator_ephemeral = new_keypair open_curve (draw_of 1);
  responder_ephemeral = new_keypair open_curve (draw_of 2);
  static_keys = new_keypair open_curve (draw_of 6);
  cert = certificate;
  initiator_fits = draw-IsKeypair 1;
  responder_fits = draw-IsKeypair 2;
  static_fits = draw-IsKeypair 6;
  cert_fits = certificate-IsValid;
}

pub static_key : open_curve.public_x parties.static_fits.key ≡ replicate 32 6
unfolding draw-IsKeypair
static_key = refl

abbrev pub fresh : HandshakeState
fresh = record { cs = Cipher.empty; h = []; ck = []; cert = none; server_static = [] }

-- The responder makes its first step too early.
abbrev pub schedule : List Side
schedule = rhs ∷ lhs ∷ rhs ∷ rhs ∷ lhs ∷ lhs ∷ []

pub schedule_long : Embeds (lhs ∷ rhs ∷ rhs ∷ lhs ∷ []) schedule
schedule_long = skip (keep (keep (keep (keep (skip empty)))))

handshake_completes_example :
    IsComplete truncating tagging last_nonce open_curve parties fresh fresh
      (run schedule (meeting truncating tagging last_nonce open_curve parties fresh fresh))
handshake_completes_example =
    handshake_completes truncating tagging last_nonce open_curve parties fresh fresh (omega arith)
      (omega arith) schedule schedule_long

pub completed :
    IsComplete truncating tagging last_nonce open_curve parties fresh fresh
      (run schedule (meeting truncating tagging last_nonce open_curve parties fresh fresh))
completed =
    handshake_completes truncating tagging last_nonce open_curve parties fresh fresh (omega arith)
      (omega arith) schedule schedule_long

initiator_ended :
    (run schedule (meeting truncating tagging last_nonce open_curve parties fresh fresh)).left
    ≡ done (completed.initiator_state, ok completed.keys)
initiator_ended = ap (λ net. net.left) completed.ended_so

handshake_agrees_example :
    IsComplete truncating tagging last_nonce open_curve parties fresh fresh
      (run schedule (meeting truncating tagging last_nonce open_curve parties fresh fresh))
handshake_agrees_example =
    handshake_agrees truncating tagging last_nonce open_curve parties fresh fresh (omega arith)
      (omega arith) schedule (completed.initiator_state, ok completed.keys) initiator_ended

signed_static :
    new_signed_certificate truncating open_curve 8
      (open_curve.public_x parties.static_fits.key)
      100
      200
    ≡ ok certificate
unfolding draw-IsKeypair
signed_static = signed

verify-handshake_example :
    verify_server truncating tagging last_nonce open_curve 150
      (replicate 32 8)
      completed.initiator_state
    ≡ returns (true, none)
verify-handshake_example =
    verify-handshake truncating tagging last_nonce open_curve parties fresh fresh
      (run schedule (meeting truncating tagging last_nonce open_curve parties fresh fresh)) 8 100
      200 150 completed signed_static (omega arith) (omega arith)
