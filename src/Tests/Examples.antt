-- ===== src/Tests/Examples.antt =====
-- The examples' server and logger at concrete inputs.
use stratumv.Prelude.{none, ◌≡◌, ◌<◌, refl, ap, ◌∙◌, arith, [], ◌∷◌, some, length, replicate, ascii}
use stratumv.Binary.Failure.{end_of_file, ok, cert_expired}
use stratumv.Binary.Outcome.{returns}
use stratumv.Binary.Builder.{add_u16, add_u32}
use stratumv.Frame.{Frame}
use stratumv.Mining.OpenExtendedMiningChannelSuccess.{OpenExtendedMiningChannelSuccess}
use stratumv.Noise.Certificate.{SignatureNoiseMessage, new_signed_certificate}
use stratumv.Noise.Keys.{new_keypair, serialize_authority_key}
use stratumv.Noise.Proc.{run}
use stratumv.Noise.Handshake.Transcript.{Parties}
use stratumv.Noise.Handshake.Completion.{IsComplete, meeting, handshake_completes}
use stratumv.Connection.{Sv2Conn, client_conn}
use stratumv.Examples.{fatal}
use stratumv.Examples.Server.{server_cert, serve, handle}
use stratumv.Examples.Logger.{check_cert}
use stratumv.Examples.Endings.{Ends, handle-Ends, handle_short}
use stratumv.Examples.Meeting.{FirstExchange, logger_meets_server}
use stratumv.Examples.Closing.{LastExchange, logger_closes}
use stratumv.Examples.Trust.{logger_checks_server}
use stratumv.Tests.Noise.{tagging, last_nonce}
use stratumv.Tests.Keys.{draw_of}
use stratumv.Tests.Handshake.Toys.{truncating, open_curve, plain_base58}
use stratumv.Tests.Handshake.{
  certificate, parties, completed, fresh, schedule, schedule_long, static_key,
}

-- Bytes that are no frames, behind a first message.
handle-Ends_example :
    Ends
      (handle truncating tagging last_nonce open_curve 91 certificate parties.static_keys
        (new_keypair open_curve (draw_of 2))
        fresh
        (replicate 90 1)).1
handle-Ends_example =
    handle-Ends truncating tagging last_nonce open_curve certificate parties.static_keys
      (new_keypair open_curve (draw_of 2)) fresh 91 (replicate 90 1) (omega arith)

handle_short_example :
    handle truncating tagging last_nonce open_curve 5 certificate parties.static_keys
      (new_keypair open_curve (draw_of 2))
      fresh
      []
    ≡ ([], some (returns (record { frames = []; answer = none; exit = fatal end_of_file })))
handle_short_example =
    handle_short truncating tagging last_nonce open_curve certificate parties.static_keys
      (new_keypair open_curve (draw_of 2)) fresh 5 [] (omega arith)

logger_meets_server_example :
    (client_side : Sv2Conn) × (client_conn (completed.initiator_state, ok completed.keys)
      ≡ ok client_side)
    × FirstExchange tagging last_nonce
        (ascii "127.0.0.1")
        5661
        (ascii "bc1p")
        client_side
        (λ fuel w. serve tagging last_nonce fuel (completed.responder_state, ok completed.keys) w)
logger_meets_server_example =
    logger_meets_server truncating tagging last_nonce open_curve parties completed
      (ascii "127.0.0.1") 5661 (ascii "bc1p") (omega arith) (omega arith) (omega arith)
      (omega arith) (omega arith)

abbrev opened : OpenExtendedMiningChannelSuccess
opened = record {
  standard = record {
    request_id = 1;
    channel_id = 7;
    target = replicate 32 255;
    extranonce_prefix = 1 ∷ 2 ∷ [];
    group_channel_id = 1;
  };
  extranonce_size = 4;
}

abbrev answered : Frame
answered = record {
  extension_type = 0;
  message_type = 1;
  message_length = 6;
  payload = 2 ∷ 0 ∷ 0 ∷ 0 ∷ 0 ∷ 0 ∷ [];
  tlvs = [];
}

abbrev logger_side : Sv2Conn
logger_side = record {
  send = record { k = replicate 32 1; n = 4 };
  recv = record { k = replicate 32 2; n = 0 };
}

abbrev server_side : Sv2Conn
server_side = record { send = logger_side.recv; recv = logger_side.send }

logger_closes_example :
    LastExchange tagging last_nonce (answered ∷ []) [] opened logger_side server_side
logger_closes_example =
    logger_closes tagging last_nonce (answered ∷ []) [] opened logger_side server_side (omega arith)
      (
        record {
          valid = omega arith;
          plain = refl;
          not_empty = omega arith;
          one_chunk = omega arith;
        },
        tt,
      )
      (omega arith, tt) tt tt
      (record { keyed = omega arith; room = omega arith; end_fits = omega arith })
      (record { keyed = omega arith; room = omega arith; end_fits = omega arith }) refl

abbrev expired_certificate : SignatureNoiseMessage
expired_certificate = record {
  version = 0;
  valid_from = 0;
  not_valid_after = 65535;
  signature = replicate 64 8;
}

abbrev served_parties : Parties truncating tagging last_nonce open_curve
served_parties = record parties { cert = expired_certificate; cert_fits = omega arith }

signed_for : server_cert truncating open_curve 8 (replicate 32 6) ≡ ok expired_certificate
unfolding new_signed_certificate add_u32 add_u16
signed_for = refl

signed_so :
    server_cert truncating open_curve 8 (open_curve.public_x served_parties.static_fits.key)
    ≡ ok expired_certificate
signed_so = ap (server_cert truncating open_curve 8) static_key ∙ signed_for

served :
    IsComplete truncating tagging last_nonce open_curve served_parties fresh fresh
      (run schedule (meeting truncating tagging last_nonce open_curve served_parties fresh fresh))
served =
    handshake_completes truncating tagging last_nonce open_curve served_parties fresh fresh
      (omega arith) (omega arith) schedule schedule_long

key_given : 0 < length (serialize_authority_key plain_base58 (open_curve.public_x 8))
unfolding serialize_authority_key
key_given = omega arith

logger_checks_server_example :
    check_cert truncating tagging last_nonce open_curve plain_base58 1700000000
      (serialize_authority_key plain_base58 (open_curve.public_x 8))
      served.initiator_state
    ≡ returns (some (fatal cert_expired))
logger_checks_server_example =
    logger_checks_server truncating tagging last_nonce open_curve plain_base58 served_parties 8
      1700000000 served signed_so key_given
