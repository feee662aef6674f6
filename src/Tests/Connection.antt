-- ===== src/Tests/Connection.antt =====
-- A connection over which frames pass both ways after a handshake.
use stratumv.Prelude.{replicate, length, ◌≡◌, refl, arith, List, [], ◌∷◌}
use stratumv.Binary.Failure.{ok}
use stratumv.Binary.Outcome.{returns}
use stratumv.Binary.Builder.{add_u32, add_u256}
use stratumv.Mining.SetTarget
use stratumv.Mining.SetTarget.{SetTarget}
use stratumv.Messages
use stratumv.MessageTypes.{message_set_target}
use stratumv.Connection.Messaging.{Arrives, message_delivered}
use stratumv.Frame.{Frame}
use stratumv.Connection.{
  Sv2Conn, client_conn, server_conn, End, opened, Step, client, server, write, read, run_steps,
}
use stratumv.Connection.Delivery.{IsReadInOrder, frames_delivered}
use stratumv.Noise.Transport.Delivery.{IsSendable}
use stratumv.Tests.Noise.{tagging, last_nonce}
use stratumv.Tests.Handshake.Toys.{truncating, open_curve}
use stratumv.Tests.Handshake.{parties, completed}

abbrev setup : Frame
setup = record {
  extension_type = 0;
  message_type = 0;
  message_length = 3;
  payload = 1 ∷ 2 ∷ 3 ∷ [];
  tlvs = [];
}

abbrev setup_success : Frame
setup_success = record {
  extension_type = 0;
  message_type = 1;
  message_length = 2;
  payload = 2 ∷ 0 ∷ [];
  tlvs = [];
}

setup-IsSendable : IsSendable setup
setup-IsSendable = record {
  valid = omega arith;
  plain = refl;
  not_empty = omega arith;
  one_chunk = omega arith;
}

setup_success-IsSendable : IsSendable setup_success
setup_success-IsSendable = record {
  valid = omega arith;
  plain = refl;
  not_empty = omega arith;
  one_chunk = omega arith;
}

-- The client's first read waits.
abbrev exchange : List Step
exchange =
    client (write setup)
    ∷ client read
    ∷ server read
    ∷ server (write setup_success)
    ∷ server (write setup_success)
    ∷ client read
    ∷ []

frames_delivered_example :
    (client_side : Sv2Conn) × (server_side : Sv2Conn) × (client_conn
        (completed.initiator_state, ok completed.keys)
      ≡ ok client_side)
    × (server_conn (completed.responder_state, ok completed.keys) ≡ ok server_side)
    × (ends : End × End) × (run_steps tagging last_nonce exchange
          (opened client_side, opened server_side)
        ≡ returns ends)
    × IsReadInOrder ends.0 ends.1 (setup ∷ [])
    × IsReadInOrder ends.1 ends.0 (setup_success ∷ setup_success ∷ [])
frames_delivered_example =
    frames_delivered truncating tagging last_nonce open_curve parties completed exchange
      (
        setup-IsSendable,
        (tt, (tt, (setup_success-IsSendable, (setup_success-IsSendable, (tt, tt))))),
      )
      (omega arith) (omega arith)

abbrev new_target : SetTarget
new_target = record { channel_id = 7; max_target = replicate 32 1 }

new_target_size : length (Messages.set_target.codable.encode new_target).0 ≡ 36
unfolding SetTarget.encode add_u32 add_u256
new_target_size = refl

message_delivered_example :
    (client_side : Sv2Conn) × (server_side : Sv2Conn) × (client_conn
        (completed.initiator_state, ok completed.keys)
      ≡ ok client_side)
    × (server_conn (completed.responder_state, ok completed.keys) ≡ ok server_side)
    × Arrives tagging last_nonce Messages.set_target message_set_target 0 new_target client_side
        server_side
    × Arrives tagging last_nonce Messages.set_target message_set_target 0 new_target server_side
        client_side
message_delivered_example =
    message_delivered truncating tagging last_nonce open_curve parties Messages.set_target completed
      message_set_target 0 new_target (omega arith) (omega arith) (omega arith) (omega arith)
      (omega arith) (omega (arith, new_target_size)) (omega (arith, new_target_size))
