-- ===== src/Examples/Logger.antt =====
-- examples/logger/logger.go: the messages that the client writes, its check of the server's
-- certificate, and the goroutine that reads. The reading stops where the signal comes, after some
-- rounds of its loop.
use stratumv.Prelude.{
  ℕ, zero, suc, ◌+◌, ◌%◌, ◌^◌, Bool, true, false, Option, none, some, List, [], ◌++◌, replicate,
  length, take, ltb, ◌==◌, if◌then◌else◌, ascii,
}
use stratumv.Prelude.Int.{ℤ, pos, negsuc}
use stratumv.Binary.Failure.{Failure, Result, ok, err, cert_rejected}
use stratumv.Binary.Outcome.{Outcome, returns, panics, view}
use stratumv.Frame.{Frame, extension_type_core, new_frame_from_params}
use stratumv.U256.Hex.{set_string}
use stratumv.Core.SetupConnection.{SetupConnection}
use stratumv.Mining.OpenExtendedMiningChannel.{OpenExtendedMiningChannel}
use stratumv.Mining.OpenExtendedMiningChannelSuccess
use stratumv.Mining.OpenExtendedMiningChannelSuccess.{OpenExtendedMiningChannelSuccess}
use stratumv.Mining.CloseChannel.{CloseChannel}
use stratumv.Messages
use stratumv.MessageTypes.{
  message_setup_connection, message_open_extended_mining_channel,
  message_open_extended_mining_channel_success, message_close_channel,
}
use stratumv.Noise.Aead.{Aead}
use stratumv.Noise.Digest.{Sha256}
use stratumv.Noise.Secp256k1.{Secp256k1}
use stratumv.Noise.Keys.{Base58, deserialize_authority_key}
use stratumv.Noise.Handshake.{HandshakeState, verify_server}
use stratumv.Connection.{Sv2Conn, read_frame, write_frame}
use stratumv.Examples.{Exit, fatal, after_error}
use stratumv.Examples.Server.{protocol_version}

-- `MiningProtocol`
abbrev pub mining_protocol : ℕ
mining_protocol = 0

-- `RequiresVersionRollingFlag`
abbrev pub requires_version_rolling_flag : ℕ
requires_version_rolling_flag = 4

-- `newReqID`: the counter is a uint32.
abbrev pub new_req_id : ℕ → ℕ
new_req_id reqid = (reqid + 1) % 2 ^ 32

-- `maxtarget`
unfoldable pub max_target : List ℕ
unfolding set_string
max_target =
    (set_string (replicate 32 0)
      (ascii "00000000FFFFFFFFFFFFFFFFFFFFFFFFFFFFFFFFFFFFFFFFFFFFFFFFFFFFFFFF")).0

-- `setupmsg`
abbrev pub setup_msg : List ℕ → ℕ → SetupConnection
setup_msg pool_host pool_port = record {
  protocol = mining_protocol;
  min_version = protocol_version;
  max_version = protocol_version;
  flags = requires_version_rolling_flag;
  endpoint_port = pool_port;
  endpoint_host = pool_host;
  device_vendor = ascii "0xf0xx0";
  device_hardware_version = ascii "logger.go";
  device_firmware = ascii "git.0xf0xx0.eth.limo/0xf0xx0/stratumv2";
  device_id = ascii "paws";
}

-- `openchanmsg`, for what `addr.EncodeAddress()` returns. The hash rate is the float32 1e12.
abbrev pub open_chan_msg : List ℕ → OpenExtendedMiningChannel
open_chan_msg address = record {
  standard = record {
    request_id = new_req_id 0;
    user_identity = address ++ ascii ".sv2-logger";
    nominal_hash_rate = 0x5368d4a5;
    max_target = max_target;
  };
  min_extranonce_size = 1;
}

unfoldable pub setup_frame : List ℕ → ℕ → Result Frame
unfolding new_frame_from_params
setup_frame pool_host pool_port =
    new_frame_from_params Messages.setup_connection.codable message_setup_connection
      extension_type_core (setup_msg pool_host pool_port)

unfoldable pub open_chan_frame : List ℕ → Result Frame
unfolding new_frame_from_params max_target
open_chan_frame address =
    new_frame_from_params Messages.open_extended_mining_channel.codable
      message_open_extended_mining_channel extension_type_core (open_chan_msg address)

-- `closemsg`: `uint32(chanid)` of an id that is not negative.
abbrev pub close_msg : ℕ → CloseChannel
close_msg chan_id = record {
  channel_id = chan_id % 2 ^ 32;
  reason_code = ascii "ubisoft go steamworks bye bye, always on drm";
}

unfoldable pub close_msg_frame : ℕ → Result Frame
unfolding new_frame_from_params
close_msg_frame chan_id =
    new_frame_from_params Messages.close_channel.codable message_close_channel extension_type_core
      (close_msg chan_id)

-- The check of the server's certificate, unless the authority's key is "". `none` is a check that
-- is passed.
module _ (sha : Sha256) (aead : Aead) (max_noise_nonce : ℕ) (curve : Secp256k1)
    (base58 : Base58) where
  abbrev pub verdict : Outcome (Bool × Option Failure) → Outcome (Option Exit)
  verdict (returns (valid, some e)) = returns (some (fatal e))
  verdict (returns (true, none)) = returns none
  verdict (returns (false, none)) = returns (some (fatal cert_rejected))
  verdict panics = panics

  -- `Pubkey(authorityPubkey)` takes 32 bytes.
  abbrev pub with_key : ℕ → HandshakeState → Outcome (Result (List ℕ)) → Outcome (Option Exit)
  with_key now hs panics = panics
  with_key now hs (returns (err e)) = returns (some (fatal e))
  with_key now hs (returns (ok key)) =
      if ltb (length key) 32
      then panics
      else verdict (verify_server sha aead max_noise_nonce curve now (take 32 key) hs)

  unfoldable pub check_cert : ℕ → List ℕ → HandshakeState → Outcome (Option Exit)
  unfolding verify_server deserialize_authority_key
  check_cert now auth_key hs =
      if length auth_key == 0
      then returns none
      else with_key now hs (deserialize_authority_key base58 auth_key)

-- `msg.Decode`, whose error is not looked at, and `chanid` after it.
abbrev pub chan_id_of : Outcome (OpenExtendedMiningChannelSuccess × Option Failure) → Outcome ℤ
chan_id_of (returns (msg, e)) = returns (pos msg.channel_id)
chan_id_of panics = panics

-- `chanid` after a frame.
unfoldable pub note_frame : Frame → ℤ → Outcome ℤ
unfolding OpenExtendedMiningChannelSuccess.decode
note_frame f chan_id =
    if f.message_type == message_open_extended_mining_channel_success
    then chan_id_of (OpenExtendedMiningChannelSuccess.decode (view f.payload))
    else returns chan_id

-- The reading goroutine: the connection and the channel's id that it leaves, and how it ended,
-- where it did.
pub record Reading : Type 0 where
  pub conn : Sv2Conn
  pub chan_id : ℤ
  pub ended : Option Exit

module _ (aead : Aead) (max_noise_nonce : ℕ) where
  abbrev pub noted : (ℤ → Outcome Reading) → Outcome ℤ → Outcome Reading
  noted k (returns chan_id) = k chan_id
  noted k panics = panics

  abbrev pub after_read :
      ℤ
      → (List ℕ → Sv2Conn → ℤ → Outcome Reading)
      → Outcome (Sv2Conn × (Result Frame × List ℕ))
      → Outcome Reading
  after_read chan_id k (returns (conn, (ok f, w))) = noted (k w conn) (note_frame f chan_id)
  after_read chan_id k (returns (conn, (err e, w))) =
      returns (record { conn = conn; chan_id = chan_id; ended = some (after_error e) })
  after_read chan_id k panics = panics

  -- At most so many rounds of the loop.
  unfoldable pub read_rounds : ℕ → List ℕ → Sv2Conn → ℤ → Outcome Reading
  unfolding read_frame note_frame
  read_rounds zero w conn chan_id =
      returns (record { conn = conn; chan_id = chan_id; ended = none })
  read_rounds (suc rounds) w conn chan_id =
      after_read chan_id (read_rounds rounds) (read_frame aead max_noise_nonce w conn)

  -- A write: the connection, the bytes on the wire and the error. A frame that is nil is a panic.
  abbrev pub Wrote : Type 0
  Wrote = Outcome (Sv2Conn × (List ℕ × Option Failure))

  abbrev pub wrote : Frame × (Sv2Conn × (List ℕ × Result ℕ)) → Wrote
  wrote (f, (conn, (w, ok n))) = returns (conn, (w, none))
  wrote (f, (conn, (w, err e))) = returns (conn, (w, some e))

  unfoldable pub put : Result Frame → List ℕ → Sv2Conn → Wrote
  unfolding write_frame
  put (ok f) w conn = wrote (write_frame aead max_noise_nonce f w conn)
  put (err e) w conn = panics

  abbrev pub then_put : Wrote → Result Frame → Wrote
  then_put (returns (conn, (w, none))) frame = put frame w conn
  then_put (returns (conn, (w, some e))) frame = returns (conn, (w, some e))
  then_put panics frame = panics

  -- The two writes after the handshake. An error ends the program.
  unfoldable pub open_channel : List ℕ → ℕ → List ℕ → Sv2Conn → Wrote
  unfolding put setup_frame open_chan_frame
  open_channel pool_host pool_port address conn =
      then_put (put (setup_frame pool_host pool_port) [] conn) (open_chan_frame address)

  -- After the signal. The connection is closed behind this.
  unfoldable pub close_channel : ℤ → List ℕ → Sv2Conn → Wrote
  unfolding put close_msg_frame
  close_channel (pos chan_id) w conn = put (close_msg_frame chan_id) w conn
  close_channel (negsuc n) w conn = returns (conn, (w, none))
