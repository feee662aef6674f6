-- ===== src/Kinds/RoundTrips.antt =====
-- What every kind of message encodes, it decodes.
use stratumv.Prelude.{◌≡◌, refl}
use stratumv.Binary.Failure.{ok}
use stratumv.Binary.Codec.{RoundTrips}
use stratumv.MessageTypes.{message_type_to_string}
use stratumv.Core.SetupConnection.{SetupConnection-RoundTrips}
use stratumv.Core.SetupConnectionSuccess.{SetupConnectionSuccess-RoundTrips}
use stratumv.Core.SetupConnectionError.{SetupConnectionError-RoundTrips}
use stratumv.Core.ChannelEndpointChanged.{ChannelEndpointChanged-RoundTrips}
use stratumv.Core.Reconnect.{Reconnect-RoundTrips}
use stratumv.Mining.OpenStandardMiningChannel.{OpenStandardMiningChannel-RoundTrips}
use stratumv.Mining.OpenStandardMiningChannelSuccess.{OpenStandardMiningChannelSuccess-RoundTrips}
use stratumv.Mining.OpenExtendedMiningChannel.{OpenExtendedMiningChannel-RoundTrips}
use stratumv.Mining.OpenExtendedMiningChannelSuccess.{OpenExtendedMiningChannelSuccess-RoundTrips}
use stratumv.Mining.OpenMiningChannelError.{OpenMiningChannelError-RoundTrips}
use stratumv.Mining.UpdateChannel.{UpdateChannel-RoundTrips}
use stratumv.Mining.UpdateChannelError.{UpdateChannelError-RoundTrips}
use stratumv.Mining.CloseChannel.{CloseChannel-RoundTrips}
use stratumv.Mining.SetExtranoncePrefix.{SetExtranoncePrefix-RoundTrips}
use stratumv.Mining.SubmitSharesStandard.{SubmitSharesStandard-RoundTrips}
use stratumv.Mining.SubmitSharesExtended.{SubmitSharesExtended-RoundTrips}
use stratumv.Mining.SubmitSharesSuccess.{SubmitSharesSuccess-RoundTrips}
use stratumv.Mining.SubmitSharesError.{SubmitSharesError-RoundTrips}
use stratumv.Mining.NewMiningJob.{NewMiningJob-RoundTrips}
use stratumv.Mining.NewExtendedMiningJob.{NewExtendedMiningJob-RoundTrips}
use stratumv.Mining.SetNewPrevHash.{SetNewPrevHash-RoundTrips}
use stratumv.Mining.SetCustomMiningJobSuccess.{SetCustomMiningJobSuccess-RoundTrips}
use stratumv.Mining.SetCustomMiningJobError.{SetCustomMiningJobError-RoundTrips}
use stratumv.Mining.SetTarget.{SetTarget-RoundTrips}
use stratumv.Mining.SetGroupChannel.{SetGroupChannel-RoundTrips}
use stratumv.Kinds.{
  Kind, Message, Fits, encode, decode, number, type_name, setup_connection,
  setup_connection_success, setup_connection_error, channel_endpoint_changed, reconnect,
  open_standard_mining_channel, open_standard_mining_channel_success, open_extended_mining_channel,
  open_extended_mining_channel_success, open_mining_channel_error, update_channel,
  update_channel_error, close_channel, set_extranonce_prefix, submit_shares_standard,
  submit_shares_extended, submit_shares_success, submit_shares_error, new_mining_job,
  new_extended_mining_job, set_new_prev_hash, set_custom_mining_job_success,
  set_custom_mining_job_error, set_target, set_group_channel,
}

message_RoundTrips : (k : Kind) (m : Message k) → Fits k m → RoundTrips (encode k m) (decode k) m
unfolding encode decode
message_RoundTrips setup_connection m v = SetupConnection-RoundTrips m v
message_RoundTrips setup_connection_success m v = SetupConnectionSuccess-RoundTrips m v
message_RoundTrips setup_connection_error m v = SetupConnectionError-RoundTrips m v
message_RoundTrips channel_endpoint_changed m v = ChannelEndpointChanged-RoundTrips m v
message_RoundTrips reconnect m v = Reconnect-RoundTrips m v
message_RoundTrips open_standard_mining_channel m v = OpenStandardMiningChannel-RoundTrips m v
message_RoundTrips open_standard_mining_channel_success m v =
    OpenStandardMiningChannelSuccess-RoundTrips m v
message_RoundTrips open_extended_mining_channel m v = OpenExtendedMiningChannel-RoundTrips m v
message_RoundTrips open_extended_mining_channel_success m v =
    OpenExtendedMiningChannelSuccess-RoundTrips m v
message_RoundTrips open_mining_channel_error m v = OpenMiningChannelError-RoundTrips m v
message_RoundTrips update_channel m v = UpdateChannel-RoundTrips m v
message_RoundTrips update_channel_error m v = UpdateChannelError-RoundTrips m v
message_RoundTrips close_channel m v = CloseChannel-RoundTrips m v
message_RoundTrips set_extranonce_prefix m v = SetExtranoncePrefix-RoundTrips m v
message_RoundTrips submit_shares_standard m v = SubmitSharesStandard-RoundTrips m v
message_RoundTrips submit_shares_extended m v = SubmitSharesExtended-RoundTrips m v
message_RoundTrips submit_shares_success m v = SubmitSharesSuccess-RoundTrips m v
message_RoundTrips submit_shares_error m v = SubmitSharesError-RoundTrips m v
message_RoundTrips new_mining_job m v = NewMiningJob-RoundTrips m v
message_RoundTrips new_extended_mining_job m v = NewExtendedMiningJob-RoundTrips m v
message_RoundTrips set_new_prev_hash m v = SetNewPrevHash-RoundTrips m v
message_RoundTrips set_custom_mining_job_success m v = SetCustomMiningJobSuccess-RoundTrips m v
message_RoundTrips set_custom_mining_job_error m v = SetCustomMiningJobError-RoundTrips m v
message_RoundTrips set_target m v = SetTarget-RoundTrips m v
message_RoundTrips set_group_channel m v = SetGroupChannel-RoundTrips m v

number-type_name : (k : Kind) → message_type_to_string (number k) ≡ ok (type_name k)
unfolding message_type_to_string
number-type_name setup_connection = refl
number-type_name setup_connection_success = refl
number-type_name setup_connection_error = refl
number-type_name channel_endpoint_changed = refl
number-type_name reconnect = refl
number-type_name open_standard_mining_channel = refl
number-type_name open_standard_mining_channel_success = refl
number-type_name open_extended_mining_channel = refl
number-type_name open_extended_mining_channel_success = refl
number-type_name open_mining_channel_error = refl
number-type_name update_channel = refl
number-type_name update_channel_error = refl
number-type_name close_channel = refl
number-type_name set_extranonce_prefix = refl
number-type_name submit_shares_standard = refl
number-type_name submit_shares_extended = refl
number-type_name submit_shares_success = refl
number-type_name submit_shares_error = refl
number-type_name new_mining_job = refl
number-type_name new_extended_mining_job = refl
number-type_name set_new_prev_hash = refl
number-type_name set_custom_mining_job_success = refl
number-type_name set_custom_mining_job_error = refl
number-type_name set_target = refl
number-type_name set_group_channel = refl

-- A message of any kind that fits is encoded with no error, and its `Decode` reads it back with no
-- error, whatever bytes follow; and `MessageTypeToString` of its number is the name of its Go type.
pub every_message-RoundTrips :
    (k : Kind) (m : Message k)
    → Fits k m
    → RoundTrips (encode k m) (decode k) m × (message_type_to_string (number k) ≡ ok (type_name k))
every_message-RoundTrips k m v = (message_RoundTrips k m v, number-type_name k)
