-- ===== src/Kinds.antt =====
-- Every message of core.go and mining.go but SetCustomMiningJob, with its `Encode`, its `Decode`
-- and its number among the message types.
pub mod RoundTrips
use Prim.Native.String.{String}
use stratumv.Prelude.{ℕ, Option, List}
use stratumv.Binary.Failure.{Failure}
use stratumv.Binary.Outcome.{Outcome, Slice}
use stratumv.MessageTypes.{
  message_setup_connection, message_setup_connection_success, message_setup_connection_error,
  message_channel_endpoint_changed, message_reconnect, message_open_standard_mining_channel,
  message_open_standard_mining_channel_success, message_open_extended_mining_channel,
  message_open_extended_mining_channel_success, message_open_mining_channel_error,
  message_update_channel, message_update_channel_error, message_close_channel,
  message_set_extranonce_prefix, message_submit_shares_standard, message_submit_shares_extended,
  message_submit_shares_success, message_submit_shares_error, message_new_mining_job,
  message_new_extended_mining_job, message_set_new_prev_hash, message_set_custom_mining_job_success,
  message_set_custom_mining_job_error, message_set_target, message_set_group_channel,
}
use stratumv.Core.SetupConnection
use stratumv.Core.SetupConnection.{SetupConnection}
use stratumv.Core.SetupConnectionSuccess
use stratumv.Core.SetupConnectionSuccess.{SetupConnectionSuccess}
use stratumv.Core.SetupConnectionError
use stratumv.Core.SetupConnectionError.{SetupConnectionError}
use stratumv.Core.ChannelEndpointChanged
use stratumv.Core.ChannelEndpointChanged.{ChannelEndpointChanged}
use stratumv.Core.Reconnect
use stratumv.Core.Reconnect.{Reconnect}
use stratumv.Mining.OpenStandardMiningChannel
use stratumv.Mining.OpenStandardMiningChannel.{OpenStandardMiningChannel}
use stratumv.Mining.OpenStandardMiningChannelSuccess
use stratumv.Mining.OpenStandardMiningChannelSuccess.{OpenStandardMiningChannelSuccess}
use stratumv.Mining.OpenExtendedMiningChannel
use stratumv.Mining.OpenExtendedMiningChannel.{OpenExtendedMiningChannel}
use stratumv.Mining.OpenExtendedMiningChannelSuccess
use stratumv.Mining.OpenExtendedMiningChannelSuccess.{OpenExtendedMiningChannelSuccess}
use stratumv.Mining.OpenMiningChannelError
use stratumv.Mining.OpenMiningChannelError.{OpenMiningChannelError}
use stratumv.Mining.UpdateChannel
use stratumv.Mining.UpdateChannel.{UpdateChannel}
use stratumv.Mining.UpdateChannelError
use stratumv.Mining.UpdateChannelError.{UpdateChannelError}
use stratumv.Mining.CloseChannel
use stratumv.Mining.CloseChannel.{CloseChannel}
use stratumv.Mining.SetExtranoncePrefix
use stratumv.Mining.SetExtranoncePrefix.{SetExtranoncePrefix}
use stratumv.Mining.SubmitSharesStandard
use stratumv.Mining.SubmitSharesStandard.{SubmitSharesStandard}
use stratumv.Mining.SubmitSharesExtended
use stratumv.Mining.SubmitSharesExtended.{SubmitSharesExtended}
use stratumv.Mining.SubmitSharesSuccess
use stratumv.Mining.SubmitSharesSuccess.{SubmitSharesSuccess}
use stratumv.Mining.SubmitSharesError
use stratumv.Mining.SubmitSharesError.{SubmitSharesError}
use stratumv.Mining.NewMiningJob
use stratumv.Mining.NewMiningJob.{NewMiningJob}
use stratumv.Mining.NewExtendedMiningJob
use stratumv.Mining.NewExtendedMiningJob.{NewExtendedMiningJob}
use stratumv.Mining.SetNewPrevHash
use stratumv.Mining.SetNewPrevHash.{SetNewPrevHash}
use stratumv.Mining.SetCustomMiningJobSuccess
use stratumv.Mining.SetCustomMiningJobSuccess.{SetCustomMiningJobSuccess}
use stratumv.Mining.SetCustomMiningJobError
use stratumv.Mining.SetCustomMiningJobError.{SetCustomMiningJobError}
use stratumv.Mining.SetTarget
use stratumv.Mining.SetTarget.{SetTarget}
use stratumv.Mining.SetGroupChannel
use stratumv.Mining.SetGroupChannel.{SetGroupChannel}

pub data Kind : Type 0 where
  setup_connection setup_connection_success setup_connection_error channel_endpoint_changed
        reconnect :
      Kind
  open_standard_mining_channel open_standard_mining_channel_success open_extended_mining_channel :
      Kind
  open_extended_mining_channel_success open_mining_channel_error update_channel : Kind
  update_channel_error close_channel set_extranonce_prefix : Kind
  submit_shares_standard submit_shares_extended submit_shares_success : Kind
  submit_shares_error new_mining_job new_extended_mining_job : Kind
  set_new_prev_hash set_custom_mining_job_success set_custom_mining_job_error : Kind
  set_target set_group_channel : Kind

abbrev pub Message : Kind → Type 0
Message setup_connection = SetupConnection
Message setup_connection_success = SetupConnectionSuccess
Message setup_connection_error = SetupConnectionError
Message channel_endpoint_changed = ChannelEndpointChanged
Message reconnect = Reconnect
Message open_standard_mining_channel = OpenStandardMiningChannel
Message open_standard_mining_channel_success = OpenStandardMiningChannelSuccess
Message open_extended_mining_channel = OpenExtendedMiningChannel
Message open_extended_mining_channel_success = OpenExtendedMiningChannelSuccess
Message open_mining_channel_error = OpenMiningChannelError
Message update_channel = UpdateChannel
Message update_channel_error = UpdateChannelError
Message close_channel = CloseChannel
Message set_extranonce_prefix = SetExtranoncePrefix
Message submit_shares_standard = SubmitSharesStandard
Message submit_shares_extended = SubmitSharesExtended
Message submit_shares_success = SubmitSharesSuccess
Message submit_shares_error = SubmitSharesError
Message new_mining_job = NewMiningJob
Message new_extended_mining_job = NewExtendedMiningJob
Message set_new_prev_hash = SetNewPrevHash
Message set_custom_mining_job_success = SetCustomMiningJobSuccess
Message set_custom_mining_job_error = SetCustomMiningJobError
Message set_target = SetTarget
Message set_group_channel = SetGroupChannel

-- The values fit their Go types, and the lists their length prefixes.
abbrev pub Fits : (k : Kind) → Message k → Type 0
Fits setup_connection m = SetupConnection.IsValid m
Fits setup_connection_success m = SetupConnectionSuccess.IsValid m
Fits setup_connection_error m = SetupConnectionError.IsValid m
Fits channel_endpoint_changed m = ChannelEndpointChanged.IsValid m
Fits reconnect m = Reconnect.IsValid m
Fits open_standard_mining_channel m = OpenStandardMiningChannel.IsValid m
Fits open_standard_mining_channel_success m = OpenStandardMiningChannelSuccess.IsValid m
Fits open_extended_mining_channel m = OpenExtendedMiningChannel.IsValid m
Fits open_extended_mining_channel_success m = OpenExtendedMiningChannelSuccess.IsValid m
Fits open_mining_channel_error m = OpenMiningChannelError.IsValid m
Fits update_channel m = UpdateChannel.IsValid m
Fits update_channel_error m = UpdateChannelError.IsValid m
Fits close_channel m = CloseChannel.IsValid m
Fits set_extranonce_prefix m = SetExtranoncePrefix.IsValid m
Fits submit_shares_standard m = SubmitSharesStandard.IsValid m
Fits submit_shares_extended m = SubmitSharesExtended.IsValid m
Fits submit_shares_success m = SubmitSharesSuccess.IsValid m
Fits submit_shares_error m = SubmitSharesError.IsValid m
Fits new_mining_job m = NewMiningJob.IsValid m
Fits new_extended_mining_job m = NewExtendedMiningJob.IsValid m
Fits set_new_prev_hash m = SetNewPrevHash.IsValid m
Fits set_custom_mining_job_success m = SetCustomMiningJobSuccess.IsValid m
Fits set_custom_mining_job_error m = SetCustomMiningJobError.IsValid m
Fits set_target m = SetTarget.IsValid m
Fits set_group_channel m = SetGroupChannel.IsValid m

unfoldable pub encode : (k : Kind) → Message k → List ℕ × Option Failure
encode setup_connection m = SetupConnection.encode m
encode setup_connection_success m = SetupConnectionSuccess.encode m
encode setup_connection_error m = SetupConnectionError.encode m
encode channel_endpoint_changed m = ChannelEndpointChanged.encode m
encode reconnect m = Reconnect.encode m
encode open_standard_mining_channel m = OpenStandardMiningChannel.encode m
encode open_standard_mining_channel_success m = OpenStandardMiningChannelSuccess.encode m
encode open_extended_mining_channel m = OpenExtendedMiningChannel.encode m
encode open_extended_mining_channel_success m = OpenExtendedMiningChannelSuccess.encode m
encode open_mining_channel_error m = OpenMiningChannelError.encode m
encode update_channel m = UpdateChannel.encode m
encode update_channel_error m = UpdateChannelError.encode m
encode close_channel m = CloseChannel.encode m
encode set_extranonce_prefix m = SetExtranoncePrefix.encode m
encode submit_shares_standard m = SubmitSharesStandard.encode m
encode submit_shares_extended m = SubmitSharesExtended.encode m
encode submit_shares_success m = SubmitSharesSuccess.encode m
encode submit_shares_error m = SubmitSharesError.encode m
encode new_mining_job m = NewMiningJob.encode m
encode new_extended_mining_job m = NewExtendedMiningJob.encode m
encode set_new_prev_hash m = SetNewPrevHash.encode m
encode set_custom_mining_job_success m = SetCustomMiningJobSuccess.encode m
encode set_custom_mining_job_error m = SetCustomMiningJobError.encode m
encode set_target m = SetTarget.encode m
encode set_group_channel m = SetGroupChannel.encode m

unfoldable pub decode : (k : Kind) → Slice → Outcome (Message k × Option Failure)
decode setup_connection b = SetupConnection.decode b
decode setup_connection_success b = SetupConnectionSuccess.decode b
decode setup_connection_error b = SetupConnectionError.decode b
decode channel_endpoint_changed b = ChannelEndpointChanged.decode b
decode reconnect b = Reconnect.decode b
decode open_standard_mining_channel b = OpenStandardMiningChannel.decode b
decode open_standard_mining_channel_success b = OpenStandardMiningChannelSuccess.decode b
decode open_extended_mining_channel b = OpenExtendedMiningChannel.decode b
decode open_extended_mining_channel_success b = OpenExtendedMiningChannelSuccess.decode b
decode open_mining_channel_error b = OpenMiningChannelError.decode b
decode update_channel b = UpdateChannel.decode b
decode update_channel_error b = UpdateChannelError.decode b
decode close_channel b = CloseChannel.decode b
decode set_extranonce_prefix b = SetExtranoncePrefix.decode b
decode submit_shares_standard b = SubmitSharesStandard.decode b
decode submit_shares_extended b = SubmitSharesExtended.decode b
decode submit_shares_success b = SubmitSharesSuccess.decode b
decode submit_shares_error b = SubmitSharesError.decode b
decode new_mining_job b = NewMiningJob.decode b
decode new_extended_mining_job b = NewExtendedMiningJob.decode b
decode set_new_prev_hash b = SetNewPrevHash.decode b
decode set_custom_mining_job_success b = SetCustomMiningJobSuccess.decode b
decode set_custom_mining_job_error b = SetCustomMiningJobError.decode b
decode set_target b = SetTarget.decode b
decode set_group_channel b = SetGroupChannel.decode b

abbrev pub number : Kind → ℕ
number setup_connection = message_setup_connection
number setup_connection_success = message_setup_connection_success
number setup_connection_error = message_setup_connection_error
number channel_endpoint_changed = message_channel_endpoint_changed
number reconnect = message_reconnect
number open_standard_mining_channel = message_open_standard_mining_channel
number open_standard_mining_channel_success = message_open_standard_mining_channel_success
number open_extended_mining_channel = message_open_extended_mining_channel
number open_extended_mining_channel_success = message_open_extended_mining_channel_success
number open_mining_channel_error = message_open_mining_channel_error
number update_channel = message_update_channel
number update_channel_error = message_update_channel_error
number close_channel = message_close_channel
number set_extranonce_prefix = message_set_extranonce_prefix
number submit_shares_standard = message_submit_shares_standard
number submit_shares_extended = message_submit_shares_extended
number submit_shares_success = message_submit_shares_success
number submit_shares_error = message_submit_shares_error
number new_mining_job = message_new_mining_job
number new_extended_mining_job = message_new_extended_mining_job
number set_new_prev_hash = message_set_new_prev_hash
number set_custom_mining_job_success = message_set_custom_mining_job_success
number set_custom_mining_job_error = message_set_custom_mining_job_error
number set_target = message_set_target
number set_group_channel = message_set_group_channel

-- The message's type in Go.
abbrev pub type_name : Kind → String
type_name setup_connection = "SetupConnection"
type_name setup_connection_success = "SetupConnectionSuccess"
type_name setup_connection_error = "SetupConnectionError"
type_name channel_endpoint_changed = "ChannelEndpointChanged"
type_name reconnect = "Reconnect"
type_name open_standard_mining_channel = "OpenStandardMiningChannel"
type_name open_standard_mining_channel_success = "OpenStandardMiningChannelSuccess"
type_name open_extended_mining_channel = "OpenExtendedMiningChannel"
type_name open_extended_mining_channel_success = "OpenExtendedMiningChannelSuccess"
type_name open_mining_channel_error = "OpenMiningChannelError"
type_name update_channel = "UpdateChannel"
type_name update_channel_error = "UpdateChannelError"
type_name close_channel = "CloseChannel"
type_name set_extranonce_prefix = "SetExtranoncePrefix"
type_name submit_shares_standard = "SubmitSharesStandard"
type_name submit_shares_extended = "SubmitSharesExtended"
type_name submit_shares_success = "SubmitSharesSuccess"
type_name submit_shares_error = "SubmitSharesError"
type_name new_mining_job = "NewMiningJob"
type_name new_extended_mining_job = "NewExtendedMiningJob"
type_name set_new_prev_hash = "SetNewPrevHash"
type_name set_custom_mining_job_success = "SetCustomMiningJobSuccess"
type_name set_custom_mining_job_error = "SetCustomMiningJobError"
type_name set_target = "SetTarget"
type_name set_group_channel = "SetGroupChannel"
