-- ===== src/Messages.antt =====
-- The messages of core.go and mining.go as values of `Codable`: each type with its `Encode` and
-- `Decode`, and the law that what is encoded is decoded.
use stratumv.Frame.{LawfulCodable}
use stratumv.Core.SetupConnection
use stratumv.Core.SetupConnection.{SetupConnection}
use stratumv.Core.SetupConnectionSuccess
use stratumv.Core.SetupConnectionSuccess.{SetupConnectionSuccess}
use stratumv.Core.SetupConnectionError
use stratumv.Core.SetupConnectionError.{SetupConnectionError}
use stratumv.Core.ChannelEndpointChanged
use stratumv.Core.ChannelEndpointChanged.{ChannelEndpointChanged}
use stratumv.Core.Reconnect
use stratumv.Core.Reconnect.{Reconnect}
use stratumv.Mining.OpenStandardMiningChannel
use stratumv.Mining.OpenStandardMiningChannel.{OpenStandardMiningChannel}
use stratumv.Mining.OpenStandardMiningChannelSuccess
use stratumv.Mining.OpenStandardMiningChannelSuccess.{OpenStandardMiningChannelSuccess}
use stratumv.Mining.OpenExtendedMiningChannel
use stratumv.Mining.OpenExtendedMiningChannel.{OpenExtendedMiningChannel}
use stratumv.Mining.OpenExtendedMiningChannelSuccess
use stratumv.Mining.OpenExtendedMiningChannelSuccess.{OpenExtendedMiningChannelSuccess}
use stratumv.Mining.OpenMiningChannelError
use stratumv.Mining.OpenMiningChannelError.{OpenMiningChannelError}
use stratumv.Mining.UpdateChannel
use stratumv.Mining.UpdateChannel.{UpdateChannel}
use stratumv.Mining.UpdateChannelError
use stratumv.Mining.UpdateChannelError.{UpdateChannelError}
use stratumv.Mining.CloseChannel
use stratumv.Mining.CloseChannel.{CloseChannel}
use stratumv.Mining.SetExtranoncePrefix
use stratumv.Mining.SetExtranoncePrefix.{SetExtranoncePrefix}
use stratumv.Mining.SubmitSharesStandard
use stratumv.Mining.SubmitSharesStandard.{SubmitSharesStandard}
use stratumv.Mining.SubmitSharesExtended
use stratumv.Mining.SubmitSharesExtended.{SubmitSharesExtended}
use stratumv.Mining.SubmitSharesSuccess
use stratumv.Mining.SubmitSharesSuccess.{SubmitSharesSuccess}
use stratumv.Mining.SubmitSharesError
use stratumv.Mining.SubmitSharesError.{SubmitSharesError}
use stratumv.Mining.NewMiningJob
use stratumv.Mining.NewMiningJob.{NewMiningJob}
use stratumv.Mining.NewExtendedMiningJob
use stratumv.Mining.NewExtendedMiningJob.{NewExtendedMiningJob}
use stratumv.Mining.SetNewPrevHash
use stratumv.Mining.SetNewPrevHash.{SetNewPrevHash}
use stratumv.Mining.SetCustomMiningJobSuccess
use stratumv.Mining.SetCustomMiningJobSuccess.{SetCustomMiningJobSuccess}
use stratumv.Mining.SetCustomMiningJobError
use stratumv.Mining.SetCustomMiningJobError.{SetCustomMiningJobError}
use stratumv.Mining.SetTarget
use stratumv.Mining.SetTarget.{SetTarget}
use stratumv.Mining.SetGroupChannel
use stratumv.Mining.SetGroupChannel.{SetGroupChannel}

abbrev pub setup_connection : LawfulCodable SetupConnection
setup_connection = record {
  codable = record { encode = SetupConnection.encode; decode = SetupConnection.decode };
  Fits = SetupConnection.IsValid;
  round_trips = SetupConnection.SetupConnection-RoundTrips;
}

abbrev pub setup_connection_success : LawfulCodable SetupConnectionSuccess
setup_connection_success = record {
  codable = record {
    encode = SetupConnectionSuccess.encode;
    decode = SetupConnectionSuccess.decode;
  };
  Fits = SetupConnectionSuccess.IsValid;
  round_trips = SetupConnectionSuccess.SetupConnectionSuccess-RoundTrips;
}

abbrev pub setup_connection_error : LawfulCodable SetupConnectionError
setup_connection_error = record {
  codable = record { encode = SetupConnectionError.encode; decode = SetupConnectionError.decode };
  Fits = SetupConnectionError.IsValid;
  round_trips = SetupConnectionError.SetupConnectionError-RoundTrips;
}

abbrev pub channel_endpoint_changed : LawfulCodable ChannelEndpointChanged
channel_endpoint_changed = record {
  codable = record {
    encode = ChannelEndpointChanged.encode;
    decode = ChannelEndpointChanged.decode;
  };
  Fits = ChannelEndpointChanged.IsValid;
  round_trips = ChannelEndpointChanged.ChannelEndpointChanged-RoundTrips;
}

abbrev pub reconnect : LawfulCodable Reconnect
reconnect = record {
  codable = record { encode = Reconnect.encode; decode = Reconnect.decode };
  Fits = Reconnect.IsValid;
  round_trips = Reconnect.Reconnect-RoundTrips;
}

abbrev pub open_standard_mining_channel : LawfulCodable OpenStandardMiningChannel
open_standard_mining_channel = record {
  codable = record {
    encode = OpenStandardMiningChannel.encode;
    decode = OpenStandardMiningChannel.decode;
  };
  Fits = OpenStandardMiningChannel.IsValid;
  round_trips = OpenStandardMiningChannel.OpenStandardMiningChannel-RoundTrips;
}

abbrev pub open_standard_mining_channel_success : LawfulCodable OpenStandardMiningChannelSuccess
open_standard_mining_channel_success = record {
  codable = record {
    encode = OpenStandardMiningChannelSuccess.encode;
    decode = OpenStandardMiningChannelSuccess.decode;
  };
  Fits = OpenStandardMiningChannelSuccess.IsValid;
  round_trips = OpenStandardMiningChannelSuccess.OpenStandardMiningChannelSuccess-RoundTrips;
}

abbrev pub open_extended_mining_channel : LawfulCodable OpenExtendedMiningChannel
open_extended_mining_channel = record {
  codable = record {
    encode = OpenExtendedMiningChannel.encode;
    decode = OpenExtendedMiningChannel.decode;
  };
  Fits = OpenExtendedMiningChannel.IsValid;
  round_trips = OpenExtendedMiningChannel.OpenExtendedMiningChannel-RoundTrips;
}

abbrev pub open_extended_mining_channel_success : LawfulCodable OpenExtendedMiningChannelSuccess
open_extended_mining_channel_success = record {
  codable = record {
    encode = OpenExtendedMiningChannelSuccess.encode;
    decode = OpenExtendedMiningChannelSuccess.decode;
  };
  Fits = OpenExtendedMiningChannelSuccess.IsValid;
  round_trips = OpenExtendedMiningChannelSuccess.OpenExtendedMiningChannelSuccess-RoundTrips;
}

abbrev pub open_mining_channel_error : LawfulCodable OpenMiningChannelError
open_mining_channel_error = record {
  codable = record {
    encode = OpenMiningChannelError.encode;
    decode = OpenMiningChannelError.decode;
  };
  Fits = OpenMiningChannelError.IsValid;
  round_trips = OpenMiningChannelError.OpenMiningChannelError-RoundTrips;
}

abbrev pub update_channel : LawfulCodable UpdateChannel
update_channel = record {
  codable = record { encode = UpdateChannel.encode; decode = UpdateChannel.decode };
  Fits = UpdateChannel.IsValid;
  round_trips = UpdateChannel.UpdateChannel-RoundTrips;
}

abbrev pub update_channel_error : LawfulCodable UpdateChannelError
update_channel_error = record {
  codable = record { encode = UpdateChannelError.encode; decode = UpdateChannelError.decode };
  Fits = UpdateChannelError.IsValid;
  round_trips = UpdateChannelError.UpdateChannelError-RoundTrips;
}

abbrev pub close_channel : LawfulCodable CloseChannel
close_channel = record {
  codable = record { encode = CloseChannel.encode; decode = CloseChannel.decode };
  Fits = CloseChannel.IsValid;
  round_trips = CloseChannel.CloseChannel-RoundTrips;
}

abbrev pub set_extranonce_prefix : LawfulCodable SetExtranoncePrefix
set_extranonce_prefix = record {
  codable = record { encode = SetExtranoncePrefix.encode; decode = SetExtranoncePrefix.decode };
  Fits = SetExtranoncePrefix.IsValid;
  round_trips = SetExtranoncePrefix.SetExtranoncePrefix-RoundTrips;
}

abbrev pub submit_shares_standard : LawfulCodable SubmitSharesStandard
submit_shares_standard = record {
  codable = record { encode = SubmitSharesStandard.encode; decode = SubmitSharesStandard.decode };
  Fits = SubmitSharesStandard.IsValid;
  round_trips = SubmitSharesStandard.SubmitSharesStandard-RoundTrips;
}

abbrev pub submit_shares_extended : LawfulCodable SubmitSharesExtended
submit_shares_extended = record {
  codable = record { encode = SubmitSharesExtended.encode; decode = SubmitSharesExtended.decode };
  Fits = SubmitSharesExtended.IsValid;
  round_trips = SubmitSharesExtended.SubmitSharesExtended-RoundTrips;
}

abbrev pub submit_shares_success : LawfulCodable SubmitSharesSuccess
submit_shares_success = record {
  codable = record { encode = SubmitSharesSuccess.encode; decode = SubmitSharesSuccess.decode };
  Fits = SubmitSharesSuccess.IsValid;
  round_trips = SubmitSharesSuccess.SubmitSharesSuccess-RoundTrips;
}

abbrev pub submit_shares_error : LawfulCodable SubmitSharesError
submit_shares_error = record {
  codable = record { encode = SubmitSharesError.encode; decode = SubmitSharesError.decode };
  Fits = SubmitSharesError.IsValid;
  round_trips = SubmitSharesError.SubmitSharesError-RoundTrips;
}

abbrev pub new_mining_job : LawfulCodable NewMiningJob
new_mining_job = record {
  codable = record { encode = NewMiningJob.encode; decode = NewMiningJob.decode };
  Fits = NewMiningJob.IsValid;
  round_trips = NewMiningJob.NewMiningJob-RoundTrips;
}

abbrev pub new_extended_mining_job : LawfulCodable NewExtendedMiningJob
new_extended_mining_job = record {
  codable = record { encode = NewExtendedMiningJob.encode; decode = NewExtendedMiningJob.decode };
  Fits = NewExtendedMiningJob.IsValid;
  round_trips = NewExtendedMiningJob.NewExtendedMiningJob-RoundTrips;
}

abbrev pub set_new_prev_hash : LawfulCodable SetNewPrevHash
set_new_prev_hash = record {
  codable = record { encode = SetNewPrevHash.encode; decode = SetNewPrevHash.decode };
  Fits = SetNewPrevHash.IsValid;
  round_trips = SetNewPrevHash.SetNewPrevHash-RoundTrips;
}

abbrev pub set_custom_mining_job_success : LawfulCodable SetCustomMiningJobSuccess
set_custom_mining_job_success = record {
  codable = record {
    encode = SetCustomMiningJobSuccess.encode;
    decode = SetCustomMiningJobSuccess.decode;
  };
  Fits = SetCustomMiningJobSuccess.IsValid;
  round_trips = SetCustomMiningJobSuccess.SetCustomMiningJobSuccess-RoundTrips;
}

abbrev pub set_custom_mining_job_error : LawfulCodable SetCustomMiningJobError
set_custom_mining_job_error = record {
  codable = record {
    encode = SetCustomMiningJobError.encode;
    decode = SetCustomMiningJobError.decode;
  };
  Fits = SetCustomMiningJobError.IsValid;
  round_trips = SetCustomMiningJobError.SetCustomMiningJobError-RoundTrips;
}

abbrev pub set_target : LawfulCodable SetTarget
set_target = record {
  codable = record { encode = SetTarget.encode; decode = SetTarget.decode };
  Fits = SetTarget.IsValid;
  round_trips = SetTarget.SetTarget-RoundTrips;
}

abbrev pub set_group_channel : LawfulCodable SetGroupChannel
set_group_channel = record {
  codable = record { encode = SetGroupChannel.encode; decode = SetGroupChannel.decode };
  Fits = SetGroupChannel.IsValid;
  round_trips = SetGroupChannel.SetGroupChannel-RoundTrips;
}
