-- ===== src/MessageTypes.antt =====
-- The message types of constants.go, and `MessageTypeToString` of types.go.
pub mod Names
use Prim.Native.String.{String}
use stratumv.Prelude.{ℕ, List, [], ◌∷◌, ◌==◌, if◌then◌else◌}
use stratumv.Binary.Failure.{Result, ok, err, unknown_message_type}

abbrev pub message_setup_connection : ℕ
message_setup_connection = 0

abbrev pub message_setup_connection_success : ℕ
message_setup_connection_success = 1

abbrev pub message_setup_connection_error : ℕ
message_setup_connection_error = 2

abbrev pub message_channel_endpoint_changed : ℕ
message_channel_endpoint_changed = 3

abbrev pub message_reconnect : ℕ
message_reconnect = 4

abbrev pub message_open_standard_mining_channel : ℕ
message_open_standard_mining_channel = 0x10

abbrev pub message_open_standard_mining_channel_success : ℕ
message_open_standard_mining_channel_success = 0x11

abbrev pub message_open_mining_channel_error : ℕ
message_open_mining_channel_error = 0x12

abbrev pub message_open_extended_mining_channel : ℕ
message_open_extended_mining_channel = 0x13

abbrev pub message_open_extended_mining_channel_success : ℕ
message_open_extended_mining_channel_success = 0x14

abbrev pub message_new_mining_job : ℕ
message_new_mining_job = 0x15

abbrev pub message_update_channel : ℕ
message_update_channel = 0x16

abbrev pub message_update_channel_error : ℕ
message_update_channel_error = 0x17

abbrev pub message_close_channel : ℕ
message_close_channel = 0x18

abbrev pub message_set_extranonce_prefix : ℕ
message_set_extranonce_prefix = 0x19

abbrev pub message_submit_shares_standard : ℕ
message_submit_shares_standard = 0x1a

abbrev pub message_submit_shares_extended : ℕ
message_submit_shares_extended = 0x1b

abbrev pub message_submit_shares_success : ℕ
message_submit_shares_success = 0x1c

abbrev pub message_submit_shares_error : ℕ
message_submit_shares_error = 0x1d

abbrev pub message_reserved : ℕ
message_reserved = 0x1e

abbrev pub message_new_extended_mining_job : ℕ
message_new_extended_mining_job = 0x1f

abbrev pub message_set_new_prev_hash : ℕ
message_set_new_prev_hash = 0x20

abbrev pub message_set_target : ℕ
message_set_target = 0x21

abbrev pub message_set_custom_mining_job : ℕ
message_set_custom_mining_job = 0x22

abbrev pub message_set_custom_mining_job_success : ℕ
message_set_custom_mining_job_success = 0x23

abbrev pub message_set_custom_mining_job_error : ℕ
message_set_custom_mining_job_error = 0x24

abbrev pub message_set_group_channel : ℕ
message_set_group_channel = 0x25

abbrev pub message_allocate_mining_job_token : ℕ
message_allocate_mining_job_token = 0x50

abbrev pub message_allocate_mining_job_token_success : ℕ
message_allocate_mining_job_token_success = 0x51

abbrev pub message_provide_missing_transactions : ℕ
message_provide_missing_transactions = 0x55

abbrev pub message_provide_missing_transactions_success : ℕ
message_provide_missing_transactions_success = 0x56

abbrev pub message_declare_mining_job : ℕ
message_declare_mining_job = 0x57

abbrev pub message_declare_mining_job_success : ℕ
message_declare_mining_job_success = 0x58

abbrev pub message_declare_mining_job_error : ℕ
message_declare_mining_job_error = 0x59

abbrev pub message_push_solution : ℕ
message_push_solution = 0x60

-- The cases of `MessageTypeToString`, in their order.
abbrev pub cases : List (ℕ × String)
cases =
    (message_allocate_mining_job_token, "AllocateMiningJobToken")
    ∷ (message_allocate_mining_job_token_success, "AllocateMiningJobTokenSuccess")
    ∷ (message_channel_endpoint_changed, "ChannelEndpointChanged")
    ∷ (message_close_channel, "CloseChannel")
    ∷ (message_declare_mining_job, "DeclareMiningJob")
    ∷ (message_declare_mining_job_error, "DeclareMiningJobError")
    ∷ (message_declare_mining_job_success, "DeclareMiningJobSuccess")
    ∷ (message_new_extended_mining_job, "NewExtendedMiningJob")
    ∷ (message_new_mining_job, "NewMiningJob")
    ∷ (message_open_extended_mining_channel, "OpenExtendedMiningChannel")
    ∷ (message_open_extended_mining_channel_success, "OpenExtendedMiningChannelSuccess")
    ∷ (message_open_mining_channel_error, "OpenMiningChannelError")
    ∷ (message_open_standard_mining_channel, "OpenStandardMiningChannel")
    ∷ (message_open_standard_mining_channel_success, "OpenStandardMiningChannelSuccess")
    ∷ (message_provide_missing_transactions, "ProvideMissingTransactions")
    ∷ (message_provide_missing_transactions_success, "ProvideMissingTransactionsSuccess")
    ∷ (message_push_solution, "PushSolution")
    ∷ (message_reconnect, "Reconnect")
    ∷ (message_reserved, "Reserved")
    ∷ (message_set_custom_mining_job, "SetCustomMiningJob")
    ∷ (message_set_custom_mining_job_error, "SetCustomMiningJobError")
    ∷ (message_set_custom_mining_job_success, "SetCustomMiningJobSuccess")
    ∷ (message_set_extranonce_prefix, "SetExtranoncePrefix")
    ∷ (message_set_group_channel, "SetGroupChannel")
    ∷ (message_set_new_prev_hash, "SetNewPrevHash")
    ∷ (message_set_target, "SetTarget")
    ∷ (message_setup_connection, "SetupConnection")
    ∷ (message_setup_connection_error, "SetupConnectionError")
    ∷ (message_setup_connection_success, "SetupConnectionSuccess")
    ∷ (message_submit_shares_error, "SubmitSharesError")
    ∷ (message_submit_shares_extended, "SubmitSharesExtended")
    ∷ (message_submit_shares_standard, "SubmitSharesStandard")
    ∷ (message_submit_shares_success, "SubmitSharesSuccess")
    ∷ (message_update_channel, "UpdateChannel")
    ∷ (message_update_channel_error, "UpdateChannelError")
    ∷ []

abbrev pub or_case : ℕ → ℕ × String → Result String → Result String
or_case t (u, name) others = if t == u then ok name else others

-- The first case that fits, and the error of the end of the function.
abbrev pub switch : ℕ → List (ℕ × String) → Result String
switch t [] = err unknown_message_type
switch t (c ∷ cs) = or_case t c (switch t cs)

unfoldable pub message_type_to_string : ℕ → Result String
message_type_to_string t = switch t cases

-- `MessageType.String` leaves the error out; the string is empty then.
abbrev pub name_or_empty : Result String → String
name_or_empty (ok name) = name
name_or_empty (err e) = ""

unfoldable pub string : ℕ → String
unfolding message_type_to_string
string t = name_or_empty (message_type_to_string t)
