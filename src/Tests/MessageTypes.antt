-- ===== src/Tests/MessageTypes.antt =====
-- `MessageTypeToString` at two types.
use stratumv.Prelude.{◌≡◌, refl}
use stratumv.Binary.Failure.{ok, err, unknown_message_type}
use stratumv.MessageTypes.{message_set_target, message_type_to_string, string}

target_name : message_type_to_string message_set_target ≡ ok "SetTarget"
unfolding message_type_to_string
target_name = refl

job_error_name : message_type_to_string 0x59 ≡ ok "DeclareMiningJobError"
unfolding message_type_to_string
job_error_name = refl

no_name : message_type_to_string 0x26 ≡ err unknown_message_type
unfolding message_type_to_string
no_name = refl

no_string : string 0x26 ≡ ""
unfolding string
no_string = refl
