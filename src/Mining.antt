-- ===== src/Mining.antt =====
-- mining.go: the messages of the mining protocol.
pub mod OpenStandardMiningChannel
pub mod OpenStandardMiningChannelSuccess
pub mod OpenExtendedMiningChannel
pub mod OpenExtendedMiningChannelSuccess
pub mod OpenMiningChannelError
pub mod UpdateChannel
pub mod UpdateChannelError
pub mod CloseChannel
pub mod SetExtranoncePrefix
pub mod SubmitSharesStandard
pub mod SubmitSharesExtended
pub mod SubmitSharesSuccess
pub mod SubmitSharesError
pub mod NewMiningJob
pub mod NewExtendedMiningJob
pub mod SetNewPrevHash
pub mod SetCustomMiningJobSuccess
pub mod SetCustomMiningJob
pub mod SetCustomMiningJobError
pub mod SetTarget
pub mod SetGroupChannel
