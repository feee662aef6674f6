-- ===== src/Mining/NewExtendedMiningJob.antt =====
-- `NewExtendedMiningJob` of mining.go.
use stratumv.Prelude.{ℕ, ◌^◌, ◌<◌, ◌≤◌, ◌≡◌, Bool, Option, List, [], length, All}
use stratumv.Binary.Failure.{Failure}
use stratumv.Binary.Outcome.{Outcome, Slice}
use stratumv.Binary.Builder
use stratumv.Binary.Builder.{◌▷◌, bytes, add_bin64k, add_bool, add_u32}
use stratumv.Binary.Reader.{◌>>=◌, pure, contents_of, read_bool, read_bin64k, read_u32}
use stratumv.Binary.Sequence.{
  u32s, u256s, add_option_t, add_seq255, read_option_t, read_seq255, assert_u32s, assert_u256s,
}
use stratumv.Binary.Codec.{run, RoundTrips, round_trip, Carries-then, Carries-end}
use stratumv.Binary.Codec.Fields.{
  bin64k-Carries, bool-Carries, hashes-Carries, option_u32-Carries, u32-Carries,
}

pub record NewExtendedMiningJob : Type 0 where
  pub channel_id : ℕ
  pub job_id : ℕ
  pub min_time : List ℕ
  pub version : ℕ
  pub merkle_path : List (List ℕ)
  pub version_rolling_allowed : Bool
  pub coinbase_prefix : List ℕ
  pub coinbase_suffix : List ℕ

-- The values fit their Go types, and the lists their length prefixes.
pub record IsValid (m : NewExtendedMiningJob) : Type 0 where
  pub channel_id_fits : m.channel_id < 2 ^ 32
  pub job_id_fits : m.job_id < 2 ^ 32
  pub min_time_elements : All (λ v. v < 2 ^ 32) m.min_time
  pub min_time_fits : length m.min_time ≤ 1
  pub version_fits : m.version < 2 ^ 32
  pub merkle_path_elements : All (λ v. length v ≡ 32) m.merkle_path
  pub merkle_path_fits : length m.merkle_path ≤ 255
  pub coinbase_prefix_fits : length m.coinbase_prefix < 2 ^ 16
  pub coinbase_suffix_fits : length m.coinbase_suffix < 2 ^ 16

unfoldable pub encode : NewExtendedMiningJob → List ℕ × Option Failure
unfolding bytes
encode m = bytes (
    Builder.new
    ▷ add_u32 m.channel_id
    ▷ add_u32 m.job_id
    ▷ add_option_t (u32s m.min_time)
    ▷ add_u32 m.version
    ▷ add_bool m.version_rolling_allowed
    ▷ add_seq255 (u256s m.merkle_path)
    ▷ add_bin64k m.coinbase_prefix
    ▷ add_bin64k m.coinbase_suffix)

unfoldable pub decode : Slice → Outcome (NewExtendedMiningJob × Option Failure)
unfolding run
decode = run do
  channel_id ← read_u32
  job_id ← read_u32
  min_time ← (do x ← read_option_t (u32s []); assert_u32s x)
  version ← read_u32
  version_rolling_allowed ← read_bool
  merkle_path ← (do x ← read_seq255 (u256s []); assert_u256s x)
  coinbase_prefix ← contents_of read_bin64k
  coinbase_suffix ← contents_of read_bin64k
  pure (record {
    channel_id = channel_id;
    job_id = job_id;
    min_time = min_time;
    version = version;
    merkle_path = merkle_path;
    version_rolling_allowed = version_rolling_allowed;
    coinbase_prefix = coinbase_prefix;
    coinbase_suffix = coinbase_suffix;
  })

-- A message that fits (`IsValid`) is encoded with no error, and `decode` reads it back with no
-- error, whatever bytes follow the encoded ones.
pub NewExtendedMiningJob-RoundTrips :
    (m : NewExtendedMiningJob) → IsValid m → RoundTrips (encode m) decode m
unfolding encode decode
NewExtendedMiningJob-RoundTrips m v = round_trip (
    Carries-then _ (u32-Carries m.channel_id v.channel_id_fits) (
      Carries-then _ (u32-Carries m.job_id v.job_id_fits) (
        Carries-then _ (option_u32-Carries m.min_time v.min_time_elements v.min_time_fits) (
          Carries-then _ (u32-Carries m.version v.version_fits) (
            Carries-then _ (bool-Carries m.version_rolling_allowed) (
              Carries-then _
                (hashes-Carries m.merkle_path v.merkle_path_elements v.merkle_path_fits)
                (Carries-then _ (bin64k-Carries m.coinbase_prefix v.coinbase_prefix_fits) (
                  Carries-then _ (bin64k-Carries m.coinbase_suffix v.coinbase_suffix_fits)
                    (Carries-end m)))))))))
