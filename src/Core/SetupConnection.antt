-- ===== src/Core/SetupConnection.antt =====
-- `SetupConnection` of core.go.
use stratumv.Prelude.{ℕ, ◌^◌, ◌<◌, Option, List, length}
use stratumv.Binary.Failure.{Failure}
use stratumv.Binary.Outcome.{Outcome, Slice}
use stratumv.Binary.Builder
use stratumv.Binary.Builder.{◌▷◌, bytes, add_str255, add_u16, add_u32, add_u8}
use stratumv.Binary.Reader.{◌>>=◌, pure, read_str255, read_u16, read_u32, read_u8}
use stratumv.Binary.Codec.{run, RoundTrips, round_trip, Carries-then, Carries-end}
use stratumv.Binary.Codec.Fields.{str255-Carries, u16-Carries, u32-Carries, u8-Carries}

pub record SetupConnection : Type 0 where
  pub protocol : ℕ
  pub min_version : ℕ
  pub max_version : ℕ
  pub flags : ℕ
  pub endpoint_port : ℕ
  pub endpoint_host : List ℕ
  pub device_vendor : List ℕ
  pub device_hardware_version : List ℕ
  pub device_firmware : List ℕ
  pub device_id : List ℕ

-- The values fit their Go types, and the lists their length prefixes.
pub record IsValid (m : SetupConnection) : Type 0 where
  pub protocol_fits : m.protocol < 2 ^ 8
  pub min_version_fits : m.min_version < 2 ^ 16
  pub max_version_fits : m.max_version < 2 ^ 16
  pub flags_fits : m.flags < 2 ^ 32
  pub endpoint_port_fits : m.endpoint_port < 2 ^ 16
  pub endpoint_host_fits : length m.endpoint_host < 2 ^ 8
  pub device_vendor_fits : length m.device_vendor < 2 ^ 8
  pub device_hardware_version_fits : length m.device_hardware_version < 2 ^ 8
  pub device_firmware_fits : length m.device_firmware < 2 ^ 8
  pub device_id_fits : length m.device_id < 2 ^ 8

unfoldable pub encode : SetupConnection → List ℕ × Option Failure
unfolding bytes
encode m = bytes (
    Builder.new
    ▷ add_u8 m.protocol
    ▷ add_u16 m.min_version
    ▷ add_u16 m.max_version
    ▷ add_u32 m.flags
    ▷ add_str255 m.endpoint_host
    ▷ add_u16 m.endpoint_port
    ▷ add_str255 m.device_vendor
    ▷ add_str255 m.device_hardware_version
    ▷ add_str255 m.device_firmware
    ▷ add_str255 m.device_id)

unfoldable pub decode : Slice → Outcome (SetupConnection × Option Failure)
unfolding run
decode = run do
  protocol ← read_u8
  min_version ← read_u16
  max_version ← read_u16
  flags ← read_u32
  endpoint_host ← read_str255
  endpoint_port ← read_u16
  device_vendor ← read_str255
  device_hardware_version ← read_str255
  device_firmware ← read_str255
  device_id ← read_str255
  pure (record {
    protocol = protocol;
    min_version = min_version;
    max_version = max_version;
    flags = flags;
    endpoint_port = endpoint_port;
    endpoint_host = endpoint_host;
    device_vendor = device_vendor;
    device_hardware_version = device_hardware_version;
    device_firmware = device_firmware;
    device_id = device_id;
  })

-- A message that fits (`IsValid`) is encoded with no error, and `decode` reads it back with no
-- error, whatever bytes follow the encoded ones.
pub SetupConnection-RoundTrips : (m : SetupConnection) → IsValid m → RoundTrips (encode m) decode m
unfolding encode decode
SetupConnection-RoundTrips m v = round_trip (
    Carries-then _ (u8-Carries m.protocol v.protocol_fits) (
      Carries-then _ (u16-Carries m.min_version v.min_version_fits) (
        Carries-then _ (u16-Carries m.max_version v.max_version_fits) (
          Carries-then _ (u32-Carries m.flags v.flags_fits) (
            Carries-then _ (str255-Carries m.endpoint_host v.endpoint_host_fits) (
              Carries-then _ (u16-Carries m.endpoint_port v.endpoint_port_fits) (
                Carries-then _ (str255-Carries m.device_vendor v.device_vendor_fits) (
                  Carries-then _
                    (str255-Carries m.device_hardware_version v.device_hardware_version_fits)
                    (Carries-then _ (str255-Carries m.device_firmware v.device_firmware_fits) (
                      Carries-then _ (str255-Carries m.device_id v.device_id_fits)
                        (Carries-end m)))))))))))
