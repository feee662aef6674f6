-- ===== src/Frame/Tlv.antt =====
-- `TLV` of types.go.
use stratumv.Prelude.{ℕ, List, Option}
use stratumv.Binary.Failure.{Failure}
use stratumv.Binary.Outcome.{Outcome, Slice}
use stratumv.Binary.Builder
use stratumv.Binary.Builder.{◌▷◌, bytes, add_u8, add_u16, add_bin64k}
use stratumv.Binary.Reader.{◌>>=◌, pure, contents_of, read_u8, read_u16, read_bytes}
use stratumv.Binary.Codec.{run}

-- Go's field `Length` is `size`.
pub record Tlv : Type 0 where
  pub extension_type : ℕ
  pub field_type : ℕ
  pub size : ℕ
  pub value : List ℕ

-- The length is written twice: as a field, and again by `AddBin64K`.
unfoldable pub encode : Tlv → List ℕ × Option Failure
unfolding bytes
encode t = bytes (
    Builder.new
    ▷ add_u16 t.extension_type
    ▷ add_u8 t.field_type
    ▷ add_u16 t.size
    ▷ add_bin64k t.value)

unfoldable pub decode : Slice → Outcome (Tlv × Option Failure)
unfolding run
decode = run do
  extension_type ← read_u16
  field_type ← read_u8
  size ← read_u16
  value ← contents_of (read_bytes size)
  pure (record {
    extension_type = extension_type;
    field_type = field_type;
    size = size;
    value = value;
  })
