-- ===== src/Tests/Wire.antt =====
-- binary.go at concrete inputs.
use stratumv.Prelude.{ℕ, ◌≡◌, refl, arith, some, List, [], ◌∷◌, replicate}
use stratumv.Prelude.Int.{pos}
use stratumv.Binary.Failure.{add_bin32_len, past_end}
use stratumv.Binary.Outcome.{returns, panics, view}
use stratumv.Binary.Builder
use stratumv.Binary.Builder.{bytes}
use stratumv.Binary.Sequence.{u16s, len}
use stratumv.Binary.Sequence.RoundTrip.{wires}
use stratumv.Binary.Contract
use stratumv.Binary.Contract.{bytes-perform_all, up_to_first_error}
use stratumv.Binary.Reader.{Reader, start, read_u8, seek, read_bytes}
use stratumv.Binary.Reader.Laws.{IsValid}
use stratumv.Binary.ReaderContract
use stratumv.Binary.ReaderContract.{
  reading, MovesTo, perform_all-IsValid, perform-sticky, perform_truncated, perform_whole,
}

abbrev calls : List Contract.Call
calls =
    Contract.u16 0x1234
    ∷ Contract.seq255 (u16s (1 ∷ 2 ∷ []))
    ∷ Contract.bin32 (replicate 33 7)
    ∷ Contract.u8 9
    ∷ []

-- The third call fails, and the fourth writes nothing.
calls_output : up_to_first_error calls ≡ (0x34 ∷ 0x12 ∷ 2 ∷ 1 ∷ 0 ∷ 2 ∷ 0 ∷ [], some add_bin32_len)
unfolding len wires
calls_output = refl

bytes-perform_all_example : bytes (Contract.perform_all calls Builder.new) ≡ up_to_first_error calls
bytes-perform_all_example = bytes-perform_all calls

abbrev reads : List ReaderContract.Call
reads = ReaderContract.u8 ∷ ReaderContract.to (pos 4) start ∷ ReaderContract.plain 9 ∷ []

abbrev five : List ℕ
five = 1 ∷ 2 ∷ 3 ∷ 4 ∷ 5 ∷ []

abbrev at_end : Reader
at_end = record { input = view five; pos = 5; err = some past_end }

reads_run : ReaderContract.perform_all reads (reading five 0) ≡ returns at_end
unfolding ReaderContract.perform_all read_u8 seek read_bytes
reads_run = refl

perform_all-IsValid_example : IsValid at_end × (at_end.input ≡ view five)
perform_all-IsValid_example =
    perform_all-IsValid reads (reading five 0) at_end (omega arith) reads_run

perform_truncated_example : ReaderContract.perform ReaderContract.u32 (reading five 2) ≡ panics
perform_truncated_example = perform_truncated five 2 ReaderContract.u32 4 refl (omega arith)

perform_whole_example : MovesTo 5 (ReaderContract.perform ReaderContract.u32 (reading five 1))
perform_whole_example = perform_whole five 1 ReaderContract.u32 4 refl (omega arith)
