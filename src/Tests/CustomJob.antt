-- ===== src/Tests/CustomJob.antt =====
-- `SetCustomMiningJob` of mining.go on a job with one output.
use stratumv.Prelude.{
  ℕ, ◌+◌, ◌*◌, ◌^◌, ◌≡◌, refl, arith, none, List, [], ◌∷◌, ◌++◌, length, take, replicate,
}
use stratumv.Binary.LittleEndian.{le_bytes, le_value}
use stratumv.Binary.Outcome.{returns, view}
use stratumv.Mining.SetCustomMiningJob.{
  Wire, SetCustomMiningJob, IsValid, encode, decode, serialized, outputs, behind_sequence,
  decode-encode_custom_job,
}

-- A value and a script shorter than 253 bytes.
abbrev outputs_wire : Wire
outputs_wire = record {
  TxOut = ℕ × List ℕ;
  write_tx_out = λ version txout. le_bytes 8 txout.0 ++ length txout.1 ∷ txout.1;
}

abbrev job : SetCustomMiningJob outputs_wire
job = record {
  channel_id = 7;
  request_id = 1;
  mining_job_token = 1 ∷ 2 ∷ [];
  version = 0x20000000;
  prev_hash = replicate 32 3;
  min_time = 1700000000;
  bits = 0x1d00ffff;
  coinbase_version = 2;
  coinbase_prefix = 8 ∷ [];
  coinbase_sequence = 0xffffffff;
  coinbase_outputs = (5000, 0x51 ∷ []) ∷ [];
  coinbase_locktime = 0;
  merkle_path = replicate 32 4 ∷ [];
}

abbrev blank : SetCustomMiningJob outputs_wire
blank = record {
  channel_id = 0;
  request_id = 0;
  mining_job_token = [];
  version = 0;
  prev_hash = replicate 32 0;
  min_time = 0;
  bits = 0;
  coinbase_version = 0;
  coinbase_prefix = [];
  coinbase_sequence = 0;
  coinbase_outputs = [];
  coinbase_locktime = 0;
  merkle_path = [];
}

abbrev job_valid : IsValid outputs_wire job
unfolding serialized
job_valid = omega arith

-- Two bytes of the outputs' length, 10, and two of the first output's value.
misread_locktime :
    le_value (take 4 (behind_sequence outputs_wire job job_valid)) ≡ 10 + 5000 * 2 ^ 16
unfolding behind_sequence outputs serialized
misread_locktime = refl

decode-encode_custom_job_example :
    ((encode outputs_wire job).1 ≡ none)
    × (decode outputs_wire (view (encode outputs_wire job).0) blank
        ≡ returns (
          record job {
            coinbase_outputs = [];
            coinbase_locktime = le_value (take 4 (behind_sequence outputs_wire job job_valid));
            merkle_path = [];
          },
          none,
        ))
decode-encode_custom_job_example = decode-encode_custom_job outputs_wire job job_valid blank
