-- ===== src/Mining/SetCustomMiningJob.antt =====
-- `SetCustomMiningJob` of mining.go.
use stratumv.Prelude.{
  ℕ, ◌^◌, ◌<◌, ◌≤◌, ◌≡◌, sym, ap, ◌∙◌, arith, Option, none, List, [], ◌∷◌, ◌++◌, append-nil,
  append_assoc, length, length-append, length-take, take, drop, take-drop, take_all, All, ltb,
  false, ◌-◌, if◌then◌else◌,
}
use stratumv.Prelude.Int.{ℤ, pos, negsuc}
use stratumv.Binary.Failure.{Failure}
use stratumv.Binary.Outcome.{Outcome, returns, Slice, view}
use stratumv.Binary.LittleEndian.{le_bytes, le_value}
use stratumv.Binary.Builder
use stratumv.Binary.Builder.{◌▷◌, bytes, add_u32, add_u256, add_bin255, add_bin64k}
use stratumv.Binary.Builder.Laws.{Writes, Writes-then, add_bin64k-Writes, add_u32-Writes, holding}
use stratumv.Binary.Reader.{
  ◌>>=◌, pure, contents_of, read_u32, read_u256, read_bin255, unless_nil, uint,
}
use stratumv.Binary.Reader.ReadsBack.{
  Reads, Reads-bind, Reads-map, Reads-last, Reads-unless_failed, read_exact-Reads,
}
use stratumv.Binary.Sequence.{u256s, add_seq255, read_seq255, assert_u256s}
use stratumv.Binary.Codec.{run, Carries}
use stratumv.Binary.Codec.Leaving.{Leaves, Leaves-then, run-Leaves}
use stratumv.Binary.Codec.Fields.{u32-Carries, u256-Carries, bin255-Carries, hashes-Carries}

-- github.com/btcsuite/btcd/wire: the outputs of a transaction, and the bytes that `WriteTxOut`
-- writes for one, given the transaction's version.
pub record Wire : Type 1 where
  pub TxOut : Type 0
  pub write_tx_out : ℤ → TxOut → List ℕ

-- The conversion of a uint32 to an int32.
abbrev pub int32 : ℕ → ℤ
int32 v = if ltb v (2 ^ 31) then pos v else negsuc (2 ^ 32 - 1 - v)

module _ (wire : Wire) where
  pub record SetCustomMiningJob : Type 0 where
    pub channel_id : ℕ
    pub request_id : ℕ
    pub mining_job_token : List ℕ
    pub version : ℕ
    pub prev_hash : List ℕ
    pub min_time : ℕ
    pub bits : ℕ
    pub coinbase_version : ℕ
    pub coinbase_prefix : List ℕ
    pub coinbase_sequence : ℕ
    pub coinbase_outputs : List wire.TxOut
    pub coinbase_locktime : ℕ
    pub merkle_path : List (List ℕ)

  unfoldable pub serialized : ℤ → List wire.TxOut → List ℕ
  serialized version [] = []
  serialized version (txout ∷ txouts) = wire.write_tx_out version txout ++ serialized version txouts

  unfoldable pub encode : SetCustomMiningJob → List ℕ × Option Failure
  unfolding bytes serialized
  encode m = bytes (
      Builder.new
      ▷ add_u32 m.channel_id
      ▷ add_u32 m.request_id
      ▷ add_bin255 m.mining_job_token
      ▷ add_u32 m.version
      ▷ add_u256 m.prev_hash
      ▷ add_u32 m.min_time
      ▷ add_u32 m.bits
      ▷ add_u32 m.coinbase_version
      ▷ add_bin255 m.coinbase_prefix
      ▷ add_u32 m.coinbase_sequence
      ▷ add_bin64k (serialized (int32 m.coinbase_version) m.coinbase_outputs)
      ▷ add_u32 m.coinbase_locktime
      ▷ add_seq255 (u256s m.merkle_path))

  -- The receiver keeps its outputs and its Merkle path.
  unfoldable pub decode : Slice → SetCustomMiningJob → Outcome (SetCustomMiningJob × Option Failure)
  unfolding run
  decode b g =
      run
        (do
          channel_id ← read_u32
          request_id ← read_u32
          mining_job_token ← contents_of read_bin255
          version ← read_u32
          prev_hash ← read_u256
          min_time ← read_u32
          bits ← read_u32
          coinbase_version ← read_u32
          coinbase_prefix ← contents_of read_bin255
          coinbase_sequence ← read_u32
          coinbase_locktime ← read_u32
          pure (record g {
            channel_id = channel_id;
            request_id = request_id;
            mining_job_token = mining_job_token;
            version = version;
            prev_hash = prev_hash;
            min_time = min_time;
            bits = bits;
            coinbase_version = coinbase_version;
            coinbase_prefix = coinbase_prefix;
            coinbase_sequence = coinbase_sequence;
            coinbase_locktime = coinbase_locktime;
          }))
        b

  -- The values fit their Go types, and the lists their length prefixes.
  pub record IsValid (m : SetCustomMiningJob) : Type 0 where
    pub channel_id_fits : m.channel_id < 2 ^ 32
    pub request_id_fits : m.request_id < 2 ^ 32
    pub mining_job_token_fits : length m.mining_job_token < 2 ^ 8
    pub version_fits : m.version < 2 ^ 32
    pub prev_hash_fits : length m.prev_hash ≡ 32
    pub min_time_fits : m.min_time < 2 ^ 32
    pub bits_fits : m.bits < 2 ^ 32
    pub coinbase_version_fits : m.coinbase_version < 2 ^ 32
    pub coinbase_prefix_fits : length m.coinbase_prefix < 2 ^ 8
    pub coinbase_sequence_fits : m.coinbase_sequence < 2 ^ 32
    pub coinbase_outputs_fits :
        length (serialized (int32 m.coinbase_version) m.coinbase_outputs) < 2 ^ 16
    pub coinbase_locktime_fits : m.coinbase_locktime < 2 ^ 32
    pub merkle_path_elements : All (λ v. length v ≡ 32) m.merkle_path
    pub merkle_path_fits : length m.merkle_path ≤ 255

-- Four bytes of any origin are read as a number.
read_u32-any : (bs : List ℕ) → length bs ≡ 4 → Reads read_u32 bs (le_value bs)
unfolding read_u32
read_u32-any bs h = rw (append-nil bs) at (
    Reads-unless_failed 0 (
      Reads-bind (λ b. unless_nil 0 b (uint 4)) (read_exact-Reads 4 bs h)
        (Reads-last (le_value bs) (λ r _. ground (arith, take_whole)))))
  where
    take_whole : take 4 bs ≡ bs
    take_whole = ap (λ n. take n bs) (sym h) ∙ take_all bs

module _ (wire : Wire) (m : SetCustomMiningJob wire) (v : IsValid wire m) where
  unfoldable pub outputs : List ℕ
  outputs = serialized wire (int32 m.coinbase_version) m.coinbase_outputs

  outputs_fit : length outputs < 2 ^ 16
  unfolding outputs
  outputs_fit = v.coinbase_outputs_fits

  outputs_written : Writes (add_bin64k outputs) (holding (le_bytes 2 (length outputs) ++ outputs))
  outputs_written = rw within at (add_bin64k-Writes outputs)
    where
      within : ltb 65535 (length outputs) ≡ false
      within = ground (arith, outputs_fit)

  -- What stands behind the coinbase's sequence number, up to the Merkle path.
  unfoldable pub behind_sequence : List ℕ
  unfolding outputs
  behind_sequence = (le_bytes 2 (length outputs) ++ outputs) ++ le_bytes 4 m.coinbase_locktime

  four_behind : length (take 4 behind_sequence) ≡ 4
  unfolding behind_sequence
  four_behind =
      omega (
        arith,
        length-take 4 behind_sequence,
        length-append outputs (le_bytes 4 m.coinbase_locktime),
      )

  path :
      Carries
        (add_seq255 (u256s m.merkle_path))
        (do x ← read_seq255 (u256s []); assert_u256s x)
        m.merkle_path
  path = hashes-Carries m.merkle_path v.merkle_path_elements v.merkle_path_fits

  four_taken : (a b c : List ℕ) → a ++ (b ++ c) ≡ take 4 (a ++ b) ++ (drop 4 (a ++ b) ++ c)
  four_taken a b c =
      sym (append_assoc a b c)
      ∙ ap (λ x. x ++ c) (sym (take-drop 4 (a ++ b)))
      ∙ append_assoc (take 4 (a ++ b)) (drop 4 (a ++ b)) c

  misread :
      (g : SetCustomMiningJob wire)
      → Leaves
          (λ b.
            b ▷ add_bin64k outputs ▷ add_u32 m.coinbase_locktime ▷ add_seq255 (u256s m.merkle_path))
          (do
            coinbase_locktime ← read_u32
            pure (record g { coinbase_locktime = coinbase_locktime }))
          (record g { coinbase_locktime = le_value (take 4 behind_sequence) })
  unfolding behind_sequence
  misread g = record {
    taken = take 4 behind_sequence;
    left = drop 4 behind_sequence ++ path.wire;
    writes =
        rw
          (four_taken (le_bytes 2 (length outputs) ++ outputs) (le_bytes 4 m.coinbase_locktime)
            path.wire)
          at
          (Writes-then outputs_written
            (Writes-then (add_u32-Writes m.coinbase_locktime) path.writes));
    reads = Reads-map _ (read_u32-any (take 4 behind_sequence) four_behind);
  }

  -- A custom job that fits is encoded with no error, but `Decode` looks for the locktime where the
  -- outputs begin: with no error it takes four bytes of what stands there for the locktime, and it
  -- leaves the outputs and the Merkle path of its receiver as they are. All other fields are read
  -- back.
  pub decode-encode_custom_job :
      (g : SetCustomMiningJob wire)
      → ((encode wire m).1 ≡ none)
        × (decode wire (view (encode wire m).0) g
            ≡ returns (
              record m {
                coinbase_outputs = g.coinbase_outputs;
                coinbase_locktime = le_value (take 4 behind_sequence);
                merkle_path = g.merkle_path;
              },
              none,
            ))
  unfolding encode decode outputs
  decode-encode_custom_job g = run-Leaves (
      Leaves-then _ (u32-Carries m.channel_id v.channel_id_fits) (
        Leaves-then _ (u32-Carries m.request_id v.request_id_fits) (
          Leaves-then _ (bin255-Carries m.mining_job_token v.mining_job_token_fits) (
            Leaves-then _ (u32-Carries m.version v.version_fits) (
              Leaves-then _ (u256-Carries m.prev_hash v.prev_hash_fits) (
                Leaves-then _ (u32-Carries m.min_time v.min_time_fits) (
                  Leaves-then _ (u32-Carries m.bits v.bits_fits) (
                    Leaves-then _ (u32-Carries m.coinbase_version v.coinbase_version_fits) (
                      Leaves-then _ (bin255-Carries m.coinbase_prefix v.coinbase_prefix_fits) (
                        Leaves-then _ (u32-Carries m.coinbase_sequence v.coinbase_sequence_fits) (
                          misread (record m {
                            coinbase_outputs = g.coinbase_outputs;
                            merkle_path = g.merkle_path;
                          }))))))))))))
