-- ===== src/Examples/Streams.antt =====
-- Frames that one side has written, on the way to the other side of the examples.
use stratumv.Prelude.{
  ℕ, zero, suc, ◌+◌, ◌*◌, ◌^◌, ◌<◌, ◌≤◌, ◌≡◌, ◌≢◌, refl, ap, ◌∙◌, arith, Option, none, some, List,
  [], ◌∷◌, ◌++◌, length, All,
}
use stratumv.Prelude.Int.{ℤ}
use stratumv.Binary.Failure.{ok}
use stratumv.Binary.Outcome.{Outcome, returns}
use stratumv.Binary.Stream.{receive}
use stratumv.Frame.{Frame}
use stratumv.Noise.Aead.{Aead}
use stratumv.Noise.Cipher.{CipherState}
use stratumv.Noise.Cipher.Laws.{IsReady, advanced}
use stratumv.Noise.Transport.{decrypt_frame_from, decrypt_frame_from_reader}
use stratumv.Noise.Transport.Delivery.{IsSendable, ciphertext}
use stratumv.Connection.{Sv2Conn, read_frame}
use stratumv.Connection.Actions.{write_frame_lem, read_frame_lem}
use stratumv.Examples.{quits}
use stratumv.Examples.Server
use stratumv.Examples.Server.{one_more, read_loop}
use stratumv.Examples.Logger
use stratumv.Examples.Logger.{Reading, noted, note_frame, read_rounds, wrote, put}
use stratumv.MessageTypes.{message_open_extended_mining_channel_success}

-- A cipher state that has two nonces left for each of `n` frames.
pub record HasRoom (max_noise_nonce n : ℕ) (cs : CipherState) : Type 0 where
  pub keyed : 0 < length cs.k
  pub room : cs.n + 2 * n ≤ max_noise_nonce
  pub end_fits : max_noise_nonce < 2 ^ 64

-- A frame that does not tell the logger of its channel.
abbrev pub IsOther : Frame → Type 0
IsOther f = f.message_type ≢ message_open_extended_mining_channel_success

module _ (max_noise_nonce n : ℕ) (cs : CipherState) (r : HasRoom max_noise_nonce (suc n) cs) where
  pub HasRoom-IsReady : IsReady max_noise_nonce cs
  HasRoom-IsReady = record { keyed = r.keyed; below = omega (arith, r.room); end_fits = r.end_fits }

  pub HasRoom-next : HasRoom max_noise_nonce n (advanced 2 cs)
  HasRoom-next = record { keyed = r.keyed; room = omega (arith, r.room); end_fits = r.end_fits }

  pub HasRoom-more : cs.n + 1 < max_noise_nonce
  HasRoom-more = omega (arith, r.room)

module _ (aead : Aead) (max_noise_nonce : ℕ) where
  -- The bytes of some frames that are written one behind the other.
  abbrev pub wire_of : CipherState → List Frame → List ℕ
  wire_of cs [] = []
  wire_of cs (f ∷ fs) = ciphertext aead max_noise_nonce cs f ++ wire_of (advanced 2 cs) fs

  -- A write of either side.
  pub put_lem :
      (f : Frame) (w : List ℕ) (conn : Sv2Conn)
      → HasRoom max_noise_nonce 1 conn.send
      → IsSendable f
      → put aead max_noise_nonce (ok f) w conn
        ≡ returns (
          record conn { send = advanced 2 conn.send },
          (w ++ ciphertext aead max_noise_nonce conn.send f, none),
        )
  unfolding put
  put_lem f w conn room s = ap (wrote aead max_noise_nonce) (
      write_frame_lem aead max_noise_nonce f w conn
        (HasRoom-IsReady max_noise_nonce 0 conn.send room)
        (HasRoom-more max_noise_nonce 0 conn.send room) s)

  pub read_first :
      (f : Frame) (n : ℕ) (w : List ℕ) (conn : Sv2Conn)
      → HasRoom max_noise_nonce (suc n) conn.recv
      → IsSendable f
      → read_frame aead max_noise_nonce (ciphertext aead max_noise_nonce conn.recv f ++ w) conn
        ≡ returns (record conn { recv = advanced 2 conn.recv }, (ok f, w))
  read_first f n w conn room s =
      read_frame_lem aead max_noise_nonce f w conn
        (HasRoom-IsReady max_noise_nonce n conn.recv room)
        (HasRoom-more max_noise_nonce n conn.recv room) s

  -- The server's loop reads all frames, and ends where the connection ends.
  pub read_loop_lem :
      (fs : List Frame) (fuel : ℕ) (answer : Option Frame) (conn : Sv2Conn)
      → All IsSendable fs
      → HasRoom max_noise_nonce (length fs) conn.recv
      → length fs < fuel
      → read_loop aead max_noise_nonce fuel answer (wire_of conn.recv fs) conn
        ≡ some (returns (record { frames = fs; answer = answer; exit = quits }))
  unfolding read_loop read_frame decrypt_frame_from_reader decrypt_frame_from receive
  read_loop_lem fs zero answer conn all room h = absurd (omega (arith, h))
  read_loop_lem [] (suc fuel) answer conn all room h = refl
  read_loop_lem (f ∷ fs) (suc fuel) answer conn all room h =
      ap
        (Server.after_read aead max_noise_nonce answer (read_loop aead max_noise_nonce fuel answer))
        (read_first f (length fs) (wire_of (advanced 2 conn.recv) fs) conn room all.0)
      ∙ ap (one_more f) (
          read_loop_lem fs fuel answer (record conn { recv = advanced 2 conn.recv }) all.1
            (HasRoom-next max_noise_nonce (length fs) conn.recv room) (omega (arith, h)))

  -- A connection after some frames have been read.
  abbrev pub after_frames : List Frame → Sv2Conn → Sv2Conn
  after_frames [] conn = conn
  after_frames (f ∷ fs) conn = after_frames fs (record conn { recv = advanced 2 conn.recv })

  -- Reading leaves the state to send with.
  pub after_frames-send :
      (fs : List Frame) (conn : Sv2Conn) → (after_frames fs conn).send ≡ conn.send
  after_frames-send [] conn = refl
  after_frames-send (f ∷ fs) conn =
      after_frames-send fs (record conn { recv = advanced 2 conn.recv })

  pub read_noted :
      (f : Frame) (rounds : ℕ) (w : List ℕ) (conn : Sv2Conn) (chan_id chan_id' : ℤ)
      → HasRoom max_noise_nonce (suc rounds) conn.recv
      → IsSendable f
      → note_frame f chan_id ≡ returns chan_id'
      → read_rounds aead max_noise_nonce
          (suc rounds)
          (ciphertext aead max_noise_nonce conn.recv f ++ w)
          conn
          chan_id
        ≡ read_rounds aead max_noise_nonce rounds w
            (record conn { recv = advanced 2 conn.recv })
            chan_id'
  unfolding read_rounds
  read_noted f rounds w conn chan_id chan_id' room s noted_so =
      let k : List ℕ → Sv2Conn → ℤ → Outcome Reading = read_rounds aead max_noise_nonce rounds in
      ap (Logger.after_read aead max_noise_nonce chan_id k) (read_first f rounds w conn room s)
      ∙ ap (noted aead max_noise_nonce (k w (record conn { recv = advanced 2 conn.recv }))) noted_so

  note_other : (f : Frame) (chan_id : ℤ) → IsOther f → note_frame f chan_id ≡ returns chan_id
  unfolding note_frame
  note_other f chan_id other = ground arith

  -- The logger's loop over frames that do not tell it of a channel, in as many rounds as there are
  -- frames.
  pub read_others :
      (fs : List Frame) (conn : Sv2Conn) (chan_id : ℤ)
      → All IsSendable fs
      → All IsOther fs
      → HasRoom max_noise_nonce (length fs) conn.recv
      → read_rounds aead max_noise_nonce (length fs) (wire_of conn.recv fs) conn chan_id
        ≡ returns (record { conn = after_frames fs conn; chan_id = chan_id; ended = none })
  unfolding read_rounds
  read_others [] conn chan_id all others room = refl
  read_others (f ∷ fs) conn chan_id all others room =
      let next : Sv2Conn = record conn { recv = advanced 2 conn.recv } in
      read_noted f (length fs) (wire_of next.recv fs) conn chan_id chan_id room all.0
        (note_other f chan_id others.0)
      ∙ read_others fs next chan_id all.1 others.1
          (HasRoom-next max_noise_nonce (length fs) conn.recv room)

  -- The same before other frames `gs`.
  pub read_others_before :
      (fs gs : List Frame) (conn : Sv2Conn) (chan_id : ℤ)
      → All IsSendable fs
      → All IsOther fs
      → HasRoom max_noise_nonce (length (fs ++ gs)) conn.recv
      → (read_rounds aead max_noise_nonce
            (length (fs ++ gs))
            (wire_of conn.recv (fs ++ gs))
            conn
            chan_id
          ≡ read_rounds aead max_noise_nonce
              (length gs)
              (wire_of (after_frames fs conn).recv gs)
              (after_frames fs conn)
              chan_id)
        × HasRoom max_noise_nonce (length gs) (after_frames fs conn).recv
  read_others_before [] gs conn chan_id all others room = (refl, room)
  read_others_before (f ∷ fs) gs conn chan_id all others room =
      let next : Sv2Conn = record conn { recv = advanced 2 conn.recv } in
      let (rest, room') =
        read_others_before fs gs next chan_id all.1 others.1
          (HasRoom-next max_noise_nonce (length (fs ++ gs)) conn.recv room) in
      (
        read_noted f (length (fs ++ gs)) (wire_of next.recv (fs ++ gs)) conn chan_id chan_id room
              all.0 (note_other f chan_id others.0)
            ∙ rest,
        room',
      )
