-- ===== src/Tests/Noise.antt =====
-- The transport of noise.go at concrete inputs, with a cipher that only adds a tag.
use stratumv.Prelude.{
  ℕ, ◌-◌, ◌<◌, ◌≡◌, ◌⊎◌, refl, arith, none, some, Option, List, [], ◌∷◌, ◌++◌, replicate, length,
  take, take-append, length-append, ltb, if◌then◌else◌,
}
use stratumv.Binary.Failure.{ok, err, nonce_exhausted, bad_seal}
use stratumv.Binary.Outcome.{returns}
use stratumv.Noise.Aead.{Aead}
use stratumv.Noise.Cipher.{CipherState, encrypt_with_ad, decrypt_with_ad}
use stratumv.Noise.Cipher.Laws.{IsReady, advanced, decrypt_with_ad-err, exhausted}
use stratumv.Noise.Transport.{encrypt_frame, decrypt_frame}
use stratumv.Noise.Transport.Delivery.{IsSendable}
use stratumv.Noise.Transport.Whole.{decrypt_frame-whole}
use stratumv.Binary.Outcome.{view}
use stratumv.Binary.Reader.{Reader}
use stratumv.Noise.Transport.Session.{Session, Reaches, begin, sends, start, send, take_frame}
use stratumv.Noise.Transport.Session.InOrder.{take_frame_next}
use stratumv.Frame.{Frame}
use stratumv.Binary.Builder.{add_bytes, add_u24, add_u8, add_u16}

-- The last 16 bytes are the tag.
abbrev pub untag : List ℕ → Option (List ℕ)
untag sealed = if ltb (length sealed) 16 then none else some (take (length sealed - 16) sealed)

pub untag-tag : (text : List ℕ) → untag (text ++ replicate 16 0) ≡ some text
untag-tag text =
    ground (arith, length-append text (replicate 16 0), take-append text (replicate 16 0))

pub untag_short : (sealed : List ℕ) → length sealed < 16 → untag sealed ≡ none
untag_short sealed h = ground arith

abbrev pub tagging : Aead
tagging = record {
  seal = λ key nonce text ad. text ++ replicate 16 0;
  unseal = λ key nonce sealed ad. untag sealed;
  unseal-seal = λ key nonce text ad. untag-tag text;
  length-seal = λ key nonce text ad. length-append text (replicate 16 0);
  unseal_short = λ key nonce sealed ad h. untag_short sealed h;
}

abbrev pub last_nonce : ℕ
last_nonce = 0xffffffffffffffff

abbrev session : CipherState
session = record { k = replicate 32 7; n = 4 }

session-IsReady : IsReady last_nonce session
session-IsReady = omega arith

abbrev ping : Frame
ping = record {
  extension_type = 0x8000;
  message_type = 3;
  message_length = 4;
  payload = 1 ∷ 2 ∷ 3 ∷ 4 ∷ [];
  tlvs = [];
}

ping-IsSendable : IsSendable ping
ping-IsSendable = record {
  valid = omega arith;
  plain = refl;
  not_empty = omega arith;
  one_chunk = omega arith;
}

damaged : decrypt_with_ad tagging last_nonce [] (5 ∷ []) session ≡ (session, err bad_seal)
unfolding decrypt_with_ad
damaged = ground arith

decrypt_with_ad-err_example : session ≡ session
decrypt_with_ad-err_example =
    decrypt_with_ad-err tagging last_nonce session session [] (5 ∷ []) bad_seal (omega arith)
      damaged

abbrev ended : CipherState
ended = record { k = replicate 32 7; n = 0xffffffffffffffff }

exhausted_example :
    (encrypt_with_ad tagging last_nonce [] (5 ∷ []) ended ≡ (ended, err nonce_exhausted))
    × (decrypt_with_ad tagging last_nonce [] (5 ∷ []) ended ≡ (ended, err nonce_exhausted))
exhausted_example = exhausted tagging last_nonce ended [] (5 ∷ []) (omega arith) refl

-- Two frames are under way.
abbrev busy : Session
unfolding send
busy = send tagging last_nonce ping (send tagging last_nonce ping (start session))

one_sent : (send tagging last_nonce ping (start session)).sender.n ≡ 6
unfolding send add_bytes add_u24 add_u8 add_u16
one_sent = refl

busy_reached : Reaches tagging last_nonce session busy
unfolding send
busy_reached =
    sends ping ping-IsSendable (omega (arith, one_sent))
      (sends ping ping-IsSendable (omega arith) begin)

take_frame_next_example :
    (st' : Session) × (take_frame tagging last_nonce busy ≡ returns st')
    × ((busy.sent ≡ busy.received × st' ≡ busy)
        ⊎ ((f : Frame) × (fs : List Frame) × (busy.sent ≡ busy.received ++ f ∷ fs)
            × (st'.received ≡ busy.received ++ f ∷ [])
            × (st'.sent ≡ busy.sent)))
take_frame_next_example =
    take_frame_next tagging last_nonce (omega arith) (omega arith) busy_reached

decrypt_frame-whole_example :
    (sent : List ℕ) × (left : Reader) × (encrypt_frame tagging last_nonce ping session
      ≡ (ping, (advanced 2 session, ok sent)))
    × (decrypt_frame tagging last_nonce (view (sent ++ 9 ∷ [])) session
        ≡ returns (advanced 2 session, (ok ping, left)))
decrypt_frame-whole_example =
    decrypt_frame-whole tagging last_nonce session ping session-IsReady (omega arith)
      ping-IsSendable (9 ∷ [])
