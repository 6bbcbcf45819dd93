-- ===== src/Tests/Frames.antt =====
-- WebSocket frames.
use abscom.Prelude.{ℕ, ◌+◌, ◌≡◌, refl, some, List, [], ◌∷◌, length, arith}
use abscom.Ws.Defs.{
  encode_frame, decode_frame, header_size, frame_length, payload, unmask, is_masked,
}
use abscom.Prelude.{codes, true}
use abscom.Ws.Base64.{digit, group, b64_loop}
use abscom.Ws.Receiving.{
  recv, read_full, message, before_nul, extra_of, receive_payload, receive_masked, ws_recv,
}
use abscom.Ws.Frames.{decode_frame-encode_frame}

abbrev hello : List ℕ
hello = 72 ∷ 101 ∷ 108 ∷ 108 ∷ 111 ∷ []

decode_frame-encode_frame_example :
    (frame : List ℕ) × (encode_frame 64 (some hello) ≡ some frame)
    × (length frame ≡ header_size (length hello) + length hello)
    × (decode_frame (some frame) 32 ≡ some hello)
unfolding header_size
decode_frame-encode_frame_example =
    decode_frame-encode_frame 64 32 hello (omega arith) (omega arith) (omega arith)

-- The masked frame of RFC 6455, section 5.7.
masked_hello :
    decode_frame (some (129 ∷ 133 ∷ 55 ∷ 250 ∷ 33 ∷ 61 ∷ 127 ∷ 159 ∷ 77 ∷ 81 ∷ 88 ∷ [])) 32
    ≡ some hello
unfolding decode_frame frame_length payload is_masked unmask
masked_hello = refl

base64_hello : b64_loop hello ≡ codes "SGVsbG8="
unfolding b64_loop group digit
base64_hello = refl

-- The same masked frame, as a socket may deliver it.
abbrev pieces : List (List ℕ)
pieces =
    (129 ∷ 133 ∷ 55 ∷ []) ∷ (250 ∷ []) ∷ (33 ∷ 61 ∷ 127 ∷ 159 ∷ []) ∷ (77 ∷ 81 ∷ 88 ∷ 1 ∷ []) ∷ []

received_hello : ws_recv (λ n. true) pieces ≡ message hello
unfolding ws_recv receive_masked receive_payload read_full recv extra_of is_masked unmask before_nul
received_hello = refl

abbrev first_five : List ℕ
first_five = 129 ∷ 133 ∷ 55 ∷ 250 ∷ 33 ∷ []

abbrev left_over : List (List ℕ)
left_over = (61 ∷ 127 ∷ 159 ∷ []) ∷ (77 ∷ 81 ∷ 88 ∷ 1 ∷ []) ∷ []

five_bytes : read_full 5 5 pieces ≡ some (first_five, left_over)
unfolding read_full recv
five_bytes = refl
