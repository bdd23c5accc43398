-- ===== src/Proto/Runs.antt =====
-- Concrete frames and greetings, and the theorems about them at concrete inputs.
use distributed_jbod.Common.{◌≤◌, ◌≡◌, refl, none, [], ◌∷◌, ◌++◌, ok, err, take, length, arith, ◌↔◌}
use distributed_jbod.Common.Bytes.{to_le_bytes, write_at}
use distributed_jbod.Common.Writes.{write_all}
use distributed_jbod.Proto.Frame.{
  Frame, request, incomplete, new_frame, encode_header, encode_frame, decode_frame,
}
use distributed_jbod.Proto.Frame.RoundTrip.{
  IsFrame, length-encode_frame, decode_frame-encode_frame, decode_frame-take,
}
use distributed_jbod.Proto.Hello.{
  Hello, client, protocol_version, check_against, IsAdmitted, check_against-IsAdmitted,
}

abbrev greeting : Frame
greeting = new_frame request 258 (9 ∷ 8 ∷ [])

encoded : encode_frame greeting ≡ 2 ∷ 0 ∷ 0 ∷ 0 ∷ 2 ∷ 1 ∷ 0 ∷ 0 ∷ 2 ∷ 0 ∷ 0 ∷ 0 ∷ 9 ∷ 8 ∷ []
unfolding encode_header write_all write_at to_le_bytes
encoded = refl

greeting-IsFrame : IsFrame greeting
greeting-IsFrame = record {
  header = record { no_flags = refl; request_id = omega arith; payload_len = omega arith };
  payload = refl;
}

decode_frame-encode_frame_example :
    decode_frame (encode_frame greeting ++ 77 ∷ []) ≡ ok (greeting, length (encode_frame greeting))
decode_frame-encode_frame_example = decode_frame-encode_frame greeting greeting-IsFrame (77 ∷ [])

short : 13 ≤ length (encode_frame greeting)
short = omega (arith, length-encode_frame greeting greeting-IsFrame)

decode_frame-take_example :
    decode_frame (take 12 (encode_frame greeting))
    ≡ err (incomplete 12 (length (encode_frame greeting)))
decode_frame-take_example = decode_frame-take greeting greeting-IsFrame 12 short

-- A client that does not know the cluster.
abbrev stranger : Hello
stranger = record {
  protocol_version = 1;
  kind = client;
  node_id = none;
  cluster_id = 0;
  document_version = 0;
  build = [];
  cluster_name = none;
}

check_against-IsAdmitted_example :
    (check_against stranger 42 7 ≡ ok tt)
    ↔ ((stranger.protocol_version ≡ protocol_version) × IsAdmitted client stranger 42 7)
check_against-IsAdmitted_example = check_against-IsAdmitted stranger 42 7
