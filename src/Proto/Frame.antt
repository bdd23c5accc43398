-- ===== src/Proto/Frame.antt =====
-- crates/djbod-proto/src/frame.rs: the frame, a 12-byte header and a payload.
pub mod RoundTrip
use distributed_jbod.Common.{
  ℕ, ◌+◌, ◌*◌, ◌%◌, ◌^◌, Bool, true, false, not, Option, none, some, List, [], ◌∷◌, ◌++◌, Outcome,
  ok, err, panic, ◌>>=◌, ◌>>◌, fail_if, ok_or, length, replicate, ltb, ◌==◌, ◌!=◌, if◌then◌else◌,
}
use distributed_jbod.Common.Bytes.{to_le_bytes, slice, read_uint}
use distributed_jbod.Common.Writes.{Write, write_all}

abbrev pub header_len : ℕ
header_len = 12

abbrev pub max_payload_len : ℕ
max_payload_len = 64 * 1024 * 1024 + 4096

pub data MessageType : Type 0 where
  hello : MessageType
  request : MessageType
  response : MessageType
  data_chunk : MessageType
  end_of_stream : MessageType

-- `message_type as u16`.
abbrev pub to_u16 : MessageType → ℕ
to_u16 hello = 1
to_u16 request = 2
to_u16 response = 3
to_u16 data_chunk = 4
to_u16 end_of_stream = 5

abbrev pub from_u16 : ℕ → Option MessageType
from_u16 value =
    if value == 1
    then some hello
    else if value == 2
    then some request
    else if value == 3
    then some response
    else if value == 4
    then some data_chunk
    else if value == 5
    then some end_of_stream
    else none

pub record FrameHeader : Type 0 where
  pub message_type : MessageType
  pub flags : ℕ
  pub request_id : ℕ
  pub payload_len : ℕ

pub record Frame : Type 0 where
  pub header : FrameHeader
  pub payload : List ℕ

pub data FrameError : Type 0 where
  incomplete : (have needed : ℕ) → FrameError
  unknown_message_type : ℕ → FrameError
  payload_too_large : ℕ → FrameError
  unknown_flags : ℕ → FrameError

abbrev pub header_writes : FrameHeader → List Write
header_writes h =
    (0, to_le_bytes 2 (to_u16 h.message_type))
    ∷ (2, to_le_bytes 2 h.flags)
    ∷ (4, to_le_bytes 4 h.request_id)
    ∷ (8, to_le_bytes 4 h.payload_len)
    ∷ []

unfoldable pub encode_header : FrameHeader → List ℕ
encode_header h = write_all (replicate header_len 0) (header_writes h)

unfoldable pub decode_header : List ℕ → Outcome FrameError FrameHeader
decode_header bytes = do
  fail_if (ltb (length bytes) header_len) (incomplete (length bytes) header_len)
  raw_type ← read_uint 2 bytes 0
  message_type ← ok_or (from_u16 raw_type) (unknown_message_type raw_type)
  flags ← read_uint 2 bytes 2
  fail_if (flags != 0) (unknown_flags flags)
  request_id ← read_uint 4 bytes 4
  payload_len ← read_uint 4 bytes 8
  fail_if (ltb max_payload_len payload_len) (payload_too_large payload_len)
  ok (record {
    message_type = message_type;
    flags = flags;
    request_id = request_id;
    payload_len = payload_len;
  })

-- `Frame::new`. The length of the payload is cut to a `u32`.
abbrev pub new_frame : MessageType → ℕ → List ℕ → Frame
new_frame message_type request_id payload = record {
  header = record {
    message_type = message_type;
    flags = 0;
    request_id = request_id;
    payload_len = length payload % 2 ^ 32;
  };
  payload = payload;
}

abbrev pub encode_frame : Frame → List ℕ
encode_frame f = encode_header f.header ++ f.payload

-- The frame at the front of `bytes`, and how many bytes it has.
unfoldable pub decode_frame : List ℕ → Outcome FrameError (Frame × ℕ)
decode_frame bytes = do
  header ← decode_header bytes
  let total = header_len + header.payload_len
  fail_if (ltb (length bytes) total) (incomplete (length bytes) total)
  ok (record { header = header; payload = slice bytes header_len header.payload_len }, total)
