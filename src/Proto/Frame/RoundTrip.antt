-- ===== src/Proto/Frame/RoundTrip.antt =====
-- A frame that was written is read, from a buffer that holds more bytes or too few of them.
use distributed_jbod.Common.{
  ℕ, ◌+◌, ◌-◌, ◌^◌, ◌≤◌, ◌<◌, ◌≡◌, refl, sym, ◌∙◌, ap, some, List, ◌++◌, ok, err, length,
  length-append, length-take, replicate, take, take-append_left, take-append_ge, All, arith, ltb,
  lt→ltb, le→ltb, if◌then◌else◌, Bool-cases, inl, inr, ltb→le,
}
use distributed_jbod.Common.Bytes.{
  to_le_bytes, from_le_bytes, from_le_bytes-to_le_bytes, length-to_le_bytes, slice, slice-slice,
  slice-append_right, read_uint, read_uint_lem,
}
use mathlib.Core.List.{append_assoc}
use distributed_jbod.Common.Writes.{Ascend, length-write_all, Reads, write_all-Reads}
use distributed_jbod.Proto.Frame.{
  header_len, max_payload_len, MessageType, hello, request, response, data_chunk, end_of_stream,
  to_u16, from_u16, FrameHeader, Frame, FrameError, incomplete, header_writes, encode_header,
  decode_header, encode_frame, decode_frame,
}

from_u16-to_u16 : (t : MessageType) → from_u16 (to_u16 t) ≡ some t
from_u16-to_u16 hello = refl
from_u16-to_u16 request = refl
from_u16-to_u16 response = refl
from_u16-to_u16 data_chunk = refl
from_u16-to_u16 end_of_stream = refl

to_u16_bound : (t : MessageType) → to_u16 t < 65536
to_u16_bound hello = omega arith
to_u16_bound request = omega arith
to_u16_bound response = omega arith
to_u16_bound data_chunk = omega arith
to_u16_bound end_of_stream = omega arith

-- A header that a peer accepts.
pub record IsHeader (h : FrameHeader) : Type 0 where
  pub no_flags : h.flags ≡ 0
  pub request_id : h.request_id < 2 ^ 32
  pub payload_len : h.payload_len ≤ max_payload_len

module _ (h : FrameHeader) where
  writes-Ascend : Ascend 0 (length (replicate {A = ℕ} header_len 0)) (header_writes h)
  unfolding to_le_bytes
  writes-Ascend = omega arith

  length-encode_header : length (encode_header h) ≡ header_len
  unfolding encode_header
  length-encode_header = length-write_all (replicate header_len 0) 0 (header_writes h) writes-Ascend

  header-Reads : All (Reads (encode_header h)) (header_writes h)
  unfolding encode_header
  header-Reads = write_all-Reads (replicate header_len 0) 0 (header_writes h) writes-Ascend

  module _ (v : IsHeader h) (bytes : List ℕ) (front : slice bytes 0 header_len ≡ encode_header h)
      (long : header_len ≤ length bytes) where
    field_read :
        (w offset n : ℕ)
        → offset + w ≤ header_len
        → n < 256 ^ w
        → Reads (encode_header h) (offset, to_le_bytes w n)
        → read_uint {E = FrameError} w bytes offset ≡ ok n
    field_read w offset n le small reads =
        let start : offset ≡ 0 + offset = omega arith in
        read_uint_lem w bytes offset (omega (arith, long))
        ∙ ap (λ b. ok (from_le_bytes b))
            (ap (λ o. slice bytes o w) start
              ∙ sym (slice-slice bytes 0 header_len offset w le)
              ∙ ap (λ b. slice b offset w) front
              ∙ ap (slice (encode_header h) offset) (sym (length-to_le_bytes w n))
              ∙ reads)
        ∙ ap ok (from_le_bytes-to_le_bytes w n small)

    decode_header-front : decode_header bytes ≡ ok h
    unfolding decode_header
    decode_header-front =
        let r = header-Reads in
        rw (
          le→ltb _ _ long,
          field_read 2 0 (to_u16 h.message_type) (omega arith) (to_u16_bound h.message_type) r.0,
          from_u16-to_u16 h.message_type,
          field_read 2 2 h.flags (omega arith) (omega (arith, v.no_flags)) r.1.0,
          v.no_flags,
          field_read 4 4 h.request_id (omega arith) (omega (arith, v.request_id)) r.1.1.0,
          field_read 4 8 h.payload_len (omega arith) (omega (arith, v.payload_len)) r.1.1.1.0,
          le→ltb _ _ v.payload_len,
        )

-- A frame whose header tells the length of its payload.
pub record IsFrame (f : Frame) : Type 0 where
  pub header : IsHeader f.header
  pub payload : length f.payload ≡ f.header.payload_len

module _ (f : Frame) (v : IsFrame f) where
  pub length-encode_frame : length (encode_frame f) ≡ header_len + f.header.payload_len
  length-encode_frame =
      length-append (encode_header f.header) f.payload
      ∙ omega (arith, length-encode_header f.header, v.payload)

  -- The header is read from the front of anything that starts with it.
  front-take :
      (bytes rest : List ℕ)
      → bytes ≡ encode_header f.header ++ rest
      → slice bytes 0 header_len ≡ encode_header f.header
  front-take bytes rest e =
      ap (take header_len) e
      ∙ take-append_left (encode_header f.header) rest header_len
          (sym (length-encode_header f.header))

  -- A frame is read back from the front of a buffer, and the reader learns where the next one starts: for
  -- a frame that a peer accepts, with its payload's length in its header, `Frame::decode` of its encoding
  -- followed by any bytes returns the frame and the length of its encoding.
  pub decode_frame-encode_frame :
      (rest : List ℕ) → decode_frame (encode_frame f ++ rest) ≡ ok (f, length (encode_frame f))
  unfolding decode_frame
  decode_frame-encode_frame rest =
      let page = encode_header f.header in
      let bytes = encode_frame f ++ rest in
      let split : bytes ≡ page ++ (f.payload ++ rest) = append_assoc page f.payload rest in
      let size : length bytes ≡ header_len + f.header.payload_len + length rest =
        length-append (encode_frame f) rest ∙ ap (λ n. n + length rest) length-encode_frame in
      let payload : slice bytes header_len f.header.payload_len ≡ f.payload =
        ap (λ b. slice b header_len f.header.payload_len) split
        ∙ slice-append_right page (f.payload ++ rest) header_len 0 f.header.payload_len
            (omega (arith, length-encode_header f.header))
        ∙ take-append_left f.payload rest f.header.payload_len (sym v.payload) in
      rw (
        decode_header-front f.header v.header bytes (front-take bytes (f.payload ++ rest) split)
            (omega (arith, size)),
        le→ltb (length bytes) (header_len + f.header.payload_len) (omega (arith, size)),
        payload,
        length-encode_frame,
      )

  take-front :
      (n : ℕ)
      → header_len ≤ n
      → (rest : List ℕ) × (take n (encode_frame f) ≡ encode_header f.header ++ rest)
  take-front n le =
      let page = encode_header f.header in
      (
        take (n - length page) f.payload,
        take-append_ge page f.payload n (omega (arith, le, length-encode_header f.header)),
      )

  -- A partial frame is never taken for a frame: of the first `n` bytes of its encoding, `n` being less
  -- than its length, `Frame::decode` says that they are incomplete, and how many are needed, 12 for the
  -- header or the length of the encoding.
  pub decode_frame-take :
      (n : ℕ)
      → n < length (encode_frame f)
      → decode_frame (take n (encode_frame f))
        ≡ err (incomplete n (if ltb n header_len then header_len else length (encode_frame f)))
  unfolding decode_frame decode_header
  decode_frame-take n lt =
      let bytes = take n (encode_frame f) in
      let size : length bytes ≡ n = length-take n (encode_frame f) ∙ omega (arith, lt) in
      elim (Bool-cases (ltb n header_len)) [
        | inl short ↦ rw (size, short)
        | inr long ↦
            let le = ltb→le n header_len long in
            let (rest, split) = take-front n le in
            rw (
              decode_header-front f.header v.header bytes (front-take bytes rest split)
                  (omega (arith, size, le)),
              size,
              lt→ltb n (header_len + f.header.payload_len) (omega (arith, lt, length-encode_frame)),
              long,
              length-encode_frame,
            )
      ]
