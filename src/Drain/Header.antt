-- ===== src/Drain/Header.antt =====
-- `send_header`: the header frame always fits, and the host reads it back.
use embarch_outpost.Prelude.{
  ℕ, ◌+◌, ◌%◌, ◌^◌, ◌≤◌, ◌<◌, ◌≡◌, ap, ◌∙◌, List, [], ◌∷◌, ◌++◌, some, length, length-append,
  length-splice, take-splice, splice, All, All-append, IsByte, arith,
}
use native.Mathlib.Nat.{zero-add}
use embarch_outpost.Config.{Config, IsConfig, header_max_bytes}
use embarch_outpost.Wire.{◌>>◌, emit_varint}
use embarch_outpost.Wire.Varint.{varint, length-varint, varint-IsByte}
use embarch_outpost.Wire.Fields.{string_bytes}
use embarch_outpost.Frame.Stuffed.{stuff, IsStuffed}
use embarch_outpost.Frame.Seal.{sealed_bytes}
use embarch_outpost.Host.Text.{utf8, IsAscii, utf8-ascii}
use embarch_outpost.Host.{decode_chunk, header}
use embarch_outpost.Host.Chunk.{decode_chunk-stuff, decode_payload-header}
use embarch_outpost.Drain.{
  Drain, Image, append_byte, emit_string, header_fields, header_flags, send_header, send_fields,
  frame_header, record_layout_version,
}
use embarch_outpost.Drain.Losses.{IsDrain}
use embarch_outpost.Drain.Fields.{
  Appends, >>-Appends, append_byte-Appends, emit_varint-Appends, emit_string-Appends,
  length-string_bytes, varint_short, string_bytes-IsByte,
}
use embarch_outpost.Drain.Flags.{header_flags_bits}
use embarch_outpost.Drain.Stream.{sent_body, send_body_lem, sent_body-IsDrain, chunk-IsStuffed}

module _ (crc32 : List ℕ → ℕ) (word : (bytes : List ℕ) → crc32 bytes < 2 ^ 32) where
  module _ (c : Config) (image : Image) (ok : IsConfig c) where
    abbrev rate : ℕ
    rate = image.cycles_per_sec % 2 ^ 32

    abbrev tail_bytes : List ℕ
    tail_bytes = varint rate ++ (string_bytes image.version ++ string_bytes image.build_id)

    abbrev header_body : ℕ → List ℕ
    header_body seq = frame_header ∷ seq ∷ record_layout_version ∷ header_flags c ∷ tail_bytes

    module _ (d : Drain) (sized : IsDrain c d) (version : length image.version ≤ c.build_id_max)
        (build_id : length image.build_id ≤ c.build_id_max)
        (chars : All IsByte image.version × All IsByte image.build_id) where
      -- The assertion at build time is right: the fields fit a batch.
      length-header_body : length (header_body d.frame_seq) ≤ c.batch_bytes
      unfolding header_max_bytes
      length-header_body = omega (
        arith,
        length-append (varint rate) (string_bytes image.version ++ string_bytes image.build_id),
        length-append (string_bytes image.version) (string_bytes image.build_id),
        length-string_bytes image.version,
        length-string_bytes image.build_id,
        length-varint rate,
        varint_short (length image.version) (omega (arith, ok.build_id_max)),
        varint_short (length image.build_id) (omega (arith, ok.build_id_max)),
        ok.header_fits,
      )

      chain :
          (cap : ℕ)
          → Appends cap
              (append_byte frame_header
                >> (append_byte d.frame_seq
                    >> (append_byte record_layout_version
                        >> (append_byte (header_flags c)
                            >> (emit_varint 0 cap rate
                                >> (emit_string cap (some image.version)
                                    >> emit_string cap (some image.build_id)))))))
              (header_body d.frame_seq)
      chain cap =
          let strings = string_bytes image.version ++ string_bytes image.build_id in
          let third = header_flags c ∷ tail_bytes in
          append_byte-Appends cap frame_header (d.frame_seq ∷ record_layout_version ∷ third) _ (
            append_byte-Appends cap d.frame_seq (record_layout_version ∷ third) _ (
              append_byte-Appends cap record_layout_version third _ (
                append_byte-Appends cap (header_flags c) tail_bytes _ (
                  >>-Appends cap _ _ (varint rate) strings
                    (emit_varint-Appends cap rate (omega arith))
                    (>>-Appends cap _ _ (string_bytes image.version) (string_bytes image.build_id)
                      (emit_string-Appends cap image.version (omega (arith, ok.build_id_max)))
                      (emit_string-Appends cap image.build_id (omega (arith, ok.build_id_max))))))))

      fields_lem : header_fields c image (length d.batch_buf) d.frame_seq d.batch_buf 0 ≡ (
        splice d.batch_buf 0 (header_body d.frame_seq),
        some (length (header_body d.frame_seq)),
      )
      unfolding header_fields
      fields_lem =
          chain (length d.batch_buf) d.batch_buf 0
            (omega (arith, length-header_body, sized.batch_buf))
          ∙ rw zero-add

      -- The batch buffer with the header in it.
      filled : Drain
      filled = record d {
        batch_buf = splice d.batch_buf 0 (header_body d.frame_seq);
        frame_seq = (d.frame_seq + 1) % 256;
      }

      filled-IsDrain : IsDrain c filled
      unfolding filled
      filled-IsDrain = record {
        batch_buf = length-splice d.batch_buf 0 (header_body d.frame_seq) ∙ sized.batch_buf;
        frame_buf = sized.frame_buf;
        sealed = sized.sealed;
        frame_seq = omega arith;
      }

      send_header_sent :
          send_header c image crc32 d ≡ sent_body crc32 c filled (header_body d.frame_seq)
      unfolding filled send_header
      send_header_sent =
          ap (send_fields crc32 d) fields_lem
          ∙ (send_body_lem crc32 c (length (header_body d.frame_seq)) filled filled-IsDrain
                length-header_body
              ∙ ap (sent_body crc32 c filled) (
                  take-splice d.batch_buf (header_body d.frame_seq)
                    (omega (arith, length-header_body, sized.batch_buf))))

      header_body-IsByte : All IsByte (header_body d.frame_seq)
      header_body-IsByte = (
        omega arith,
        (
          sized.frame_seq,
          (
            omega arith,
            (
              (header_flags_bits c).8,
              All-append IsByte (varint rate) _ (varint-IsByte rate (omega arith)) (
                  All-append IsByte (string_bytes image.version) (string_bytes image.build_id)
                    (string_bytes-IsByte image.version (omega (arith, ok.build_id_max)) chars.0)
                    (string_bytes-IsByte image.build_id (omega (arith, ok.build_id_max)) chars.1)),
            ),
          ),
        ),
      )

      pub send_header_decodes :
          (chunk : List ℕ) × ((send_header c image crc32 d).sent ≡ d.sent ++ (chunk ++ 0 ∷ []) ∷ [])
          × All IsStuffed chunk
          × (decode_chunk crc32 chunk
              ≡ header d.frame_seq (record {
                layout_version = record_layout_version;
                flags = header_flags c;
                cycles_per_sec = image.cycles_per_sec % 2 ^ 32;
                version = utf8 image.version;
                build_id = utf8 image.build_id;
              }))
          × ((send_header c image crc32 d).frame_seq ≡ (d.frame_seq + 1) % 256)
          × IsDrain c (send_header c image crc32 d)
      unfolding filled
      send_header_decodes =
          let body = header_body d.frame_seq in
          (
            stuff (sealed_bytes crc32 body),
            ap (λ (x : Drain). x.sent) send_header_sent,
            chunk-IsStuffed crc32 word body header_body-IsByte,
            decode_chunk-stuff crc32 word body (omega arith)
                ∙ decode_payload-header d.frame_seq record_layout_version (header_flags c) rate
                    image.version image.build_id (omega arith) (omega (arith, ok.build_id_max))
                    (omega (arith, ok.build_id_max)),
            ap (λ (x : Drain). x.frame_seq) send_header_sent,
            rw send_header_sent (sent_body-IsDrain crc32 c filled body filled-IsDrain),
          )

      -- Where the configuration is in range, the buffers have their sizes and the two strings are
      -- at most BUILD_ID_MAX bytes, of which the first ones, as many as one likes, are ASCII:
      -- `send_header` hands one frame to the transport, a chunk of non-zero bytes and the
      -- delimiter, which the host decodes to the sequence number, the layout version, the flags,
      -- the rate modulo 2 ^ 32, and two texts that begin with the ASCII characters of the strings,
      -- and go on with what UTF-8 makes of the other bytes. It takes one sequence number, and the
      -- buffers keep their sizes.
      pub send_header_strings :
          (version_ascii version_rest build_ascii build_rest : List ℕ)
          → image.version ≡ version_ascii ++ version_rest
          → image.build_id ≡ build_ascii ++ build_rest
          → All IsAscii version_ascii
          → All IsAscii build_ascii
          → (chunk : List ℕ) × ((send_header c image crc32 d).sent
              ≡ d.sent ++ (chunk ++ 0 ∷ []) ∷ [])
            × All IsStuffed chunk
            × (decode_chunk crc32 chunk
                ≡ header d.frame_seq (record {
                  layout_version = record_layout_version;
                  flags = header_flags c;
                  cycles_per_sec = image.cycles_per_sec % 2 ^ 32;
                  version = version_ascii ++ utf8 version_rest;
                  build_id = build_ascii ++ utf8 build_rest;
                }))
            × ((send_header c image crc32 d).frame_seq ≡ (d.frame_seq + 1) % 256)
            × IsDrain c (send_header c image crc32 d)
      send_header_strings va vr ba br ev eb hv hb =
          let (chunk, sent, stuffed, decoded, seq, kept) = send_header_decodes in
          let v : utf8 image.version ≡ va ++ utf8 vr = ap utf8 ev ∙ utf8-ascii va vr hv in
          let b : utf8 image.build_id ≡ ba ++ utf8 br = ap utf8 eb ∙ utf8-ascii ba br hb in
          (chunk, sent, stuffed, rw (v, b) at decoded, seq, kept)
