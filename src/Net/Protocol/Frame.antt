-- ===== src/Net/Protocol/Frame.antt =====
-- What is in the buffer of a packet that is sent.
use xynera_ots.Prelude.{
  ℕ, ◌+◌, ◌-◌, ◌%◌, ◌^◌, ◌≤◌, ◌≡◌, ◌≢◌, inl, inr, refl, sym, ap, ap₂, ◌∙◌, Bool, true, false, some,
  List, ◌++◌, ltb, ◌==◌, if◌then◌else◌, length, arith, Bool-cases, replicate, length-replicate,
}
use xynera_ots.Net.Bytes.{to_bytes, length-to_bytes}
use xynera_ots.Net.Buffer.{write_at, read_at, read_at-write_at_outside, read_at_append}
use xynera_ots.Net.Checksum.{adler_checksum}
use xynera_ots.Net.Message.{Message, u16, can_add, add_padding_bytes}
use xynera_ots.Net.Message.Writes.Puts.{message_eq}
use xynera_ots.Net.Xtea.{encrypt}
use xynera_ots.Net.Protocol.{
  ChecksumMode, disabled, adler, sequence, OutputMessage, Protocol, add_header,
  write_message_length, output, add_crypto_header, add_headers, xtea_encrypt, encrypt_output,
  store_output, on_send_message,
}
use xynera_ots.Net.Protocol.Inner.{padding, inner, length-inner, read-written}

branches :
    {A : Type 0} (raw encrypted : Bool)
    → raw ≡ false
    → encrypted ≡ true
    → (a b c : A) → (if raw then a else (if encrypted then b else c)) ≡ b
branches raw encrypted e e' a b c = rw (e, e') refl

-- A message with a body, before and after the length and the padding are written.
module _ (f : ℕ → ℕ) (overrun : Bool) (body : List ℕ) where
  abbrev n : ℕ
  n = length body

  abbrev pub plain : Message
  plain = record { length = n; position = 8 + n; overrun = overrun; buffer = f }

  abbrev with_length : OutputMessage
  with_length = record {
    message = record plain { length = n + 2; buffer = write_at f 6 (to_bytes 2 n) };
    output_buffer_start = 6;
  }

  abbrev pub padded : Message
  padded = record plain {
    length = n + 2 + padding (n + 2);
    buffer = write_at (write_at f 6 (to_bytes 2 n)) (8 + n) (replicate (padding (n + 2)) 0x33);
  }

  pub read-padded :
      read_at f 8 n ≡ body → read_at padded.buffer 6 (length (inner body)) ≡ inner body
  read-padded h =
      read_at_append padded.buffer 6 2 (n + padding (n + 2)) 8 (length (inner body)) refl
        (omega (arith, length-inner body))
      ∙ ap₂ ◌++◌ front (
          read_at_append padded.buffer 8 n (padding (n + 2)) (8 + n) (n + padding (n + 2)) refl refl
          ∙ ap₂ ◌++◌ middle back)
    where
      pad : List ℕ
      pad = replicate (padding (n + 2)) 0x33

      front : read_at padded.buffer 6 2 ≡ to_bytes 2 n
      front =
          read_at-write_at_outside (write_at f 6 (to_bytes 2 n)) 6 (8 + n) 2 pad (inl (omega arith))
          ∙ read-written f 6 (to_bytes 2 n) 2 (length-to_bytes 2 n)

      middle : read_at padded.buffer 8 n ≡ body
      middle =
          read_at-write_at_outside (write_at f 6 (to_bytes 2 n)) 8 (8 + n) n pad (inl (omega arith))
          ∙ read_at-write_at_outside f 8 6 n (to_bytes 2 n)
              (inr (omega (arith, length-to_bytes 2 n)))
          ∙ h

      back : read_at padded.buffer (8 + n) (padding (n + 2)) ≡ pad
      back =
          read-written (write_at f 6 (to_bytes 2 n)) (8 + n) pad (padding (n + 2))
            (length-replicate (padding (n + 2)) 0x33)

  module _ (fits : n ≤ 65510) where
    length_written :
        write_message_length (record { message = plain; output_buffer_start = 8 }) ≡ with_length
    unfolding write_message_length
    length_written = let e : u16 (n + 2) ≡ n + 2 = omega arith in rw e refl

    padding_written :
        (if (n + 2) % 8 == 0
          then with_length.message
          else add_padding_bytes (8 - (n + 2) % 8) with_length.message)
        ≡ padded
    unfolding add_padding_bytes can_add
    padding_written = elim (Bool-cases ((n + 2) % 8 == 0)) [
      | inl e ↦ rw e (message_eq (omega arith) refl (unfold write_at in refl))
      | inr e ↦
          let room : ltb (8 - (n + 2) % 8 + (8 + n)) 65521 ≡ true = ground arith in
          rw (e, room) (message_eq (omega arith) refl refl)
    ]

    pub xtea_encrypt-framed :
        (key out : List ℕ)
        → read_at f 8 n ≡ body
        → encrypt (inner body) key ≡ some out
        → xtea_encrypt key with_length
          ≡ some (record {
            message = record padded { buffer = write_at padded.buffer 6 out };
            output_buffer_start = 6;
          })
    unfolding xtea_encrypt encrypt_output
    xtea_encrypt-framed key out h e = ap (encrypt_output key 6) padding_written ∙ encrypted
      where
        encrypted :
            encrypt_output key 6 padded
            ≡ some (record {
              message = record padded { buffer = write_at padded.buffer 6 out };
              output_buffer_start = 6;
            })
        encrypted =
            let same : n + 2 + padding (n + 2) ≡ length (inner body) = sym (length-inner body) in
            let stored = ap (read_at padded.buffer 6) same ∙ read-padded h in
            ap (store_output 6 padded) (ap (λ bs. encrypt bs key) stored ∙ e)

  -- The frame: the size of the rest, a checksum, and what was encrypted.
  abbrev pub frame : List ℕ → ℕ → OutputMessage
  frame out checksum = record {
    message = record padded {
      length = length (inner body) + 6;
      buffer =
          write_at (write_at (write_at padded.buffer 6 out) 2 (to_bytes 4 checksum)) 0
            (to_bytes 2 (length (inner body) + 4));
    };
    output_buffer_start = 0;
  }

  module _ (fits : n ≤ 65510) (out : List ℕ) where
    abbrev encrypted : OutputMessage
    encrypted = record {
      message = record padded { buffer = write_at padded.buffer 6 out };
      output_buffer_start = 6;
    }

    headers_written :
        (checksum : ℕ) → write_message_length (add_header 4 checksum encrypted) ≡ frame out checksum
    unfolding write_message_length add_header
    headers_written checksum =
        let total = length-inner body in
        let most : n + 2 + padding (n + 2) ≤ 65512 = ground arith in
        let e4 : u16 (n + 2 + padding (n + 2) + 4) ≡ length (inner body) + 4 = omega arith in
        let e6 : u16 (u16 (n + 2 + padding (n + 2) + 4) + 2) ≡ length (inner body) + 6 =
          omega arith in
        ap (λ m. record { message = m; output_buffer_start = 0 })
          (message_eq e6 refl (
            ap
              (λ k.
                write_at (write_at (write_at padded.buffer 6 out) 2 (to_bytes 4 checksum)) 0
                  (to_bytes 2 k))
              e4))

    crypto_header :
        (mode : ChecksumMode) (k : ℕ)
        → mode ≢ disabled
        → (checksum next : ℕ) × (add_crypto_header mode k encrypted ≡ (frame out checksum, next))
    unfolding add_crypto_header
    crypto_header disabled k h = absurd (h refl)
    crypto_header adler k h =
        let checksum = adler_checksum (output encrypted) in
        (checksum, k, ap (λ o. (o, k)) (headers_written checksum))
    crypto_header sequence k h =
        (k, (k + 1) % 2 ^ 32, ap (λ o. (o, (k + 1) % 2 ^ 32)) (headers_written k))

    -- Sending a body that fits, encrypted and with a checksum, gives a frame.
    pub on_send_message-frame :
        (p : Protocol)
        → p.raw_messages ≡ false
        → p.encryption_enabled ≡ true
        → p.checksum_mode ≢ disabled
        → read_at f 8 n ≡ body
        → encrypt (inner body) p.key ≡ some out
        → (checksum next : ℕ) × (on_send_message
              (record { message = plain; output_buffer_start = 8 })
              p
            ≡ some (frame out checksum, record p { sequence_number = next }))
    unfolding on_send_message add_headers
    on_send_message-frame p raw enc mode there cipher =
        let (checksum, next, e) = crypto_header p.checksum_mode p.sequence_number mode in
        (
          checksum,
          next,
          branch
              ∙ ap (add_headers p) (
                  ap (xtea_encrypt p.key) (length_written fits)
                  ∙ xtea_encrypt-framed fits p.key out there cipher)
              ∙ ap (λ r. some (r.0, record p { sequence_number = r.1 })) e,
        )
      where
        start : OutputMessage
        start = record { message = plain; output_buffer_start = 8 }

        branch :
            on_send_message start p
            ≡ add_headers p (xtea_encrypt p.key (write_message_length start))
        branch = branches p.raw_messages p.encryption_enabled raw enc _ _ _
