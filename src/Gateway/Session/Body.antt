-- ===== src/Gateway/Session/Body.antt =====
-- The body that an inbound session of crates/gateway/src/inbound.rs hands on.
use vulos_relay.Base.{
  ◌+◌, ◌≤◌, ◌<◌, ◌≡◌, refl, sym, ap, ◌∙◌, inl, inr, true, false, Bool-cases, List, [], ◌∷◌, ◌++◌,
  map, append_assoc, append-nil, Bytes, bytes_beq, codes, ltb, ◌==◌, if◌then◌else◌, length,
  length-append, arith,
}
use vulos_relay.Gateway.Smtp.{
  SmtpReply, data_lines, command, InboundGateway, MxSession, reset_transaction, too_big, no_reply,
  or_empty,
}
use vulos_relay.Gateway.Session.{end_data, unstuffed, take_line, feed_data, feed_line_bytes}
use vulos_relay.Gateway.Session.Vetted.{feed}

-- What a client sends for a line of a message: a dot before a dot (RFC 5321 section 4.5.2).
unfoldable pub stuffed : Bytes → Bytes
stuffed [] = []
stuffed (c ∷ line) = if c == 46 then 46 ∷ c ∷ line else c ∷ line

-- The message of these lines, each ended by CRLF.
unfoldable pub join_lines : List Bytes → Bytes
join_lines [] = []
join_lines (line ∷ lines) = line ++ 13 ∷ 10 ∷ join_lines lines

module _ {W : Type 0} (gw : InboundGateway W) where
  unstuffed-stuffed : (line : Bytes) → unstuffed gw (stuffed line) ≡ line
  unfolding stuffed
  unstuffed-stuffed [] = refl
  unstuffed-stuffed (c ∷ line) = ground arith

  not_end : (line : Bytes) → bytes_beq (stuffed line) (codes ".") ≡ false
  unfolding stuffed bytes_beq
  not_end [] = refl
  not_end (c ∷ []) = ground arith
  not_end (c ∷ d ∷ line) = ground arith

  -- A session that takes a message and has this much of it; and one that has given up.
  abbrev pub filled : MxSession → Bytes → MxSession
  filled s m = record s { phase = data_lines; message = m; size_exceeded = false }

  abbrev overfull : MxSession → MxSession
  overfull s = record s { phase = data_lines; message = []; size_exceeded = true }

  feed-filled :
      (s : MxSession) (m line : Bytes) (w : W)
      → feed_line_bytes gw (filled s m) (stuffed line) w ≡ (
        no_reply,
        (if ltb gw.max_message_bytes (length m + length line + 2)
            then overfull s
            else filled s (m ++ line ++ 13 ∷ 10 ∷ [])),
        w,
      )
  unfolding feed_line_bytes feed_data take_line
  feed-filled s m line w =
      rw (not_end line)
        (ap (λ l. (no_reply, take_line gw (filled s m) l, w)) (unstuffed-stuffed line))

  feed-overfull :
      (s : MxSession) (line : Bytes) (w : W)
      → feed_line_bytes gw (overfull s) (stuffed line) w ≡ (no_reply, overfull s, w)
  unfolding feed_line_bytes feed_data take_line
  feed-overfull s line w = rw (not_end line) refl

  all-overfull :
      (s : MxSession) (lines : List Bytes) (w : W)
      → feed gw (overfull s) (map stuffed lines) w ≡ (overfull s, w)
  unfolding feed
  all-overfull s [] w = refl
  all-overfull s (line ∷ lines) w =
      ap (λ p. feed gw p.1 (map stuffed lines) p.2) (feed-overfull s line w)
      ∙ all-overfull s lines w

  length-join :
      (line : Bytes) (lines : List Bytes)
      → length (join_lines (line ∷ lines)) ≡ length line + 2 + length (join_lines lines)
  unfolding join_lines
  length-join line lines = omega (arith, length-append line (13 ∷ 10 ∷ join_lines lines))

  joined :
      (m line : Bytes) (lines : List Bytes)
      → m ++ line ++ 13 ∷ 10 ∷ [] ++ join_lines lines ≡ m ++ join_lines (line ∷ lines)
  unfolding join_lines
  joined m line lines =
      append_assoc (m ++ line) (13 ∷ 10 ∷ []) (join_lines lines)
      ∙ append_assoc m line (13 ∷ 10 ∷ join_lines lines)

  all-filled :
      (s : MxSession) (m : Bytes) (lines : List Bytes) (w : W)
      → length m + length (join_lines lines) ≤ gw.max_message_bytes
      → feed gw (filled s m) (map stuffed lines) w ≡ (filled s (m ++ join_lines lines), w)
  unfolding feed join_lines
  all-filled s m [] w h = ap (λ b. (filled s b, w)) (sym (append-nil m))
  all-filled s m (line ∷ lines) w h =
      let m₁ = m ++ line ++ 13 ∷ 10 ∷ [] in
      let fits : ltb gw.max_message_bytes (length m + length line + 2) ≡ false =
        ground (arith, h, length-join line lines) in
      ap (λ p. feed gw p.1 (map stuffed lines) p.2) (feed-filled s m line w)
      ∙ rw fits (
          all-filled s m₁ lines w (
            omega (
              arith,
              h,
              length-join line lines,
              length-append (m ++ line) (13 ∷ 10 ∷ []),
              length-append m line,
            )))
      ∙ ap (λ b. (filled s b, w)) (joined m line lines)

  all-over :
      (s : MxSession) (m : Bytes) (lines : List Bytes) (w : W)
      → length m ≤ gw.max_message_bytes
      → gw.max_message_bytes < length m + length (join_lines lines)
      → feed gw (filled s m) (map stuffed lines) w ≡ (overfull s, w)
  unfolding feed join_lines
  all-over s m [] w fits h = ground (arith, h)
  all-over s m (line ∷ lines) w fits h =
      let m₁ = m ++ line ++ 13 ∷ 10 ∷ [] in
      let size : length m₁ ≡ length m + length line + 2 =
        omega (arith, length-append (m ++ line) (13 ∷ 10 ∷ []), length-append m line) in
      ap (λ p. feed gw p.1 (map stuffed lines) p.2) (feed-filled s m line w)
      ∙ (elim (Bool-cases (ltb gw.max_message_bytes (length m + length line + 2))) [
        | inl q ↦ rw q (all-overfull s lines w)
        | inr q ↦ rw q (
            all-over s m₁ lines w (ground (arith, size, q))
              (omega (arith, h, size, length-join line lines)))
      ])

  abbrev pub ended : MxSession → MxSession
  ended s = record (reset_transaction s) { phase = command }

  abbrev pub delivered : MxSession → Bytes → W → SmtpReply × MxSession × W
  delivered s m w =
      let (answer, w₁) =
        gw.accept_message_with_spf (or_empty s.mail_from) (or_empty s.rcpt_to) m s.now s.spf_outcome
          w in
      (answer, ended s, w₁)

  end-filled :
      (s : MxSession) (m : Bytes) (w : W)
      → feed_line_bytes gw (filled s m) (codes ".") w ≡ delivered s m w
  unfolding feed_line_bytes feed_data end_data bytes_beq
  end-filled s m w = refl

  end-overfull :
      (s : MxSession) (w : W)
      → feed_line_bytes gw (overfull s) (codes ".") w ≡ (too_big, ended s, w)
  unfolding feed_line_bytes feed_data end_data bytes_beq
  end-overfull s w = refl

  -- When a client sends the lines of a message, dots stuffed, and the final dot to a session that has
  -- begun to take one: if the message fits the limit, exactly its lines, each with CRLF, are accepted
  -- with the session's sender, recipient and SPF outcome, and the answer is the acceptance's; if it
  -- does not fit, the answer is 552 and nothing is accepted. Either way the transaction is over.
  pub body_delivered :
      (s : MxSession) (lines : List Bytes) (w : W)
      → (let after = feed gw (filled s []) (map stuffed lines) w in
          feed_line_bytes gw after.0 (codes ".") after.1)
        ≡ (if ltb gw.max_message_bytes (length (join_lines lines))
            then (too_big, ended s, w)
            else delivered s (join_lines lines) w)
  body_delivered s lines w =
      elim (Bool-cases (ltb gw.max_message_bytes (length (join_lines lines)))) [
        | inl q ↦
            ap (λ p. feed_line_bytes gw p.0 (codes ".") p.1)
              (all-over s [] lines w (omega arith) (ground (arith, q)))
            ∙ end-overfull s w
            ∙ rw q refl
        | inr q ↦
            ap (λ p. feed_line_bytes gw p.0 (codes ".") p.1)
              (all-filled s [] lines w (ground (arith, q)))
            ∙ end-filled s (join_lines lines) w
            ∙ rw q refl
      ]
