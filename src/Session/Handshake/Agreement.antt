-- ===== src/Session/Handshake/Agreement.antt =====
-- internal/session/session.go: both sides of a handshake end with sessions that understand each
-- other.
use goxfer.Base.{
  ◌≡◌, refl, ap, ◌∙◌, true, false, [], ◌++◌, Option, none, some, Bytes, arith, done, >>=-done, ok,
  inl, inr,
}
use goxfer.Protocol.Frame.{encode_frame}
use goxfer.Protocol.Frame.RoundTrip.{decode_frame-encode_frame, encode_frame_cases}
use goxfer.Session.{CipherSuite, Conn, Session, write_outcome}
use goxfer.Session.Handshake.{
  NoiseHandshake, Handshake, prologue, framed, written, sending, both, write_handshake_message,
  read_handshake_message, run_handshake, established, new_session,
}

-- What the XX pattern promises of an initiator at `i0` and a responder at `r0`: three messages,
-- and two cipher states on each side, paired crosswise.
pub record IsXx (C : CipherSuite) (H : NoiseHandshake C.State) (i0 r0 : H.State) : Type 0 where
  pub i1 : H.State
  pub i2 : H.State
  pub i3 : H.State
  pub r1 : H.State
  pub r2 : H.State
  pub r3 : H.State
  pub m1 : Bytes
  pub m2 : Bytes
  pub m3 : Bytes
  pub p1 : Bytes
  pub p2 : Bytes
  pub p3 : Bytes
  pub c : C.State
  pub d : C.State
  pub c' : C.State
  pub d' : C.State
  pub write1 : H.write_message i0 prologue ≡ some (m1, none, none, i1)
  pub read1 : H.read_message r0 m1 ≡ some (p1, none, none, r1)
  pub write2 : H.write_message r1 prologue ≡ some (m2, none, none, r2)
  pub read2 : H.read_message i1 m2 ≡ some (p2, none, none, i2)
  pub write3 : H.write_message i2 [] ≡ some (m3, some c, some d, i3)
  pub read3 : H.read_message r2 m3 ≡ some (p3, some c', some d', r3)
  pub forth : C.Paired c c'
  pub back : C.Paired d' d

-- Two sessions from one handshake: each side has read what the other wrote, and no more.
pub record Agreed (C : CipherSuite) (H : NoiseHandshake C.State) (i0 r0 : H.State) (ci cr : Conn)
    (rest_i rest_r : Bytes) : Type 0 where
  pub f1 : Bytes
  pub f2 : Bytes
  pub f3 : Bytes
  pub si : Session C.State
  pub sr : Session C.State
  pub initiator : new_session H (record ci { incoming = f2 ++ rest_i }) (some i0) true ≡ ok si
  pub responder :
      new_session H (record cr { incoming = f1 ++ (f3 ++ rest_r) }) (some r0) false ≡ ok sr
  pub initiator_sent : si.conn.sent ≡ (ci.sent ++ f1) ++ f3
  pub responder_sent : sr.conn.sent ≡ cr.sent ++ f2
  pub initiator_left : si.conn.incoming ≡ rest_i
  pub responder_left : sr.conn.incoming ≡ rest_r
  pub forth : C.Paired si.send sr.receive
  pub back : C.Paired sr.send si.receive

module _ {Cipher : Type 0} (H : NoiseHandshake Cipher) where
  frame_of :
      (s t : H.State) (payload message : Bytes) (c d : Option Cipher)
      → H.write_message s payload ≡ some (message, c, d, t)
      → (frame : Bytes) × (encode_frame message ≡ ok frame)
  frame_of s t payload message c d e = elim (encode_frame_cases message) [
    | inl (fits, (frame, framed, size)) ↦ (frame, framed)
    | inr (big, refused) ↦ absurd (omega (arith, H.length-write_message s t payload message c d e))
  ]

  write_handshake_message_done :
      (conn : Conn) (s t : H.State) (payload message frame : Bytes) (c d : Option Cipher)
      → conn.writes ≡ []
      → H.write_message s payload ≡ some (message, c, d, t)
      → encode_frame message ≡ ok frame
      → write_handshake_message H payload (record { conn = conn; noise = s })
        ≡ done (c, d) (record { conn = record conn { sent = conn.sent ++ frame }; noise = t })
  unfolding write_handshake_message write_outcome
  write_handshake_message_done conn s t payload message frame c d quiet e f =
      let h : Handshake H = record { conn = conn; noise = s } in
      let h' : Handshake H = record { conn = conn; noise = t } in
      ap (sending H h) e
      ∙ ap (framed H h' (c, d)) f
      ∙ ap (λ ws. written H h' (c, d) (write_outcome frame conn ws)) quiet

  read_handshake_message_done :
      (conn : Conn) (s t : H.State) (payload message frame rest : Bytes) (c d : Option Cipher)
      → H.read_message s message ≡ some (payload, c, d, t)
      → encode_frame message ≡ ok frame
      → read_handshake_message H
          (record { conn = record conn { incoming = frame ++ rest }; noise = s })
        ≡ done (c, d) (record { conn = record conn { incoming = rest }; noise = t })
  unfolding read_handshake_message
  read_handshake_message_done conn s t payload message frame rest c d e f =
      rw (decode_frame-encode_frame message frame rest f, e)

module _ (C : CipherSuite) (H : NoiseHandshake C.State) where
  -- If the noise library's states follow the XX pattern and every write goes through, both sides
  -- of newSession succeed on the frames that the other side writes: each has read just these, and
  -- each side's sending cipher state is paired with the other side's receiving one.
  pub new_session-new_session :
      (i0 r0 : H.State) (ci cr : Conn) (rest_i rest_r : Bytes)
      → IsXx C H i0 r0
      → ci.writes ≡ []
      → cr.writes ≡ []
      → Agreed C H i0 r0 ci cr rest_i rest_r
  unfolding new_session run_handshake
  new_session-new_session i0 r0 ci cr rest_i rest_r x qi qr =
      let (f1, e1) = frame_of H i0 x.i1 prologue x.m1 none none x.write1 in
      let (f2, e2) = frame_of H x.r1 x.r2 prologue x.m2 none none x.write2 in
      let (f3, e3) = frame_of H x.i2 x.i3 [] x.m3 (some x.c) (some x.d) x.write3 in
      let ci0 : Conn = record ci { incoming = f2 ++ rest_i } in
      let ci1 : Conn = record ci0 { sent = ci.sent ++ f1 } in
      let ci2 : Conn = record ci1 { incoming = rest_i } in
      let ci3 : Conn = record ci2 { sent = (ci.sent ++ f1) ++ f3 } in
      let cr0 : Conn = record cr { incoming = f1 ++ (f3 ++ rest_r) } in
      let cr1 : Conn = record cr { incoming = f3 ++ rest_r } in
      let cr2 : Conn = record cr1 { sent = cr.sent ++ f2 } in
      let cr3 : Conn = record cr2 { incoming = rest_r } in
      record {
        f1 = f1;
        f2 = f2;
        f3 = f3;
        si = record { conn = ci3; send = x.c; receive = x.d };
        sr = record { conn = cr3; send = x.d'; receive = x.c' };
        initiator = ap (established H true) (
            >>=-done (write_handshake_message H prologue) _ (record { conn = ci0; noise = i0 })
              (write_handshake_message_done H ci0 i0 x.i1 prologue x.m1 f1 none none qi x.write1 e1)
            ∙ >>=-done (read_handshake_message H) _ (record { conn = ci1; noise = x.i1 })
                (read_handshake_message_done H ci1 x.i1 x.i2 x.p2 x.m2 f2 rest_i none none x.read2
                  e2)
            ∙ >>=-done (write_handshake_message H []) (both H) (record { conn = ci2; noise = x.i2 })
                (write_handshake_message_done H ci2 x.i2 x.i3 [] x.m3 f3 (some x.c) (some x.d) qi
                  x.write3 e3));
        responder = ap (established H false) (
            >>=-done (read_handshake_message H) _ (record { conn = cr0; noise = r0 })
              (read_handshake_message_done H cr r0 x.r1 x.p1 x.m1 f1 (f3 ++ rest_r) none none
                x.read1 e1)
            ∙ >>=-done (write_handshake_message H prologue) _ (record { conn = cr1; noise = x.r1 })
                (write_handshake_message_done H cr1 x.r1 x.r2 prologue x.m2 f2 none none qr x.write2
                  e2)
            ∙ >>=-done (read_handshake_message H) (both H) (record { conn = cr2; noise = x.r2 })
                (read_handshake_message_done H cr2 x.r2 x.r3 x.p3 x.m3 f3 rest_r (some x.c')
                  (some x.d') x.read3 e3));
        initiator_sent = refl;
        responder_sent = refl;
        initiator_left = refl;
        responder_left = refl;
        forth = x.forth;
        back = x.back;
      }
