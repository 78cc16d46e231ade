-- ===== src/Wire/Handshake/Laws.antt =====
-- What the handshakes of src/sharedstate.cc exchange, and whom they accept.
use shared_state_async.Prelude.{
  ℕ, ◌-◌, ◌/◌, ◌^◌, ◌<◌, ◌≤◌, Bool, true, false, [], ◌++◌, length, ◌==◌, if◌then◌else◌, ◌≡◌, refl,
  arith, ap, ◌∙◌, Bool-cases, inl, inr,
}
use shared_state_async.Prelude.Bytes.{Bytes}
use shared_state_async.Errors.{Result, ok, fail, protocol_error}
use shared_state_async.Wire.Endian.{Endian, be32, store32, store32-htonl, ntohl-load32, length-be32}
use shared_state_async.Wire.Socket.{System, recv, send}
use shared_state_async.Wire.Socket.Laws.{IsStream}
use shared_state_async.Wire.Socket.Exact.{recv_exact, recv_upto, send_exact}
use shared_state_async.Wire.Io.{fail_if}
use shared_state_async.Wire.Message.{clock, NetworkStats, overlay}
use shared_state_async.Wire.Message.Frame.{overlay_full, length_read}
use shared_state_async.Wire.Handshake.{wire_proto_version, server_hand_shake, client_hand_shake}

-- The statistics with the time between two readings of the clock.
abbrev pub timed : {Addr : Type 0} → NetworkStats Addr → ℕ → ℕ → NetworkStats Addr
timed net_stats b e = record net_stats { m_rtt_ext = (e - b) / 1000 }

server_run :
    {W Addr : Type 0} (sys : System W) (endian : Endian) (net_stats : NetworkStats Addr) (v : ℕ)
    (echo : Bytes) (w w₁ w₂ w₃ : W) (k : ℕ)
    → v < 2 ^ 32
    → recv sys 4 w ≡ (ok (be32 v), w₁)
    → send sys (be32 wire_proto_version) (sys.now w₁).1 ≡ (ok k, w₂)
    → recv sys 4 w₂ ≡ (ok echo, w₃)
    → server_hand_shake sys endian net_stats w ≡ (
        if wire_proto_version == v
        then (ok (timed net_stats (sys.now w₁).0 (sys.now w₃).0), (sys.now w₃).1)
        else (fail protocol_error, w₁))
unfolding server_hand_shake clock fail_if
server_run sys endian net_stats v echo w w₁ w₂ w₃ k small e₁ e₂ e₃ =
    rw (e₁, length_read endian v small)
      (elim (Bool-cases (wire_proto_version == v)) [
        | inl t ↦ rw (t, store32-htonl endian wire_proto_version, e₂, e₃) refl
        | inr f ↦ rw f refl
      ])

client_run :
    {W Addr : Type 0} (sys : System W) (endian : Endian) (net_stats : NetworkStats Addr) (v : ℕ)
    (read : Bytes) (w w₁ w₂ w₃ : W) (k j : ℕ)
    → overlay read (be32 wire_proto_version) ≡ be32 v
    → v < 2 ^ 32
    → send sys (be32 wire_proto_version) (sys.now w).1 ≡ (ok k, w₁)
    → recv sys 4 w₁ ≡ (ok read, w₂)
    → send sys (store32 endian v) (sys.now w₂).1 ≡ (ok j, w₃)
    → client_hand_shake sys endian net_stats w ≡ (
        if wire_proto_version == v
        then (ok (timed net_stats (sys.now w).0 (sys.now w₂).0), w₃)
        else (fail protocol_error, (sys.now w₂).1))
unfolding client_hand_shake clock fail_if
client_run sys endian net_stats v read w w₁ w₂ w₃ k j o small e₁ e₂ e₃ =
    rw (store32-htonl endian wire_proto_version, e₁, e₂, o, ntohl-load32 endian v small)
      (elim (Bool-cases (wire_proto_version == v)) [ inl t ↦ rw (t, e₃) refl | inr f ↦ rw f refl ])

same_length : (v : ℕ) → length (be32 v) ≡ length (be32 wire_proto_version)
same_length v = omega (arith, length-be32 v, length-be32 wire_proto_version)

either : (t : Bool) (bs : Bytes) → (if t then bs else bs) ≡ bs
either true bs = refl
either false bs = refl

module _ {W : Type 0} (sys : System W) (st : IsStream sys) (endian : Endian) where
  open st use {inbox, outbox, now_inbox, now_outbox}

  -- The two ends of a handshake.
  branch :
      {A : Type 0} (t : Bool) (f : ℕ → ℕ → Result A) (g : Result A) (r : Result A × W)
      (bad good : W) (b e : ℕ) {sent unsent taken left : Bytes}
      → r ≡ (if t then (f b e, good) else (g, bad))
      → outbox good ≡ sent
      → outbox bad ≡ unsent
      → inbox good ≡ taken
      → inbox bad ≡ left
      → (w' : W) × (b : ℕ) × (e : ℕ) × (r ≡ (if t then f b e else g, w'))
        × (outbox w' ≡ (if t then sent else unsent))
        × (inbox w' ≡ (if t then taken else left))
  branch true f g r bad good b e h o o' i i' = (good, b, e, h, o, i)
  branch false f g r bad good b e h o o' i i' = (bad, b, e, h, o', i')

  -- On a stream on which no call fails, the server takes a client that announces the version of
  -- this code, in network byte order: it answers with that version, takes four more bytes,
  -- whatever they are, and keeps a time between two readings of the clock in its statistics.
  -- Another version is refused with `protocol_error` before anything is sent, and the rest stays
  -- in the stream.
  pub server_hand_shake_lem :
      {Addr : Type 0} (net_stats : NetworkStats Addr) (v : ℕ) (echo rest : Bytes) (w : W)
      → v < 2 ^ 32
      → length echo ≡ 4
      → inbox w ≡ be32 v ++ (echo ++ rest)
      → (w' : W) × (b : ℕ) × (e : ℕ) × (server_hand_shake sys endian net_stats w
          ≡ (if wire_proto_version == v then ok (timed net_stats b e) else fail protocol_error, w'))
        × (outbox w'
            ≡ (if wire_proto_version == v then outbox w ++ be32 wire_proto_version else outbox w))
        × (inbox w' ≡ (if wire_proto_version == v then rest else echo ++ rest))
  server_hand_shake_lem net_stats v echo rest w small four h =
      let (w₁, e₁, i₁, o₁) = recv_exact sys st 4 (be32 v) (echo ++ rest) w (length-be32 v) h in
      let (w₂, e₂, o₂, i₂) = send_exact sys st (be32 wire_proto_version) (sys.now w₁).1 in
      let (w₃, e₃, i₃, o₃) = recv_exact sys st 4 echo rest w₂ four (i₂ ∙ now_inbox w₁ ∙ i₁) in
      let run =
        server_run sys endian net_stats v echo w w₁ w₂ w₃ (length (be32 wire_proto_version)) small
          e₁ e₂ e₃ in
      branch (wire_proto_version == v) _ _ _ w₁ (sys.now w₃).1 (sys.now w₁).0 (sys.now w₃).0 run
        (now_outbox w₃ ∙ o₃ ∙ o₂ ∙ ap (λ o. o ++ be32 wire_proto_version) (now_outbox w₁ ∙ o₁)) o₁
        (now_inbox w₃ ∙ i₃) i₁

  client_ends :
      {Addr : Type 0} (net_stats : NetworkStats Addr) (v : ℕ) (read rest : Bytes) (w : W)
      → v < 2 ^ 32
      → overlay read (be32 wire_proto_version) ≡ be32 v
      → length read ≤ 4
      → (length read < 4 → rest ≡ [])
      → inbox w ≡ read ++ rest
      → (w' : W) × (b : ℕ) × (e : ℕ) × (client_hand_shake sys endian net_stats w
          ≡ (if wire_proto_version == v then ok (timed net_stats b e) else fail protocol_error, w'))
        × (outbox w' ≡ (
            if wire_proto_version == v
            then (outbox w ++ be32 wire_proto_version) ++ store32 endian v
            else outbox w ++ be32 wire_proto_version))
        × (inbox w' ≡ (if wire_proto_version == v then rest else rest))
  client_ends net_stats v read rest w small o fits last h =
      let (w₁, e₁, o₁, i₁) = send_exact sys st (be32 wire_proto_version) (sys.now w).1 in
      let (w₂, e₂, i₂, o₂) = recv_upto sys st 4 read rest w₁ fits last (i₁ ∙ now_inbox w ∙ h) in
      let (w₃, e₃, o₃, i₃) = send_exact sys st (store32 endian v) (sys.now w₂).1 in
      let sent : outbox w₂ ≡ outbox w ++ be32 wire_proto_version =
        o₂ ∙ o₁ ∙ ap (λ o. o ++ be32 wire_proto_version) (now_outbox w) in
      let run =
        client_run sys endian net_stats v read w w₁ w₂ w₃ (length (be32 wire_proto_version))
          (length (store32 endian v)) o small e₁ e₂ e₃ in
      branch (wire_proto_version == v) _ _ _ (sys.now w₂).1 w₃ (sys.now w).0 (sys.now w₂).0 run
        (o₃ ∙ ap (λ o. o ++ store32 endian v) (now_outbox w₂ ∙ sent)) (now_outbox w₂ ∙ sent)
        (i₃ ∙ now_inbox w₂ ∙ i₂) (now_inbox w₂ ∙ i₂)

  -- On a stream on which no call fails, the client announces its version in network byte order and
  -- reads the server's. The same version is taken: it is sent back, in the byte order of this
  -- host, and the statistics keep a time between two readings of the clock. Another one is refused
  -- with `protocol_error`.
  pub client_hand_shake_lem :
      {Addr : Type 0} (net_stats : NetworkStats Addr) (v : ℕ) (rest : Bytes) (w : W)
      → v < 2 ^ 32
      → inbox w ≡ be32 v ++ rest
      → (w' : W) × (b : ℕ) × (e : ℕ) × (client_hand_shake sys endian net_stats w
          ≡ (if wire_proto_version == v then ok (timed net_stats b e) else fail protocol_error, w'))
        × (outbox w' ≡ (
            if wire_proto_version == v
            then (outbox w ++ be32 wire_proto_version) ++ store32 endian v
            else outbox w ++ be32 wire_proto_version))
        × (inbox w' ≡ rest)
  client_hand_shake_lem net_stats v rest w small h =
      let (w', b, e, r, o, i) =
        client_ends net_stats v (be32 v) rest w small
          (overlay_full (be32 v) (be32 wire_proto_version) (same_length v))
          (omega (arith, length-be32 v)) (λ less. absurd (omega (arith, less, length-be32 v))) h in
      (w', b, e, r, o, i ∙ either (wire_proto_version == v) rest)

  -- On a stream on which no call fails, a server that closes the connection without a word is
  -- taken for one of the same version.
  pub client_hand_shake_closed :
      {Addr : Type 0} (net_stats : NetworkStats Addr) (w : W)
      → inbox w ≡ []
      → (w' : W) × (b : ℕ) × (e : ℕ) × (client_hand_shake sys endian net_stats w
          ≡ (ok (timed net_stats b e), w'))
        × (outbox w' ≡ (outbox w ++ be32 wire_proto_version) ++ store32 endian wire_proto_version)
        × (inbox w' ≡ [])
  client_hand_shake_closed net_stats w h =
      client_ends net_stats wire_proto_version [] [] w (omega arith) refl (omega arith)
        (λ less. refl) h
