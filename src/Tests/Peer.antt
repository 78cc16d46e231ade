-- ===== src/Tests/Peer.antt =====
-- Test data: a host over the pipe, with a count of its sockets.
use shared_state_async.Prelude.{false, true, ℕ, zero, suc, ◌-◌, ◌==◌, [], ◌∷◌, ◌≡◌, refl}
use shared_state_async.Prelude.Bytes.{Bytes}
use shared_state_async.Errors.{ok}
use shared_state_async.Wire.Endian.{little}
use shared_state_async.Wire.Preserving.{IsKept}
use shared_state_async.Sync.{Host}
use shared_state_async.Sync.Closing.{Counts}
use shared_state_async.Tests.Pipe.{Pipe, pipe, read_byte, write_byte}
use shared_state_async.Tests.Storage.{json_ne, lime, received}

abbrev pub peer_host : Host Pipe ℕ ℕ
peer_host = record {
  system = pipe;
  endian = little;
  connect = λ peer w. (ok tt, record w { sockets = suc w.sockets });
  close_afd = λ w. (ok tt, record w { sockets = w.sockets - 1 });
  collect_stat = λ stats w. (ok tt, w);
  notify_hooks = λ name t w. (ok true, w);
  from_state_slice = λ t. 123 ∷ 125 ∷ [];
  to_state_slice = λ bs. received;
  json_ne = json_ne;
  author_place_older = lime;
  is_loopback_net = λ peer. peer == 0;
  meanwhile = λ w s. s;
  has_replaced = λ name w. false;
}

read_byte-sockets :
    (n m : ℕ) (bs : Bytes) (w : Pipe) → w.sockets ≡ m → (read_byte n bs w).1.sockets ≡ m
read_byte-sockets zero m bs w h = h
read_byte-sockets (suc n) m [] w h = h
read_byte-sockets (suc n) m (b ∷ bs) w h = h

write_byte-sockets :
    (m : ℕ) (bs : Bytes) (w : Pipe) → w.sockets ≡ m → (write_byte bs w).1.sockets ≡ m
write_byte-sockets m [] w h = h
write_byte-sockets m (b ∷ bs) w h = h

pub peer_host-IsKept : (m : ℕ) → IsKept pipe (λ w. w.sockets ≡ m)
peer_host-IsKept m = record {
  by_recv = λ n. record { preserved = λ w h. read_byte-sockets n m w.coming w h };
  by_send = λ buffer. record { preserved = λ w h. write_byte-sockets m buffer w h };
  by_now = λ w h. h;
}

abbrev pub peer_counts : Counts peer_host
peer_counts = record {
  open_sockets = λ w. w.sockets;
  by_system = peer_host-IsKept;
  by_connect = λ peer w. (λ e. refl, λ ne. absurd (ne refl));
  by_close = λ w. refl;
  by_collect = λ n stats. record { preserved = λ w h. h };
  by_hooks = λ n name t. record { preserved = λ w h. h };
}
