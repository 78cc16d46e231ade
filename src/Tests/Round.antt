-- ===== src/Tests/Round.antt =====
-- A round of synchronization of two hosts at concrete inputs.
use shared_state_async.Prelude.{false, ℕ, [], ◌∷◌, ◌≡◌, not, refl, arith, true}
use shared_state_async.Prelude.Map.{lookup, insert, place, replace, erase}
use shared_state_async.Prelude.Bytes.{Bytes, bytes, bytes_eq, bytes_less, bytes_key}
use shared_state_async.Wire.Endian.{be32, store32}
use shared_state_async.Wire.Handshake.{wire_proto_version}
use shared_state_async.Wire.Message.Frame.{IsMessage}
use shared_state_async.State.{StateSlice, SharedState}
use shared_state_async.State.Merge.{
  merge, merge_slice, merge_loop, merge_entry, merge_known, is_discarded,
}
use shared_state_async.Sync.{Host, Synced, state_message, client_session, server_session}
use shared_state_async.Sync.Meeting.{Meets}
use shared_state_async.Sync.Session.{client_bytes, server_bytes, Exchanged, sync_session-refines}
use shared_state_async.Tests.Pipe.{Pipe, pipe_stream}
use shared_state_async.Tests.Peer.{peer_host}
use shared_state_async.Sync.Agreement.{entry_of, sync_session_agrees}
use shared_state_async.State.Merge.Lookup.{winner}
use shared_state_async.Tests.Storage.{
  json_ne, lime, node, babel, held, received, storage, conf, held-IsMap, received-IsMap,
}

-- What the server holds after the merge.
abbrev winners : StateSlice ℕ
winners = (merge_slice json_ne lime true held received).t_state

-- A codec for the two states that are sent.
abbrev lime_host : Host Pipe ℕ ℕ
lime_host = peer_host

abbrev node_host : Host Pipe ℕ ℕ
node_host = record peer_host { author_place_older = node; to_state_slice = λ bs. winners }

abbrev mirror : SharedState ℕ
mirror = record storage { m_states = (babel, received) ∷ [] }

abbrev merged : SharedState ℕ
merged = (merge json_ne lime true babel received storage).1

abbrev mirrored : SharedState ℕ
mirrored = (merge json_ne node true babel winners mirror).1

abbrev coming_from : Bytes → Pipe
coming_from bs = record { coming = bs; gone = []; time = 0; sockets = 1 }

abbrev served : Pipe
served = coming_from (
    client_bytes (store32 node_host.endian wire_proto_version)
      (state_message node_host babel received) (state_message lime_host babel winners))

abbrev answered : Pipe
answered =
    coming_from (
      server_bytes (state_message node_host babel received) (state_message lime_host babel winners))

alone : ((w : Pipe) (s : SharedState ℕ) → s ≡ s) × ((name : Bytes) (w : Pipe) → false ≡ false)
alone = ((λ w s. refl), λ name w. refl)

request-IsMessage : IsMessage (state_message node_host babel received)
request-IsMessage = record {
  named = omega arith;
  name_fits = omega arith;
  filled = omega arith;
  data_fits = omega arith;
}

reply-IsMessage : IsMessage (state_message lime_host babel winners)
reply-IsMessage = record {
  named = omega arith;
  name_fits = omega arith;
  filled = omega arith;
  data_fits = omega arith;
}

sync_session-refines_example :
    Meets
      (Exchanged lime_host pipe_stream alone merged babel 2
        (server_bytes
          (state_message node_host babel received)
          (state_message lime_host babel winners))
        served)
      (server_session lime_host 7 (storage, served))
    × Meets
        (Exchanged node_host pipe_stream alone mirrored babel 0
          (client_bytes
            (store32 node_host.endian wire_proto_version)
            (state_message node_host babel received)
            (state_message lime_host babel winners))
          answered)
        (client_session node_host babel 8 (mirror, answered))
unfolding merge merge_slice merge_loop merge_entry merge_known is_discarded lookup insert place
    replace erase bytes_eq bytes_less be32 store32
sync_session-refines_example =
    sync_session-refines lime_host node_host pipe_stream pipe_stream alone alone 7 8 babel 2 0
      storage merged mirror mirrored received winners served answered refl refl request-IsMessage
      reply-IsMessage refl refl refl refl refl refl

sync_session_agrees_example :
    Meets
      (λ (r : Synced ℕ) u.
        entry_of babel (bytes "b") u.0
        ≡ winner lime_host.author_place_older
            (not (lime_host.is_loopback_net 7))
            (lookup (bytes "b") held)
            (lookup (bytes "b") received))
      (server_session lime_host 7 (storage, served))
    × Meets
        (λ (r : Synced ℕ) u.
          entry_of babel (bytes "b") u.0
          ≡ winner lime_host.author_place_older
              (not (lime_host.is_loopback_net 7))
              (lookup (bytes "b") held)
              (lookup (bytes "b") received))
        (client_session node_host babel 8 (mirror, answered))
unfolding merge_slice merge_loop merge_entry merge_known is_discarded lookup insert place replace
    erase bytes_eq bytes_less be32 store32
sync_session_agrees_example =
    sync_session_agrees lime_host node_host pipe_stream pipe_stream alone alone 7 8 babel
      (bytes "b") storage mirror held received conf conf served answered refl refl refl refl
      held-IsMap received-IsMap refl refl refl refl request-IsMessage reply-IsMessage refl refl
