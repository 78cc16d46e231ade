-- ===== src/Tests/Waiting.antt =====
-- The event loop, the awaited calls and what is built on them, at concrete inputs.
use shared_state_async.Prelude.{
  ℕ, suc, true, false, not, some, [], ◌∷◌, ◌++◌, length, ◌==◌, ◌≡◌, refl,
}
use shared_state_async.Prelude.Map.{lookup, insert, place, erase, nat_key}
use shared_state_async.Errors.{ok}
use shared_state_async.EventLoop.{
  IoContext, queue, register_fd, manage, attach, control, change, add_pending_op, watch_read,
  watch_write, setup, pop, events_eq, close_afd, forget, attach_readonly, attach_write_only,
}
use shared_state_async.EventLoop.Turn.{
  resume_pending_ops, resume_loop, run, turn, handle_event, handle_events, refresh, refresh_all,
  update_interest, retried,
}
use shared_state_async.EventLoop.Resuming.{resume_each, left_over, resume_pending_ops_lem}
use shared_state_async.EventLoop.Rounds.{IsSettled, run-IsSettled}
use shared_state_async.EventLoop.Counting.{Leaves, managed_fd, close_all}
use shared_state_async.Command.{
  AsyncCommand, execute, after_first_pipe, after_second_pipe, after_fork, in_parent, manage_command,
  close_command, close_std_in, close_std_out, close_output, close_process, wait_termination,
}
use shared_state_async.Command.Closing.{
  IsClosed, Gone, destroy_command, close_command-IsClosed, wait_termination-early,
}
use shared_state_async.Sockets.{connect}
use shared_state_async.Sockets.Connecting.{connect-Leaves}
use shared_state_async.Tests.Loop.{
  Machine, kernel, epoll, machine, resume, resuming, acts, empty, started, started-Reach, idle,
  processes, sockets, refusing, dialling, command,
}

-- A child process that has ended, one that runs for two waits more, and a command just started.
abbrev over : Machine
over = record machine { runs = 0 }

abbrev still : IoContext Machine ℕ
still = record empty { kernel = record machine { runs = 2 } }

abbrev running : AsyncCommand × IoContext Machine ℕ
running = (command, (execute kernel processes empty).1)

abbrev lasting : AsyncCommand × IoContext Machine ℕ
lasting = (command, still)

running_closes : (close_command kernel running).0 ≡ ok true
unfolding execute after_first_pipe after_second_pipe after_fork in_parent manage_command managed_fd
    register_fd manage attach attach_readonly attach_write_only control change close_all
    close_command close_std_in close_std_out close_output close_process close_afd forget lookup
    insert place erase
running_closes = refl

resume_pending_ops_lem_example :
    ((resume_pending_ops resume 0 started).0 ≡ ok (not (length (queue 0 started) == 0)))
    × ((resume_pending_ops resume 0 started).1
        ≡ resume_each resume resuming (queue 0 started) 0 started)
    × (queue 0 (resume_pending_ops resume 0 started).1
        ≡ left_over resume resuming (queue 0 started) 0 started)
resume_pending_ops_lem_example = resume_pending_ops_lem resume resuming 0 started

run-IsSettled_example : IsSettled epoll (run kernel resume (suc 1) started).1
unfolding setup run turn retried handle_events handle_event resume_pending_ops resume_loop lookup
    insert place register_fd manage resume pop refresh refresh_all update_interest attach control
    change add_pending_op events_eq watch_write
run-IsSettled_example =
    run-IsSettled epoll resume acts machine empty started 1 refl started-Reach refl

close_command-IsClosed_example :
    IsClosed kernel (close_command kernel running).1
    × ((b : ℕ) → running.0.m_std_in ≡ some b → Gone kernel b (close_command kernel running).1)
    × ((b : ℕ) → running.0.m_std_out ≡ some b → Gone kernel b (close_command kernel running).1)
    × (destroy_command kernel (close_command kernel running).1 ≡ ok tt)
close_command-IsClosed_example = close_command-IsClosed kernel running running_closes

wait_termination-early_example :
    let t = wait_termination kernel processes idle 5 lasting in
    let u = idle (
      add_pending_op lasting.0.afd 5
        (record (watch_read lasting.0.afd lasting.1) { kernel = machine })) in
    (t.0 ≡ ok false)
    × (t.1.0 ≡ lasting.0)
    × (t.1.1.m_managed_fd ≡ u.m_managed_fd)
    × (queue lasting.0.afd t.1.1 ≡ queue lasting.0.afd u ++ 5 ∷ [])
unfolding watch_read add_pending_op change
wait_termination-early_example =
    wait_termination-early kernel processes idle 5 lasting 100 machine over refl refl refl

connect-Leaves_example :
    Leaves (λ w. w.open_count) (suc 4) 4 (connect kernel sockets refusing idle 5 8 empty)
connect-Leaves_example = connect-Leaves dialling idle 5 8 empty (λ fd u h. h)
