-- ===== src/Pty/Tests.antt =====
-- Sessions of asciinema/pty_.py at concrete input, and the theorems about them.
use asciinema.Base.{
  ◌≤◌, ℕ, ◌+◌, true, false, some, none, List, [], ◌∷◌, ◌++◌, Bytes, ◌≡◌, refl, arith, ℤ, pos, ◌+ℤ◌,
  ◌-ℤ◌, ◌<ℤ◌, is_key,
}
use asciinema.Pty.Defs.{
  Keys, stdout, stdin, marker, resize, Host, Session, go, session_of, handle_master_read,
  handle_resize, record_stdout, end_pause,
}
use asciinema.Pty.Copy.{
  Signal, sigchld, sighup, got, wrote, Selected, ready, copy, start_session, record_session,
  handle_signals,
}
use asciinema.Pty.Rising.{Rising}
use asciinema.Pty.Timing.{IsClock}
use asciinema.Pty.Paused.{Pauses, recorded_time, record_session-IsApart}
use asciinema.Pty.Notices.{IsAnnounced, record_session-IsAnnounced}
use asciinema.Pty.Taken.{child_input}
use asciinema.Pty.Input.{copy-child_input}
use asciinema.Pty.Output.{IsShown, Progresses, handle_master_read-IsShown}
use asciinema.Pty.Faults.{is_value_error, handle_signals-value_error, resize_in_pause}

-- The clock ticks once for each reading, and the terminal takes two bytes at a time.
abbrev ticking : Host
ticking = record {
  now = λ n. pos (n + 1);
  tty_size = λ n. record { cols = 80; rows = 24 };
  tty_write = λ n. some 2;
}

ticking-IsClock : IsClock ticking
ticking-IsClock = record { rises = λ n. omega arith; positive = λ n. omega arith }

ticking-Progresses : Progresses ticking
ticking-Progresses n k e = ground arith

-- Control-A is the prefix, `p` pauses and `m` marks.
abbrev bindings : Keys
bindings = record {
  prefix = some (0x01 ∷ []);
  pause = some (b'p' ∷ []);
  add_marker = some (b'm' ∷ []);
}

abbrev output : Bytes → Selected
output bytes =
    ready
      (record { from_pty = some (got bytes); from_stdin = none; from_signal = none; to_pty = none })

abbrev typed : Bytes → Selected
typed bytes = ready (record {
  from_pty = none;
  from_stdin = some (got bytes);
  from_signal = none;
  to_pty = some (wrote 1);
})

abbrev signalled : List Signal → Selected
signalled signals =
    ready (record {
      from_pty = none;
      from_stdin = none;
      from_signal = some (got signals);
      to_pty = none;
    })

abbrev script : List Selected
script =
    output (b'$' ∷ [])
    ∷ typed (b'l' ∷ b's' ∷ [])
    ∷ typed (0x01 ∷ [])
    ∷ typed (b'p' ∷ [])
    ∷ output (b'x' ∷ [])
    ∷ typed (0x01 ∷ [])
    ∷ typed (b'p' ∷ [])
    ∷ output (b'y' ∷ b'z' ∷ b'w' ∷ [])
    ∷ typed (0x01 ∷ [])
    ∷ typed (b'm' ∷ [])
    ∷ []

abbrev final : Session
final = session_of (record_session ticking bindings script)

script_runs :
    final.entries
    ≡ stdout (pos 1) (b'$' ∷ [])
      ∷ stdin (pos 2) (b'l' ∷ b's' ∷ [])
      ∷ stdout (pos 4) (b'y' ∷ b'z' ∷ b'w' ∷ [])
      ∷ marker (pos 5)
      ∷ []
unfolding record_session is_key ◌-ℤ◌ ◌+ℤ◌
script_runs = refl

record_session-IsApart_example :
    (n : ℕ) × (total : ℤ) × (n ≤ final.clock_reads)
    × Pauses ticking n total final.pause_time final.notices
    × Rising
        (pos 0)
        (recorded_time ticking total final.pause_time (ticking.now final.clock_reads))
        final.entries
record_session-IsApart_example = record_session-IsApart ticking bindings script ticking-IsClock

script_announced : final.notices ≡ "Paused recording" ∷ "Resumed recording" ∷ "Marker added" ∷ []
unfolding record_session is_key ◌-ℤ◌ ◌+ℤ◌
script_announced = refl

record_session-IsAnnounced_example : IsAnnounced final
record_session-IsAnnounced_example =
    record_session-IsAnnounced ticking ticking-IsClock bindings script

script_goes : copy ticking bindings script (start_session ticking) ≡ go final
unfolding record_session is_key ◌-ℤ◌ ◌+ℤ◌
script_goes = refl

copy-child_input_example :
    final.to_child ++ final.input_data ≡ child_input bindings false true script
copy-child_input_example = copy-child_input ticking bindings script final script_goes

handle_master_read-IsShown_example :
    IsShown ticking
      (b'a' ∷ b'b' ∷ b'c' ∷ [])
      (start_session ticking)
      (handle_master_read ticking (b'a' ∷ b'b' ∷ b'c' ∷ []) (start_session ticking))
handle_master_read-IsShown_example =
    handle_master_read-IsShown ticking ticking-Progresses (b'a' ∷ b'b' ∷ b'c' ∷ [])
      (start_session ticking)

handle_signals-value_error_example :
    is_value_error (handle_signals ticking (sigchld ∷ sighup ∷ []) (start_session ticking)) ≡ true
unfolding start_session
handle_signals-value_error_example =
    handle_signals-value_error ticking (sigchld ∷ sighup ∷ []) (start_session ticking)

-- A pause since 1, when the clock shows 4.
abbrev paused : Session
paused = record (start_session ticking) { pause_time = some (pos 1); clock_reads = 3 }

resize_in_pause_example :
    (early late : ℤ) × ((record_stdout ticking
        (b'x' ∷ [])
        (end_pause ticking (pos 1) (handle_resize ticking paused))).entries
      ≡ paused.entries
        ++ resize late (record { cols = 80; rows = 24 }) ∷ stdout early (b'x' ∷ []) ∷ [])
    × (early <ℤ late)
unfolding ◌-ℤ◌
resize_in_pause_example = resize_in_pause ticking (b'x' ∷ []) paused (pos 1) (omega arith) refl
