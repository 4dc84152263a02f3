-- ===== src/Pty/Timing.antt =====
-- The times that asciinema/pty_.py records.
use mathlib.Core.Path.{subst}
use asciinema.Base.{
  truthy_time, ℕ, zero, suc, ◌+◌, if_rule, ◌&&◌, true, false, Option, none, some, inl, inr,
  Option-cases, ◌≡◌, refl, List, [], ◌∷◌, ◌++◌, drop, Bytes, ℤ, pos, ◌-ℤ◌, ◌≤ℤ◌, ◌<ℤ◌, int_laws,
  arith, not, length,
}
use asciinema.Pty.Copy.Rules.{Holds, Holds-bind, Holds-go, Holds-swallow, IsKept, copy-Holds}
use asciinema.Pty.Defs.{
  Entry, stdout, stdin, marker, resize, Keys, Host, Session, go, session_of, emit, notify,
  write_tty, record_stdout, start_pause, end_pause, toggle_pause, run_command, record_stdin,
  is_osc_response, handle_resize, handle_master_read, handle_stdin_read,
}
use asciinema.Pty.Copy.{Selected, copy, start_session, record_session}
use asciinema.Pty.Rising.{Rising, Rising-widen, Rising-snoc, Next}

-- The clock does not go back, and is never read as zero.
pub record IsClock (host : Host) : Type 0 where
  pub rises : (n : ℕ) → host.now n ≤ℤ host.now (n + 1)
  pub positive : (n : ℕ) → pos 0 <ℤ host.now n

-- How far a recording has come: up to now, or up to the pause.
abbrev pub horizon_of : Option ℤ → ℤ → ℤ → ℤ
horizon_of none now start = now -ℤ start
horizon_of (some t) now start = t -ℤ start

abbrev pub horizon : Host → Session → ℤ
horizon host s = horizon_of s.pause_time (host.now s.clock_reads) s.start_time

abbrev pub IsPause : Option ℤ → Type 0
IsPause none = Unit
IsPause (some t) = pos 0 <ℤ t

abbrev pub IsTimed : Host → Session → Type 0
IsTimed host s = Rising (pos 0) (horizon host s) s.entries × IsPause s.pause_time

module _ (host : Host) (clock : IsClock host) where
  abbrev Timed : Session → Type 0
  Timed = IsTimed host

  pub truthy_pause : (t : ℤ) → pos 0 <ℤ t → truthy_time (some t) ≡ true
  truthy_pause t h = ground arith

  not_paused : (p : Option ℤ) → IsPause p → truthy_time p ≡ false → p ≡ none
  not_paused none h e = refl
  not_paused (some t) h e = cc (truthy_pause t h)

  module _ (s : Session) where
    tick : host.now s.clock_reads ≤ℤ host.now (s.clock_reads + 1)
    tick = clock.rises s.clock_reads

    -- A marker or a resize leaves the times of the output and of the input alone.
    aside :
        (p : Option ℤ) (entry : ℤ → Entry)
        → ((low high t : ℤ) → low ≤ℤ high → Next low high (entry t))
        → Rising (pos 0) (horizon_of p (host.now s.clock_reads) s.start_time) s.entries
        → Rising
            (pos 0)
            (horizon_of p (host.now (s.clock_reads + 1)) s.start_time)
            (emit host entry s).entries
    unfolding emit
    aside none entry k h = Rising-snoc (pos 0) _ _ s.entries _ h (k _ _ _ (omega (int_laws, tick)))
    aside (some t) entry k h = Rising-snoc (pos 0) _ _ s.entries _ h (k _ _ _ (omega arith))

    emit_aside :
        (entry : ℤ → Entry)
        → ((low high t : ℤ) → low ≤ℤ high → Next low high (entry t))
        → Timed s
        → Timed (emit host entry s)
    unfolding emit
    emit_aside entry k (h, p) = (aside s.pause_time entry k h, p)

    -- Output and input are timed up to now.
    emit_data :
        (entry : ℤ → Entry)
        → ((low high t : ℤ) → low ≤ℤ t → t ≤ℤ high → Next low high (entry t))
        → s.pause_time ≡ none
        → Timed s
        → Timed (emit host entry s)
    unfolding emit
    emit_data entry k e (h, p) = rw e (
      Rising-snoc (pos 0) (horizon_of none (host.now s.clock_reads) s.start_time) _ s.entries _
          (subst
            (λ q. Rising (pos 0) (horizon_of q (host.now s.clock_reads) s.start_time) s.entries) e
            h)
          (k _ _ _ (omega arith) (omega (int_laws, tick))),
      tt,
    )

    start_pause-IsTimed : s.pause_time ≡ none → Timed s → Timed (start_pause host s)
    unfolding start_pause
    start_pause-IsTimed e (h, p) = (
      subst (λ q. Rising (pos 0) (horizon_of q (host.now s.clock_reads) s.start_time) s.entries) e
          h,
      clock.positive s.clock_reads,
    )

    end_pause-IsTimed : (t : ℤ) → s.pause_time ≡ some t → Timed s → Timed (end_pause host t s)
    unfolding end_pause
    end_pause-IsTimed t e (h, p) = (
      Rising-widen (pos 0) _ _ s.entries (omega (int_laws, tick)) (
          subst (λ q. Rising (pos 0) (horizon_of q (host.now s.clock_reads) s.start_time) s.entries)
            e h),
      tt,
    )

    toggle-IsTimed : (p : Option ℤ) → s.pause_time ≡ p → Timed s → Timed (toggle_pause host p s)
    unfolding toggle_pause
    toggle-IsTimed none e h = start_pause-IsTimed e h
    toggle-IsTimed (some t) e h =
        rw (truthy_pause t (subst IsPause e h.1), toggle_pause) (end_pause-IsTimed t e h)

    marker-IsTimed : Timed s → Timed (emit host marker s)
    marker-IsTimed = emit_aside marker (λ low high t le. le)

    command-IsTimed :
        (keys : Keys) (bytes : Bytes) → Timed s → Timed (run_command host keys bytes s)
    unfolding run_command notify
    command-IsTimed keys bytes h =
        ground (arith, toggle-IsTimed s.pause_time refl h, marker-IsTimed h)

    record_stdin-IsTimed : (bytes : Bytes) → Timed s → Timed (record_stdin host bytes s)
    unfolding record_stdin
    record_stdin-IsTimed bytes h =
        if_rule Timed (not (truthy_time s.pause_time) && not (is_osc_response bytes)) _ s
          (λ e.
            emit_data (λ t. stdin t bytes) (λ low high t l m. (l, m))
              (not_paused s.pause_time h.1 (ground arith)) h)
          (λ _. h)

    record_stdout-IsTimed : (bytes : Bytes) → Timed s → Timed (record_stdout host bytes s)
    unfolding record_stdout
    record_stdout-IsTimed bytes h =
        if_rule Timed (truthy_time s.pause_time) s _ (λ _. h)
          (λ e.
            emit_data (λ t. stdout t bytes) (λ low high t l m. (l, m))
              (not_paused s.pause_time h.1 e) h)

  handle_stdin_read-IsTimed :
      (keys : Keys) (bytes : Bytes) (s : Session)
      → Timed s
      → Timed (handle_stdin_read host keys bytes s)
  unfolding handle_stdin_read
  handle_stdin_read-IsTimed keys bytes s h = ground (
    arith,
    command-IsTimed (record s { prefix_mode = false }) keys bytes h,
    record_stdin-IsTimed (record s { input_data = s.input_data ++ bytes }) bytes h,
  )

  handle_resize-IsTimed : (s : Session) → Timed s → Timed (handle_resize host s)
  unfolding handle_resize
  handle_resize-IsTimed s h =
      let size = host.tty_size s.size_reads in
      emit_aside (record s { size_reads = s.size_reads + 1; pty_size = size }) (λ t. resize t size)
        (λ low high t le. le) h

  write_tty-IsTimed :
      (fuel : ℕ) (bytes : Bytes) (s : Session) → Timed s → Holds Timed (write_tty host fuel bytes s)
  unfolding write_tty Holds
  write_tty-IsTimed fuel [] s h = h
  write_tty-IsTimed zero (b ∷ bs) s h = h
  write_tty-IsTimed (suc fuel) (b ∷ bs) s h = elim (Option-cases (host.tty_write s.tty_writes)) [
    | inl e ↦ rw (e, write_tty) h
    | inr (n, e) ↦ rw (e, write_tty) (write_tty-IsTimed fuel (drop n (b ∷ bs)) _ h)
  ]

  handle_master_read-IsTimed :
      (bytes : Bytes) (s : Session) → Timed s → Holds Timed (handle_master_read host bytes s)
  unfolding handle_master_read
  handle_master_read-IsTimed bytes s h =
      Holds-bind Timed (write_tty host (length bytes) bytes s)
        (λ s'. go (record_stdout host bytes s')) (write_tty-IsTimed (length bytes) bytes s h)
        (λ s' h'. Holds-go Timed _ (record_stdout-IsTimed s' bytes h'))

  IsTimed-IsKept : (keys : Keys) → IsKept host keys Timed
  IsTimed-IsKept keys = record {
    master = handle_master_read-IsTimed;
    typed = handle_stdin_read-IsTimed keys;
    resized = handle_resize-IsTimed;
    stdin_closed = λ s h. h;
    signals_closed = λ s h. h;
    sent = λ s out rest h. h;
  }

  start_session-IsTimed : Timed (start_session host)
  unfolding start_session
  start_session-IsTimed = (omega (int_laws, clock.rises 0), tt)

  -- For a clock that does not go back and is never read as zero, whatever is read, typed and
  -- signalled, in any order and however the loop ends: the times of the recorded output and input
  -- start at zero or above, never fall, and lie within the time since `start_time`, up to the pause
  -- if there is one.
  pub record_session-Rising :
      (keys : Keys) (rounds : List Selected)
      → let s = session_of (record_session host keys rounds) in
        Rising (pos 0) (horizon host s) s.entries
  unfolding record_session Holds
  record_session-Rising keys rounds =
      (Holds-swallow Timed (copy host keys rounds (start_session host)) (
        copy-Holds host keys Timed (IsTimed-IsKept keys) rounds (start_session host)
          start_session-IsTimed)).0
