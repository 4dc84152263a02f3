-- ===== src/Pty/Paused.antt =====
-- asciinema/pty_.py: the pauses, and the times that `record` gives to what it records.
use mathlib.Core.Path.{subst}
use asciinema.Base.{
  truthy_time, ℕ, zero, suc, if_rule, ◌&&◌, true, false, not, Option, none, some, inl, inr,
  Option-cases, ◌≡◌, refl, ap, List, [], ◌∷◌, ◌++◌, drop, length, String, Bytes, ℤ, is_key, arith,
  ◌+◌, ◌≤◌, ◌||◌, ◌∙◌, pos, ◌+ℤ◌, ◌-ℤ◌, int_laws,
}
use asciinema.Pty.Defs.{
  truthy_key, Entry, stdout, stdin, marker, resize, Keys, Host, Session, go, session_of, emit,
  notify, write_tty, record_stdout, start_pause, end_pause, toggle_pause, run_command, record_stdin,
  is_osc_response, handle_resize, handle_master_read, handle_stdin_read,
}
use asciinema.Pty.Copy.{Selected, copy, start_session, record_session}
use asciinema.Pty.Copy.Rules.{Holds, Holds-bind, Holds-go, Holds-swallow, copy-Holds}
use asciinema.Pty.Timing.{IsClock, truthy_pause, horizon_of, record_session-Rising}
use asciinema.Pty.Rising.{Rising}

-- What the notices and the clock say of the pauses: how many readings of the clock are behind, how
-- long the pauses that have ended were together, and when the one that has not ended began.
pub data Pauses (host : Host) : ℕ → ℤ → Option ℤ → List String → Type 0 where
  nothing : Pauses host 1 (pos 0) none []
  paused :
      {n : ℕ} {total : ℤ} {ts : List String} (m : ℕ)
      → n ≤ m
      → Pauses host n total none ts
      → Pauses host (m + 1) total (some (host.now m)) (ts ++ "Paused recording" ∷ [])
  resumed :
      {n : ℕ} {total t : ℤ} {ts : List String} (m : ℕ)
      → n ≤ m
      → Pauses host n total (some t) ts
      → Pauses host (m + 1) (total +ℤ (host.now m -ℤ t)) none (ts ++ "Resumed recording" ∷ [])
  marked :
      {n : ℕ} {total : ℤ} {p : Option ℤ} {ts : List String}
      → Pauses host n total p ts
      → Pauses host n total p (ts ++ "Marker added" ∷ [])

-- The start time is the first reading of the clock, later by the pauses that have ended.
abbrev pub IsShifted : Host → Session → Type 0
IsShifted host s =
    (n : ℕ) × (total : ℤ) × (n ≤ s.clock_reads)
    × Pauses host n total s.pause_time s.notices
    × (s.start_time ≡ host.now 0 +ℤ total)

module _ (host : Host) (clock : IsClock host) where
  abbrev Shifted : Session → Type 0
  Shifted = IsShifted host

  -- A pause that has begun is true of Python's `if`.
  paused-truthy :
      {n : ℕ} {total t : ℤ} {ts : List String}
      → Pauses host n total (some t) ts
      → truthy_time (some t) ≡ true
  paused-truthy (paused m le h) = truthy_pause host clock (host.now m) (clock.positive m)
  paused-truthy (marked h) = paused-truthy h

  module _ (s : Session) where
    emit-IsShifted : (entry : ℤ → Entry) → Shifted s → Shifted (emit host entry s)
    unfolding emit
    emit-IsShifted entry (n, total, le, h, e) = (n, total, omega (arith, le), h, e)

    marker-IsShifted : Shifted s → Shifted (notify "Marker added" (emit host marker s))
    unfolding emit notify
    marker-IsShifted (n, total, le, h, e) = (n, total, omega (arith, le), marked h, e)

    start_pause-IsShifted : s.pause_time ≡ none → Shifted s → Shifted (start_pause host s)
    unfolding start_pause notify
    start_pause-IsShifted p (n, total, le, h, e) = (
      s.clock_reads + 1,
      total,
      omega arith,
      paused s.clock_reads le (subst (λ q. Pauses host n total q s.notices) p h),
      e,
    )

    end_pause-IsShifted : (t : ℤ) → s.pause_time ≡ some t → Shifted s → Shifted (end_pause host t s)
    unfolding end_pause notify
    end_pause-IsShifted t p (n, total, le, h, e) = (
      s.clock_reads + 1,
      total +ℤ (host.now s.clock_reads -ℤ t),
      omega arith,
      resumed s.clock_reads le (subst (λ q. Pauses host n total q s.notices) p h),
      ap (λ (z : ℤ). z +ℤ (host.now s.clock_reads -ℤ t)) e ∙ omega int_laws,
    )

    toggle-IsShifted :
        (p : Option ℤ) → s.pause_time ≡ p → Shifted s → Shifted (toggle_pause host p s)
    unfolding toggle_pause
    toggle-IsShifted none e h = start_pause-IsShifted e h
    toggle-IsShifted (some t) e (n, total, le, h, k) =
        let now = paused-truthy (subst (λ q. Pauses host n total q s.notices) e h) in
        if_rule Shifted (truthy_time (some t)) _ _
          (λ b. end_pause-IsShifted t e (n, total, le, h, k)) (λ b. absurd cc)

    command-IsShifted :
        (keys : Keys) (bytes : Bytes) → Shifted s → Shifted (run_command host keys bytes s)
    unfolding run_command
    command-IsShifted keys bytes h =
        if_rule Shifted (is_key bytes keys.pause) _ _ (λ _. toggle-IsShifted s.pause_time refl h)
          (λ _.
            if_rule Shifted (is_key bytes keys.add_marker) _ _ (λ _. marker-IsShifted h) (λ _. h))

    record_stdin-IsShifted : (bytes : Bytes) → Shifted s → Shifted (record_stdin host bytes s)
    unfolding record_stdin
    record_stdin-IsShifted bytes h =
        if_rule Shifted (not (truthy_time s.pause_time) && not (is_osc_response bytes)) _ s
          (λ _. emit-IsShifted (λ t. stdin t bytes) h) (λ _. h)

    record_stdout-IsShifted : (bytes : Bytes) → Shifted s → Shifted (record_stdout host bytes s)
    unfolding record_stdout
    record_stdout-IsShifted bytes h =
        if_rule Shifted (truthy_time s.pause_time) s _ (λ _. h)
          (λ _. emit-IsShifted (λ t. stdout t bytes) h)

  handle_stdin_read-IsShifted :
      (keys : Keys) (bytes : Bytes) (s : Session)
      → Shifted s
      → Shifted (handle_stdin_read host keys bytes s)
  unfolding handle_stdin_read
  handle_stdin_read-IsShifted keys bytes s h =
      if_rule Shifted (not s.prefix_mode && truthy_key keys.prefix && is_key bytes keys.prefix) _ _
        (λ _. h)
        λ _.
          if_rule Shifted
            (s.prefix_mode
              || (not (truthy_key keys.prefix)
                  && (is_key bytes keys.pause || is_key bytes keys.add_marker)))
            _ _ (λ _. command-IsShifted (record s { prefix_mode = false }) keys bytes h)
            (λ _. record_stdin-IsShifted (record s { input_data = s.input_data ++ bytes }) bytes h)

  handle_resize-IsShifted : (s : Session) → Shifted s → Shifted (handle_resize host s)
  unfolding handle_resize
  handle_resize-IsShifted s h =
      let size = host.tty_size s.size_reads in
      emit-IsShifted (record s { size_reads = suc s.size_reads; pty_size = size })
        (λ t. resize t size) h

  write_tty-IsShifted :
      (fuel : ℕ) (bytes : Bytes) (s : Session)
      → Shifted s
      → Holds Shifted (write_tty host fuel bytes s)
  unfolding write_tty Holds
  write_tty-IsShifted fuel [] s h = h
  write_tty-IsShifted zero (b ∷ bs) s h = h
  write_tty-IsShifted (suc fuel) (b ∷ bs) s h = elim (Option-cases (host.tty_write s.tty_writes)) [
    | inl e ↦ rw (e, write_tty) h
    | inr (n, e) ↦ rw (e, write_tty) (write_tty-IsShifted fuel (drop n (b ∷ bs)) _ h)
  ]

  handle_master_read-IsShifted :
      (bytes : Bytes) (s : Session) → Shifted s → Holds Shifted (handle_master_read host bytes s)
  unfolding handle_master_read
  handle_master_read-IsShifted bytes s h =
      Holds-bind Shifted (write_tty host (length bytes) bytes s)
        (λ s'. go (record_stdout host bytes s')) (write_tty-IsShifted (length bytes) bytes s h)
        (λ s' h'. Holds-go Shifted _ (record_stdout-IsShifted s' bytes h'))

  record_session-IsShifted :
      (keys : Keys) (rounds : List Selected)
      → IsShifted host (session_of (record_session host keys rounds))
  unfolding record_session Holds start_session
  record_session-IsShifted keys rounds =
      Holds-swallow Shifted (copy host keys rounds (start_session host)) (
        copy-Holds host keys Shifted
          (record {
            master = handle_master_read-IsShifted;
            typed = handle_stdin_read-IsShifted keys;
            resized = handle_resize-IsShifted;
            stdin_closed = λ s h. h;
            signals_closed = λ s h. h;
            sent = λ s out rest h. h;
          })
          rounds (start_session host) (1, pos 0, omega arith, nothing, omega int_laws))

-- The time that has been recorded, at this reading of the clock: since the first reading, or up to
-- the beginning of the pause that has not ended, and less the pauses that have.
abbrev pub recorded_time : Host → ℤ → Option ℤ → ℤ → ℤ
recorded_time host total none now = now -ℤ (host.now 0 +ℤ total)
recorded_time host total (some t) now = t -ℤ (host.now 0 +ℤ total)

-- For a clock that does not go back and is never read as zero, whatever is read, typed and
-- signalled, in any order and however the loop ends: the notices tell of pauses by turns with their
-- ends, each at a later reading of the clock; and the times of the recorded output and input start at
-- zero or above, never fall, and lie within the time since the first reading of the clock, or up to
-- the beginning of a pause that has not ended, less the length of all pauses that have ended.
pub record_session-IsApart :
    (host : Host) (keys : Keys) (rounds : List Selected)
    → IsClock host
    → let s = session_of (record_session host keys rounds) in
      (n : ℕ) × (total : ℤ) × (n ≤ s.clock_reads)
      × Pauses host n total s.pause_time s.notices
      × Rising (pos 0) (recorded_time host total s.pause_time (host.now s.clock_reads)) s.entries
record_session-IsApart host keys rounds clock =
    let s = session_of (record_session host keys rounds) in
    let (n, total, le, h, e) = record_session-IsShifted host clock keys rounds in
    (
      n,
      total,
      le,
      h,
      at_start s.pause_time (host.now s.clock_reads) s.start_time total e s.entries
          (record_session-Rising host clock keys rounds),
    )
  where
    at_start :
        (p : Option ℤ) (now start total : ℤ)
        → start ≡ host.now 0 +ℤ total
        → (es : List Entry) → Rising (pos 0) (horizon_of p now start) es
        → Rising (pos 0) (recorded_time host total p now) es
    at_start none now start total e es h = subst (λ z. Rising (pos 0) (now -ℤ z) es) e h
    at_start (some t) now start total e es h = subst (λ z. Rising (pos 0) (t -ℤ z) es) e h
