-- ===== src/Pty/Notices.antt =====
-- asciinema/pty_.py: what `record` tells the user with `notify`.
use mathlib.Core.Path.{subst}
use asciinema.Base.{
  truthy_time, ℕ, zero, suc, if_rule, ◌&&◌, Bool, true, false, not, Option, none, some, inl, inr,
  Option-cases, ◌≡◌, refl, sym, ap, List, [], ◌∷◌, ◌++◌, drop, length, String, Bytes, ℤ, is_key,
  arith,
}
use asciinema.Pty.Defs.{
  Entry, stdout, stdin, marker, resize, Keys, Host, Session, go, session_of, emit, notify,
  write_tty, record_stdout, start_pause, end_pause, toggle_pause, run_command, record_stdin,
  is_osc_response, handle_resize, handle_master_read, handle_stdin_read,
}
use asciinema.Pty.Copy.{Selected, copy, start_session, record_session}
use asciinema.Pty.Copy.Rules.{Holds, Holds-bind, Holds-go, Holds-swallow, copy-Holds}
use asciinema.Pty.Timing.{IsClock, truthy_pause}

-- What a user who reads the notices knows: whether the recording is paused, and how many markers
-- there are.
pub data Told : Bool → ℕ → List String → Type 0 where
  nothing : Told false zero []
  paused :
      {n : ℕ} {ts : List String} → Told false n ts → Told true n (ts ++ "Paused recording" ∷ [])
  resumed :
      {n : ℕ} {ts : List String} → Told true n ts → Told false n (ts ++ "Resumed recording" ∷ [])
  marked :
      {p : Bool} {n : ℕ} {ts : List String}
      → Told p n ts
      → Told p (suc n) (ts ++ "Marker added" ∷ [])

abbrev pub markers : List Entry → ℕ
markers [] = zero
markers (marker t ∷ es) = suc (markers es)
markers (_ ∷ es) = markers es

markers-marker : (es : List Entry) (t : ℤ) → markers (es ++ marker t ∷ []) ≡ suc (markers es)
markers-marker [] t = refl
markers-marker (stdout u b ∷ es) t = markers-marker es t
markers-marker (stdin u b ∷ es) t = markers-marker es t
markers-marker (marker u ∷ es) t = ap suc (markers-marker es t)
markers-marker (resize u z ∷ es) t = markers-marker es t

markers-other :
    (es : List Entry) (e : Entry) → markers (e ∷ []) ≡ zero → markers (es ++ e ∷ []) ≡ markers es
markers-other [] e h = h
markers-other (stdout u b ∷ es) e h = markers-other es e h
markers-other (stdin u b ∷ es) e h = markers-other es e h
markers-other (marker u ∷ es) e h = ap suc (markers-other es e h)
markers-other (resize u z ∷ es) e h = markers-other es e h

-- The notices tell how the session stands.
abbrev pub IsAnnounced : Session → Type 0
IsAnnounced s = Told (truthy_time s.pause_time) (markers s.entries) s.notices

module _ (host : Host) (clock : IsClock host) where
  module _ (s : Session) where
    -- An entry that is no marker needs no notice.
    emit-IsAnnounced :
        (entry : ℤ → Entry)
        → ((t : ℤ) → markers (entry t ∷ []) ≡ zero)
        → IsAnnounced s
        → IsAnnounced (emit host entry s)
    unfolding emit
    emit-IsAnnounced entry other h =
        subst (λ n. Told (truthy_time s.pause_time) n s.notices)
          (sym (markers-other s.entries (entry _) (other _))) h

    marker-IsAnnounced : IsAnnounced s → IsAnnounced (notify "Marker added" (emit host marker s))
    unfolding emit notify
    marker-IsAnnounced h =
        subst (λ n. Told (truthy_time s.pause_time) n (s.notices ++ "Marker added" ∷ []))
          (sym (markers-marker s.entries _)) (marked h)

    start_pause-IsAnnounced :
        truthy_time s.pause_time ≡ false → IsAnnounced s → IsAnnounced (start_pause host s)
    unfolding start_pause notify
    start_pause-IsAnnounced e h =
        rw (truthy_pause host clock (host.now s.clock_reads) (clock.positive s.clock_reads))
          (paused (subst (λ p. Told p (markers s.entries) s.notices) e h))

    end_pause-IsAnnounced :
        (t : ℤ) → truthy_time s.pause_time ≡ true → IsAnnounced s → IsAnnounced (end_pause host t s)
    unfolding end_pause notify
    end_pause-IsAnnounced t e h = resumed (subst (λ p. Told p (markers s.entries) s.notices) e h)

    toggle-IsAnnounced :
        (p : Option ℤ) → s.pause_time ≡ p → IsAnnounced s → IsAnnounced (toggle_pause host p s)
    unfolding toggle_pause
    toggle-IsAnnounced none e h = start_pause-IsAnnounced (ap truthy_time e) h
    toggle-IsAnnounced (some t) e h =
        if_rule IsAnnounced (truthy_time (some t)) _ _ (λ b. end_pause-IsAnnounced t (rw e b) h)
          (λ b. start_pause-IsAnnounced (rw e b) h)

    command-IsAnnounced :
        (keys : Keys) (bytes : Bytes) → IsAnnounced s → IsAnnounced (run_command host keys bytes s)
    unfolding run_command
    command-IsAnnounced keys bytes h =
        if_rule IsAnnounced (is_key bytes keys.pause) _ _
          (λ _. toggle-IsAnnounced s.pause_time refl h)
          (λ _.
            if_rule IsAnnounced (is_key bytes keys.add_marker) _ _ (λ _. marker-IsAnnounced h)
              (λ _. h))

    record_stdin-IsAnnounced :
        (bytes : Bytes) → IsAnnounced s → IsAnnounced (record_stdin host bytes s)
    unfolding record_stdin
    record_stdin-IsAnnounced bytes h =
        if_rule IsAnnounced (not (truthy_time s.pause_time) && not (is_osc_response bytes)) _ s
          (λ _. emit-IsAnnounced (λ t. stdin t bytes) (λ t. refl) h) (λ _. h)

    record_stdout-IsAnnounced :
        (bytes : Bytes) → IsAnnounced s → IsAnnounced (record_stdout host bytes s)
    unfolding record_stdout
    record_stdout-IsAnnounced bytes h =
        if_rule IsAnnounced (truthy_time s.pause_time) s _ (λ _. h)
          (λ _. emit-IsAnnounced (λ t. stdout t bytes) (λ t. refl) h)

  handle_stdin_read-IsAnnounced :
      (keys : Keys) (bytes : Bytes) (s : Session)
      → IsAnnounced s
      → IsAnnounced (handle_stdin_read host keys bytes s)
  unfolding handle_stdin_read
  handle_stdin_read-IsAnnounced keys bytes s h = ground (
    arith,
    command-IsAnnounced (record s { prefix_mode = false }) keys bytes h,
    record_stdin-IsAnnounced (record s { input_data = s.input_data ++ bytes }) bytes h,
  )

  handle_resize-IsAnnounced : (s : Session) → IsAnnounced s → IsAnnounced (handle_resize host s)
  unfolding handle_resize
  handle_resize-IsAnnounced s h =
      let size = host.tty_size s.size_reads in
      emit-IsAnnounced (record s { size_reads = suc s.size_reads; pty_size = size })
        (λ t. resize t size) (λ t. refl) h

  write_tty-IsAnnounced :
      (fuel : ℕ) (bytes : Bytes) (s : Session)
      → IsAnnounced s
      → Holds IsAnnounced (write_tty host fuel bytes s)
  unfolding write_tty Holds
  write_tty-IsAnnounced fuel [] s h = h
  write_tty-IsAnnounced zero (b ∷ bs) s h = h
  write_tty-IsAnnounced (suc fuel) (b ∷ bs) s h =
      elim (Option-cases (host.tty_write s.tty_writes)) [
        | inl e ↦ rw (e, write_tty) h
        | inr (n, e) ↦ rw (e, write_tty) (write_tty-IsAnnounced fuel (drop n (b ∷ bs)) _ h)
      ]

  handle_master_read-IsAnnounced :
      (bytes : Bytes) (s : Session)
      → IsAnnounced s
      → Holds IsAnnounced (handle_master_read host bytes s)
  unfolding handle_master_read
  handle_master_read-IsAnnounced bytes s h =
      Holds-bind IsAnnounced (write_tty host (length bytes) bytes s)
        (λ s'. go (record_stdout host bytes s')) (write_tty-IsAnnounced (length bytes) bytes s h)
        (λ s' h'. Holds-go IsAnnounced _ (record_stdout-IsAnnounced s' bytes h'))

  -- For a clock that is never read as zero and does not go back, whatever is read, typed and
  -- signalled and however the loop ends: "Paused recording" and "Resumed recording" are told by
  -- turns, the former first, the last of them tells whether the recording is paused, and
  -- "Marker added" is told once for each recorded marker.
  pub record_session-IsAnnounced :
      (keys : Keys) (rounds : List Selected)
      → IsAnnounced (session_of (record_session host keys rounds))
  unfolding record_session Holds start_session
  record_session-IsAnnounced keys rounds =
      Holds-swallow IsAnnounced (copy host keys rounds (start_session host)) (
        copy-Holds host keys IsAnnounced
          (record {
            master = handle_master_read-IsAnnounced;
            typed = handle_stdin_read-IsAnnounced keys;
            resized = handle_resize-IsAnnounced;
            stdin_closed = λ s h. h;
            signals_closed = λ s h. h;
            sent = λ s out rest h. h;
          })
          rounds (start_session host) nothing)
