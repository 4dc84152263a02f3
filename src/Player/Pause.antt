-- ===== src/Player/Pause.antt =====
-- Pauses of the player in asciinema/player.py.
use asciinema.Base.{
  ◌+◌, if◌then◌else◌, Bool, true, false, Option, some, List, [], ◌∷◌, ◌++◌, Bytes, is_key, has_byte,
  ◌≡◌, refl, sym, ap, ◌∙◌, arith, ℤ, ◌-ℤ◌, sub-sub, truthy_time,
}
use asciinema.Asciicast.Events.{Frame}
use asciinema.Player.Defs.{
  Options, Host, outer, paused, playing, Playback, Outcome, running, playback_of, is_marker,
  output_write,
}
use asciinema.Player.Loops.{next_event, write, resume, paused_key, playing_key, round, and_then}

abbrev pause_of : Outcome → Option ℤ
pause_of outcome = (playback_of outcome).pause_elapsed_time

module _ (o : Options) (host : Host) where
  resume-start_time :
      (e : Option ℤ) (x : ℤ) (u v : Playback)
      → e ≡ some x
      → resume o host e u ≡ running v
      → host.now u.clock_reads -ℤ v.start_time ≡ x
  unfolding resume
  resume-start_time e x u v p h = ground (arith, sub-sub (host.now u.clock_reads) x)

  abbrev stopped : Playback → Playback
  stopped s = record s {
    pause_elapsed_time = some (host.now s.clock_reads -ℤ s.start_time);
    clock_reads = s.clock_reads + 1;
    loop = outer;
  }

  playing_stops :
      (key : Bytes) (f : Frame) (s : Playback)
      → is_key key o.bindings.pause ≡ true
      → has_byte 0x03 key ≡ false
      → playing_key o host key f s ≡ running (stopped s)
  unfolding playing_key
  playing_stops key f s k c = rw c (rw k refl)

  paused_resumes :
      (key : Bytes) (g : Frame) (u : Playback)
      → is_key key o.bindings.pause ≡ true
      → has_byte 0x03 key ≡ false
      → paused_key o host key g u ≡ resume o host u.pause_elapsed_time u
  unfolding paused_key
  paused_resumes key g u k c = rw c (rw k refl)

  -- The pause key, which is no ctrl-c, is pressed in a state `s` and again, any time later, in a
  -- state `u` that has the pause time left by the first press. If both presses leave the playback
  -- running, it goes on from the time that it had reached in `s`.
  pub resume_where_paused :
      (key : Bytes) (f g : Frame) (s t u v : Playback)
      → is_key key o.bindings.pause ≡ true
      → has_byte 0x03 key ≡ false
      → playing_key o host key f s ≡ running t
      → u.pause_elapsed_time ≡ t.pause_elapsed_time
      → paused_key o host key g u ≡ running v
      → host.now u.clock_reads -ℤ v.start_time ≡ host.now s.clock_reads -ℤ s.start_time
  resume_where_paused key f g s t u v k c h same h' =
      resume-start_time u.pause_elapsed_time (host.now s.clock_reads -ℤ s.start_time) u v
        (same ∙ sym (ap pause_of h₁)) (sym (paused_resumes key g u k c) ∙ h')
    where
      h₁ : running (stopped s) ≡ running t
      h₁ = sym (playing_stops key f s k c) ∙ h

  -- With `pause_on_markers`, while no ctrl-c was pressed and if the pause key is not the empty string:
  -- a marker that is played without a key pressed, with a frame behind it, is followed by a pause
  -- exactly when its time is not zero, and else by playing on.
  pub marker_pauses :
      (f g : Frame) (fs : List Frame) (raises : Bool) (s : Playback)
      → is_marker f ≡ true
      → o.pause_on_markers ≡ true
      → is_key [] o.bindings.pause ≡ false
      → s.ctrl_c ≡ false
      → s.rest ≡ record { frames = g ∷ fs; raises = raises }
      → (t : Playback) × (and_then o host
            (playing_key o host [] f s)
            (λ u. round o host u.loop u.current u)
          ≡ running t)
        × (t.loop ≡ (if truthy_time (some f.time) then paused else playing))
  unfolding playing_key round has_byte next_event write
  marker_pauses f g fs raises s m p k c r = (
    record s {
      loop = if truthy_time (some f.time) then paused else playing;
      current = some g;
      rest = record { frames = fs; raises = raises };
      pause_elapsed_time = some f.time;
      stdout = s.stdout ++ output_write o.output f;
    },
    ground arith,
    refl,
  )
