-- ===== src/Player/Loops.antt =====
-- asciinema/player.py: the loops of `_play`, one round of the innermost loop at a time.
use asciinema.Base.{
  ℕ, zero, suc, ◌+◌, if◌then◌else◌, Bool, true, false, ◌&&◌, String, Option, none, some, List, [],
  ◌∷◌, ◌++◌, Bytes, Text, is_key, has_byte, ℤ, pos, ◌-ℤ◌, ltb_ℤ, truthy_time,
}
use asciinema.Asciicast.Events.{Frame, Feed, Speed, compress, adjust_speed}
use asciinema.Asciicast.Json.{Json}
use asciinema.Player.Defs.{
  Output, output_start, output_write, Options, Host, Loop, outer, paused, playing, Playback,
  Outcome, running, finished, interrupted, raised, is_marker, make_output, Bindings,
}

-- `next_event()`, given what is left of `events_iter`.
unfoldable pub next_from : List Frame → Bool → Playback → Outcome
next_from [] true s = raised s
next_from [] false s = running (record s { current = none })
next_from (f ∷ fs) raises s =
    running (record s { current = some f; rest = record { frames = fs; raises = raises } })

unfoldable pub next_event : Playback → Outcome
unfolding next_from
next_event s = next_from s.rest.frames s.rest.raises s

unfoldable pub write : Output → Frame → Playback → Playback
write output f s = record s { stdout = s.stdout ++ output_write output f }

-- The loop that writes up to the next marker, from the current frame on, given what is left of
-- `events_iter`.
unfoldable pub skip_to_marker : Output → Frame → List Frame → Bool → Playback → Outcome
unfolding write next_from
skip_to_marker output f [] raises s =
    if is_marker f then running s else next_from [] raises (write output f s)
skip_to_marker output f (g ∷ gs) raises s =
    let later = skip_to_marker output g gs raises (record (write output f s) {
      current = some g;
      rest = record { frames = gs; raises = raises };
    }) in
    if is_marker f then running s else later

module _ (o : Options) (host : Host) where
  abbrev pub leave : Playback → Playback
  leave s = record s { loop = outer }

  -- `wait(…)`: no key is read where there is no terminal.
  abbrev pub pressed : Playback → Bytes
  pressed s = if o.has_stdin then host.key s.key_reads else []

  abbrev pub waited : Playback → Playback
  waited s = record s { key_reads = if o.has_stdin then s.key_reads + 1 else s.key_reads }

  unfoldable pub resume : Option ℤ → Playback → Outcome
  resume none s = raised s
  resume (some e) s = running (record s {
    start_time = host.now s.clock_reads -ℤ e;
    pause_elapsed_time = none;
    clock_reads = s.clock_reads + 1;
    loop = outer;
  })

  -- The marker, once it is reached, is written as well.
  unfoldable pub pass_marker : Outcome → Outcome
  unfolding next_event write
  pass_marker (running s) = elim s.current [
    | none ↦ running s
    | some f ↦ next_event (record (write o.output f s) { pause_elapsed_time = some f.time })
  ]
  pass_marker outcome = outcome

  unfoldable pub paused_key : Bytes → Frame → Playback → Outcome
  unfolding resume pass_marker skip_to_marker next_event write
  paused_key key f s =
      if has_byte 0x03 key
      then running (record s { ctrl_c = true; loop = outer })
      else if is_key key o.bindings.pause
      then resume s.pause_elapsed_time s
      else if is_key key o.bindings.step
      then next_event (record (write o.output f s) { pause_elapsed_time = some f.time })
      else if is_key key o.bindings.next_marker
      then pass_marker (skip_to_marker o.output f s.rest.frames s.rest.raises s)
      else running s

  unfoldable pub playing_key : Bytes → Frame → Playback → Outcome
  unfolding next_event write
  playing_key key f s =
      if has_byte 0x03 key
      then running (record s { ctrl_c = true; loop = outer })
      else if is_key key o.bindings.pause
      then running (record s {
        pause_elapsed_time = some (host.now s.clock_reads -ℤ s.start_time);
        clock_reads = s.clock_reads + 1;
        loop = outer;
      })
      else if is_marker f && o.pause_on_markers
      then next_event
          (record (write o.output f s) { pause_elapsed_time = some f.time; loop = outer })
      else next_event (write o.output f s)

  unfoldable pub playing_round : Frame → Playback → Outcome
  unfolding playing_key
  playing_round f s =
      let elapsed_wall_time = host.now s.clock_reads -ℤ s.start_time in
      let delay = f.time -ℤ elapsed_wall_time in
      let s' : Playback = record s { clock_reads = s.clock_reads + 1 } in
      if ltb_ℤ (pos 0) delay then playing_key (pressed s') f (waited s') else playing_key [] f s'

  -- One test of a `while`, with the body of an inner loop behind it.
  unfoldable pub round : Loop → Option Frame → Playback → Outcome
  unfolding paused_key playing_round
  round outer none s = if s.ctrl_c then interrupted s else finished s
  round outer (some f) s =
      if s.ctrl_c
      then interrupted s
      else running
          (record s { loop = if truthy_time s.pause_elapsed_time then paused else playing })
  round paused none s = running (leave s)
  round paused (some f) s = paused_key (pressed s) f (waited s)
  round playing none s = running (leave s)
  round playing (some f) s = playing_round f s

  abbrev pub and_then : Outcome → (Playback → Outcome) → Outcome
  and_then (running s) k = k s
  and_then outcome k = outcome

  -- `fuel` rounds.
  unfoldable pub run : ℕ → Playback → Outcome
  unfolding round
  run zero s = running s
  run (suc fuel) s = and_then (round s.loop s.current s) (run fuel)

  -- `output.start` and the first reading of the clock.
  unfoldable pub initial : Json → Feed → Playback
  unfolding output_start
  initial header events = record {
    loop = outer;
    current = none;
    rest = events;
    start_time = host.now 0;
    pause_elapsed_time = none;
    ctrl_c = false;
    clock_reads = 1;
    key_reads = 0;
    stdout = output_start o.output header;
  }

  unfoldable pub start : Json → Feed → Outcome
  unfolding next_event initial
  start header events = next_event (initial header events)

-- `idle_time_limit or asciicast.idle_time_limit`
abbrev pub or_limit : Option ℤ → Option ℤ → Option ℤ
or_limit given stored = if truthy_time given then given else stored

-- The passes over the frames, before the first is played.
unfoldable pub schedule : Feed → Option ℤ → Option ℤ → Speed → Feed
unfolding compress adjust_speed
schedule events idle_time_limit stored_limit speed =
    adjust_speed (compress events (or_limit idle_time_limit stored_limit)) speed

-- The arguments of `Player.play`, and the recording.
pub record Request : Type 0 where
  pub header : Json
  pub events : Feed
  pub stored_limit : Option ℤ
  pub idle_time_limit : Option ℤ
  pub speed : Speed
  pub bindings : Bindings
  pub out_fmt : String
  pub stream : Option Text
  pub pause_on_markers : Bool

-- Without a terminal there are no keys, and no pauses on markers.
abbrev pub options : Request → Bool → Options
options r tty = record {
  has_stdin = tty;
  bindings = r.bindings;
  output = make_output r.out_fmt r.stream;
  pause_on_markers = if tty then r.pause_on_markers else false;
}

-- `play`, for `fuel` rounds; `tty` says whether the terminal could be opened.
unfoldable pub play : Request → Bool → Host → ℕ → Outcome
unfolding start run schedule
play r tty host fuel =
    and_then (options r tty) host
      (start (options r tty) host r.header
        (schedule r.events r.idle_time_limit r.stored_limit r.speed))
      (run (options r tty) host fuel)
