-- ===== src/Player/Tests.antt =====
-- Playbacks of asciinema/player.py at concrete input, and the theorems about them.
use asciinema.Base.{
  ℕ, ◌+◌, length, ◌++◌, true, false, none, some, [], ◌∷◌, is_key, has_byte, bytes_eq, ◌≡◌, refl,
  pos, ◌-ℤ◌, ◌+ℤ◌, ltb_ℤ, min_ℤ,
}
use asciinema.Asciicast.Events.{Frame}
use asciinema.Asciicast.Json.{Json}
use asciinema.Player.Defs.{
  Host, Bindings, playing, Playback, running, finished, playback_of, raw_text, make_output,
  output_start, output_write, code_o, code_m,
}
use asciinema.Player.Loops.{
  Request, schedule, options, play, initial, playing_key, paused_key, round, and_then,
}
use asciinema.Player.Shows.{Shows, printed}
use asciinema.Player.Shows.Rounds.{play-Shows}
use asciinema.Player.Finish.{play_finishes}
use asciinema.Player.Pause.{resume_where_paused, marker_pauses}

abbrev keys : Bindings
keys = record { pause = some (b' ' ∷ []); step = some (b'.' ∷ []); next_marker = some (b']' ∷ []) }

abbrev out : ℕ → ℕ → Frame
out t c = record { time = pos t; code = code_o; text = c ∷ [] }

abbrev mark : ℕ → Frame
mark t = record { time = pos t; code = code_m; text = [] }

abbrev request : Request
request = record {
  header = Json.null;
  events = record { frames = out 1 b'a' ∷ mark 9 ∷ out 10 b'b' ∷ []; raises = false };
  stored_limit = none;
  idle_time_limit = some (pos 2);
  speed = record { num = pos 1; den = 1 };
  bindings = keys;
  out_fmt = "raw";
  stream = none;
  pause_on_markers = true;
}

-- The clock ticks once for each reading; the first and the third wait give the pause key.
abbrev host : Host
host = record { now = λ n. pos n; key = λ n. b' ' ∷ [] }

gaps_capped :
    (schedule request.events request.idle_time_limit request.stored_limit request.speed).frames
    ≡ out 1 b'a' ∷ mark 3 ∷ out 4 b'b' ∷ []
unfolding schedule ◌-ℤ◌ ◌+ℤ◌ min_ℤ ltb_ℤ
gaps_capped = refl

plays_through :
    (playback_of (play request false host 6)).stdout
    ≡ raw_text (b'a' ∷ []) ∷ raw_text (b'b' ∷ []) ∷ []
unfolding play ◌-ℤ◌ ◌+ℤ◌ min_ℤ ltb_ℤ is_key has_byte output_write make_output
plays_through = refl

play-Shows_example :
    Shows
      (make_output "raw" none)
      (schedule request.events request.idle_time_limit request.stored_limit request.speed).frames
      (output_start (make_output "raw" none) Json.null)
      (play request true host 20)
play-Shows_example = play-Shows request true host 20

play_finishes_example :
    (t : Playback) × (play request false host (
        length
          (schedule request.events request.idle_time_limit request.stored_limit
            request.speed).frames
        + 3)
      ≡ finished t)
    × (t.stdout
        ≡ output_start (make_output "raw" none) Json.null
          ++ printed
              (make_output "raw" none)
              (schedule request.events request.idle_time_limit request.stored_limit
                request.speed).frames)
unfolding is_key schedule
play_finishes_example = play_finishes request host refl refl

abbrev s₀ : Playback
s₀ = record (initial (options request true) host Json.null request.events) { clock_reads = 5 }

abbrev s₁ : Playback
s₁ = playback_of (playing_key (options request true) host (b' ' ∷ []) (out 1 b'a') s₀)

abbrev s₂ : Playback
s₂ = record s₁ { clock_reads = 50 }

abbrev s₃ : Playback
s₃ = playback_of (paused_key (options request true) host (b' ' ∷ []) (out 1 b'a') s₂)

resume_where_paused_example : pos 50 -ℤ s₃.start_time ≡ pos 5 -ℤ s₀.start_time
unfolding is_key has_byte playing_key paused_key initial
resume_where_paused_example =
    resume_where_paused (options request true) host (b' ' ∷ []) (out 1 b'a') (out 1 b'a') s₀ s₁ s₂
      s₃ refl refl refl refl refl

abbrev at_marker : Playback
at_marker = record s₀ { rest = record { frames = out 3 b'b' ∷ []; raises = false } }

-- A marker at the very beginning does not pause.
marker_pauses_example :
    (t : Playback) × (and_then
        (options request true)
        host
        (playing_key (options request true) host [] (mark 0) at_marker)
        (λ u. round (options request true) host u.loop u.current u)
      ≡ running t)
    × (t.loop ≡ playing)
unfolding is_key bytes_eq initial
marker_pauses_example =
    marker_pauses (options request true) host (mark 0) (out 3 b'b') [] false at_marker refl refl
      refl refl refl
