-- ===== src/Replay/Play.antt =====
-- asciinema/commands/play.py on a file that asciinema/recorder.py has written.
use mathlib.Core.Path.{subst}
use asciinema.Base.{
  ℕ, ◌+◌, Bool, true, false, Option, none, some, List, [], ◌∷◌, ◌++◌, length, Text, bytes_eq,
  is_key, ℤ, String, ◌≡◌, refl, sym, ap, ◌∙◌, arith,
}
use asciinema.Pty.Defs.{Entry, stdin, stdout, marker, resize, Keys}
use asciinema.Pty.Defs as Pty
use asciinema.Pty.Copy.{Selected}
use asciinema.Asciicast.Json.{Json, Fields, obj, get_field}
use asciinema.Asciicast.Events.{Frame, Feed, is_zero_speed}
use asciinema.Asciicast.Opening.{Recording, open_recording}
use asciinema.Asciicast.Frames.{recording_header, recording_limit}
use asciinema.Asciicast.V2.Reader.{Read, returned, has_version}
use asciinema.FileWriter.{Disk}
use asciinema.Utf8.{Decoder, start, decode}
use asciinema.Utf8.Laws.{decode-append}
use asciinema.Player.Defs.{
  raw_output, output_write, output_start, takes, print_frame, make_output, Host, Playback, finished,
}
use asciinema.Player.Loops.{Request, schedule}
use asciinema.Player.Loops as Loops
use asciinema.Player.Shows.{printed}
use asciinema.Player.Finish.{play_finishes}
use asciinema.Recorder.Lines.{lines, next_in, next_out, run-Written, queue_of}
use asciinema.Recorder.Worker.{run, v2_writer, enqueue_all}
use asciinema.Recorder.Output.{output_bytes}
use asciinema.Recorder.Duration.{Holds, Holding, Written-Holding}
use asciinema.Recorder.Whole.{recorded_events, record_with, output_bytes-enqueue_all}
use asciinema.Commands.Play.{
  Options, limit, limit_of, limited, request, request_of, status, played, play,
}
use asciinema.Replay.Frames.{
  event_frame, event_frames, recorded, open_recorded, recorded_events-all,
}
use asciinema.Replay.Retimed.{printed_text, Retimed-length, Retimed-printed, schedule-SameFrames}

shown_text :
    (offset : ℤ) (i o : Decoder) (es : List Entry)
    → printed_text (printed (raw_output (b'o' ∷ [])) (event_frames offset i o es))
      ≡ (decode o (output_bytes es)).text
unfolding event_frames event_frame next_in next_out output_bytes decode output_write takes
    print_frame bytes_eq
shown_text offset i o [] = refl
shown_text offset i o (stdout ts bytes ∷ es) =
    rw (shown_text offset i (decode o bytes).decoder es, decode-append o bytes (output_bytes es))
      refl
shown_text offset i o (stdin ts bytes ∷ es) = shown_text offset (decode i bytes).decoder o es
shown_text offset i o (marker ts ∷ es) = shown_text offset i o es
shown_text offset i o (resize ts size ∷ es) = shown_text offset i o es

length-event_frames :
    (offset : ℤ) (i o : Decoder) (es : List Entry) → length (event_frames offset i o es) ≡ length es
unfolding event_frames
length-event_frames offset i o [] = refl
length-event_frames offset i o (e ∷ es) =
    omega (arith, length-event_frames offset (next_in i e) (next_out o e) es)

-- `asciinema play` with its default output, of a recording from the beginning to the end.
abbrev pub IsDefault : Options → Type 0
IsDefault o =
    (o.out_fmt ≡ "raw")
    × ((o.stream ≡ none) × ((is_key [] o.bindings.pause ≡ false) × (is_zero_speed o.speed ≡ false)))

-- In this many rounds the playback has finished, `play` returns 0, and stdout shows this text.
abbrev pub Plays : (Text → Option Json) → Options → Host → ℕ → Read Recording → Text → Type 0
Plays loads o host fuel (returned recording) t =
    (p : Playback) × ((Loops.play (request_of loads o recording) false host fuel ≡ finished p)
      × ((printed_text p.stdout ≡ t)
          × (play loads o false host fuel (returned recording) ≡ status 0)))
Plays loads o host fuel (Read.raised e) t = ⊥

make_raw :
    (fmt : String) (stream : Option Text)
    → fmt ≡ "raw"
    → stream ≡ none
    → make_output fmt stream ≡ raw_output (b'o' ∷ [])
unfolding make_output
make_raw fmt stream h k = rw (h, k) refl

module _ (o : Options) (host : Host) (default : IsDefault o) where
  plays_frames :
      (header : Json) (frames : List Frame) (stored : Option ℤ)
      → let r = request o header (record { frames = frames; raises = false }) stored in
        (p : Playback) × ((Loops.play r false host (length frames + 3) ≡ finished p)
          × (printed_text p.stdout ≡ printed_text (printed (raw_output (b'o' ∷ [])) frames)))
  unfolding make_output output_start
  plays_frames header frames stored =
      let events : Feed = record { frames = frames; raises = false } in
      let r = request o header events stored in
      let (same, clean) =
        schedule-SameFrames events o.idle_time_limit stored o.speed default.1.1.1 in
      let scheduled = schedule events o.idle_time_limit stored o.speed in
      let (p, e, out) = play_finishes r host default.1.1.0 clean in
      (
        p,
        (
          subst (λ n. Loops.play r false host (n + 3) ≡ finished p)
              (Retimed-length scheduled.frames frames same) e,
          ap printed_text out
              ∙ ap
                  (λ output.
                    printed_text (output_start output header ++ printed output scheduled.frames))
                  (make_raw o.out_fmt o.stream default.0 default.1.0)
              ∙ ap printed_text (Retimed-printed (b'o' ∷ []) scheduled.frames frames same),
        ),
      )

  module _ (loads : Text → Option Json) where
    pub recorded-Plays :
        (h : Fields) (offset : ℤ) (es : List Entry) (ts : List Text) (stored : Option ℤ)
        → limit_of (get_field "idle_time_limit" h) ≡ limit stored
        → Holds loads ts (lines offset start start es)
        → Plays loads o host
            (length es + 3)
            (returned (recorded loads h ts))
            (decode start (output_bytes es)).text
    unfolding request_of limited recording_limit recording_header play played
    recorded-Plays h offset es ts stored l held =
        let frames = event_frames offset start start es in
        let (p, (e, out)) = plays_frames (obj h) frames stored in
        let r : request_of loads o (recorded loads h ts)
            ≡ request o (obj h) (record { frames = frames; raises = false }) stored =
          rw (l, recorded_events-all loads h offset es ts held) refl in
        let ends : Loops.play (request_of loads o (recorded loads h ts)) false host (length es + 3)
            ≡ finished p =
          rw (r, sym (length-event_frames offset start start es)) e in
        (p, (ends, (out ∙ shown_text offset start start es, ap played ends)))

-- If the lines of the file read back as what was written: the recorder ends with a new file of them,
-- and a playback of it with the default output, without a terminal, at a speed that is not zero, and
-- where neither the pause key is the empty string nor the stored limit something else than a number,
-- finishes in one round for each event and three more. It returns 0 and has shown the text that all
-- bytes of the recorded output decode to. Or a write to the file has failed, and that was
-- reported; or nothing was written to it.
pub play-record_with :
    (loads : Text → Option Json) (disk : Disk) (h : Fields) (offset : ℤ) (record_stdin : Bool)
    (recorder : Pty.Host) (keys : Keys) (rounds : List Selected) (t : Text) (ts : List Text)
    (o : Options) (player : Host) (stored : Option ℤ)
    → has_version 2 h ≡ true
    → limit_of (get_field "idle_time_limit" h) ≡ limit stored
    → Holds loads (t ∷ ts) (
        obj h
        ∷ lines offset start start
            (enqueue_all record_stdin (recorded_events recorder keys rounds)))
    → IsDefault o
    → Holding loads
        (t ∷ ts)
        (Plays loads o player
          (length (enqueue_all record_stdin (recorded_events recorder keys rounds)) + 3)
          (open_recording loads t ts)
          (decode start (output_bytes (recorded_events recorder keys rounds))).text)
        (record_with disk (some h) [] offset record_stdin recorder keys rounds)
unfolding record_with
play-record_with loads disk h offset record_stdin recorder keys rounds t ts o player stored v l held
      default =
    let es = enqueue_all record_stdin (recorded_events recorder keys rounds) in
    let bytes = output_bytes-enqueue_all record_stdin (recorded_events recorder keys rounds) in
    Written-Holding loads _ (obj h ∷ lines offset start start es) (t ∷ ts) disk (some h)
      (run (v2_writer disk (some h) []) offset (queue_of es)) held
      (run-Written disk (some h) [] offset es)
      (subst
        (λ r.
          Plays loads o player (length es + 3) r
            (decode start (output_bytes (recorded_events recorder keys rounds))).text)
        (sym (open_recorded loads h t ts v held.0))
        (subst
          (λ b.
            Plays loads o player (length es + 3) (returned (recorded loads h ts))
              (decode start b).text)
          bytes (recorded-Plays o player default loads h offset es ts stored l held.1.1)))
