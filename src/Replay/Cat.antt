-- ===== src/Replay/Cat.antt =====
-- asciinema/commands/cat.py on a file that asciinema/recorder.py has written.
use mathlib.Core.Path.{subst}
use asciinema.Base.{
  ℕ, ◌+◌, Bool, true, false, Option, some, List, [], ◌∷◌, ◌++◌, append_assoc, append-nil, concat,
  Text, ℤ, ◌≡◌, refl, sym, ap, ◌∙◌,
}
use asciinema.Pty.Defs.{Entry, stdin, stdout, marker, resize, Keys, Host}
use asciinema.Pty.Copy.{Selected}
use asciinema.Asciicast.Json.{Json, Fields, obj}
use asciinema.Asciicast.Events.{Frame}
use asciinema.Asciicast.Opening.{Recording, open_recording}
use asciinema.Asciicast.V2.Reader.{Read, returned, has_version}
use asciinema.FileWriter.{Disk}
use asciinema.Utf8.{Decoder, start, decode}
use asciinema.Utf8.Laws.{decode-append}
use asciinema.Recorder.Lines.{lines, next_out, run-Written, queue_of}
use asciinema.Recorder.Worker.{run, v2_writer, enqueue_all}
use asciinema.Recorder.Output.{output_bytes}
use asciinema.Recorder.Duration.{Holds, Holding, Written-Holding}
use asciinema.Recorder.Whole.{recorded_events, record_with, output_bytes-enqueue_all}
use asciinema.Commands.Cat.{
  Screen, blank, Catted, status, os_error, escaped, show, show_frames, cat, or_again, execute,
}
use asciinema.Commands.Cat.Again.{texts}
use asciinema.Replay.Frames.{
  event_frame, output_frames, recorded, open_recorded, recorded_events-output,
}

concat-append : (ss ts : List Text) → concat (ss ++ ts) ≡ concat ss ++ concat ts
concat-append [] ts = refl
concat-append (s ∷ ss) ts = rw (concat-append ss ts) (sym (append_assoc s (concat ss) (concat ts)))

-- The command returns 0, and this text has been written to stdout.
abbrev pub Shows : Text → Catted → Type 0
Shows t (status code s) = (code ≡ 0) × (concat s.shown ≡ t)
Shows t _ = ⊥

texts-output_frames :
    (offset : ℤ) (o : Decoder) (es : List Entry)
    → concat (texts (output_frames offset o es)) ≡ (decode o (output_bytes es)).text
unfolding output_frames event_frame next_out output_bytes decode
texts-output_frames offset o [] = refl
texts-output_frames offset o (stdout ts bytes ∷ es) =
    rw
      (
        texts-output_frames offset (decode o bytes).decoder es,
        decode-append o bytes (output_bytes es),
      )
      refl
texts-output_frames offset o (stdin ts bytes ∷ es) = texts-output_frames offset o es
texts-output_frames offset o (marker ts ∷ es) = texts-output_frames offset o es
texts-output_frames offset o (resize ts size ∷ es) = texts-output_frames offset o es

or_again-Shows :
    (again : Screen → Catted) (t : Text) (r : Catted) → Shows t r → Shows t (or_again again r)
unfolding or_again
or_again-Shows again t (status code s) h = h
or_again-Shows again t (os_error s) h = elim h [ ]
or_again-Shows again t (escaped s) h = elim h [ ]

module _ (fails : ℕ → Bool) (works : (n : ℕ) → fails n ≡ false) where
  show_frames-Shows :
      (frames : List Frame) (rest : Screen → Catted) (s : Screen) (t : Text)
      → s.pending ≡ []
      → ((u : Screen) → u.shown ≡ s.shown ++ texts frames → Shows t (rest u))
      → Shows t (show_frames fails frames false rest s)
  unfolding show_frames show
  show_frames-Shows [] rest s t p k = k s (sym (append-nil s.shown))
  show_frames-Shows (f ∷ fs) rest s t p k =
      rw (works s.writes, p)
        (show_frames-Shows fs rest
          (record s { writes = s.writes + 1; shown = s.shown ++ f.text ∷ []; pending = [] }) t refl
          (λ u e. k u (e ∙ append_assoc s.shown (f.text ∷ []) (texts fs))))

  module _ (loads : Text → Option Json) where
    cat-Shows :
        (h : Fields) (offset : ℤ) (es : List Entry) (ts : List Text)
        → Holds loads ts (lines offset start start es)
        → Shows
            (decode start (output_bytes es)).text
            (cat fails loads (returned (recorded loads h ts) ∷ []) blank)
    unfolding cat
    cat-Shows h offset es ts held = rw (recorded_events-output loads h offset es ts held) (
        show_frames-Shows (output_frames offset start es) (cat fails loads []) blank _ refl
          (λ u e. (refl, ap concat e ∙ texts-output_frames offset start es)))

    pub execute-Shows :
        (tty : Bool) (h : Fields) (offset : ℤ) (es : List Entry) (t : Text) (ts : List Text)
        (again : List (Read Recording))
        → has_version 2 h ≡ true
        → Holds loads (t ∷ ts) (obj h ∷ lines offset start start es)
        → Shows
            (decode start (output_bytes es)).text
            (execute fails loads tty (open_recording loads t ts ∷ []) again)
    unfolding execute
    execute-Shows tty h offset es t ts again v (e, (b, held)) =
        rw (open_recorded loads h t ts v e) (shown tty)
      where
        shown :
            (tty : Bool)
            → Shows
                (decode start (output_bytes es)).text
                (execute fails loads tty (returned (recorded loads h ts) ∷ []) again)
        shown true = or_again-Shows _ _ _ (cat-Shows h offset es ts held)
        shown false = cat-Shows h offset es ts held

-- If the lines of the file read back as what was written: the recorder ends with a new file of them,
-- and `cat` of it, while stdout takes what is written, returns 0 and shows the text that all bytes
-- of the recorded output decode to, whatever was typed, marked and resized, and whether the input was
-- recorded. Or a write to the file has failed, and that was reported; or nothing was
-- written to it.
pub cat-record_with :
    (loads : Text → Option Json) (disk : Disk) (h : Fields) (offset : ℤ) (record_stdin : Bool)
    (host : Host) (keys : Keys) (rounds : List Selected) (t : Text) (ts : List Text)
    (fails : ℕ → Bool) (tty : Bool) (again : List (Read Recording))
    → has_version 2 h ≡ true
    → Holds loads (t ∷ ts) (
        obj h
        ∷ lines offset start start (enqueue_all record_stdin (recorded_events host keys rounds)))
    → ((n : ℕ) → fails n ≡ false)
    → Holding loads
        (t ∷ ts)
        (Shows
          (decode start (output_bytes (recorded_events host keys rounds))).text
          (execute fails loads tty (open_recording loads t ts ∷ []) again))
        (record_with disk (some h) [] offset record_stdin host keys rounds)
unfolding record_with
cat-record_with loads disk h offset record_stdin host keys rounds t ts fails tty again v held
      works =
    let es = enqueue_all record_stdin (recorded_events host keys rounds) in
    Written-Holding loads _ (obj h ∷ lines offset start start es) (t ∷ ts) disk (some h)
      (run (v2_writer disk (some h) []) offset (queue_of es)) held
      (run-Written disk (some h) [] offset es)
      (subst
        (λ b.
          Shows (decode start b).text
            (execute fails loads tty (open_recording loads t ts ∷ []) again))
        (output_bytes-enqueue_all record_stdin (recorded_events host keys rounds))
        (execute-Shows fails works loads tty h offset es t ts again v held))
