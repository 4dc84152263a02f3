-- ===== src/Recorder/Processes/Tests.antt =====
-- A schedule of the two processes: the worker has caught up before the recorder says `None`, and its
-- only write of an event fails.
use asciinema.Base.{true, ◌==◌, Option, none, some, [], ◌∷◌, pos, refl}
use asciinema.Pty.Defs.{Entry, stdout}
use asciinema.Asciicast.Json.{Fields, end}
use asciinema.Asciicast.V2.Writer as V2
use asciinema.Asciicast.V2.Writer.{enter, write_line, write_event, write_stdout}
use asciinema.FileWriter.{Disk, write, write_failed, append_chunk, open_file, close}
use asciinema.Recorder.Worker.{perform, v2_writer, Writer}
use asciinema.Recorder.Lines.{kept, run_lines, queue_of}
use asciinema.Recorder.Processes.{
  System, put, work, entered, performed, started, Step, puts, works, Steps, here, next,
}
use asciinema.Recorder.Processes.Schedules.{IsStuck}
use asciinema.Recorder.Processes.Ends.{IsOver, schedule-IsOver}

abbrev second_fails : Disk
second_fails = record { opens = true; fails = λ n. n == 1; short = λ n. none }

abbrev header : Option Fields
header = some end

abbrev writer : Writer
writer = v2_writer second_fails header []

abbrev event : Entry
event = stdout (pos 1000) (b'x' ∷ [])

abbrev or_self : System V2.Writer → Option (System V2.Writer) → System V2.Writer
or_self s none = s
or_self s (some t) = t

abbrev after_put : System V2.Writer → System V2.Writer
after_put s = or_self s (put s.unsent s)

abbrev after_work : System V2.Writer → System V2.Writer
after_work s = or_self s (work writer (pos 0) s.phase s.queue s)

abbrev first : System V2.Writer
first = started (queue_of (event ∷ []))

abbrev last : System V2.Writer
last = after_work (after_put (after_work (after_work (after_put first))))

abbrev waiting : System V2.Writer
waiting = after_work (after_work (after_put first))

abbrev told : System V2.Writer
told = after_put waiting

schedule : Steps writer (pos 0) first 5 last
unfolding started put work entered performed perform enter write_line write_event write_stdout write
    write_failed append_chunk open_file close
schedule =
    let one : Step writer (pos 0) first (after_put first) = puts refl in
    let two : Step writer (pos 0) (after_put first) (after_work (after_put first)) = works refl in
    let three : Step writer (pos 0) (after_work (after_put first)) waiting = works refl in
    let four : Step writer (pos 0) waiting told = puts refl in
    let five : Step writer (pos 0) told last = works refl in
    next (next (next (next (next here one) two) three) four) five

last-IsStuck : IsStuck writer (pos 0) last
unfolding started put work entered performed perform enter write_line write_event write_stdout write
    write_failed append_chunk open_file close
last-IsStuck t (puts h) = cc
last-IsStuck t (works h) = cc

schedule-IsOver_example :
    IsOver second_fails header (kept header []) (run_lines header (pos 0) (event ∷ [])) last
schedule-IsOver_example =
    schedule-IsOver second_fails header [] (pos 0) (event ∷ []) 5 last schedule last-IsStuck
