-- ===== src/Recorder/Processes.antt =====
-- asciinema/async_worker.py, with asciinema/recorder.py's `async_writer.run` in the process that it
-- starts: the recorder puts messages into the queue and then `None`, while the worker takes them.
-- One step is one call of `put` or one turn of the worker; a schedule is any order of steps.
pub mod Schedules
pub mod Ends
mod Tests
use asciinema.Base.{ℕ, ◌+◌, Bool, true, false, Option, none, some, List, [], ◌∷◌, ◌++◌, ℤ, ◌≡◌}
use asciinema.Pty.Defs.{Entry}
use asciinema.FileWriter.{Result, ok, io_error, other_error}
use asciinema.Recorder.Worker.{Writer, Worker, done, failed, crashed, drain, perform, consume, run}

-- Where the worker's process stands: before the writer is entered, in either loop over the queue,
-- or ended: by `None` in either loop, or by an exception that is no `IOError`.
pub data Phase (S : Type 0) : Type 0 where
  entering : Phase S
  consuming draining finished gave_up died : S → Phase S

-- The messages that the recorder has not put yet, the queue, and the worker.
pub record System (S : Type 0) : Type 0 where
  pub unsent : List (Option Entry)
  pub queue : List (Option Entry)
  pub phase : Phase S

-- `enqueue`, and in `__exit__` the `put(None)`.
unfoldable pub put : {S : Type 0} → List (Option Entry) → System S → Option (System S)
put [] s = none
put (message ∷ messages) s = some (record s { unsent = messages; queue = s.queue ++ message ∷ [] })

-- What the worker's exit code says to `__exit__`, once the process has ended: `false` is the
-- `RuntimeError`.
unfoldable pub joined : {S : Type 0} → Phase S → Option Bool
joined (finished c) = some true
joined (gave_up c) = some true
joined (died c) = some false
joined _ = none

unfoldable pub started : {S : Type 0} → List (Option Entry) → System S
started messages = record { unsent = messages; queue = []; phase = entering }

module _ (w : Writer) (time_offset : ℤ) where
  open w use {State, enter, exit}

  -- `self.writer.__enter__`
  unfoldable pub entered : Result State → Phase State
  entered (ok s) = consuming s
  entered (io_error s) = draining s
  entered (other_error s) = died s

  -- Leaving the `with` block closes the file.
  unfoldable pub performed : Result State → Phase State
  performed (ok s) = consuming s
  performed (io_error s) = draining (exit s)
  performed (other_error s) = died (exit s)

  -- One turn of the worker, unless it waits for a message or has ended.
  unfoldable pub work : Phase State → List (Option Entry) → System State → Option (System State)
  unfolding entered performed perform
  work entering queue s = some (record s { phase = entered enter })
  work (consuming c) [] s = none
  work (consuming c) (none ∷ queue) s = some (record s { queue = queue; phase = finished (exit c) })
  work (consuming c) (some event ∷ queue) s =
      some (record s { queue = queue; phase = performed (perform w time_offset event c) })
  work (draining c) [] s = none
  work (draining c) (none ∷ queue) s = some (record s { queue = queue; phase = gave_up c })
  work (draining c) (some event ∷ queue) s = some (record s { queue = queue })
  work (finished c) queue s = none
  work (gave_up c) queue s = none
  work (died c) queue s = none

  pub data Step (s t : System State) : Type 0 where
    puts : put s.unsent s ≡ some t → Step s t
    works : work s.phase s.queue s ≡ some t → Step s t

  -- `n` steps from one system to another.
  pub data Steps (s : System State) : ℕ → System State → Type 0 where
    here : Steps s 0 s
    next : {n : ℕ} {t u : System State} → Steps s n t → Step t u → Steps s (n + 1) u
