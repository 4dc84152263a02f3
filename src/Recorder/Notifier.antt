-- ===== src/Recorder/Notifier.antt =====
-- asciinema/recorder.py, `async_notifier`, over asciinema/async_worker.py: the recording loop and the
-- writer put texts into a queue, and another process tells them to the user.
use asciinema.Base.{ℕ, ◌+◌, Bool, true, false, Option, none, some, List, [], ◌∷◌, ◌++◌, String}

-- What `notify`, or a signal to the process, may raise.
pub data Raised : Type 0 where
  keyboard_interrupt exception : Raised

pub data Call (S : Type 0) : Type 0 where
  returned : S → Call S
  raised : Raised → S → Call S

-- What `self.queue.get()` gives in the worker's process.
pub data Turn (P : Type 0) : Type 0 where
  got : Option P → Turn P
  interrupted : Turn P

-- `run` has met the `None` and leaves the rest of the queue, or it has raised, or it waits.
pub data Ran (P S : Type 0) : Type 0 where
  finished : S → List (Turn P) → Ran P S
  broken : Raised → S → Ran P S
  pending : S → Ran P S

-- `async_worker.run`
unfoldable pub run : {P S : Type 0} → (P → S → Call S) → List (Turn P) → S → Ran P S
run perform [] s = pending s
run perform (interrupted ∷ turns) s = broken keyboard_interrupt s
run perform (got none ∷ turns) s = finished s turns
run perform (got (some payload) ∷ turns) s = elim (perform payload s) [
  | returned s' ↦ run perform turns s'
  | raised e s' ↦ broken e s'
]

-- `async_worker._run` and `__exit__`, once the process has ended: `false` is the `RuntimeError`.
unfoldable pub joined : {P S : Type 0} → Ran P S → Option Bool
joined (finished s turns) = some true
joined (broken keyboard_interrupt s) = some true
joined (broken exception s) = some false
joined (pending s) = none

-- The texts that `notify` was called with.
pub record Notified : Type 0 where
  pub told : List String
  pub calls : ℕ

abbrev pub silent : Notified
silent = record { told = []; calls = 0 }

-- `raises n` is what the n-th call of `notify` raises, if it does.
module _ (raises : ℕ → Option Raised) where
  -- `self._notify(text)`
  unfoldable pub notify : String → Notified → Call Notified
  notify text s =
      let s' = record s { told = s.told ++ text ∷ []; calls = s.calls + 1 } in
      elim (raises s.calls) [ none ↦ returned s' | some e ↦ raised e s' ]

  -- The `try` block with its bare `except`.
  unfoldable pub perform : String → Notified → Call Notified
  unfolding notify
  perform text s = elim (notify text s) [ returned s' ↦ returned s' | raised e s' ↦ returned s' ]

  unfoldable pub run_notifier : List (Turn String) → Ran String Notified
  unfolding run perform
  run_notifier turns = run perform turns silent

-- What the user has been told in the end.
unfoldable pub told_of : {P : Type 0} → Ran P Notified → List String
told_of (finished s turns) = s.told
told_of (broken e s) = s.told
told_of (pending s) = s.told
