-- ===== src/Terminal.antt =====
-- asciinema/tty_.py, `raw`, and asciinema/pty_.py, `SignalFD`: what a recording sets up around its
-- loop. `M` stands for the attributes of a terminal and `H` for the handlers of signals.
pub mod Restored
mod Tests
use asciinema.Base.{
  ℕ, ◌==◌, ◌||◌, if◌then◌else◌, Bool, true, false, Option, none, some, List, [], ◌∷◌, ℤ, ◌>>=◌,
}

-- `mode` is what `tcgetattr` gives, or `none` where it raises.
pub record Terminal (M H : Type 0) : Type 0 where
  pub mode : Option M
  pub handlers : ℕ → H
  pub wakeup_fd : ℤ

-- The object `raw`: `restore` and the mode that was saved.
pub record Raw (M : Type 0) : Type 0 where
  pub restore : Bool
  pub saved : Option M

-- The object `SignalFD`.
pub record Signals (H : Type 0) : Type 0 where
  pub orig_handlers : List (ℕ × H)
  pub orig_wakeup_fd : ℤ

module _ {M H : Type 0} where
  -- `raw.__enter__`, where `setraw` is that of the module `tty`, and may raise.
  unfoldable pub raw_entered : Option M → Terminal M H → Terminal M H × Raw M
  raw_entered none t = (t, record { restore = false; saved = t.mode })
  raw_entered (some mode) t =
      (record t { mode = some mode }, record { restore = true; saved = t.mode })

  unfoldable pub raw_enter : (M → Option M) → Terminal M H → Terminal M H × Raw M
  unfolding raw_entered
  raw_enter setraw t = raw_entered (t.mode >>= setraw) t

  unfoldable pub raw_exit : Raw M → Terminal M H → Terminal M H
  raw_exit raw t = if raw.restore then record t { mode = raw.saved } else t

  -- `signal.signal(sig, handler)`
  unfoldable pub set_handler : ℕ → H → Terminal M H → Terminal M H
  set_handler sig handler t = record t {
    handlers = λ s. if s == sig then handler else t.handlers s;
  }

  -- The handlers of these signals, and that nothing is done for them from now on.
  unfoldable pub install : H → List ℕ → Terminal M H → Terminal M H × List (ℕ × H)
  unfolding set_handler
  install noop [] t = (t, [])
  install noop (sig ∷ signals) t =
      let (u, saved) = install noop signals (set_handler sig noop t) in
      (u, (sig, t.handlers sig) ∷ saved)

  unfoldable pub put_back : List (ℕ × H) → Terminal M H → Terminal M H
  unfolding set_handler
  put_back [] t = t
  put_back ((sig, handler) ∷ saved) t = put_back saved (set_handler sig handler t)

  -- `SignalFD.__enter__`, with the end of a pipe that signals are written to.
  unfoldable pub signals_enter : H → ℤ → List ℕ → Terminal M H → Terminal M H × Signals H
  unfolding install
  signals_enter noop w signals t =
      let (u, saved) = install noop signals (record t { wakeup_fd = w }) in
      (u, record { orig_handlers = saved; orig_wakeup_fd = t.wakeup_fd })

  unfoldable pub signals_exit : Signals H → Terminal M H → Terminal M H
  unfolding put_back
  signals_exit s t = put_back s.orig_handlers (record t { wakeup_fd = s.orig_wakeup_fd })

  -- The two `with` blocks of `record`, around what is done inside.
  unfoldable pub guarded :
      (M → Option M) → H → ℤ → List ℕ → (Terminal M H → Terminal M H) → Terminal M H → Terminal M H
  unfolding raw_enter raw_exit signals_enter signals_exit
  guarded setraw noop w signals body t =
      let (u, s) = signals_enter noop w signals t in
      let (v, r) = raw_enter setraw u in signals_exit s (raw_exit r (body v))
