-- ===== src/Terminal/Restored.antt =====
-- asciinema/tty_.py and asciinema/pty_.py: after a recording the terminal and the handlers of signals
-- are what they were.
use mathlib.Core.Path.{subst}
use asciinema.Base.{
  ℕ, ◌==◌, ◌||◌, if◌then◌else◌, Bool, true, false, Option, none, some, List, [], ◌∷◌, ℤ, ◌>>=◌, ◌≡◌,
  refl, sym, ap, ◌∙◌, arith, ==_iff, if_rule,
}
use asciinema.Terminal.{
  Terminal, raw_entered, raw_enter, raw_exit, set_handler, install, put_back, signals_enter,
  signals_exit, guarded,
}

unfoldable pub has : ℕ → List ℕ → Bool
has x [] = false
has x (s ∷ signals) = (x == s) || has x signals

-- No signal is listed twice.
abbrev pub IsUnique : List ℕ → Type 0
IsUnique [] = Unit
IsUnique (s ∷ signals) = (has s signals ≡ false) × IsUnique signals

has-cons :
    (x s : ℕ) (signals : List ℕ)
    → has x (s ∷ signals) ≡ false
    → ((x == s) ≡ false) × (has x signals ≡ false)
unfolding has
has-cons x s signals h = ground arith

merge :
    {A : Type 0} (e m : Bool) (a b c d : A)
    → (e ≡ true → (m ≡ false) × (c ≡ b))
    → (if m then (if e then a else b) else (if e then c else d)) ≡ (if e || m then b else d)
merge true true a b c d f = absurd cc (f refl).0
merge true false a b c d f = (f refl).1
merge false true a b c d f = refl
merge false false a b c d f = refl

module _ {M H : Type 0} where
  -- The wakeup descriptor, the mode of the terminal and every handler.
  pub record IsSame (t u : Terminal M H) : Type 0 where
    wakeup_fd : u.wakeup_fd ≡ t.wakeup_fd
    mode : u.mode ≡ t.mode
    handlers : (x : ℕ) → u.handlers x ≡ t.handlers x

  install-handlers :
      (noop : H) (signals : List ℕ) (t : Terminal M H) (x : ℕ)
      → has x signals ≡ false
      → (install noop signals t).0.handlers x ≡ t.handlers x
  unfolding install has set_handler
  install-handlers noop [] t x h = refl
  install-handlers noop (s ∷ signals) t x h =
      let (other, others) = has-cons x s signals h in
      install-handlers noop signals (set_handler s noop t) x others
      ∙ ap (λ e. if e then noop else t.handlers x) other

  put_back-install :
      (noop : H) (signals : List ℕ) (t u : Terminal M H) (x : ℕ)
      → IsUnique signals
      → (put_back (install noop signals t).1 u).handlers x
        ≡ (if has x signals then t.handlers x else u.handlers x)
  unfolding install put_back has set_handler
  put_back-install noop [] t u x h = refl
  put_back-install noop (s ∷ signals) t u x (h, k) =
      put_back-install noop signals (set_handler s noop t) (set_handler s (t.handlers s) u) x k
      ∙ merge (x == s) (has x signals) noop (t.handlers x) (t.handlers s) (u.handlers x) (λ e.
        let same : x ≡ s = (==_iff x s).0 e in
        (subst (λ y. has y signals ≡ false) (sym same) h, ap t.handlers (sym same)))

  put_back-mode : (saved : List (ℕ × H)) (t : Terminal M H) → (put_back saved t).mode ≡ t.mode
  unfolding put_back set_handler
  put_back-mode [] t = refl
  put_back-mode ((s, h) ∷ saved) t = put_back-mode saved (set_handler s h t)

  put_back-wakeup_fd :
      (saved : List (ℕ × H)) (t : Terminal M H) → (put_back saved t).wakeup_fd ≡ t.wakeup_fd
  unfolding put_back set_handler
  put_back-wakeup_fd [] t = refl
  put_back-wakeup_fd ((s, h) ∷ saved) t = put_back-wakeup_fd saved (set_handler s h t)

  install-mode :
      (noop : H) (signals : List ℕ) (t : Terminal M H) → (install noop signals t).0.mode ≡ t.mode
  unfolding install set_handler
  install-mode noop [] t = refl
  install-mode noop (s ∷ signals) t = install-mode noop signals (set_handler s noop t)

  -- What a recording may do to the terminal: nothing to the handlers of other signals, and nothing
  -- to its mode, where that cannot be set.
  pub record IsGuest (setraw : M → Option M) (signals : List ℕ) (body : Terminal M H → Terminal M H)
      : Type 0 where
    pub others :
        (t : Terminal M H) (x : ℕ) → has x signals ≡ false → (body t).handlers x ≡ t.handlers x
    pub no_mode : (t : Terminal M H) → (t.mode >>= setraw) ≡ none → (body t).mode ≡ t.mode

  -- The terminal behind the `with` block of `raw`.
  abbrev left : Option M → (Terminal M H → Terminal M H) → Terminal M H → Terminal M H
  left o body t = raw_exit (raw_entered o t).1 (body (raw_entered o t).0)

  left-mode :
      (o : Option M) (body : Terminal M H → Terminal M H) (t : Terminal M H)
      → (o ≡ none → (body t).mode ≡ t.mode)
      → (left o body t).mode ≡ t.mode
  unfolding raw_entered raw_exit
  left-mode none body t h = h refl
  left-mode (some mode) body t h = refl

  left-handlers :
      (o : Option M) (body : Terminal M H → Terminal M H) (t : Terminal M H) (x : ℕ)
      → ((u : Terminal M H) → (body u).handlers x ≡ u.handlers x)
      → (left o body t).handlers x ≡ t.handlers x
  unfolding raw_entered raw_exit
  left-handlers none body t x h = h t
  left-handlers (some mode) body t x h = h (record t { mode = some mode })

-- Around a recording that leaves alone the handlers of signals that are not listed, and the mode of
-- a terminal that cannot be set: if no signal is listed twice, then afterwards every handler, the
-- wakeup descriptor and the mode of the terminal are what they were, whatever else it did to them.
pub guarded-IsSame :
    {M H : Type 0} (setraw : M → Option M) (noop : H) (w : ℤ) (signals : List ℕ)
    (body : Terminal M H → Terminal M H) (t : Terminal M H)
    → IsUnique signals
    → IsGuest setraw signals body
    → IsSame t (guarded setraw noop w signals body t)
unfolding guarded signals_enter signals_exit raw_enter
guarded-IsSame setraw noop w signals body t unique guest =
    let start = record t { wakeup_fd = w } in
    let u = (install noop signals start).0 in
    let saved = (install noop signals start).1 in
    let o = u.mode >>= setraw in
    let v = record (left o body u) { wakeup_fd = t.wakeup_fd } in
    record {
      wakeup_fd = put_back-wakeup_fd saved v;
      mode =
          put_back-mode saved v
          ∙ left-mode o body u (guest.no_mode u)
          ∙ install-mode noop signals start;
      handlers = λ x.
          put_back-install noop signals start v x unique
          ∙ if_rule (λ h. h ≡ t.handlers x) (has x signals) (t.handlers x) (v.handlers x)
              (λ e. refl)
              (λ e.
                left-handlers o body u x (λ r. guest.others r x e)
                ∙ install-handlers noop signals start x e);
    }
