-- ===== src/Terminal/Tests.antt =====
-- A recording that sets the mode of its terminal, and a handler of its own.
use asciinema.Base.{ℕ, Option, none, some, List, [], ◌∷◌, pos, ◌>>=◌, ◌≡◌, refl}
use asciinema.Terminal.{Terminal, guarded}
use asciinema.Terminal.Restored.{has, IsUnique, IsGuest, IsSame, guarded-IsSame}

-- SIGCHLD, SIGHUP, SIGTERM, SIGQUIT, SIGWINCH
abbrev signals : List ℕ
signals = 17 ∷ 1 ∷ 15 ∷ 3 ∷ 28 ∷ []

signals-IsUnique : IsUnique signals
unfolding has
signals-IsUnique = (refl, (refl, (refl, (refl, (refl, tt)))))

abbrev terminal : Terminal ℕ ℕ
terminal = record { mode = some 0; handlers = λ x. x; wakeup_fd = pos 5 }

abbrev setraw : ℕ → Option ℕ
setraw mode = some 1

-- It sets another mode, where there is one.
abbrev next_mode : Option ℕ → Option ℕ
next_mode none = none
next_mode (some mode) = some 2

abbrev body : Terminal ℕ ℕ → Terminal ℕ ℕ
body t = record t { mode = next_mode t.mode; wakeup_fd = pos 7 }

next_mode-none : (o : Option ℕ) → (o >>= setraw) ≡ none → next_mode o ≡ o
next_mode-none none h = refl
next_mode-none (some mode) h = absurd cc

body-IsGuest : IsGuest setraw signals body
body-IsGuest = record { others = λ t x h. refl; no_mode = λ t h. next_mode-none t.mode h }

guarded-IsSame_example : IsSame terminal (guarded setraw 0 (pos 6) signals body terminal)
guarded-IsSame_example =
    guarded-IsSame setraw 0 (pos 6) signals body terminal signals-IsUnique body-IsGuest
