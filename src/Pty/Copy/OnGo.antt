-- ===== src/Pty/Copy/OnGo.antt =====
-- Properties of the states in which a step goes on.
use mathlib.Core.Path.{subst}
use asciinema.Base.{◌≡◌, refl}
use asciinema.Pty.Defs.{Session, Halt, Step, go, halt, ◌>>=◌}

-- A property of the state where the step goes on.
unfoldable pub OnGo : (Session → Type 0) → Step → Type 0
OnGo P step = (s : Session) → step ≡ go s → P s

session_of_go : {s t : Session} → go s ≡ go t → s ≡ t
session_of_go e = cc

pub OnGo-bind :
    (P Q : Session → Type 0) (step : Step) (f : Session → Step)
    → OnGo P step
    → ((s : Session) → P s → OnGo Q (f s))
    → OnGo Q (step >>= f)
unfolding OnGo
OnGo-bind P Q (go s) f h k = k s (h s refl)
OnGo-bind P Q (halt cause s) f h k = λ t e. cc

pub OnGo-go : (P : Session → Type 0) (s : Session) → P s → OnGo P (go s)
unfolding OnGo
OnGo-go P s h t e = subst P (session_of_go e) h

pub OnGo-halt : (P : Session → Type 0) (cause : Halt) (s : Session) → OnGo P (halt cause s)
unfolding OnGo
OnGo-halt P cause s t e = cc
