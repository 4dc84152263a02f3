-- ===== src/Api/Tests.antt =====
-- The user agent of asciinema/api.py.
use asciinema.Base.{chars, ◌≡◌, refl}
use asciinema.Api.Agent.{slashed}

linux_slashed : slashed (chars "Linux-5.4-x86") ≡ chars "Linux/5.4-x86"
unfolding slashed
linux_slashed = refl
