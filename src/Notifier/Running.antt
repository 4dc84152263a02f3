-- ===== src/Notifier/Running.antt =====
-- asciinema/notifier.py: where the icon is, and what `notify` runs. `exists` stands for
-- `path.exists`, and `directory` is that of the module.
use asciinema.Base.{
  ◌==◌, if◌then◌else◌, Bool, Option, none, some, List, ◌∷◌, ◌++◌, Text, Dict, chars, last_of,
}
use asciinema.Notifier.{Notifier, noop, custom, args, env}

-- `path.join` with a name that is not absolute.
unfoldable pub join : Text → Text → Text
join directory name = elim (last_of none directory) [
  | none ↦ name
  | some c ↦ if c == b'/' then directory ++ name else directory ++ b'/' ∷ name
]

unfoldable pub get_icon_path : (Text → Bool) → Text → Option Text
unfolding join
get_icon_path exists directory =
    let path = join directory (chars "data/icon-256x256.png") in
    if exists path then some path else none

-- The arguments of `subprocess.run`: the command, and an environment if one is given.
pub record Run : Type 0 where
  pub command : List Text
  pub environ : Option (Dict Text)

-- `notify`
unfoldable pub notify : Option Text → Dict Text → Notifier → Text → Option Run
unfolding args env
notify icon environ noop text = none
notify icon environ (custom command) text =
    some
      (record { command = args icon (custom command) text; environ = some (env icon text environ) })
notify icon environ notifier text =
    some (record { command = args icon notifier text; environ = none })
