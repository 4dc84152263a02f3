-- ===== src/Asciicast/Json.antt =====
-- The values that Python's json module reads and writes, for asciinema/asciicast/*.py. A line of a
-- file stands for the value that `json.loads` makes of it; a `float` is in whole nanoseconds.
use asciinema.Base.{
  suc, ◌*◌, Bool, String, Option, none, some, if◌then◌else◌, str_eq, Text, ℤ, pos, negsuc, sub_ℕ,
}

mutual
  pub data Json : Type 0 where
    null : Json
    bool : Bool → Json
    int : ℤ → Json
    float : ℤ → Json
    str : Text → Json
    arr : Items → Json
    obj : Fields → Json

  pub data Items : Type 0 where
    nil : Items
    cons : Json → Items → Items

  pub data Fields : Type 0 where
    end : Fields
    field : String → Json → Fields → Fields

-- `d.get(k)`. `json.loads` keeps the last of equal keys, `field` the first: no key is repeated.
unfoldable pub get_field : String → Fields → Option Json
get_field k end = none
get_field k (field j v d) = if str_eq j k then some v else get_field k d

-- `d[k] = v`
unfoldable pub set_field : String → Json → Fields → Fields
set_field k v end = field k v end
set_field k v (field j w d) = if str_eq j k then field k v d else field j w (set_field k v d)

-- Seconds as nanoseconds.
unfoldable pub seconds : ℤ → ℤ
seconds (pos n) = pos (n * 1_000_000_000)
seconds (negsuc n) = sub_ℕ 0 (suc n * 1_000_000_000)

-- The time that a number stands for.
unfoldable pub time_of : Json → Option ℤ
unfolding seconds
time_of (int n) = some (seconds n)
time_of (float t) = some t
time_of _ = none
