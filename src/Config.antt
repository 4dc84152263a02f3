-- ===== src/Config.antt =====
-- asciinema/config.py: the install ID, its migration from older versions, the location of the
-- configuration, and the keys that it binds. What `configparser` reads is part of the state; `strip`
-- and `upper` stand for the methods of `str`, `join` for `path.join`.
pub mod Laws
pub mod Settings
mod Tests
use asciinema.Base.{
  ℕ, ◌-◌, leb, ltb, ◌==◌, ◌&&◌, if◌then◌else◌, Bool, true, false, String, Option, none, some, List,
  [], ◌∷◌, Text, Bytes, bytes_eq, str_eq, Dict, lookup, length,
}
use asciinema.Utf8.{encode}

-- `option` is `get` of the parser, `items` what it holds, section by section.
pub record Config : Type 0 where
  pub env : Dict Text
  pub option : String → String → Option Text
  pub items : Dict (Dict Text)
  pub home_exists : Bool
  pub config_file_exists : Bool
  pub install_id_file : Option Text

-- A call that returns, or raises a `ConfigError` or an `OSError`, behind its changes.
pub data Upgraded : Type 0 where
  upgraded : Config → Upgraded
  config_error os_error : Config → Upgraded

abbrev pub and_then : Upgraded → (Config → Upgraded) → Upgraded
and_then (upgraded c) f = f c
and_then (config_error c) f = config_error c
and_then (os_error c) f = os_error c

-- Whether the directory can be made, the file of the install ID opened and written, and the old
-- configuration removed; and what is in the file where it cannot be written.
pub record Home : Type 0 where
  pub makes : Bool
  pub writes : Bool
  pub removes : Bool
  pub left : Option Text

-- `first or second`, for a text or `None`.
unfoldable pub or_text : Option Text → Option Text → Option Text
or_text none second = second
or_text (some []) second = second
or_text (some (c ∷ cs)) second = some (c ∷ cs)

-- What is true of texts: that there is one, and it is not empty.
unfoldable pub truthy_text : Option Text → Option Text
truthy_text (some (c ∷ cs)) = some (c ∷ cs)
truthy_text _ = none

unfoldable pub read_install_id : (Text → Text) → Config → Option Text
read_install_id strip c = elim c.install_id_file [
  | none ↦ none
  | some content ↦ some (strip content)
]

-- `install_id`, where `none` is a `ConfigError`.
unfoldable pub install_id : (Text → Text) → Config → Option Text
unfolding or_text truthy_text read_install_id lookup
install_id strip c =
    truthy_text (or_text (lookup "ASCIINEMA_INSTALL_ID" c.env) (read_install_id strip c))

unfoldable pub api_token : Config → Option Text
api_token c = c.option "api" "token"

unfoldable pub user_token : Config → Option Text
user_token c = c.option "user" "token"

unfoldable pub create_config_home : Home → Config → Upgraded
create_config_home home c =
    if c.home_exists
    then upgraded c
    else if home.makes
    then upgraded (record c { home_exists = true })
    else os_error c

-- The file is opened and written.
unfoldable pub write_install_id : Home → Text → Config → Upgraded
write_install_id home id_ c =
    if home.writes
    then upgraded (record c { install_id_file = some id_ })
    else os_error (record c { install_id_file = home.left })

unfoldable pub save_install_id : Home → Text → Config → Upgraded
unfolding create_config_home write_install_id
save_install_id home id_ c = and_then (create_config_home home c) (write_install_id home id_)

unfoldable is_empty_section : Option (Dict Text) → Bool
is_empty_section (some []) = true
is_empty_section _ = false

unfoldable is_token_section : Text → Option (Dict Text) → Bool
unfolding bytes_eq
is_token_section id_ (some ((name, value) ∷ [])) = str_eq name "token" && bytes_eq value id_
is_token_section id_ _ = false

-- `items == {"DEFAULT": {}, section: {"token": id_}}`
unfoldable pub holds_only_token : String → Text → Dict (Dict Text) → Bool
unfolding is_empty_section is_token_section lookup
holds_only_token section id_ items =
    (length items == 2)
    && is_empty_section (lookup "DEFAULT" items)
    && is_token_section id_ (lookup section items)

-- `os.remove`
unfoldable pub remove : Home → Config → Upgraded
remove home c =
    if home.removes then upgraded (record c { config_file_exists = false }) else os_error c

unfoldable pub remove_config_file : Home → Text → Config → Upgraded
unfolding holds_only_token remove
remove_config_file home id_ c =
    if holds_only_token "api" id_ c.items
    then remove home c
    else if holds_only_token "user" id_ c.items
    then remove home c
    else upgraded c

-- The token of an older version, or else a new ID.
unfoldable pub new_install_id : Text → Config → Text
unfolding or_text api_token user_token
new_install_id uuid c = elim (truthy_text (or_text (api_token c) (user_token c))) [
  | none ↦ uuid
  | some id_ ↦ id_
]

unfoldable pub refuse_api_token : Config → Upgraded
unfolding truthy_text lookup
refuse_api_token c = elim (truthy_text (lookup "ASCIINEMA_API_TOKEN" c.env)) [
  | none ↦ upgraded c
  | some token ↦ config_error c
]

unfoldable pub migrate : Home → (Text → Text) → Text → Config → Upgraded
unfolding install_id new_install_id save_install_id remove_config_file
migrate home strip uuid c = elim (install_id strip c) [
  | some id_ ↦ upgraded c
  | none ↦
      let id_ = new_install_id uuid c in
      and_then (save_install_id home id_ c) (remove_config_file home id_)
]

unfoldable pub upgrade : Home → (Text → Text) → Text → Config → Upgraded
unfolding migrate refuse_api_token
upgrade home strip uuid c = and_then (migrate home strip uuid c) refuse_api_token

-- A key binding: `None`, some bytes, or an exception.
pub data Key : Type 0 where
  no_key : Key
  key : Bytes → Key
  key_config_error : Key
  key_value_error : Key

-- `bytes([code - 0x40])`, which has to be a byte.
unfoldable pub control_byte : ℕ → Key
control_byte code =
    if ltb code 0x40
    then key_value_error
    else if ltb (code - 0x40) 256
    then key ((code - 0x40) ∷ [])
    else key_value_error

unfoldable pub control_key : Text → Key
unfolding control_byte
control_key (c ∷ dash ∷ x ∷ rest) =
    if (c == b'C') && (dash == b'-') then control_byte x else key_config_error
control_key _ = key_config_error

unfoldable pub encoded_key : Option Bytes → Key
encoded_key none = key_value_error
encoded_key (some bytes) = key bytes

unfoldable pub key_of : (Text → Text) → Option Text → Key
unfolding truthy_text control_key encoded_key encode
key_of upper definition = elim (truthy_text definition) [
  | none ↦ no_key
  | some k ↦ if length k == 3 then control_key (upper k) else encoded_key (encode k)
]

-- `__get_key`
unfoldable pub get_key : (Text → Text) → Config → String → String → Option Text → Key
unfolding key_of
get_key upper c section name default = elim (c.option section name) [
  | none ↦ key_of upper default
  | some definition ↦ key_of upper (some definition)
]

-- `get_config_home`, where `none` is the exception; `isfile` is `path.isfile`.
unfoldable pub home_of : (Text → String → Text) → (Text → Bool) → Option Text → Option Text
home_of join isfile none = none
home_of join isfile (some home) =
    if isfile (join (join home ".asciinema") "config")
    then some (join home ".asciinema")
    else some (join (join home ".config") "asciinema")

unfoldable pub xdg_home_of : (Text → String → Text) → Option Text → Option Text → Option Text
xdg_home_of join none other = other
xdg_home_of join (some xdg) other = some (join xdg "asciinema")

unfoldable pub get_config_home : (Text → String → Text) → (Text → Bool) → Dict Text → Option Text
unfolding or_text truthy_text home_of xdg_home_of lookup
get_config_home join isfile env = or_text (lookup "ASCIINEMA_CONFIG_HOME" env) (
    xdg_home_of join (truthy_text (lookup "XDG_CONFIG_HOME" env))
      (home_of join isfile (truthy_text (lookup "HOME" env))))
