-- ===== src/Config/Laws.antt =====
-- asciinema/config.py: what `upgrade` leaves, and the keys.
use asciinema.Base.{ℕ, Option, none, some, [], ◌∷◌, Text, ◌≡◌, ap, ◌⊎◌}
use asciinema.Config.{
  Config, Home, Upgraded, upgraded, config_error, os_error, and_then, install_id, save_install_id,
  remove_config_file, new_install_id, refuse_api_token, migrate, upgrade,
}

-- The configuration behind the call, unless an `OSError` is raised, has this install ID.
abbrev HasNow : (Text → Text) → Option Text → Upgraded → Type 0
HasNow strip o (upgraded c) = install_id strip c ≡ o
HasNow strip o (config_error c) = install_id strip c ≡ o
HasNow strip o (os_error c) = Unit

-- There is no text, or it is empty.
abbrev pub Missing : Option Text → Type 0
Missing none = Unit
Missing (some []) = Unit
Missing (some (c ∷ cs)) = ⊥

-- The ID that an upgrade makes: the token of the section `api`, or else that of the section `user`,
-- or else a new one.
pub data IsNewId (uuid : Text) (c : Config) : Text → Type 0 where
  of_api : {x : ℕ} {xs : Text} → c.option "api" "token" ≡ some (x ∷ xs) → IsNewId uuid c (x ∷ xs)
  of_user :
      {x : ℕ} {xs : Text}
      → Missing (c.option "api" "token")
      → c.option "user" "token" ≡ some (x ∷ xs)
      → IsNewId uuid c (x ∷ xs)
  fresh : Missing (c.option "api" "token") → Missing (c.option "user" "token") → IsNewId uuid c uuid

abbrev pub HasIdNow : (Text → Text) → Text → Config → Config → Type 0
HasIdNow strip uuid c d =
    (id_ : Text) × (install_id strip d ≡ some id_)
    × ((install_id strip c ≡ some id_) ⊎ ((install_id strip c ≡ none) × IsNewId uuid c id_))

-- Behind the call there is an install ID: the one that there was, or else the one to be made. An
-- `OSError` is raised only where there was none.
abbrev pub HasId : (Text → Text) → Text → Config → Upgraded → Type 0
HasId strip uuid c (upgraded d) = HasIdNow strip uuid c d
HasId strip uuid c (config_error d) = HasIdNow strip uuid c d
HasId strip uuid c (os_error d) = install_id strip c ≡ none

module _ (home : Home) (strip : Text → Text) (uuid : Text) (c : Config) where
  abbrev migrated : Option Text → Upgraded
  migrated o =
      and_then
        (elim o [
          | some id_ ↦ upgraded c
          | none ↦
              and_then (save_install_id home (new_install_id uuid c) c)
                (remove_config_file home (new_install_id uuid c))
        ])
        refuse_api_token

  -- Where there is an install ID, `upgrade` changes nothing.
  upgrade-has_id :
      (id_ : Text) → install_id strip c ≡ some id_ → upgrade home strip uuid c ≡ refuse_api_token c
  unfolding upgrade migrate
  upgrade-has_id id_ e = ap migrated e
