-- ===== src/PathManager/Conf.antt =====
-- internal/conf/path.go: path names, and the search for the configuration of a path.
use mediamtx.Base.{
  ℕ, Bool, true, ◌&&◌, ◌||◌, not, List, [], ◌∷◌, Option, none, some, if◌then◌else◌, leb, ◌==◌, ◌⊎◌,
  inl, inr,
}
use mediamtx.Base.Text.{Text, is_text, same}
use mediamtx.PathManager.Auth.{Access}

-- `[0-9a-zA-Z_\-/\.~]`
unfoldable pub is_name_char : ℕ → Bool
is_name_char c =
    (leb b'0' c && leb c b'9')
    || ((leb b'a' c && leb c b'z')
        || ((leb b'A' c && leb c b'Z')
            || (c == b'_' || (c == b'-' || (c == b'/' || (c == b'.' || c == b'~'))))))

unfoldable pub all_name_chars : Text → Bool
unfolding is_name_char
all_name_chars [] = true
all_name_chars (c ∷ cs) = is_name_char c && all_name_chars cs

-- `name[len(name)-1]`
unfoldable pub last_char : ℕ → Text → ℕ
last_char c [] = c
last_char c (d ∷ ds) = last_char d ds

pub data NameError : Type 0 where
  is_empty_name begins_with_slash ends_with_slash has_other_chars : NameError

-- `none` means that the name is valid.
unfoldable pub is_valid_path_name : Text → Option NameError
is_valid_path_name [] = some is_empty_name
is_valid_path_name (c ∷ cs) =
    if c == b'/'
    then some begins_with_slash
    else if last_char c cs == b'/'
    then some ends_with_slash
    else if not (all_name_chars (c ∷ cs))
    then some has_other_chars
    else none

-- The fields that a running path takes over, known by equality alone; the `rpi_camera` ones are
-- numbered in the source's order. `others` stands for all fields that are not listed.
pub record HotFields : Type 0 where
  pub recording : Bool
  pub rpi_camera_brightness : ℕ
  pub rpi_camera_contrast : ℕ
  pub rpi_camera_saturation : ℕ
  pub rpi_camera_sharpness : ℕ
  pub rpi_camera_exposure : ℕ
  pub rpi_camera_awb : ℕ
  pub rpi_camera_awb_gains : ℕ
  pub rpi_camera_denoise : ℕ
  pub rpi_camera_shutter : ℕ
  pub rpi_camera_metering : ℕ
  pub rpi_camera_gain : ℕ
  pub rpi_camera_ev : ℕ
  pub rpi_camera_fps : ℕ
  pub rpi_camera_idr_period : ℕ
  pub rpi_camera_bitrate : ℕ

pub record ConfEntry : Type 0 where
  pub has_regexp : Bool
  pub access : Access
  pub hot : HotFields
  pub others : ℕ

-- A map from names, listed in the order in which its entries are visited.
abbrev pub Confs : Type 0
Confs = List (Text × ConfEntry)

unfoldable pub lookup : Text → Confs → Option ConfEntry
lookup name [] = none
lookup name ((n, c) ∷ confs) = let rest = lookup name confs in if same n name then some c else rest

pub record Found : Type 0 where
  pub conf_name : Text
  pub conf : ConfEntry
  pub matches : List Text

pub data FindError : Type 0 where
  invalid_name : NameError → FindError
  not_configured : FindError

abbrev pub is_catch_all : Text → Bool
is_catch_all name = is_text "all" name || is_text "all_others" name

abbrev pub tries_regexp : Text → ConfEntry → Bool
tries_regexp n c = c.has_regexp && not (is_catch_all n)

abbrev pub tries_all : Text → ConfEntry → Bool
tries_all n c = is_catch_all n

-- The compiled expression of a configuration, by the configuration's name.
module _ (find_submatch : Text → Text → Option (List Text)) where
  -- One loop over the map, with a test of the entries that it tries.
  unfoldable pub first_match : (Text → ConfEntry → Bool) → Confs → Text → Option Found
  first_match tries [] name = none
  first_match tries ((n, c) ∷ confs) name =
      let rest = first_match tries confs name in
      if tries n c
      then elim (find_submatch n name) [
        | none ↦ rest
        | some m ↦ some (record { conf_name = n; conf = c; matches = m })
      ]
      else rest

  unfoldable pub find_path_conf : Confs → Text → FindError ⊎ Found
  find_path_conf confs name = elim (is_valid_path_name name) [
    | some e ↦ inl (invalid_name e)
    | none ↦ elim (lookup name confs) [
      | some c ↦ inr (record { conf_name = name; conf = c; matches = [] })
      | none ↦ elim (first_match tries_regexp confs name) [
        | some f ↦ inr f
        | none ↦ elim (first_match tries_all confs name) [
          | some f ↦ inr f
          | none ↦ inl not_configured
        ]
      ]
    ]
  ]

-- `reflect.DeepEqual`
module _ (equal : ConfEntry → ConfEntry → Bool) where
  unfoldable pub path_conf_can_be_updated : ConfEntry → ConfEntry → Bool
  path_conf_can_be_updated old new = equal new (record old { hot = new.hot })
