-- ===== src/Media/Languages.antt =====
-- workflows/media/language.go: language names of audio tracks. `name_of` is `iso639.FromAnyCode` with
-- the name of the language that it finds.
pub mod Disambiguation
use media_processor.Prelude.{
  Bool, true, false, ◌||◌, not, List, [], ◌∷◌, Option, none, some, String, str_eq, if◌then◌else◌,
}
use media_processor.Media.Types.{AudioStreamInfo}

-- `iso639Name`.
unfoldable pub iso639_name : (String → Option String) → String → String
iso639_name name_of tag =
    if str_eq tag "" then "" else elim (name_of tag) [ none ↦ tag | some name ↦ name ]

-- `audioLangName`.
unfoldable pub audio_lang_name : (String → Option String) → String → String
audio_lang_name name_of tag =
    if str_eq tag "" || str_eq tag "und" then "Unknown Language" else iso639_name name_of tag

-- `normalizeLangTag`.
unfoldable pub normalize_lang_tag : String → String
normalize_lang_tag tag = if str_eq tag "" then "und" else tag

-- The loop of `disambiguateLang`.
unfoldable pub any_other : String → List AudioStreamInfo → Bool
any_other first [] = false
any_other first (s ∷ ss) = not (str_eq (normalize_lang_tag s.language) first) || any_other first ss

-- `disambiguateLang`.
unfoldable pub disambiguate_lang : List AudioStreamInfo → Bool
disambiguate_lang [] = false
disambiguate_lang (s ∷ ss) = any_other (normalize_lang_tag s.language) ss
