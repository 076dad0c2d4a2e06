-- ===== src/Media/OutputPath.antt =====
-- workflows/media/transcode.go: the paths that `RunTranscode` writes.
use Prim.Native.String.{◌++◌ as str_append}
use Prim.Native.Char.{code}
use media_processor.Prelude.{
  Bool, false, ◌&&◌, ◌||◌, not, ◌∷◌, ◌++◌, Option, none, some, String, ltb, ◌==◌, if◌then◌else◌,
}
use media_processor.Files.Paths.{FilePath, dir, base, rel}

-- Whether a text has a dot.
unfoldable pub has_dot : String → Bool
has_dot String.[] = false
has_dot (String.◌∷◌ c s) = code c == b'.' || has_dot s

-- strings.TrimSuffix(name, filepath.Ext(name)): the text before the last dot.
unfoldable pub strip_extension : String → String
unfolding has_dot
strip_extension String.[] = String.[]
strip_extension (String.◌∷◌ c s) =
    let rest = strip_extension s in
    if not (has_dot s) && code c == b'.' then String.[] else String.◌∷◌ c rest

-- `mkvBase`, and the names of the two files.
unfoldable pub mkv_base : FilePath → String
unfolding strip_extension base
mkv_base p = str_append (strip_extension (base p)) ".mkv"

unfoldable pub final_path : FilePath → FilePath → FilePath
final_path out p = mkv_base p ∷ out

unfoldable pub temp_path : FilePath → FilePath → FilePath
temp_path out p = str_append "._" (str_append (mkv_base p) ".tmp") ∷ out

-- `effectiveOutputDir`; `none` is a refusal to write outside the output directory.
unfoldable pub effective_output_dir : FilePath → Option FilePath → FilePath → Option FilePath
effective_output_dir output_dir none p = some output_dir
effective_output_dir output_dir (some root) p =
    let r = rel root (dir p) in
    let candidate = r.downs ++ output_dir in
    if ltb 0 r.ups
    then none
    else if ltb 0 (rel output_dir candidate).ups
    then none
    else some candidate
