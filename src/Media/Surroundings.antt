-- ===== src/Media/Surroundings.antt =====
-- workflows/media/transcode.go: what `RunTranscode` is asked and meets, and its calls of the file
-- system.
use media_processor.Prelude.{
  ℕ, Bool, true, false, not, List, [], ◌∷◌, Option, none, some, String, if◌then◌else◌,
}
use media_processor.Prelude.Int.{ℤ}
use media_processor.Files.Paths.{FilePath}
use media_processor.Files.Tree.{Tree, Node, file, directory, lookup, write, erase}
use media_processor.Media.Types.{ProbeOutput, CropParams, Codec}

-- What `ffprobe.Probe` answers of a file's contents, by its duration and its first video codec.
pub data Probed : Type 0 where
  probed : ℤ → String → Probed
  not_media : Probed
  interrupted : Probed

-- What `Transcoder.Run` does: it writes the output, with or without hardware, or it fails and may
-- leave a part of the output behind.
pub data Encoded : Type 0 where
  encoded : ℕ → Bool → Encoded
  not_encoded : Option ℕ → Encoded

-- What the builder chain hands to ffmpeg.
pub record Job : Type 0 where
  pub input : FilePath
  pub output : FilePath
  pub codec : Codec
  pub excluded : List ℕ
  pub default_audio : Option ℕ
  pub default_subtitle : Option ℕ
  pub downmix : Option ℕ
  pub cover_art : Option ℕ
  pub crop : Option CropParams
  pub h265_crf : ℤ
  pub hardware_device : String

-- What `RunTranscode` meets: the sizes and readings of files by their contents, the poster (an error
-- and an empty image are both `none`), ffmpeg, and the refusals of the file system.
pub record World : Type 0 where
  pub size : ℕ → ℕ
  pub directory_size : ℕ
  pub probe_media : ℕ → Probed
  pub poster : Option ℕ
  pub encode : Tree → Job → Encoded
  pub stat_fails : Tree → FilePath → Bool
  pub mkdir_fails : FilePath → Bool
  pub rename_fails : FilePath → Bool
  pub remove_fails : FilePath → Bool

-- os.Stat; `none` is an error, which a path that is there can have too.
unfoldable pub stat : World → FilePath → Tree → Option Node
stat w p t = if w.stat_fails t p then none else lookup t p

-- The size that os.Stat reports.
unfoldable pub node_size : World → Node → ℕ
node_size w (file c) = w.size c
node_size w directory = w.directory_size

-- What the configuration sets for every run: the quality of H.265 and the path of the hardware device.
pub record TranscodeSettings : Type 0 where
  pub h265_crf : ℤ
  pub hardware_device : String

pub record TranscodeRequest : Type 0 where
  pub file_path : FilePath
  pub probe : ProbeOutput
  pub crop_params : Option CropParams
  pub output_dir : FilePath
  pub watcher_root : Option FilePath
  pub library : Bool
  pub settings : TranscodeSettings

pub data TranscodeError : Type 0 where
  stat_source outside_output create_output_dir probe_existing transcode_failed move_failed :
      TranscodeError
  stat_output cleanup_temp_failed : TranscodeError
  joined : TranscodeError → TranscodeError → TranscodeError

-- os.MkdirAll, with whether it succeeded: a file may stand in the way, or the system refuse.
unfoldable pub mkdir_all : World → FilePath → Tree → Tree × Bool
mkdir_all w [] t = (t, true)
mkdir_all w (b ∷ d) t =
    let (t', made) = mkdir_all w d t in
    elim (lookup t (b ∷ d)) [
      | some directory ↦ (t, true)
      | some (file c) ↦ (t, false)
      | none ↦
          if not made
          then (t', false)
          else if w.mkdir_fails (b ∷ d)
          then (t', false)
          else (write t' (b ∷ d) directory, true)
    ]

-- os.Rename of a file; `none` is an error.
unfoldable pub rename : World → FilePath → FilePath → Tree → Option Tree
rename w old new t = elim (lookup t old) [
  | none ↦ none
  | some directory ↦ none
  | some (file c) ↦ elim (lookup t new) [
    | some directory ↦ none
    | _ ↦ if w.rename_fails new then none else some (write (erase t old) new (file c))
  ]
]
