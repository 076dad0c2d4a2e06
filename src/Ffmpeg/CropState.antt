-- ===== src/Ffmpeg/CropState.antt =====
-- pkg/ffmpeg/cropdetect.go: the constants, the reading of a frame's metadata, and the state of
-- `runCropdetectLoop`. The decoder and the filter are functions of what they were given so far. `log`
-- is no field of the code and nothing reads it: it holds the readings, the newest first, each with
-- the number of frames decoded by then.
use media_processor.Prelude.{ℕ, Bool, false, ◌||◌, List, [], Option, none, some, if◌then◌else◌}
use media_processor.Prelude.Int.{ℤ, pos, leb_ℤ}
use media_processor.Media.Types.{CropParams}

abbrev pub keyframe_switch_count : ℕ
keyframe_switch_count = 200

abbrev pub always_include_count : ℕ
always_include_count = 3

abbrev pub sample_interval : ℕ
sample_interval = 20

abbrev pub stability_threshold : ℕ
stability_threshold = 5

-- The four keys of a frame's metadata, `none` where one is absent or no integer.
pub record Metadata : Type 0 where
  pub w : Option ℤ
  pub h : Option ℤ
  pub x : Option ℤ
  pub y : Option ℤ

unfoldable pub crop_of : Option ℤ → Option ℤ → Option ℤ → Option ℤ → Option CropParams
crop_of (some w) (some h) (some x) (some y) =
    if leb_ℤ w (pos 0) || leb_ℤ h (pos 0)
    then none
    else some (record { w = w; h = h; x = x; y = y })
crop_of (some w) (some h) (some x) none = none
crop_of (some w) (some h) none y = none
crop_of (some w) none x y = none
crop_of none h x y = none

-- `parseCropMetadata`; a frame may have no metadata.
unfoldable pub parse_crop_metadata : Option Metadata → Option CropParams
unfolding crop_of
parse_crop_metadata none = none
parse_crop_metadata (some m) = crop_of m.w m.h m.x m.y

pub record Packet : Type 0 where
  pub number : ℕ
  pub stream_index : ℕ
  pub is_key : Bool

-- What a decoder is sent, and what a filter is given; a frame is its number.
pub data Feed : Type 0 where
  packet : Packet → Feed
  flush : Feed

pub data Push : Type 0 where
  frame : ℕ → Push
  eof : Push

pub data CropError : Type 0 where
  context_error libav_error : CropError

-- Without a result: no reading at all, or an error on the way.
pub data DetectError : Type 0 where
  no_metadata : DetectError
  aborted : CropError → DetectError

-- libav: the packets of the input and the error that ends them, if it is not the end of the file;
-- the frames and the outputs that get ready with the latest feed or push; and errors, each by what
-- was given before.
pub record Libav : Type 0 where
  pub video_stream_index : ℕ
  pub packets : List Packet
  pub read_error : Option CropError
  pub send_error : List Feed → Feed → Option CropError
  pub decode : List Feed → List ℕ
  pub receive_error : List Feed → Option CropError
  pub add_error : List Push → ℕ → Option CropError
  pub detect : List Push → List (Option Metadata)
  pub get_error : List Push → Option CropError

-- `crop` is `haveCrop` with `result`.
pub record State : Type 0 where
  pub frame_counter : ℕ
  pub crop : Option CropParams
  pub consecutive_stable : ℕ
  pub in_phase2 : Bool
  pub feeds : List Feed
  pub frames : List ℕ
  pub pushes : List Push
  pub outputs : List (Option Metadata)
  pub log : List (ℕ × CropParams)

abbrev pub start : State
start = record {
  frame_counter = 0;
  crop = none;
  consecutive_stable = 0;
  in_phase2 = false;
  feeds = [];
  frames = [];
  pushes = [];
  outputs = [];
  log = [];
}
