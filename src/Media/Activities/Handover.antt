-- ===== src/Media/Activities/Handover.antt =====
-- workflows/media/activities.go: from the Transcode activity to Notify.
use media_processor.Prelude.{◌≡◌, ◌≢◌, refl, ◌⊎◌, inl, inr, ◌∷◌, ◌++◌, Option, none, some, arith}
use media_processor.Files.Paths.{FilePath}
use media_processor.Files.Tree.{Tree}
use media_processor.Media.Types.{MediaInput, ProbeOutput, CropParams, TranscodeOutput}
use media_processor.Media.OutputPath.{mkv_base}
use media_processor.Media.Surroundings.{World, TranscodeSettings, TranscodeError}
use media_processor.Media.Transcode.Placement.{run_transcode_dest}
use media_processor.Media.Notify.{
  Library, ImportCall, ImportAnswer, get_arr_library, Notified, notify,
}
use media_processor.Media.Notify.Import.{Asked, Taken, Hidden, notify-Asked}
use media_processor.Media.Activities.{request_of, wrapped, transcode_to, transcode_activity}

-- The library is asked, and its answer decides.
abbrev pub IsAsked : (ImportCall → ImportAnswer) → Notified → Type 0
IsAsked answer (none, r) = ⊥
IsAsked answer (some call, r) = Taken (answer call) r

module _ (w : World) (settings : TranscodeSettings) (input : MediaInput) (p : ProbeOutput)
    (c : Option CropParams) (t : Tree) (o : TranscodeOutput) where
  wrapped_ok : (r : Tree × (TranscodeError ⊎ TranscodeOutput)) → (wrapped r).1 ≡ inr o → r.1 ≡ inr o
  wrapped_ok (t', inl e) h = cc
  wrapped_ok (t', inr o') h = ground arith

  -- The output stands under the output path.
  abbrev IsUnder : Option FilePath → Type 0
  IsUnder out = (d xs : FilePath) × (out ≡ some d) × (o.dest_file_path ≡ some (xs ++ d))

  to-IsUnder :
      (out : Option FilePath) → (transcode_to w settings input p c t out).1 ≡ inr o → IsUnder out
  unfolding transcode_to
  to-IsUnder none h = cc
  to-IsUnder (some d) h =
      let (xs, u, e) =
        run_transcode_dest w (request_of settings input p c d) t o (wrapped_ok _ h) in
      (d, mkv_base input.file_path ∷ xs, refl, e)

  ok_of :
      (l : Option Library)
      → get_arr_library input.media_type ≡ l
      → (transcode_activity w settings input p c t).1 ≡ inr o
      → (get_arr_library input.media_type ≢ none) × IsUnder input.output_path
  unfolding transcode_activity
  ok_of none e h = absurd (ground arith)
  ok_of (some l) e h = ((λ n. cc (e, n)), to-IsUnder input.output_path (ground arith))

  not-Hidden : (remote out : Option FilePath) → IsUnder out → ¬ Hidden remote out o.dest_file_path
  not-Hidden none out u h = absurd h
  not-Hidden (some remote) out (d, xs, e, k) h = h d xs (e, k)

  asked :
      (answer : ImportCall → ImportAnswer) (r : Notified)
      → Asked answer input o r
      → get_arr_library input.media_type ≢ none
      → IsUnder input.output_path
      → IsAsked answer r
  asked answer (none, r) (e, inl n) known u = known n
  asked answer (none, r) (e, inr h) known u =
      not-Hidden input.output_remote_path input.output_path u h
  asked answer (some call, r) (l, s, v, k) known u = k

  -- What a successful Transcode activity hands over can always be imported: for its output, Notify
  -- never ends in an error of the input, but asks the library, and the answer decides how it ends.
  pub notify-transcode_activity :
      (answer : ImportCall → ImportAnswer)
      → (transcode_activity w settings input p c t).1 ≡ inr o
      → IsAsked answer (notify answer input o)
  notify-transcode_activity answer h =
      let (known, u) = ok_of (get_arr_library input.media_type) refl h in
      asked answer (notify answer input o) (notify-Asked answer input o) known u
