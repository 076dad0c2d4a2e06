-- ===== src/Media/Transcode/Destination.antt =====
-- workflows/media/transcode.go: where the output goes.
use media_processor.Prelude.{◌≡◌, ◌↔◌, ◌++◌, some, arith}
use media_processor.Files.Paths.{FilePath, dir, rel, rel_inside, rel-append}
use media_processor.Media.OutputPath.{effective_output_dir}

-- The output directory mirrors where the file's directory lies under the watch root.
abbrev pub Mirrors : FilePath → FilePath → FilePath → FilePath → Type 0
Mirrors output_dir root p out = (xs : FilePath) × (dir p ≡ xs ++ root) × (out ≡ xs ++ output_dir)

effective_inside :
    (output_dir root p out : FilePath)
    → effective_output_dir output_dir (some root) p ≡ some out
    → ((rel root (dir p)).ups ≡ 0) × (out ≡ (rel root (dir p)).downs ++ output_dir)
unfolding effective_output_dir
effective_inside output_dir root p out h = ground arith

effective_of_inside :
    (output_dir root p : FilePath) (xs : FilePath)
    → rel root (dir p) ≡ record { ups = 0; downs = xs }
    → effective_output_dir output_dir (some root) p ≡ some (xs ++ output_dir)
unfolding effective_output_dir
effective_of_inside output_dir root p xs h = ground (arith, h, rel-append xs output_dir)

-- With a watch root, a file is given an output directory exactly if it lies under the root, and the
-- directory is then that place mirrored under the configured one; in particular it never leaves it.
pub effective_output_dir_iff :
    (output_dir root p out : FilePath)
    → (effective_output_dir output_dir (some root) p ≡ some out) ↔ Mirrors output_dir root p out
effective_output_dir_iff output_dir root p out = (
  λ h.
      let (u, e) = effective_inside output_dir root p out h in
      ((rel root (dir p)).downs, rel_inside root (dir p) u, e),
  λ (xs, e, o). rw o (effective_of_inside output_dir root p xs (rw e (rel-append xs root))),
)
