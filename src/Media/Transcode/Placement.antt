-- ===== src/Media/Transcode/Placement.antt =====
-- workflows/media/transcode.go: the path that a successful run reports.
use media_processor.Prelude.{
  ℕ, ◌≡◌, refl, inl, inr, Bool, ◌∷◌, ◌++◌, [], Option, none, some, arith, Option-cases,
}
use media_processor.Files.Paths.{FilePath, dir}
use media_processor.Files.Tree.{Tree}
use media_processor.Media.Types.{TranscodeOutput}
use media_processor.Media.OutputPath.{mkv_base, final_path, temp_path, effective_output_dir}
use media_processor.Media.Surroundings.{
  World, TranscodeRequest, TranscodeError, Encoded, encoded, not_encoded, rename, mkdir_all, stat,
}
use media_processor.Media.Transcode.{
  build_job, made_output, measure_output, publish_output, encode_output, produce_output,
  prepare_output, run_transcode, Outcome,
}
use media_processor.Media.Transcode.Destination.{effective_output_dir_iff}

module _ (w : World) (req : TranscodeRequest) where
  -- A run that succeeded reports the final path of this output directory.
  abbrev pub Reports : FilePath → Outcome → Type 0
  Reports out (t, inl e) = Unit
  Reports out (t, inr o) = o.dest_file_path ≡ some (final_path out req.file_path)

  measure-Reports :
      (out : FilePath) (n : ℕ) (h : Bool) (t : Tree) → Reports out (measure_output w req out n h t)
  unfolding measure_output made_output
  measure-Reports out n h t = ground arith

  publish-Reports :
      (out : FilePath) (n : ℕ) (h : Bool) (t : Tree) → Reports out (publish_output w req out n h t)
  unfolding publish_output
  publish-Reports out n h t =
      elim (Option-cases
        (rename w (temp_path out req.file_path) (final_path out req.file_path) t)) [
          | inl k ↦ rw (k, publish_output) tt
          | inr (t', k) ↦ rw (k, publish_output) (measure-Reports out n h t')
        ]

  encode-Reports :
      (out : FilePath) (n : ℕ) (t : Tree) (r : Encoded)
      → w.encode t (build_job w req out) ≡ r
      → Reports out (encode_output w req out n t)
  unfolding encode_output
  encode-Reports out n t (encoded c h) e = rw (e, encode_output) (publish-Reports out n h _)
  encode-Reports out n t (not_encoded part) e = rw (e, encode_output) tt

  produce-Reports : (out : FilePath) (n : ℕ) (t : Tree) → Reports out (produce_output w req out n t)
  unfolding produce_output
  produce-Reports out n t = ground (arith, encode-Reports out n t _ refl)

  prepare-Reports :
      (out : FilePath) (n : ℕ) (t : Tree) → Reports out (prepare_output w req n (some out) t)
  unfolding prepare_output
  prepare-Reports out n t = ground (arith, produce-Reports out n (mkdir_all w out t).0)

  abbrev Fails : Outcome → Type 0
  Fails (t, inl e) = Unit
  Fails (t, inr o) = ⊥

  -- Where the output goes, if a run succeeded.
  abbrev Placed : Option FilePath → Outcome → Type 0
  Placed none o = Fails o
  Placed (some out) o = Reports out o

  failed-Placed : (o : Option FilePath) (t : Tree) (e : TranscodeError) → Placed o (t, inl e)
  failed-Placed none t e = tt
  failed-Placed (some out) t e = tt

  prepare-Placed : (o : Option FilePath) (n : ℕ) (t : Tree) → Placed o (prepare_output w req n o t)
  unfolding prepare_output
  prepare-Placed none n t = tt
  prepare-Placed (some out) n t = prepare-Reports out n t

  run-Placed :
      (t : Tree)
      → Placed
          (effective_output_dir req.output_dir req.watcher_root req.file_path)
          (run_transcode w req t)
  unfolding run_transcode
  run-Placed t = elim (Option-cases (stat w req.file_path t)) [
    | inl k ↦
        rw (k, run_transcode)
          (failed-Placed (effective_output_dir req.output_dir req.watcher_root req.file_path) t _)
    | inr (n, k) ↦
        rw (k, run_transcode)
          (prepare-Placed (effective_output_dir req.output_dir req.watcher_root req.file_path) _ t)
  ]

  -- The place of a file under the watch root, if there is one.
  abbrev pub Under : Option FilePath → FilePath → Type 0
  Under none xs = xs ≡ []
  Under (some root) xs = dir req.file_path ≡ xs ++ root

  dir-Under :
      (root : Option FilePath) (out : FilePath)
      → effective_output_dir req.output_dir root req.file_path ≡ some out
      → (xs : FilePath) × Under root xs × (out ≡ xs ++ req.output_dir)
  unfolding effective_output_dir
  dir-Under none out e = ([], refl, ground arith)
  dir-Under (some root) out e = (effective_output_dir_iff req.output_dir root req.file_path out).0 e

  taken :
      (c : Option FilePath) (r : Outcome) (o : TranscodeOutput)
      → Placed c r
      → r.1 ≡ inr o
      → (out : FilePath) × (c ≡ some out) × (o.dest_file_path ≡ some (final_path out req.file_path))
  taken none (t, inl e) o h k = cc
  taken none (t, inr o') o h k = absurd h
  taken (some out) (t, inl e) o h k = cc
  taken (some out) (t, inr o') o h k = (out, refl, ground arith)

  -- The output of a successful run lies under the output directory where the source lies under the
  -- watch root, or directly in the output directory where there is no watch root.
  pub run_transcode_dest :
      (t : Tree) (o : TranscodeOutput)
      → (run_transcode w req t).1 ≡ inr o
      → (xs : FilePath) × Under req.watcher_root xs
        × (o.dest_file_path ≡ some (mkv_base req.file_path ∷ xs ++ req.output_dir))
  unfolding final_path
  run_transcode_dest t o h =
      let (out, e, k) = taken _ (run_transcode w req t) o (run-Placed t) h in
      let (xs, u, f) = dir-Under req.watcher_root out e in (xs, u, rw f at k)
