-- ===== src/Media/Transcode/Atomic.antt =====
-- workflows/media/transcode.go: what a run leaves on disk, however it ends.
use media_processor.Prelude.{
  ℕ, ◌≡◌, ◌≢◌, refl, ◌∙◌, ◌⊎◌, inl, inr, Bool, none, some, arith, Bool-cases, Option-cases,
}
use media_processor.Files.Paths.{FilePath, same_path_iff}
use media_processor.Files.Tree.{Tree, file, lookup, remove, refused, lookup-write}
use media_processor.Media.Types.{TranscodeOutput}
use media_processor.Media.OutputPath.{final_path, temp_path, effective_output_dir}
use media_processor.Media.Surroundings.{
  World, TranscodeRequest, TranscodeError, transcode_failed, move_failed, Encoded, encoded,
  not_encoded, rename, mkdir_all, stat, stat_output, joined, cleanup_temp_failed,
}
use media_processor.Media.Transcode.{
  publish_output, Outcome, build_job, leave_output, discard_temp, made_output, measure_output,
  encode_output, produce_output, prepare_output, run_transcode, reuse_existing_output, Reuse,
  no_reuse, reuse_error, reuse_found,
}
use media_processor.Media.Transcode.Steps.{
  temp-ne-final, mkdir_all-lookup, leave_output-lookup, discard_temp-lookup, discard_temp_ends,
  Moved, rename-Moved,
}

module _ (w : World) (req : TranscodeRequest) (out : FilePath) where
  abbrev pub final : FilePath
  final = final_path out req.file_path

  abbrev pub temp : FilePath
  temp = temp_path out req.file_path

  -- A run that put what ffmpeg wrote in place of the final file.
  pub record Published (t : Tree) (r : TranscodeError ⊎ TranscodeOutput) : Type 0 where
    pub started_on : Tree
    pub contents : ℕ
    pub hardware : Bool
    pub made : w.encode started_on (build_job w req out) ≡ encoded contents hardware
    pub is_there : lookup t final ≡ some (file contents)
    pub no_temp : lookup t temp ≡ none
    pub answered : ((o : TranscodeOutput) × (r ≡ inr o)) ⊎ (r ≡ inl stat_output)

  -- The final path keeps what it had, or a run has replaced it that succeeded, or failed only when it
  -- measured the output.
  abbrev pub KeepsFinal : Tree → Outcome → Type 0
  KeepsFinal t (t', r) = (lookup t' final ≡ lookup t final) ⊎ Published t' r

  -- What was there as a file at another path is still there.
  abbrev pub KeepsOthers : Tree → Outcome → Type 0
  KeepsOthers t (t', r) =
      (q : FilePath) (c : ℕ)
      → temp ≢ q
      → final ≢ q
      → lookup t q ≡ some (file c)
      → lookup t' q ≡ some (file c)

  -- A result that carries the error `e`, alone or joined with one of the removal.
  abbrev pub FailsBy : TranscodeError → TranscodeError ⊎ TranscodeOutput → Type 0
  FailsBy e r = (r ≡ inl e) ⊎ (r ≡ inl (joined e cleanup_temp_failed))

  -- The temporary file is gone, or the result says that its removal failed, and it is refused.
  abbrev pub DropsTemp : TranscodeError → Outcome → Type 0
  DropsTemp e (t', r) =
      ((r ≡ inl e) × (lookup t' temp ≡ none))
      ⊎ ((r ≡ inl (joined e cleanup_temp_failed))
          × ((remove t' temp (w.remove_fails temp)).1 ≡ refused))

  -- The errors after which the temporary file is to go.
  abbrev pub IsLate : TranscodeError → Type 0
  IsLate e = (e ≡ transcode_failed) ⊎ (e ≡ move_failed)

  record Good (t : Tree) (o : Outcome) : Type 0 where
    keeps_final : KeepsFinal t o
    keeps_others : KeepsOthers t o
    drops_temp : (e : TranscodeError) → IsLate e → FailsBy e o.1 → DropsTemp e o

  discard-DropsTemp :
      (e d : TranscodeError) (u : Tree)
      → IsLate e
      → IsLate d
      → FailsBy d (inl (discard_temp w temp e u).1)
      → DropsTemp d ((discard_temp w temp e u).0, inl (discard_temp w temp e u).1)
  discard-DropsTemp e d u late l f = ground (arith, discard_temp_ends w temp e u)

  discard-Good :
      (e : TranscodeError) (t u : Tree)
      → IsLate e
      → lookup u final ≡ lookup t final
      → ((q : FilePath) → temp ≢ q → lookup u q ≡ lookup t q)
      → Good t ((discard_temp w temp e u).0, inl (discard_temp w temp e u).1)
  discard-Good e t u late same others = record {
    keeps_final =
        inl (discard_temp-lookup w temp e u final (temp-ne-final out req.file_path) ∙ same);
    keeps_others = λ q c a b h. discard_temp-lookup w temp e u q a ∙ others q a ∙ h;
    drops_temp = λ d l f. discard-DropsTemp e d u late l f;
  }

  -- The result of a run that published its output.
  abbrev IsMeasured : TranscodeError ⊎ TranscodeOutput → Type 0
  IsMeasured r = ((o : TranscodeOutput) × (r ≡ inr o)) ⊎ (r ≡ inl stat_output)

  measured :
      (source_size : ℕ) (hardware : Bool) (t : Tree)
      → (r : TranscodeError ⊎ TranscodeOutput) × IsMeasured r
        × (measure_output w req out source_size hardware t ≡ (t, r))
  unfolding measure_output
  measured source_size hardware t = elim (Option-cases (stat w final t)) [
    | inl k ↦ (inl stat_output, inr refl, rw (k, measure_output) refl)
    | inr (n, k) ↦
        let o = made_output w req out source_size hardware n in
        (inr o, inl (o, refl), rw (k, measure_output) refl)
  ]

  late-Measured :
      (e : TranscodeError) (r : TranscodeError ⊎ TranscodeOutput)
      → IsMeasured r
      → IsLate e
      → ¬ FailsBy e r
  late-Measured e r m l f = ground arith

  published-Good :
      (r : TranscodeError ⊎ TranscodeOutput) (hardware : Bool) (c : ℕ) (t t' : Tree)
      → IsMeasured r
      → w.encode t (build_job w req out) ≡ encoded c hardware
      → Moved temp final (leave_output temp (some c) t) t'
      → Good t (t', r)
  unfolding leave_output
  published-Good r hardware c t t' a e m = record {
    keeps_final = inr (record {
      started_on = t;
      contents = c;
      hardware = hardware;
      made = e;
      is_there =
          m.is_there
          ∙ ground (arith, m.was_there, lookup-write t temp temp (file c), same_path_iff temp temp);
      no_temp = m.is_gone;
      answered = a;
    });
    keeps_others = λ q d b k h. m.others q b k ∙ leave_output-lookup temp (some c) t q b ∙ h;
    drops_temp = λ d l f. absurd (late-Measured d r a l f);
  }

  publish-Good :
      (source_size : ℕ) (hardware : Bool) (c : ℕ) (t : Tree)
      → w.encode t (build_job w req out) ≡ encoded c hardware
      → Good t (publish_output w req out source_size hardware (leave_output temp (some c) t))
  unfolding publish_output
  publish-Good source_size hardware c t e =
      let u = leave_output temp (some c) t in
      let same = leave_output-lookup temp (some c) t final (temp-ne-final out req.file_path) in
      elim (Option-cases (rename w temp final u)) [
        | inl k ↦
            rw (k, publish_output)
              (discard-Good move_failed t u (inr refl) same (leave_output-lookup temp (some c) t))
        | inr (t', k) ↦
            let m =
              rename-Moved w temp final u t' (lookup u temp) refl (temp-ne-final out req.file_path)
                k in
            let (r, a, k') = measured source_size hardware t' in
            rw (k, publish_output) (rw k' (published-Good r hardware c t t' a e m))
      ]

  encode-Good :
      (source_size : ℕ) (t : Tree) (r : Encoded)
      → w.encode t (build_job w req out) ≡ r
      → Good t (encode_output w req out source_size t)
  unfolding encode_output build_job
  encode-Good source_size t (encoded c hardware) e =
      rw (e, encode_output) (publish-Good source_size hardware c t e)
  encode-Good source_size t (not_encoded part) e =
      rw (e, encode_output)
        (discard-Good transcode_failed t (leave_output temp part t) (inl refl)
          (leave_output-lookup temp part t final (temp-ne-final out req.file_path))
          (leave_output-lookup temp part t))

  -- A run that stops before ffmpeg.
  still-Good :
      (t : Tree) (r : TranscodeError ⊎ TranscodeOutput)
      → ((e : TranscodeError) → IsLate e → ¬ FailsBy e r)
      → Good t (t, r)
  still-Good t r n = record {
    keeps_final = inl refl;
    keeps_others = λ q c _ _ h. h;
    drops_temp = λ e l f. absurd (n e l f);
  }

  produce-Good :
      (source_size : ℕ) (t : Tree) (r : Reuse)
      → reuse_existing_output w t final req.probe.duration ≡ r
      → Good t (produce_output w req out source_size t)
  unfolding produce_output
  produce-Good source_size t no_reuse e = rw (e, produce_output) (encode-Good source_size t _ refl)
  produce-Good source_size t reuse_error e =
      rw (e, produce_output) (still-Good t _ (λ e' l f. ground arith))
  produce-Good source_size t (reuse_found codec size) e =
      rw (e, produce_output) (still-Good t _ (λ e' l f. ground arith))

  -- Making the output directory in front changes none of that.
  made-Good :
      (t u : Tree) (o : Outcome)
      → (lookup u final ≡ lookup t final)
      → ((q : FilePath) (c : ℕ) → lookup t q ≡ some (file c) → lookup u q ≡ some (file c))
      → Good u o
      → Good t o
  made-Good t u (t', r) same kept g = record {
    keeps_final = elim g.keeps_final [ inl e ↦ inl (e ∙ same) | inr p ↦ inr p ];
    keeps_others = λ q c a b h. g.keeps_others q c a b (kept q c h);
    drops_temp = g.drops_temp;
  }

  mkdir_final : (t : Tree) → lookup (mkdir_all w out t).0 final ≡ lookup t final
  unfolding final_path
  mkdir_final t = ground (arith, mkdir_all-lookup w out t final)

  mkdir_kept :
      (t : Tree) (q : FilePath) (c : ℕ)
      → lookup t q ≡ some (file c)
      → lookup (mkdir_all w out t).0 q ≡ some (file c)
  mkdir_kept t q c h = ground (arith, mkdir_all-lookup w out t q)

  prepare-Good :
      (source_size : ℕ) (t : Tree) → Good t (prepare_output w req source_size (some out) t)
  unfolding prepare_output
  prepare-Good source_size t =
      let u = (mkdir_all w out t).0 in
      made-Good t u _ (mkdir_final t) (mkdir_kept t) (elim (Bool-cases (mkdir_all w out t).1) [
        | inl e ↦ rw e (produce-Good source_size u _ refl)
        | inr e ↦ rw e (still-Good u _ (λ e' l f. ground arith))
      ])

  run-Good :
      (t : Tree)
      → effective_output_dir req.output_dir req.watcher_root req.file_path ≡ some out
      → Good t (run_transcode w req t)
  unfolding run_transcode
  run-Good t e = elim (Option-cases (stat w req.file_path t)) [
    | inl k ↦ rw (k, run_transcode) (still-Good t _ (λ e' l f. ground arith))
    | inr (n, k) ↦ rw (k, run_transcode) (rw e (prepare-Good _ t))
  ]

  -- A run into its output directory writes the final path only at once and whole: either that path
  -- keeps what it had, or ffmpeg succeeded, the path has exactly what ffmpeg wrote, the temporary file
  -- is gone, and the run succeeded or failed only because the new output could not be measured.
  pub run_transcode_final :
      (t : Tree)
      → effective_output_dir req.output_dir req.watcher_root req.file_path ≡ some out
      → KeepsFinal t (run_transcode w req t)
  run_transcode_final t e = (run-Good t e).keeps_final

  -- Whatever file stands at another path than the temporary and the final one is still there after a
  -- run into its output directory, with the same contents.
  pub run_transcode_kept :
      (t : Tree) (q : FilePath) (c : ℕ)
      → effective_output_dir req.output_dir req.watcher_root req.file_path ≡ some out
      → temp ≢ q
      → final ≢ q
      → lookup t q ≡ some (file c)
      → lookup (run_transcode w req t).0 q ≡ some (file c)
  run_transcode_kept t q c e a b h = (run-Good t e).keeps_others q c a b h
