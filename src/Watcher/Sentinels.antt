-- ===== src/Watcher/Sentinels.antt =====
-- The marker that Cleanup writes (workflows/media/cleanup.go) as the watcher reads it
-- (cmd/watcher/watcher.go).
use media_processor.Prelude.{
  ◌≡◌, refl, sym, ap, ◌∙◌, Bool, true, false, List, [], ◌∷◌, ◌++◌, Option, none, some, ◌⊎◌, inl,
  inr, arith, AnyIn, AnyIn-append, AnyIn-append_left, Bool-cases, str_eq,
}
use media_processor.Text.{trim_space}
use media_processor.Files.Paths.{FilePath}
use media_processor.Files.Tree.{Tree, Node, lookup}
use media_processor.Media.Types.{MediaInput, TranscodeOutput, NotifyOutput}
use media_processor.Media.Cleanup.{Faults, sentinel_path, cleanup}
use media_processor.Media.Cleanup.Effects.{cleanup-SourceDone}
use media_processor.Watcher.Walk.{Stat, present, absent, Watch, media_input}
use media_processor.Watcher.Walk.Selection.{is_absent, is_selected, selection, selection_nil}
use media_processor.Watcher.Scan.{
  WatchEntry, Root, unreadable, readable, Surroundings, ScanError, Scan, resolve, with_root,
  with_output, watch_of, scan,
}
use media_processor.Watcher.Scan.Isolation.{
  root_selection, resolved_selection, scan_selection, scan-Scans,
}

-- os.Stat on a tree.
abbrev pub tree_stat : Option Node → Stat
tree_stat none = absent
tree_stat (some n) = present

abbrev pub IsOf : FilePath → MediaInput → Type 0
IsOf p m = m.file_path ≡ p

selected_absent :
    (w : Watch) (f : Bool × FilePath) → is_selected w f ≡ true → w.stat (sentinel_path f.1) ≡ absent
unfolding is_selected is_absent
selected_absent w (ignored, p) h = ground arith

selection_keep :
    (w : Watch) (f : Bool × FilePath) (fs : List (Bool × FilePath))
    → is_selected w f ≡ true
    → selection w (f ∷ fs) ≡ media_input w f.1 ∷ selection w fs
unfolding selection
selection_keep w f fs e = rw e refl

selection_drop :
    (w : Watch) (f : Bool × FilePath) (fs : List (Bool × FilePath))
    → is_selected w f ≡ false
    → selection w (f ∷ fs) ≡ selection w fs
unfolding selection
selection_drop w f fs e = rw e refl

first_or_rest :
    (w : Watch) (p : FilePath) (f : Bool × FilePath) (xs : List MediaInput)
    → AnyIn (IsOf p) (media_input w f.1 ∷ xs)
    → (f.1 ≡ p) ⊎ AnyIn (IsOf p) xs
unfolding media_input
first_or_rest w p f xs h = h

-- The marker of a selected file is found to be absent.
selection_absent :
    (w : Watch) (p : FilePath) (fs : List (Bool × FilePath))
    → AnyIn (IsOf p) (selection w fs)
    → w.stat (sentinel_path p) ≡ absent
selection_absent w p [] h = absurd (rw (selection_nil w) at h)
selection_absent w p (f ∷ fs) h = elim (Bool-cases (is_selected w f)) [
  | inl e ↦ elim (first_or_rest w p f (selection w fs) (rw (selection_keep w f fs e) at h)) [
    | inl k ↦ ap (λ q. w.stat (sentinel_path q)) (sym k) ∙ selected_absent w f e
    | inr k ↦ selection_absent w p fs k
  ]
  | inr e ↦ selection_absent w p fs (rw (selection_drop w f fs e) at h)
]

-- Resolving an entry keeps os.Stat.
abbrev HasStat : Surroundings → ScanError ⊎ Watch → Type 0
HasStat x (inl e) = Unit {0}
HasStat x (inr w) = w.stat ≡ x.stat

with_output-HasStat :
    (x : Surroundings) (w : WatchEntry) (root : FilePath) (o : Option FilePath)
    → HasStat x (with_output x w root o)
unfolding with_output watch_of
with_output-HasStat x w root none = tt
with_output-HasStat x w root (some o) = refl

with_root-HasStat :
    (x : Surroundings) (w : WatchEntry) (o : Option FilePath) → HasStat x (with_root x w o)
unfolding with_root
with_root-HasStat x w none = tt
with_root-HasStat x w (some root) = elim (Bool-cases (str_eq (trim_space w.output_path) "")) [
  | inl e ↦ rw e tt
  | inr e ↦ rw e (with_output-HasStat x w root (x.abs (trim_space w.output_path)))
]

root_absent :
    (w : Watch) (r : Root) (p : FilePath)
    → AnyIn (IsOf p) (root_selection w r)
    → w.stat (sentinel_path p) ≡ absent
unfolding root_selection
root_absent w unreadable p h = absurd h
root_absent w (readable e) p h = selection_absent w p _ h

resolved_absent :
    (x : Surroundings) (r : ScanError ⊎ Watch) (p : FilePath)
    → HasStat x r
    → AnyIn (IsOf p) (resolved_selection x r)
    → x.stat (sentinel_path p) ≡ absent
unfolding resolved_selection
resolved_absent x (inl e) p s h = absurd h
resolved_absent x (inr w) p s h =
    ap (λ f. f (sentinel_path p)) (sym s) ∙ root_absent w (x.root w.watch_root) p h

scan_absent :
    (x : Surroundings) (ws : List WatchEntry) (p : FilePath)
    → AnyIn (IsOf p) (scan_selection x ws)
    → x.stat (sentinel_path p) ≡ absent
unfolding scan_selection resolve
scan_absent x [] p h = absurd h
scan_absent x (w ∷ ws) p h =
    elim (AnyIn-append (IsOf p) (resolved_selection x (resolve x w)) (scan_selection x ws) h) [
      | inl k ↦ resolved_absent x (resolve x w) p (with_root-HasStat x w (x.abs w.input_path)) k
      | inr k ↦ scan_absent x ws p k
    ]

sent_absent :
    (x : Surroundings) (ws : List WatchEntry) (s : Scan) (p : FilePath)
    → s.sent ≡ []
    → AnyIn (IsOf p) (scan x ws s).0.sent
    → x.stat (sentinel_path p) ≡ absent
sent_absent x ws s p e h =
    let (ys, zs, f, g, rest) = scan-Scans x ws s in
    let k : (scan x ws s).0.sent ≡ ys = g ∙ ap (λ l. l ++ ys) e in
    scan_absent x ws p (rw f (AnyIn-append_left (IsOf p) ys zs (rw k at h)))

-- After a Cleanup that succeeded on a source that is to be preserved, no scan dispatches the source
-- again, as long as os.Stat of its marker answers by the tree that the Cleanup left.
pub cleanup-scan :
    (f : Faults) (i : MediaInput) (o : TranscodeOutput) (n : NotifyOutput) (t : Tree)
    (x : Surroundings) (ws : List WatchEntry) (s : Scan)
    → (cleanup f i o n t).1 ≡ none
    → i.preserve_source ≡ true
    → x.stat (sentinel_path i.file_path)
      ≡ tree_stat (lookup (cleanup f i o n t).0 (sentinel_path i.file_path))
    → s.sent ≡ []
    → ¬ AnyIn (IsOf i.file_path) (scan x ws s).0.sent
cleanup-scan f i o n t x ws s ok keep stat e h =
    let a = sent_absent x ws s i.file_path e h in
    elim (cleanup-SourceDone f i o n t ok) [ inl d ↦ cc | inr d ↦ cc (ap tree_stat d.1) ]
