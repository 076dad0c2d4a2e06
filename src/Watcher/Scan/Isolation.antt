-- ===== src/Watcher/Scan/Isolation.antt =====
-- A scan dispatches the selection of each mapping, whatever went wrong with the others.
use media_processor.Prelude.{
  ℕ, zero, suc, refl, ap, Bool, true, false, List, [], ◌∷◌, ◌++◌, ◌⊎◌, inl, inr, Adds, Adds-none,
  Adds-nil, Adds-cut, Adds-trans,
}
use media_processor.Files.Paths.{FilePath}
use media_processor.Media.Types.{MediaInput}
use media_processor.Watcher.Walk.{
  Watch, Progress, Walked, stopped, visit_error, while_alive, add_error, access_error, go_on,
}
use media_processor.Watcher.Walk.Selection.{files_at, selection, Sends, walk-Sends}
use media_processor.Watcher.Scan.{
  WatchEntry, Root, unreadable, readable, Surroundings, ScanError, Scan, resolve, walk_root, begin,
  after_walk, scan_resolved, scan_mapping, unless_ended, scan,
}

-- The inputs to dispatch under a root: nothing, if the root cannot be read.
unfoldable pub root_selection : Watch → Root → List MediaInput
root_selection w unreadable = []
root_selection w (readable e) = selection w (files_at w.ignore_patterns false w.watch_root e)

-- Nothing either, for an entry whose paths are bad.
unfoldable pub resolved_selection : Surroundings → ScanError ⊎ Watch → List MediaInput
resolved_selection x (inl e) = []
resolved_selection x (inr w) = root_selection w (x.root w.watch_root)

unfoldable pub scan_selection : Surroundings → List WatchEntry → List MediaInput
scan_selection x [] = []
scan_selection x (w ∷ ws) = resolved_selection x (resolve x w) ++ scan_selection x ws

unread-Sends :
    (p : FilePath) (n : ℕ) (s : Progress)
    → Sends s [] (stopped (while_alive n s (λ s'. (add_error (access_error p) s', go_on))))
unfolding while_alive stopped add_error
unread-Sends p zero s = Adds-none s.sent []
unread-Sends p (suc n) s = Adds-nil s.sent

pub walk_root-Sends :
    (w : Watch) (r : Root) (s : Progress) → Sends s (root_selection w r) (walk_root w r s)
unfolding walk_root root_selection visit_error
walk_root-Sends w unreadable s = unread-Sends w.watch_root s.alive s
walk_root-Sends w (readable e) s = walk-Sends w w.watch_root e s

-- A part of a scan has dispatched the first of `xs`, and all of them unless the context ended it.
abbrev pub Scans : Scan → List MediaInput → Scan × Bool → Type 0
Scans s xs r = Adds s.sent xs r.0.sent r.1

after_walk-Scans :
    (w : Watch) (s : Scan) (n : ℕ) (xs : List MediaInput) (r : Walked)
    → Sends (begin n) xs r
    → Scans s xs (after_walk w s r)
unfolding after_walk
after_walk-Scans w s n xs (p, true) (ys, zs, e, f, g) =
    (ys, zs, e, ap (λ l. s.sent ++ l) f, inl refl)
after_walk-Scans w s n xs (p, false) (ys, zs, e, f, g) = (ys, zs, e, ap (λ l. s.sent ++ l) f, g)

scan_resolved-Scans :
    (x : Surroundings) (r : ScanError ⊎ Watch) (s : Scan)
    → Scans s (resolved_selection x r) (scan_resolved x r s)
unfolding scan_resolved resolved_selection
scan_resolved-Scans x (inl e) s = Adds-nil s.sent
scan_resolved-Scans x (inr w) s =
    after_walk-Scans w s s.alive _ (walk_root w (x.root w.watch_root) (begin s.alive))
      (walk_root-Sends w (x.root w.watch_root) (begin s.alive))

scan_mapping-Scans :
    (x : Surroundings) (w : WatchEntry) (n : ℕ) (s : Scan)
    → Scans s (resolved_selection x (resolve x w)) (scan_mapping x w n s)
unfolding scan_mapping
scan_mapping-Scans x w zero s = Adds-none s.sent _
scan_mapping-Scans x w (suc n) s = scan_resolved-Scans x (resolve x w) (record s { alive = n })

unless_ended-Scans :
    (s : Scan) (xs ys : List MediaInput) (r : Scan × Bool) (rest : Scan → Scan × Bool)
    → Scans s xs r
    → ((s' : Scan) → Scans s' ys (rest s'))
    → Scans s (xs ++ ys) (unless_ended r rest)
unfolding unless_ended
unless_ended-Scans s xs ys (s', true) rest h k = Adds-cut s.sent xs ys s'.sent h
unless_ended-Scans s xs ys (s', false) rest h k =
    Adds-trans s.sent xs s'.sent ys (rest s').0.sent (rest s').1 h (k s')

-- A scan calls the dispatch, mapping by mapping, for the files under each watch root in the order of
-- the walk that no pattern matches, nor any directory above them from the root on, that are no
-- marker, and whose own marker is found to be absent. A bad path of an entry, a directory that
-- cannot be read, a failed test of a marker and a failed dispatch leave out no other file. Only the
-- end of the context cuts the calls short, and then the first of them are made.
pub scan-Scans :
    (x : Surroundings) (ws : List WatchEntry) (s : Scan)
    → Scans s (scan_selection x ws) (scan x ws s)
unfolding scan scan_selection
scan-Scans x [] s = Adds-nil s.sent
scan-Scans x (w ∷ ws) s =
    unless_ended-Scans s _ _ (scan_mapping x w s.alive s) (scan x ws)
      (scan_mapping-Scans x w s.alive s) (scan-Scans x ws)
