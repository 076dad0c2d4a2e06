-- ===== src/Watcher/Walk/Selection.antt =====
-- Which files a walk dispatches, against a plain list of the files under the directory.
use media_processor.Prelude.{
  ℕ, zero, suc, ◌≡◌, refl, sym, ◌∙◌, inl, inr, Bool, true, false, ◌&&◌, ◌||◌, not, List, [], ◌∷◌,
  ◌++◌, arith, if◌then◌else◌, Bool-cases, Adds, Adds-none, Adds-nil, Adds-all, Adds-cut, Adds-trans,
}
use mathlib.Core.List.{append-nil}
use media_processor.Files.Paths.{FilePath}
use media_processor.Media.Types.{MediaInput}
use media_processor.Media.Cleanup.{sentinel_path}
use media_processor.Watcher.Walk.{
  Entry, plain, folder, Entries, end, entry, Stat, present, absent, stat_failed, Dispatch,
  dispatched, already_started, dispatch_failed, Watch, Progress, go_on, access_error, matches_any,
  is_sentinel, media_input, add_error, after_dispatch, dispatch_file, after_stat, visit_file,
  visit_alive, while_alive, visit, visit_error, Walked, and_then, stopped, enter, read_entries,
  walk, walk_entries,
}

-- Every file at or under a path, in the order of the walk, with whether a pattern matches it or a
-- directory from the watch root down to it; `up` says so of the directories above the path.
mutual
  pub files_at : List (FilePath → Bool) → Bool → FilePath → Entry → List (Bool × FilePath)
  files_at ms up p plain = (up || matches_any ms p, p) ∷ []
  files_at ms up p (folder failed es) = files_in ms (up || matches_any ms p) p es

  pub files_in : List (FilePath → Bool) → Bool → FilePath → Entries → List (Bool × FilePath)
  files_in ms up p end = []
  files_in ms up p (entry name e es) = files_at ms up (name ∷ p) e ++ files_in ms up p es

unfoldable pub is_absent : Stat → Bool
is_absent absent = true
is_absent _ = false

-- A file to dispatch: no pattern matches, it is no marker, and it has no marker.
unfoldable pub is_selected : Watch → Bool × FilePath → Bool
unfolding is_absent
is_selected w (ignored, p) =
    not ignored && (not (is_sentinel p) && is_absent (w.stat (sentinel_path p)))

unfoldable pub selection : Watch → List (Bool × FilePath) → List MediaInput
selection w [] = []
selection w (f ∷ fs) =
    let rest = selection w fs in if is_selected w f then media_input w f.1 ∷ rest else rest

selection-append :
    (w : Watch) (xs ys : List (Bool × FilePath))
    → selection w (xs ++ ys) ≡ selection w xs ++ selection w ys
unfolding selection
selection-append w [] ys = refl
selection-append w (x ∷ xs) ys = ground (arith, selection-append w xs ys)

mutual
  unfolding files_at files_in selection is_selected

  ignored_at :
      (w : Watch) (p : FilePath) (e : Entry)
      → selection w (files_at w.ignore_patterns true p e) ≡ []
  ignored_at w p plain = refl
  ignored_at w p (folder failed es) = ignored_in w p es

  ignored_in :
      (w : Watch) (p : FilePath) (es : Entries)
      → selection w (files_in w.ignore_patterns true p es) ≡ []
  ignored_in w p end = refl
  ignored_in w p (entry name e es) =
      selection-append w (files_at w.ignore_patterns true (name ∷ p) e) _
      ∙ rw (ignored_at w (name ∷ p) e) (ignored_in w p es)

-- A walk from `s` has dispatched the first of `xs`, in their order, and all of them unless the
-- context ended it.
abbrev pub Sends : Progress → List MediaInput → Walked → Type 0
Sends s xs r = Adds s.sent xs r.0.sent r.1

after_dispatch-sent :
    (p : FilePath) (d : Dispatch) (s : Progress) → (after_dispatch p d s).sent ≡ s.sent
unfolding after_dispatch
after_dispatch-sent p dispatched s = refl
after_dispatch-sent p already_started s = refl
after_dispatch-sent p dispatch_failed s = refl

dispatch_file-sent :
    (w : Watch) (p : FilePath) (s : Progress)
    → (dispatch_file w p s).sent ≡ s.sent ++ media_input w p ∷ []
unfolding dispatch_file
dispatch_file-sent w p s = after_dispatch-sent p (w.dispatch (media_input w p)) _

after_stat-sent :
    (w : Watch) (p : FilePath) (t : Stat) (s : Progress)
    → (after_stat w p t s).sent ≡ s.sent ++ (if is_absent t then media_input w p ∷ [] else [])
unfolding after_stat is_absent add_error
after_stat-sent w p present s = sym (append-nil s.sent)
after_stat-sent w p absent s = dispatch_file-sent w p s
after_stat-sent w p stat_failed s = sym (append-nil s.sent)

visit_file-sent :
    (w : Watch) (p : FilePath) (s : Progress)
    → (visit_file w p s).sent ≡ s.sent ++ selection w ((false, p) ∷ [])
unfolding visit_file selection is_selected
visit_file-sent w p s =
    ground (arith, after_stat-sent w p (w.stat (sentinel_path p)) s, append-nil s.sent)

visit_alive-Sends :
    (w : Watch) (p : FilePath) (s : Progress)
    → Sends s
        (selection w (files_at w.ignore_patterns false p plain))
        (stopped (visit_alive w p false s))
unfolding visit_alive stopped files_at
visit_alive-Sends w p s = elim (Bool-cases (matches_any w.ignore_patterns p)) [
  | inl e ↦ rw e (Adds-all s.sent _ s.sent false (ignored_file w p s.sent))
  | inr e ↦ rw e (Adds-all s.sent _ (visit_file w p s).sent false (visit_file-sent w p s))
]
  where
    ignored_file :
        (w : Watch) (p : FilePath) (xs : List MediaInput) → xs ≡ xs ++ selection w ((true, p) ∷ [])
    ignored_file w p xs = ground (arith, append-nil xs, ignored_at w p plain)

plain-Sends :
    (w : Watch) (p : FilePath) (n : ℕ) (s : Progress)
    → Sends s
        (selection w (files_at w.ignore_patterns false p plain))
        (stopped (while_alive n s (visit_alive w p false)))
unfolding while_alive stopped
plain-Sends w p zero s = Adds-none s.sent _
plain-Sends w p (suc n) s = visit_alive-Sends w p (record s { alive = n })

error-Sends :
    (p : FilePath) (n : ℕ) (s : Progress) (xs : List MediaInput) (rest : Progress → Walked)
    → ((s' : Progress) → Sends s' xs (rest s'))
    → Sends s xs
        (and_then (stopped (while_alive n s (λ s'. (add_error (access_error p) s', go_on)))) rest)
unfolding while_alive stopped and_then add_error
error-Sends p zero s xs rest h = Adds-none s.sent xs
error-Sends p (suc n) s xs rest h = h _

read_entries-Sends :
    (p : FilePath) (failed : Bool) (s : Progress) (xs : List MediaInput) (rest : Progress → Walked)
    → ((s' : Progress) → Sends s' xs (rest s'))
    → Sends s xs (read_entries p failed rest s)
unfolding read_entries visit_error
read_entries-Sends p false s xs rest h = h s
read_entries-Sends p true s xs rest h = error-Sends p s.alive s xs rest h

folder-Sends :
    (w : Watch) (p : FilePath) (n : ℕ) (s : Progress) (xs : List MediaInput)
    (rest : Progress → Walked)
    → matches_any w.ignore_patterns p ≡ false
    → ((s' : Progress) → Sends s' xs (rest s'))
    → Sends s xs (enter (while_alive n s (visit_alive w p true)) rest)
unfolding while_alive visit_alive enter
folder-Sends w p zero s xs rest e h = Adds-none s.sent xs
folder-Sends w p (suc n) s xs rest e h = rw e (h _)

skipped-Sends :
    (w : Watch) (p : FilePath) (n : ℕ) (s : Progress) (rest : Progress → Walked)
    → matches_any w.ignore_patterns p ≡ true
    → Sends s [] (enter (while_alive n s (visit_alive w p true)) rest)
unfolding while_alive visit_alive enter
skipped-Sends w p zero s rest e = Adds-none s.sent []
skipped-Sends w p (suc n) s rest e = rw e (Adds-nil s.sent)

and_then-Sends :
    (s : Progress) (xs ys : List MediaInput) (r : Walked) (rest : Progress → Walked)
    → Sends s xs r
    → ((s' : Progress) → Sends s' ys (rest s'))
    → Sends s (xs ++ ys) (and_then r rest)
unfolding and_then
and_then-Sends s xs ys (s', true) rest h k = Adds-cut s.sent xs ys s'.sent h
and_then-Sends s xs ys (s', false) rest h k =
    Adds-trans s.sent xs s'.sent ys (rest s').0.sent (rest s').1 h (k s')

pub selection_nil : (w : Watch) → selection w [] ≡ []
unfolding selection
selection_nil w = refl

mutual
  unfolding walk walk_entries visit files_at files_in

  pub walk-Sends :
      (w : Watch) (p : FilePath) (e : Entry) (s : Progress)
      → Sends s (selection w (files_at w.ignore_patterns false p e)) (walk w p e s)
  walk-Sends w p plain s = plain-Sends w p s.alive s
  walk-Sends w p (folder failed es) s = elim (Bool-cases (matches_any w.ignore_patterns p)) [
    | inl m ↦
        rw (m, ignored_in w p es)
          (skipped-Sends w p s.alive s (read_entries p failed (walk_entries w p es)) m)
    | inr m ↦ rw m (
        folder-Sends w p s.alive s _ (read_entries p failed (walk_entries w p es)) m (λ s'.
          read_entries-Sends p failed s' _ (walk_entries w p es) (walk_entries-Sends w p es)))
  ]

  walk_entries-Sends :
      (w : Watch) (p : FilePath) (es : Entries) (s : Progress)
      → Sends s (selection w (files_in w.ignore_patterns false p es)) (walk_entries w p es s)
  walk_entries-Sends w p end s = rw (selection_nil w) (Adds-nil s.sent)
  walk_entries-Sends w p (entry name e es) s =
      rw (selection-append w (files_at w.ignore_patterns false (name ∷ p) e) _) (
        and_then-Sends s _ _ (walk w (name ∷ p) e s) (walk_entries w p es)
          (walk-Sends w (name ∷ p) e s) (walk_entries-Sends w p es))
