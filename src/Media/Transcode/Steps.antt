-- ===== src/Media/Transcode/Steps.antt =====
-- workflows/media/transcode.go: what each call of the file system changes.
use text.Mathlib.TextPositions.{len-append}
use Prim.Native.String.{len, ◌++◌ as str_append}
use media_processor.Prelude.{
  ℕ, ◌≤◌, ◌≡◌, ◌≢◌, refl, ap, ◌⊎◌, inl, inr, [], ◌∷◌, Option, none, some, arith, length,
}
use media_processor.Files.Paths.{FilePath, base, same_path_iff}
use media_processor.Files.Tree.{
  Tree, Node, file, directory, lookup, write, erase, remove, refused, lookup-write, lookup-erase,
}
use media_processor.Media.OutputPath.{final_path, temp_path, mkv_base}
use media_processor.Media.Surroundings.{
  World, TranscodeError, cleanup_temp_failed, joined, rename, mkdir_all,
}
use media_processor.Media.Transcode.{leave_output, discard_temp}

-- The temporary and the final name differ.
pub temp-ne-final : (out p : FilePath) → temp_path out p ≢ final_path out p
unfolding temp_path final_path base
temp-ne-final out p h =
    let e : str_append "._" (str_append (mkv_base p) ".tmp") ≡ mkv_base p = ap base h in
    omega (
      arith,
      ap len e,
      len-append "._" (str_append (mkv_base p) ".tmp"),
      len-append (mkv_base p) ".tmp",
    )

-- mkdir makes directories where there was nothing, at the given path and above it.
pub mkdir_all-lookup :
    (w : World) (d : FilePath) (t : Tree) (q : FilePath)
    → (lookup (mkdir_all w d t).0 q ≡ lookup t q)
      ⊎ ((lookup t q ≡ none)
          × (lookup (mkdir_all w d t).0 q ≡ some directory)
          × (length q ≤ length d))
unfolding mkdir_all
mkdir_all-lookup w [] t q = inl refl
mkdir_all-lookup w (b ∷ d) t q = ground (
  arith,
  mkdir_all-lookup w d t q,
  mkdir_all-lookup w d t (b ∷ d),
  lookup-write (mkdir_all w d t).0 (b ∷ d) q directory,
  same_path_iff (b ∷ d) q,
)

pub leave_output-lookup :
    (temp : FilePath) (o : Option ℕ) (t : Tree) (q : FilePath)
    → temp ≢ q
    → lookup (leave_output temp o t) q ≡ lookup t q
unfolding leave_output
leave_output-lookup temp none t q n = refl
leave_output-lookup temp (some c) t q n =
    ground (arith, lookup-write t temp q (file c), same_path_iff temp q)

pub discard_temp-lookup :
    (w : World) (temp : FilePath) (e : TranscodeError) (t : Tree) (q : FilePath)
    → temp ≢ q
    → lookup (discard_temp w temp e t).0 q ≡ lookup t q
unfolding discard_temp remove
discard_temp-lookup w temp e t q n = ground (arith, lookup-erase t temp q, same_path_iff temp q)

pub discard_temp_ends :
    (w : World) (temp : FilePath) (e : TranscodeError) (t : Tree)
    → (((discard_temp w temp e t).1 ≡ e) × (lookup (discard_temp w temp e t).0 temp ≡ none))
      ⊎ (((discard_temp w temp e t).1 ≡ joined e cleanup_temp_failed)
          × ((remove (discard_temp w temp e t).0 temp (w.remove_fails temp)).1 ≡ refused))
unfolding discard_temp remove
discard_temp_ends w temp e t = ground (arith, lookup-erase t temp temp, same_path_iff temp temp)

-- A rename that succeeds moves the contents, and touches nothing else.
pub record Moved (old new : FilePath) (t t' : Tree) : Type 0 where
  pub contents : ℕ
  pub was_there : lookup t old ≡ some (file contents)
  pub is_there : lookup t' new ≡ some (file contents)
  pub is_gone : lookup t' old ≡ none
  pub others : (q : FilePath) → old ≢ q → new ≢ q → lookup t' q ≡ lookup t q

pub renamed :
    (w : World) (old new : FilePath) (t t' : Tree) (c : ℕ)
    → lookup t old ≡ some (file c)
    → rename w old new t ≡ some t'
    → t' ≡ write (erase t old) new (file c)
unfolding rename
renamed w old new t t' c e h = ground arith

pub write-Moved :
    (old new : FilePath) (t : Tree) (c : ℕ)
    → lookup t old ≡ some (file c)
    → old ≢ new
    → Moved old new t (write (erase t old) new (file c))
write-Moved old new t c e n = record {
  contents = c;
  was_there = e;
  is_there = ground (arith, lookup-write (erase t old) new new (file c), same_path_iff new new);
  is_gone = ground (
    arith,
    lookup-write (erase t old) new old (file c),
    same_path_iff new old,
    lookup-erase t old old,
    same_path_iff old old,
  );
  others = λ q a b. ground (
    arith,
    lookup-write (erase t old) new q (file c),
    same_path_iff new q,
    lookup-erase t old q,
    same_path_iff old q,
  );
}

pub no_rename :
    (w : World) (old new : FilePath) (t t' : Tree)
    → ((lookup t old ≡ none) ⊎ (lookup t old ≡ some directory))
    → rename w old new t ≡ some t'
    → ⊥
unfolding rename
no_rename w old new t t' e h = ground arith

pub rename-Moved :
    (w : World) (old new : FilePath) (t t' : Tree) (o : Option Node)
    → lookup t old ≡ o
    → old ≢ new
    → rename w old new t ≡ some t'
    → Moved old new t t'
rename-Moved w old new t t' none e n h = absurd (no_rename w old new t t' (inl e) h)
rename-Moved w old new t t' (some directory) e n h = absurd (no_rename w old new t t' (inr e) h)
rename-Moved w old new t t' (some (file c)) e n h =
    rw (renamed w old new t t' c e h) (write-Moved old new t c e n)
