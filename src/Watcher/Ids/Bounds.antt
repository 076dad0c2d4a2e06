-- ===== src/Watcher/Ids/Bounds.antt =====
-- Lengths and contents of workflow ids and of search attributes.
use media_processor.Prelude.{
  ℕ, zero, suc, ◌+◌, ◌-◌, ◌≤◌, ◌<◌, ◌≡◌, refl, sym, ap, ◌∙◌, ◌⊎◌, inl, inr, Bool, true, false, List,
  [], ◌∷◌, ◌++◌, arith, length, take, length-append, length-take, Bool-cases, ltb, leb, ◌==◌,
}
use mathlib.Core.List.{append_assoc}
use media_processor.Text.{codes}
use media_processor.Files.Paths.{FilePath, base}
use media_processor.Media.Types.{MediaInput}
use media_processor.Watcher.Ids.{
  workflow_id_max_len, workflow_id_short_hash_len, is_valid, replace_runs, trim_dots,
  sanitize_workflow_id_segment, budget, trim_segments, join_id, workflow_id, utf8_len, byte_length,
  truncate_to_runes,
}

-- A code point that an id may hold.
abbrev pub IsAllowed : ℕ → Type 0
IsAllowed c = (is_valid c ≡ true) ⊎ (c ≡ b'_')

abbrev pub All : (ℕ → Type 0) → List ℕ → Type 0
All P [] = Unit {0}
All P (c ∷ s) = P c × All P s

module _ (P : ℕ → Type 0) where
  All-append : (xs ys : List ℕ) → All P xs → All P ys → All P (xs ++ ys)
  All-append [] ys h k = k
  All-append (x ∷ xs) ys h k = (h.0, All-append xs ys h.1 k)

  All-take : (n : ℕ) (xs : List ℕ) → All P xs → All P (take n xs)
  All-take zero xs h = tt
  All-take (suc n) [] h = tt
  All-take (suc n) (x ∷ xs) h = (h.0, All-take n xs h.1)

replace_runs-All : (r : Bool) (s : List ℕ) → All IsAllowed (replace_runs r s)
unfolding replace_runs
replace_runs-All r [] = tt
replace_runs-All true (c ∷ s) = elim (Bool-cases (is_valid c)) [
  | inl e ↦ rw e (inl e, replace_runs-All false s)
  | inr e ↦ rw e (replace_runs-All true s)
]
replace_runs-All false (c ∷ s) = elim (Bool-cases (is_valid c)) [
  | inl e ↦ rw e (inl e, replace_runs-All false s)
  | inr e ↦ rw e (inr refl, replace_runs-All true s)
]

trim_dots-All : (s : List ℕ) → All IsAllowed s → All IsAllowed (trim_dots s)
unfolding trim_dots
trim_dots-All [] h = tt
trim_dots-All (c ∷ s) h = elim (Bool-cases (c == b'.')) [
  | inl e ↦ rw e (trim_dots-All s h.1)
  | inr e ↦ rw e h
]

sanitize-All : (s : List ℕ) (strip : Bool) → All IsAllowed (sanitize_workflow_id_segment s strip)
unfolding sanitize_workflow_id_segment
sanitize-All s true = trim_dots-All _ (replace_runs-All false s)
sanitize-All s false = replace_runs-All false s

trim_segments_bound :
    (b : ℕ) (m n : List ℕ) → length (trim_segments b m n).0 + length (trim_segments b m n).1 ≤ b
unfolding trim_segments
trim_segments_bound b m n = ground (arith, length-take b m, length-take (b - length m) n)

trim_segments-All :
    (b : ℕ) (m n : List ℕ)
    → All IsAllowed m
    → All IsAllowed n
    → All IsAllowed (trim_segments b m n).0 × All IsAllowed (trim_segments b m n).1
unfolding trim_segments
trim_segments-All b m n h k = elim (Bool-cases (ltb b (length m + length n))) [
  | inl e ↦ elim (Bool-cases (leb b (length m))) [
    | inl f ↦ rw (e, f) (All-take IsAllowed b m h, tt)
    | inr f ↦ rw (e, f) (h, All-take IsAllowed (b - length m) n k)
  ]
  | inr e ↦ rw e (h, k)
]

-- The base name is trimmed before the mapping.
trim_segments_mapping : (b : ℕ) (m n : List ℕ) → length m < b → (trim_segments b m n).0 ≡ m
unfolding trim_segments
trim_segments_mapping b m n h = ground arith

join_id-append :
    (p : List ℕ × List ℕ) (hash : List ℕ) → join_id p hash ≡ (p.0 ++ (b'-' ∷ p.1)) ++ (b'-' ∷ hash)
unfolding join_id
join_id-append (m, n) hash = sym (append_assoc m (b'-' ∷ n) (b'-' ∷ hash))

length-join_id :
    (p : List ℕ × List ℕ) (hash : List ℕ)
    → length (join_id p hash) ≡ length p.0 + length p.1 + 2 + length hash
unfolding join_id
length-join_id (m, n) hash =
    omega
      (arith, length-append {0} m (b'-' ∷ (n ++ (b'-' ∷ hash))), length-append {0} n (b'-' ∷ hash))

join_id-All :
    (p : List ℕ × List ℕ) (hash : List ℕ)
    → All IsAllowed p.0
    → All IsAllowed p.1
    → All IsAllowed hash
    → All IsAllowed (join_id p hash)
unfolding join_id is_valid
join_id-All (m, n) hash h k l =
    All-append IsAllowed m (b'-' ∷ (n ++ (b'-' ∷ hash))) h
      (inl refl, All-append IsAllowed n (b'-' ∷ hash) k (inl refl, l))

-- What is read of an id: its length, its code points, the mapping in front where it is shorter than
-- the budget, and the short hash at the end.
abbrev pub IsWorkflowId : (FilePath → List ℕ) → MediaInput → List ℕ → Type 0
IsWorkflowId sha256_hex i id =
    (length id ≤ workflow_id_max_len)
    × All IsAllowed id
    × ((front : List ℕ) × (back : List ℕ) × (id
          ≡ (front ++ (b'-' ∷ back))
            ++ (b'-' ∷ take workflow_id_short_hash_len (sha256_hex i.file_path)))
        × ((budget ≤ length (sanitize_workflow_id_segment (codes i.mapping_name) false))
            ⊎ (front ≡ sanitize_workflow_id_segment (codes i.mapping_name) false)))

le_or_lt : (a b : ℕ) → (a ≤ b) ⊎ (b < a)
le_or_lt a b = ground arith

mapping_kept : (b : ℕ) (m n : List ℕ) → (b ≤ length m) ⊎ ((trim_segments b m n).0 ≡ m)
mapping_kept b m n = elim (le_or_lt b (length m)) [
  | inl h ↦ inl h
  | inr h ↦ inr (trim_segments_mapping b m n h)
]

-- Of a digest of 64 hex characters: an id has at most 1000 characters, all of them in
-- [A-Za-z0-9._-], and ends with a dash and the first twelve of the digest. It begins with the
-- mapping's name, sanitized, and a dash, unless that name is as long as the budget of 986.
pub workflow_id-IsWorkflowId :
    (sha256_hex : FilePath → List ℕ) (i : MediaInput)
    → length (sha256_hex i.file_path) ≡ 64
    → All IsAllowed (sha256_hex i.file_path)
    → IsWorkflowId sha256_hex i (workflow_id sha256_hex i)
unfolding workflow_id
workflow_id-IsWorkflowId sha256_hex i h k =
    let m = sanitize_workflow_id_segment (codes i.mapping_name) false in
    let n = sanitize_workflow_id_segment (codes (base i.file_path)) true in
    let p = trim_segments budget m n in
    let hash = take workflow_id_short_hash_len (sha256_hex i.file_path) in
    let kept =
      trim_segments-All budget m n (sanitize-All (codes i.mapping_name) false)
        (sanitize-All (codes (base i.file_path)) true) in
    (
      omega (
        arith,
        length-join_id p hash,
        trim_segments_bound budget m n,
        length-take {0} 12 (sha256_hex i.file_path),
      ),
      join_id-All p hash kept.0 kept.1 (All-take IsAllowed 12 (sha256_hex i.file_path) k),
      (p.0, p.1, join_id-append p hash, mapping_kept budget m n),
    )

same_ends :
    (xs ys : List ℕ) (us vs : List ℕ) → xs ++ us ≡ ys ++ vs → length us ≡ length vs → us ≡ vs
same_ends [] [] us vs e h = e
same_ends [] (y ∷ ys) us vs e h = absurd (omega (arith, ap length e, length-append {0} ys vs))
same_ends (x ∷ xs) [] us vs e h = absurd (omega (arith, ap length e, length-append {0} xs us))
same_ends (x ∷ xs) (y ∷ ys) us vs e h = same_ends xs ys us vs (cc) h

join_id_hash :
    (p q : List ℕ × List ℕ) (x y : List ℕ) → join_id p x ≡ join_id q y → length x ≡ length y → x ≡ y
join_id_hash p q x y e h =
    let f =
      same_ends _ _ (b'-' ∷ x) (b'-' ∷ y) (sym (join_id-append p x) ∙ e ∙ join_id-append q y)
        (ap suc h) in
    cc

-- Of digests of 64 characters: two files get the same id only if the digests of their whole paths
-- agree in the first twelve characters, whatever their names and mappings are.
workflow_id_inj :
    (sha256_hex : FilePath → List ℕ) (i j : MediaInput)
    → length (sha256_hex i.file_path) ≡ 64
    → length (sha256_hex j.file_path) ≡ 64
    → workflow_id sha256_hex i ≡ workflow_id sha256_hex j
    → take 12 (sha256_hex i.file_path) ≡ take 12 (sha256_hex j.file_path)
unfolding workflow_id
workflow_id_inj sha256_hex i j h k e = join_id_hash _ _ _ _ e (
    omega (
      arith,
      length-take {0} 12 (sha256_hex i.file_path),
      length-take {0} 12 (sha256_hex j.file_path),
    ))

utf8_len-pos : (c : ℕ) → 1 ≤ utf8_len c
unfolding utf8_len
utf8_len-pos c = ground arith

length-le-byte_length : (s : List ℕ) → length s ≤ byte_length s
unfolding byte_length
length-le-byte_length [] = omega arith
length-le-byte_length (c ∷ s) = omega (arith, utf8_len-pos c, length-le-byte_length s)

take-length_le : (n : ℕ) (s : List ℕ) → length s ≤ n → take n s ≡ s
take-length_le zero [] h = refl
take-length_le zero (c ∷ s) h = absurd (omega arith)
take-length_le (suc n) [] h = refl
take-length_le (suc n) (c ∷ s) h = ap (λ l. c ∷ l) (take-length_le n s (omega arith))

-- A text is clipped to its first so many code points, the test on its length in bytes included.
pub truncate_to_runes-take : (s : List ℕ) (n : ℕ) → truncate_to_runes s n ≡ take n s
unfolding truncate_to_runes
truncate_to_runes-take s n = elim (Bool-cases (leb (byte_length s) n)) [
  | inl e ↦ rw e (sym (take-length_le n s (ground (arith, length-le-byte_length s))))
  | inr e ↦ elim (Bool-cases (leb (length s) n)) [
    | inl f ↦ rw (e, f) (sym (take-length_le n s (ground arith)))
    | inr f ↦ rw (e, f) refl
  ]
]
