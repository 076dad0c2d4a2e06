-- ===== src/Media/Languages/Disambiguation.antt =====
-- workflows/media/language.go: when track titles name their language.
use media_processor.Prelude.{
  ◌≡◌, ◌≢◌, ◌↔◌, ◌⊎◌, refl, sym, ◌∙◌, inl, inr, true, false, List, [], ◌∷◌, String, arith, eq_iff,
  str_eq, Bool-cases,
}
use media_processor.Media.Types.{AudioStreamInfo}
use media_processor.Media.Languages.{normalize_lang_tag, any_other, disambiguate_lang}

-- A stream of the list.
abbrev pub Within : AudioStreamInfo → List AudioStreamInfo → Type 0
Within s [] = ⊥
Within s (r ∷ rs) = (s ≡ r) ⊎ Within s rs

-- Two streams whose languages differ, a missing one being the undetermined one.
abbrev pub Differing : List AudioStreamInfo → Type 0
Differing ss =
    (r s : AudioStreamInfo) × Within r ss
    × Within s ss
    × (normalize_lang_tag r.language ≢ normalize_lang_tag s.language)

any_other-Within :
    (first : String) (ss : List AudioStreamInfo)
    → any_other first ss ≡ true
    → (s : AudioStreamInfo) × Within s ss × (first ≢ normalize_lang_tag s.language)
unfolding any_other
any_other-Within first [] h = cc
any_other-Within first (r ∷ rs) h =
    elim (Bool-cases (str_eq (normalize_lang_tag r.language) first)) [
      | inl e ↦ let (s, w, n) = any_other-Within first rs (ground arith) in (s, inr w, n)
      | inr e ↦ (r, inl refl, λ k. ground (arith, eq_iff (normalize_lang_tag r.language) first))
    ]

all_first :
    (first : String) (ss : List AudioStreamInfo) (s : AudioStreamInfo)
    → any_other first ss ≡ false
    → Within s ss
    → normalize_lang_tag s.language ≡ first
unfolding any_other
all_first first [] s h w = absurd w
all_first first (r ∷ rs) s h (inl e) =
    rw e (ground (arith, eq_iff (normalize_lang_tag r.language) first))
all_first first (r ∷ rs) s h (inr w) = all_first first rs s (ground arith) w

same_as_first :
    (a : AudioStreamInfo) (ss : List AudioStreamInfo) (s : AudioStreamInfo)
    → any_other (normalize_lang_tag a.language) ss ≡ false
    → Within s (a ∷ ss)
    → normalize_lang_tag s.language ≡ normalize_lang_tag a.language
same_as_first a ss s h (inl e) = rw e refl
same_as_first a ss s h (inr w) = all_first (normalize_lang_tag a.language) ss s h w

-- The streams are found to need telling apart by language exactly if two of them differ in it, a
-- missing tag being the same as "und".
disambiguate_lang_iff : (ss : List AudioStreamInfo) → (disambiguate_lang ss ≡ true) ↔ Differing ss
unfolding disambiguate_lang
disambiguate_lang_iff [] = (λ h. cc, λ (r, s, a, b, n). absurd a)
disambiguate_lang_iff (a ∷ ss) = (
  λ h.
      let (s, w, n) = any_other-Within (normalize_lang_tag a.language) ss h in
      (a, s, inl refl, inr w, n),
  λ (r, s, v, w, n). elim (Bool-cases (any_other (normalize_lang_tag a.language) ss)) [
    | inl e ↦ e
    | inr e ↦ absurd (n (same_as_first a ss r e v ∙ sym (same_as_first a ss s e w)))
  ],
)
