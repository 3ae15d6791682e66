-- ===== src/Tests/Manifests.antt =====
-- The theorems on the flags of a manifest at two lines of one.
use capybaragram_build.Prelude.{
  ℕ, ◌+◌, Bool, true, false, [], ◌∷◌, ◌++◌, ◌≡◌, refl, ap, ◌∙◌, ◌<◌, drop, length, length-append,
  err, runtime_error, ok, ◌↔◌, inl, arith,
}
use capybaragram_build.Text.{Text, codes, text_eq, is_prefix, listed, replace_all}
use capybaragram_build.Text.Lines.{strip, is_space}
use capybaragram_build.Text.Occurs.{Occurs}
use capybaragram_build.Apk.Flags.{flags, require_disabled_flag}
use capybaragram_build.Apk.Absent.{require_disabled_flag-absent}
use capybaragram_build.Apk.Values.{IsValue, IsFalse, no_address}
use capybaragram_build.Apk.Sole.{attribute, IsSole, word_before, require_disabled_flag-sole}

abbrev word : ℕ → Bool
word c = false

abbrev lower : Text → Text
lower text = text

abbrev disabled : Text
disabled = codes " " ++ (attribute (codes "debuggable") ++ codes "=false")

too_long : (a b : Text) → disabled ≡ a ++ (attribute (codes "debuggable") ++ b) → 7 < length a → ⊥
too_long a b e h =
    let n : length disabled ≡ length a + length (attribute (codes "debuggable") ++ b) =
      ap length e ∙ length-append a (attribute (codes "debuggable") ++ b) in
    omega (arith, n, h)

-- Whether the attribute stands behind the first characters.
abbrev stands : ℕ → Text → Bool
stands n t = is_prefix (attribute (codes "debuggable")) (drop n t)

sole : IsSole (codes "debuggable") (codes " ") disabled
unfolding is_prefix drop
sole [] b e = let k : false ≡ true = ap (stands 0) e in absurd (cc k)
sole (x ∷ []) b e = cc
sole (x ∷ y ∷ []) b e = let k : false ≡ true = ap (stands 2) e in absurd (cc k)
sole (x ∷ y ∷ z ∷ []) b e = let k : false ≡ true = ap (stands 3) e in absurd (cc k)
sole (x ∷ y ∷ z ∷ u ∷ []) b e = let k : false ≡ true = ap (stands 4) e in absurd (cc k)
sole (x ∷ y ∷ z ∷ u ∷ v ∷ []) b e = let k : false ≡ true = ap (stands 5) e in absurd (cc k)
sole (x ∷ y ∷ z ∷ u ∷ v ∷ w ∷ []) b e = let k : false ≡ true = ap (stands 6) e in absurd (cc k)
sole (x ∷ y ∷ z ∷ u ∷ v ∷ w ∷ p ∷ []) b e = let k : false ≡ true = ap (stands 7) e in absurd (cc k)
sole (x ∷ y ∷ z ∷ u ∷ v ∷ w ∷ p ∷ q ∷ a) b e =
    absurd (too_long (x ∷ y ∷ z ∷ u ∷ v ∷ w ∷ p ∷ q ∷ a) b e (omega arith))

false-IsValue : IsValue (codes "false") []
unfolding is_space
false-IsValue = record {
  first = b'f';
  more = codes "alse";
  full = refl;
  visible = refl;
  inline = (
    (λ h. cc h, λ h. cc h),
    (
      (λ h. cc h, λ h. cc h),
      ((λ h. cc h, λ h. cc h), ((λ h. cc h, λ h. cc h), ((λ h. cc h, λ h. cc h), tt))),
    ),
  );
  ended = inl refl;
}

require_disabled_flag-sole_example :
    (require_disabled_flag word lower disabled (codes "debuggable") ≡ ok tt)
    ↔ IsFalse (replace_all (codes " ") [] (lower (strip (codes "false"))))
unfolding listed flags text_eq word_before
require_disabled_flag-sole_example =
    require_disabled_flag-sole word lower (codes "debuggable") (codes " ") [] (codes "false") []
      refl sole refl no_address false-IsValue

no_flag : Occurs (attribute (codes "allowBackup")) (codes "<a/>") → ⊥
no_flag (a, b, e) =
    let n : 4 ≡ length a + length (attribute (codes "allowBackup") ++ b) =
      ap length e ∙ length-append a (attribute (codes "allowBackup") ++ b) in
    omega (arith, n)

require_disabled_flag-absent_example :
    require_disabled_flag word lower (codes "<a/>") (codes "allowBackup")
    ≡ err (runtime_error "APK must explicitly disable allowBackup.")
unfolding listed flags text_eq
require_disabled_flag-absent_example =
    require_disabled_flag-absent word lower (codes "<a/>") (codes "allowBackup") refl no_flag
