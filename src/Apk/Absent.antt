-- ===== src/Apk/Absent.antt =====
-- The answer of `require_disabled_flag` on a manifest that does not name the flag.
use capybaragram_build.Prelude.{
  ℕ, zero, suc, Bool, true, false, [], ◌∷◌, ◌++◌, Option, none, some, ◌≡◌, ◌==◌, refl, ap,
  Bool-cases, inl, inr, ok, err, runtime_error, arith,
}
use capybaragram_build.Text.{Text, codes, text_eq, listed}
use capybaragram_build.Text.Occurs.{Occurs}
use capybaragram_build.Apk.Flags.{
  flags, behind, match_at, values_from, require_values, require_disabled_flag,
}

pub behind-some : (m t rest : Text) → behind m t ≡ some rest → t ≡ m ++ rest
unfolding behind
behind-some [] t rest h = cc h
behind-some (m ∷ ms) [] rest h = cc h
behind-some (m ∷ ms) (c ∷ cs) rest h = elim (Bool-cases (m == c)) [
  | inl e ↦
      let same : m ≡ c = grind (arith, e) in
      let k : behind ms cs ≡ some rest = ground (arith, h, e) in rw (same, behind-some ms cs rest k)
  | inr e ↦ absurd (ground (arith, h, e))
]

unfoldable pub Absent : Text → Text → Type 0
Absent name t = Occurs (codes "android:" ++ name) t → ⊥

Absent-tail : (name : Text) (c : ℕ) (cs : Text) → Absent name (c ∷ cs) → Absent name cs
unfolding Absent
Absent-tail name c cs h (a, b, e) = h (c ∷ a, b, ap (λ t. c ∷ t) e)

match_at-none :
    (name : Text) (inside : Bool) (t : Text) → Absent name t → match_at name inside t ≡ none
unfolding match_at Absent
match_at-none name true t h = refl
match_at-none name false t h = go (behind (codes "android:" ++ name) t) refl
  where
    go : (o : Option Text) → behind (codes "android:" ++ name) t ≡ o → match_at name false t ≡ none
    go none e = rw e
    go (some rest) e = absurd (h ([], rest, behind-some (codes "android:" ++ name) t rest e))

module _ (word : ℕ → Bool) (lower : Text → Text) where
  pub values_from-nil :
      (name : Text) (skip : ℕ) (inside : Bool) (t : Text)
      → Absent name t
      → values_from word lower name skip inside t ≡ []
  unfolding values_from
  values_from-nil name skip inside [] h = refl
  values_from-nil name (suc skip) inside (c ∷ cs) h =
      values_from-nil name skip (word c) cs (Absent-tail name c cs h)
  values_from-nil name zero inside (c ∷ cs) h =
      let m = match_at-none name inside (c ∷ cs) h in
      let rest = values_from-nil name 0 (word c) cs (Absent-tail name c cs h) in cc

  -- A manifest in which the name of a reviewed flag does not stand is refused for allowBackup, and
  -- accepted for the two other flags.
  pub require_disabled_flag-absent :
      (manifest name : Text)
      → listed name flags ≡ true
      → (Occurs (codes "android:" ++ name) manifest → ⊥)
      → require_disabled_flag word lower manifest name ≡ elim (text_eq name (codes "allowBackup")) [
        | true ↦ err (runtime_error "APK must explicitly disable allowBackup.")
        | false ↦ ok tt
      ]
  unfolding require_disabled_flag require_values Absent
  require_disabled_flag-absent manifest name l h = rw (l, values_from-nil name 0 false manifest h)
