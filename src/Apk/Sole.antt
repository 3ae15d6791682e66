-- ===== src/Apk/Sole.antt =====
-- The answer of `require_disabled_flag` on a manifest that names the flag at one place.
use capybaragram_build.Prelude.{
  ℕ, ◌-◌, Bool, true, false, [], ◌∷◌, ◌++◌, Option, none, some, ◌≡◌, refl, ap, sym, subst, length,
  require, runtime_error_at, ◌↔◌, Error, ok,
}
use capybaragram_build.Text.{Text, codes, listed, replace_all}
use capybaragram_build.Text.Lines.{strip}
use capybaragram_build.Apk.Flags.{
  flags, behind, match_at, assigned, values_from, is_false, require_values, require_disabled_flag,
}
use capybaragram_build.Apk.Values.{
  IsAddress, IsValue, IsFalse, behind-append, assigned-value, is_false-IsFalse,
}
use capybaragram_build.Apk.Absent.{Absent, behind-some, values_from-nil}

-- The attribute that a flag is.
abbrev pub attribute : Text → Text
attribute name = codes "android:" ++ name

-- `pre` is what stands before each place of the attribute.
abbrev pub IsSole : Text → Text → Text → Type 0
IsSole name pre t = (a b : Text) → t ≡ a ++ (attribute name ++ b) → a ≡ pre

match_at-before :
    (name : Text) (inside : Bool) (p : ℕ) (pre t : Text)
    → IsSole name (p ∷ pre) t
    → match_at name inside t ≡ none
unfolding match_at
match_at-before name true p pre t h = refl
match_at-before name false p pre t h = go (behind (attribute name) t) refl
  where
    go : (o : Option Text) → behind (attribute name) t ≡ o → match_at name false t ≡ none
    go none e = rw e
    go (some rest) e =
        let k : [] ≡ p ∷ pre = h [] rest (behind-some (attribute name) t rest e) in absurd (cc k)

IsSole-tail :
    (name : Text) (p : ℕ) (pre t : Text) → IsSole name (p ∷ pre) (p ∷ t) → IsSole name pre t
IsSole-tail name p pre t h a b e =
    let k : (p ∷ a) ≡ (p ∷ pre) = h (p ∷ a) b (ap (λ x. p ∷ x) e) in cc k

IsSole-behind : (name : Text) (c : ℕ) (t : Text) → IsSole name [] (c ∷ t) → Absent name t
unfolding Absent
IsSole-behind name c t h (a, b, e) = cc (h (c ∷ a) b (ap (λ x. c ∷ x) e))

module _ (word : ℕ → Bool) (lower : Text → Text) where
  -- Whether a word character stands before what follows `pre`.
  unfoldable pub word_before : Bool → Text → Bool
  word_before inside [] = inside
  word_before inside (c ∷ cs) = word_before (word c) cs

  at_place :
      (name : Text) (t : Text) (value after : Text)
      → match_at name false t ≡ some (value, after)
      → IsSole name [] t
      → values_from word lower name 0 false t ≡ value ∷ []
  unfolding values_from match_at behind
  at_place name [] value after m h = cc m
  at_place name (c ∷ cs) value after m h =
      let none_behind =
        values_from-nil word lower name (length cs - length after) (word c) cs
          (IsSole-behind name c cs h) in
      cc

  values_from-sole :
      (name pre rest value after : Text) (inside : Bool)
      → word_before inside pre ≡ false
      → assigned rest ≡ some (value, after)
      → IsSole name pre (pre ++ (attribute name ++ rest))
      → values_from word lower name 0 inside (pre ++ (attribute name ++ rest)) ≡ value ∷ []
  unfolding values_from word_before match_at
  values_from-sole name [] rest value after inside w m h =
      let found : match_at name false (attribute name ++ rest) ≡ some (value, after) =
        rw (behind-append (attribute name) rest) m in
      let answer = at_place name (attribute name ++ rest) value after found h in
      subst (λ i. values_from word lower name 0 i (attribute name ++ rest) ≡ value ∷ []) (sym w)
        answer
  values_from-sole name (p ∷ pre) rest value after inside w m h =
      let here = match_at-before name inside p pre (p ∷ (pre ++ (attribute name ++ rest))) h in
      let later =
        values_from-sole name pre rest value after (word p) w m (IsSole-tail name p pre _ h) in
      cc

  require-ok : (b : Bool) (e : Error) → (require b e ≡ ok tt) ↔ (b ≡ true)
  require-ok true e = (λ h. refl, λ h. refl)
  require-ok false e = (λ h. cc h, λ h. cc h)

  -- A manifest that names a reviewed flag at one place, where no word character stands before it and
  -- `=` with a value follows it, behind an address or at once, is accepted exactly if the value, in
  -- lower case and without spaces, is `false` or a number 0 of the Boolean type.
  pub require_disabled_flag-sole :
      (name pre address value after : Text)
      → listed name flags ≡ true
      → IsSole name pre (pre ++ (attribute name ++ (address ++ (codes "=" ++ (value ++ after)))))
      → word_before false pre ≡ false
      → IsAddress address
      → IsValue value after
      → (require_disabled_flag word lower
            (pre ++ (attribute name ++ (address ++ (codes "=" ++ (value ++ after)))))
            name
          ≡ ok tt)
        ↔ IsFalse (replace_all (codes " ") [] (lower (strip value)))
  unfolding require_disabled_flag require_values
  require_disabled_flag-sole name pre address value after l h w a v =
      let rest = address ++ (codes "=" ++ (value ++ after)) in
      let found =
        values_from-sole name pre rest value after false w (assigned-value address value after a v)
          h in
      let compact = replace_all (codes " ") [] (lower (strip value)) in
      let accepted =
        require-ok (is_false word lower compact)
          (runtime_error_at "APK manifest must disable " name) in
      let right = is_false-IsFalse word lower compact in
      rw (l, found) (λ k. right.0 (accepted.0 k), λ k. accepted.1 (right.1 k))
