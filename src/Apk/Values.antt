-- ===== src/Apk/Values.antt =====
-- What an attribute of `aapt dump xmltree` looks like, and what the pattern and the test of
-- `require_disabled_flag` make of it.
use capybaragram_build.Prelude.{
  ℕ, Bool, true, false, ◌||◌, [], ◌∷◌, ◌++◌, some, ◌≡◌, ◌≢◌, ◌==◌, ◌⊎◌, inl, inr, ◌↔◌, refl, All,
  Bool-cases, Option-cases, every, arith,
}
use capybaragram_build.Text.{Text, codes, text_eq}
use capybaragram_build.Text.Equal.{text_eq_iff}
use capybaragram_build.Text.Lines.{is_space, lstrip}
use capybaragram_build.Apk.Flags.{behind, behind_paren, group, line, capture, assigned, is_false}
use capybaragram_build.Apk.Absent.{behind-some}

-- The address of an attribute: none, or a number in parentheses.
pub data IsAddress : Text → Type 0 where
  no_address : IsAddress []
  address : (inner : Text) → All (λ c. c ≢ b')') inner → IsAddress (b'(' ∷ (inner ++ (b')' ∷ [])))

-- `value` is the rest of a line that does not start with white space, and `after` follows the line.
pub record IsValue (value after : Text) : Type 0 where
  pub first : ℕ
  pub more : Text
  pub full : value ≡ first ∷ more
  pub visible : is_space first ≡ false
  pub inline : All (λ c. (c ≢ 13) × (c ≢ 10)) value
  pub ended : (after ≡ []) ⊎ ((t : Text) × ((after ≡ 13 ∷ t) ⊎ (after ≡ 10 ∷ t)))

-- The two ways to write a false value: the word, or the number 0 of the Boolean type.
abbrev pub IsFalse : Text → Type 0
IsFalse v =
    (v ≡ codes "false")
    ⊎ ((zeros : Text) × All (λ c. c ≡ b'0') zeros × (v ≡ codes "(type0x12)0x0" ++ zeros))

pub behind-append : (m rest : Text) → behind m (m ++ rest) ≡ some rest
unfolding behind
behind-append [] rest = refl
behind-append (m ∷ ms) rest =
    let same : (m == m) ≡ true = grind arith in let more = behind-append ms rest in cc

behind_paren-append :
    (inner t : Text)
    → All (λ c. c ≢ b')') inner
    → behind_paren ((inner ++ (b')' ∷ [])) ++ t) ≡ some t
unfolding behind_paren
behind_paren-append [] t h = refl
behind_paren-append (c ∷ cs) t (h, hs) =
    let other : (c == b')') ≡ false = grind (arith, h) in
    let later = behind_paren-append cs t hs in cc

group-address : (a t : Text) → IsAddress a → group (a ++ (b'=' ∷ t)) ≡ b'=' ∷ t
unfolding group
group-address [] t no_address = refl
group-address (c ∷ a) t (address inner h) = let found = behind_paren-append inner (b'=' ∷ t) h in cc

line-end :
    (after : Text)
    → (after ≡ []) ⊎ ((t : Text) × ((after ≡ 13 ∷ t) ⊎ (after ≡ 10 ∷ t)))
    → line after ≡ ([], after)
unfolding line
line-end [] h = refl
line-end (c ∷ cs) h = ground (arith, h)

line-append :
    (value after : Text)
    → All (λ c. (c ≢ 13) × (c ≢ 10)) value
    → (after ≡ []) ⊎ ((t : Text) × ((after ≡ 13 ∷ t) ⊎ (after ≡ 10 ∷ t)))
    → line (value ++ after) ≡ (value, after)
unfolding line
line-append [] after h e = line-end after e
line-append (c ∷ cs) after ((p, q), hs) e =
    let later = line-append cs after hs e in
    let other : ((c == 13) || (c == 10)) ≡ false = grind (arith, p, q) in rw (later, other)

capture-value :
    (value after : Text) → IsValue value after → capture (value ++ after) ≡ some (value, after)
unfolding capture lstrip
capture-value [] after v = cc v.full
capture-value (c ∷ cs) after v =
    let same : c ≡ v.first = cc v.full in
    let visible : is_space c ≡ false = rw same v.visible in
    let whole = line-append (c ∷ cs) after v.inline v.ended in cc

-- The pattern behind the name of an attribute finds the value.
pub assigned-value :
    (a value after : Text)
    → IsAddress a
    → IsValue value after
    → assigned (a ++ (codes "=" ++ (value ++ after))) ≡ some (value, after)
unfolding assigned behind lstrip
assigned-value a value after h v =
    let shown = group-address a (value ++ after) h in let found = capture-value value after v in cc

every-zeros : (t : Text) → (every (λ c. c == b'0') t ≡ true) ↔ All (λ c. c ≡ b'0') t
unfolding every
every-zeros [] = (λ h. tt, λ h. refl)
every-zeros (c ∷ cs) = (
  λ h. (grind (arith, h), (every-zeros cs).0 (ground (arith, h))),
  λ (e, es). let later = (every-zeros cs).1 es in ground (arith, e, later),
)

module _ (word : ℕ → Bool) (lower : Text → Text) where
  is_false_sound : (v : Text) → is_false word lower v ≡ true → IsFalse v
  unfolding is_false
  is_false_sound v h = elim (Bool-cases (text_eq v (codes "false"))) [
    | inl e ↦ inl ((text_eq_iff v (codes "false")).0 e)
    | inr e ↦ elim (Option-cases (behind (codes "(type0x12)0x0") v)) [
      | inl n ↦ absurd (ground (arith, h, e, n))
      | inr (zeros, n) ↦
          let digits : every (λ c. c == b'0') zeros ≡ true = ground (arith, h, e, n) in
          inr (zeros, (every-zeros zeros).0 digits, behind-some (codes "(type0x12)0x0") v zeros n)
    ]
  ]

  is_false_complete : (v : Text) → IsFalse v → is_false word lower v ≡ true
  unfolding is_false
  is_false_complete v (inl e) =
      let word_false = (text_eq_iff v (codes "false")).1 e in rw word_false
  is_false_complete v (inr (zeros, digits, e)) =
      let found : behind (codes "(type0x12)0x0") v ≡ some zeros =
        rw e (behind-append (codes "(type0x12)0x0") zeros) in
      let all_zeros = (every-zeros zeros).1 digits in ground (arith, found, all_zeros)

  -- The test of a value holds exactly for the two ways to write a false one.
  pub is_false-IsFalse : (v : Text) → (is_false word lower v ≡ true) ↔ IsFalse v
  is_false-IsFalse v = (is_false_sound v, is_false_complete v)
