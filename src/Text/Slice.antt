-- ===== src/Text/Slice.antt =====
-- `text.index(part)`, `text.index(part, start)` and the slices `text[:i]` and `text[i:]`.
use capybaragram_build.Prelude.{
  ℕ, zero, suc, ◌+◌, ◌≤◌, false, [], ◌∷◌, ◌++◌, ◌≡◌, refl, sym, ap, ◌∙◌, inl, inr, take, drop, none,
  some, Result, ok, err, not_found, arith, Bool-cases, Option-cases,
}
use native.Mathlib.Nat.{zero-add}
use capybaragram_build.Text.{Text, is_prefix, find, contains}
use capybaragram_build.Text.Occurs.{is_prefix_sound, is_prefix-append}
use capybaragram_build.Text.Split.{IsFree}

unfoldable pub index : Text → Text → Result ℕ
unfolding find
index part text = elim (find part text) [ none ↦ err not_found | some i ↦ ok i ]

unfoldable pub index_from : Text → Text → ℕ → Result ℕ
unfolding find
index_from part text from = elim (find part (drop from text)) [
  | none ↦ err not_found
  | some i ↦ ok (from + i)
]

pub take-append-drop : (i : ℕ) (text : Text) → take i text ++ drop i text ≡ text
take-append-drop zero text = refl
take-append-drop (suc i) [] = refl
take-append-drop (suc i) (c ∷ cs) = ap (λ t. c ∷ t) (take-append-drop i cs)

pub find_sound :
    (part text : Text) (i : ℕ) → find part text ≡ some i → (b : Text) × (drop i text ≡ part ++ b)
unfolding find
find_sound part [] i h = elim (Bool-cases (is_prefix part [])) [
  | inl e ↦
      let (b, f) = is_prefix_sound part [] e in let z : i ≡ 0 = ground (arith, h, e) in (b, rw z f)
  | inr e ↦ absurd (ground (arith, h, e))
]
find_sound part (c ∷ cs) i h = elim (Bool-cases (is_prefix part (c ∷ cs))) [
  | inl e ↦
      let (b, f) = is_prefix_sound part (c ∷ cs) e in
      let z : i ≡ 0 = ground (arith, h, e) in (b, rw z f)
  | inr e ↦ elim (Option-cases (find part cs)) [
    | inl n ↦ absurd (ground (arith, h, e, n))
    | inr (j, n) ↦
        let (b, f) = find_sound part cs j n in
        let z : i ≡ suc j = ground (arith, h, e, n) in (b, rw z f)
  ]
]

-- What `index` finds: the text before, the part, and the rest.
pub index_sound :
    (part text : Text) (i : ℕ)
    → index part text ≡ ok i
    → (b : Text) × (drop i text ≡ part ++ b) × (text ≡ take i text ++ (part ++ b))
unfolding index
index_sound part text i h =
    let (b, f) = find_sound part text i (ground (arith, h)) in
    (b, f, sym (take-append-drop i text) ∙ ap (λ t. take i text ++ t) f)

drop-nil : (n : ℕ) → drop {A = ℕ} n [] ≡ []
drop-nil zero = refl
drop-nil (suc n) = refl

pub drop-drop : (i j : ℕ) (text : Text) → drop j (drop i text) ≡ drop (i + j) text
drop-drop zero j text = rw zero-add
drop-drop (suc i) j [] = drop-nil j ∙ sym (drop-nil (suc i + j))
drop-drop (suc i) j (c ∷ cs) =
    let e : suc i + j ≡ suc (i + j) = omega arith in rw e (drop-drop i j cs)

-- What `index` finds from `start` on: the part stands at or behind `start`.
pub index_from_sound :
    (part text : Text) (start i : ℕ)
    → index_from part text start ≡ ok i
    → (b : Text) × (gap : Text) × (drop i text ≡ part ++ b)
      × (text ≡ take start text ++ (gap ++ (part ++ b)))
      × (start ≤ i)
unfolding index_from
index_from_sound part text start i h = elim (Option-cases (find part (drop start text))) [
  | inl n ↦ absurd (ground (arith, h, n))
  | inr (j, n) ↦
      let (b, f) = find_sound part (drop start text) j n in
      let at : i ≡ start + j = ground (arith, h, n) in
      (
        b,
        take j (drop start text),
        rw at (sym (drop-drop start j text) ∙ f),
        sym (take-append-drop start text)
            ∙ ap (λ t. take start text ++ t)
                (sym (take-append-drop j (drop start text))
                  ∙ ap (λ t. take j (drop start text) ++ t) f),
        omega arith,
      )
]

miss :
    (part : Text) (c : ℕ) (cs : Text) → find part (c ∷ cs) ≡ none → is_prefix part (c ∷ cs) ≡ false
unfolding find
miss part c cs h = ground (arith, h)

rest : (part : Text) (c : ℕ) (cs : Text) → find part (c ∷ cs) ≡ none → find part cs ≡ none
unfolding find
rest part c cs h = ground (arith, h)

pub find-IsFree : (part text : Text) → find part text ≡ none → IsFree part text
unfolding find
find-IsFree part [] h (a, b, e) = nothing part a b e (ground (arith, h))
  where
    nothing : (part a b : Text) → [] ≡ a ++ (part ++ b) → is_prefix part [] ≡ false → ⊥
    nothing [] [] b e h = unfold is_prefix in cc
    nothing [] (x ∷ a) b e h = cc
    nothing (y ∷ part) [] b e h = cc
    nothing (y ∷ part) (x ∷ a) b e h = cc
find-IsFree part (c ∷ cs) h ([], b, e) =
    cc (is_prefix-append part b, ap (is_prefix part) e, miss part c cs h)
find-IsFree part (c ∷ cs) h (x ∷ a, b, e) = find-IsFree part cs (rest part c cs h) (a, b, cc)

-- `part not in text`
pub contains-IsFree : (part text : Text) → contains part text ≡ false → IsFree part text
unfolding contains
contains-IsFree part text h = find-IsFree part text (ground (arith, h))
