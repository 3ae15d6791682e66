-- ===== src/Speech/Distance.antt =====
-- `edit_count` is the least number of insertions, removals and exchanges of words.
use mathlib.Core.List.{reverse, reverse-cons}
use capybaragram_build.Prelude.{
  ℕ, suc, ◌+◌, min, List, [], ◌∷◌, ◌++◌, ◌≡◌, refl, sym, ap, ◌∙◌, length, arith, append_assoc,
  append-nil,
}
use capybaragram_build.Text.{Text}
use capybaragram_build.Speech.{cost, range, fill_row, next_row, rows, last, edit_count}

-- The distance of two lists of words, the last words first.
unfoldable pub distance : List Text → List Text → ℕ
distance [] ys = length ys
distance (x ∷ xs) [] = suc (length xs)
distance (x ∷ xs) (y ∷ ys) =
    min (min (distance xs (y ∷ ys) + 1) (distance (x ∷ xs) ys + 1)) (distance xs ys + cost x y)

pub distance-nil : (xs : List Text) → distance xs [] ≡ length xs
unfolding distance
distance-nil [] = refl
distance-nil (x ∷ xs) = refl

-- The row of `xs`, from the words `acc` on: the distances to `acc` and to each longer start.
row : List Text → List Text → List Text → List ℕ
row xs acc [] = []
row xs acc (y ∷ ys) = distance xs (y ∷ acc) ∷ row xs (y ∷ acc) ys

distance-cons :
    (x : Text) (xs : List Text) (y : Text) (ys : List Text)
    → distance (x ∷ xs) (y ∷ ys)
      ≡ min (min (distance xs (y ∷ ys) + 1) (distance (x ∷ xs) ys + 1)) (distance xs ys + cost x y)
unfolding distance
distance-cons x xs y ys = refl

fill_row-eq-row :
    (x : Text) (xs acc ys : List Text)
    → fill_row x (distance xs acc) (distance (x ∷ xs) acc) (row xs acc ys) ys ≡ row (x ∷ xs) acc ys
unfolding fill_row row
fill_row-eq-row x xs acc [] = refl
fill_row-eq-row x xs acc (y ∷ ys) =
    rw (← distance-cons x xs y acc)
      (ap (λ t. distance (x ∷ xs) (y ∷ acc) ∷ t) (fill_row-eq-row x xs (y ∷ acc) ys))

-- The words of `xs`, reversed, in front of `acc`.
onto : List Text → List Text → List Text
onto [] acc = acc
onto (x ∷ xs) acc = onto xs (x ∷ acc)

next_row-eq-row :
    (x : Text) (xs ys : List Text)
    → next_row x (suc (length xs)) (distance xs [] ∷ row xs [] ys) ys
      ≡ distance (x ∷ xs) [] ∷ row (x ∷ xs) [] ys
unfolding next_row
next_row-eq-row x xs ys =
    let e : suc (length xs) ≡ distance (x ∷ xs) [] = sym (distance-nil (x ∷ xs)) in
    rw (e, fill_row-eq-row x xs [] ys)

rows-eq-row :
    (reference xs ys : List Text)
    → rows reference (suc (length xs)) (distance xs [] ∷ row xs [] ys) ys
      ≡ distance (onto reference xs) [] ∷ row (onto reference xs) [] ys
unfolding rows onto
rows-eq-row [] xs ys = refl
rows-eq-row (x ∷ reference) xs ys = rw (next_row-eq-row x xs ys) (rows-eq-row reference (x ∷ xs) ys)

range-eq-row : (acc ys : List Text) → range (suc (length acc)) (length ys) ≡ row [] acc ys
unfolding range row distance
range-eq-row acc [] = refl
range-eq-row acc (y ∷ ys) = ap (λ t. suc (length acc) ∷ t) (range-eq-row (y ∷ acc) ys)

last-row :
    (xs acc ys : List Text) → last (distance xs acc ∷ row xs acc ys) ≡ distance xs (onto ys acc)
unfolding last row onto
last-row xs acc [] = refl
last-row xs acc (y ∷ ys) = last-row xs (y ∷ acc) ys

onto-eq-reverse : (xs acc : List Text) → onto xs acc ≡ reverse xs ++ acc
unfolding onto
onto-eq-reverse [] acc = refl
onto-eq-reverse (x ∷ xs) acc =
    rw (reverse-cons x xs)
      (onto-eq-reverse xs (x ∷ acc) ∙ sym (append_assoc (reverse xs) (x ∷ []) acc))

first_row : (actual : List Text) → range 0 (length actual + 1) ≡ distance [] [] ∷ row [] [] actual
unfolding range distance
first_row actual =
    let n : length actual + 1 ≡ suc (length actual) = omega arith in
    rw n (ap (λ t. 0 ∷ t) (range-eq-row [] actual))

-- The rolling rows of the source compute the recursive edit distance of the reversed word lists.
pub edit_count-eq-distance :
    (reference actual : List Text)
    → edit_count reference actual ≡ distance (reverse reference) (reverse actual)
unfolding edit_count
edit_count-eq-distance reference actual =
    ap last
      (ap (λ r. rows reference 1 r actual) (first_row actual) ∙ rows-eq-row reference [] actual)
    ∙ last-row (onto reference []) [] actual
    ∙ ap (λ r. distance r (onto actual []))
        (onto-eq-reverse reference [] ∙ append-nil (reverse reference))
    ∙ ap (distance (reverse reference)) (onto-eq-reverse actual [] ∙ append-nil (reverse actual))
