-- ===== src/Speech/Alignments.antt =====
-- `edit_count` prices the best alignment: none is cheaper, and one has its price.
use mathlib.Core.List.{reverse, reverse-cons, reverse-reverse}
use native.Mathlib.Decide.{dec_le}
use capybaragram_build.Prelude.{
  ℕ, ◌+◌, ◌-◌, ◌≤◌, min, max, List, [], ◌∷◌, ◌++◌, ◌≡◌, ◌↔◌, refl, sym, subst, length, arith,
  append-nil, Bool-cases, inl, inr,
}
use capybaragram_build.Text.{Text, text_eq}
use capybaragram_build.Text.Equal.{text_eq_iff, text_eq_refl}
use capybaragram_build.Speech.{cost, edit_count}
use capybaragram_build.Speech.Distance.{distance, distance-nil, edit_count-eq-distance}

-- A way to turn the one list into the other, and its price: an exchange of equal words is free.
pub data Alignment : List Text → List Text → ℕ → Type 0 where
  start : Alignment [] [] 0
  remove :
      {xs ys : List Text} {n m : ℕ} (x : Text)
      → Alignment xs ys n
      → m ≡ n + 1
      → Alignment (x ∷ xs) ys m
  insert :
      {xs ys : List Text} {n m : ℕ} (y : Text)
      → Alignment xs ys n
      → m ≡ n + 1
      → Alignment xs (y ∷ ys) m
  exchange :
      {xs ys : List Text} {n m : ℕ} (x y : Text)
      → Alignment xs ys n
      → m ≡ n + cost x y
      → Alignment (x ∷ xs) (y ∷ ys) m

pub distance-le : {xs ys : List Text} {n : ℕ} → Alignment xs ys n → distance xs ys ≤ n
unfolding distance
distance-le start = omega arith
distance-le (remove {xs} {ys = []} x a e) = omega (arith, distance-le a, distance-nil xs)
distance-le (remove {ys = y ∷ ys} x a e) = omega (arith, distance-le a)
distance-le (insert {xs = []} y a e) = omega (arith, distance-le a)
distance-le (insert {xs = x ∷ xs} y a e) = omega (arith, distance-le a)
distance-le (exchange x y a e) = omega (arith, distance-le a)

abbrev IsPriced : List Text → List Text → ℕ → Type 0
IsPriced xs ys n = Alignment xs ys n

least :
    {xs ys : List Text} {n m : ℕ}
    → Alignment xs ys n
    → Alignment xs ys m
    → Alignment xs ys (min n m)
least {xs} {ys} {n} {m} a b = elim (dec_le n m) [
  | yes h ↦ let e : n ≡ min n m = omega arith in subst (Alignment xs ys) e a
  | no h ↦ let e : m ≡ min n m = omega arith in subst (Alignment xs ys) e b
]

attained : (xs ys : List Text) → Alignment xs ys (distance xs ys)
unfolding distance
attained [] [] = start
attained [] (y ∷ ys) = insert y (attained [] ys) (omega arith)
attained (x ∷ xs) [] = remove x (attained xs []) (omega (arith, distance-nil xs))
attained (x ∷ xs) (y ∷ ys) =
    least (least (remove x (attained xs (y ∷ ys)) refl) (insert y (attained (x ∷ xs) ys) refl))
      (exchange x y (attained xs ys) refl)

append_alignments :
    {xs ys us vs : List Text} {n m : ℕ}
    → Alignment xs ys n
    → Alignment us vs m
    → Alignment (xs ++ us) (ys ++ vs) (n + m)
append_alignments {us} {vs} {m} start b =
    let e : m ≡ 0 + m = omega arith in subst (Alignment us vs) e b
append_alignments (remove x a e) b = remove x (append_alignments a b) (omega arith)
append_alignments (insert y a e) b = insert y (append_alignments a b) (omega arith)
append_alignments (exchange x y a e) b = exchange x y (append_alignments a b) (omega arith)

reverse_alignment :
    {xs ys : List Text} {n : ℕ} → Alignment xs ys n → Alignment (reverse xs) (reverse ys) n
reverse_alignment start = start
reverse_alignment (remove {xs} {ys} {n} {m} x a e) =
    let b = append_alignments (reverse_alignment a) (remove {m = 1} x start (omega arith)) in
    let c = subst (Alignment (reverse xs ++ x ∷ []) (reverse ys ++ [])) (omega arith) b in
    subst (λ l. Alignment l (reverse ys) m) (sym (reverse-cons x xs))
      (subst (λ l. Alignment (reverse xs ++ x ∷ []) l m) (append-nil (reverse ys)) c)
reverse_alignment (insert {xs} {ys} {n} {m} y a e) =
    let b = append_alignments (reverse_alignment a) (insert {m = 1} y start (omega arith)) in
    let c = subst (Alignment (reverse xs ++ []) (reverse ys ++ y ∷ [])) (omega arith) b in
    subst (λ l. Alignment (reverse xs) l m) (sym (reverse-cons y ys))
      (subst (λ l. Alignment l (reverse ys ++ y ∷ []) m) (append-nil (reverse xs)) c)
reverse_alignment (exchange {xs} {ys} {n} {m} x y a e) =
    let b =
      append_alignments (reverse_alignment a) (exchange {m = cost x y} x y start (omega arith)) in
    let c = subst (Alignment (reverse xs ++ x ∷ []) (reverse ys ++ y ∷ [])) (sym e) b in
    subst (λ l. Alignment l (reverse (y ∷ ys)) m) (sym (reverse-cons x xs))
      (subst (λ l. Alignment (reverse xs ++ x ∷ []) l m) (sym (reverse-cons y ys)) c)

edit_count_attained :
    (reference actual : List Text) → Alignment reference actual (edit_count reference actual)
edit_count_attained reference actual =
    let e = edit_count-eq-distance reference actual in
    let back = reverse_alignment (attained (reverse reference) (reverse actual)) in
    let price = distance (reverse reference) (reverse actual) in
    let left =
      subst (λ l. Alignment l (reverse (reverse actual)) price) (reverse-reverse reference) back in
    let both = subst (λ l. Alignment reference l price) (reverse-reverse actual) left in
    subst (Alignment reference actual) (sym e) both

edit_count_least :
    (reference actual : List Text) (n : ℕ)
    → Alignment reference actual n
    → edit_count reference actual ≤ n
edit_count_least reference actual n a =
    rw (edit_count-eq-distance reference actual) (distance-le (reverse_alignment a))

-- `edit_count` is the least price of an alignment: some alignment of the transcript with the reference
-- has it, and none is cheaper.
pub edit_count_minimal :
    (reference actual : List Text)
    → Alignment reference actual (edit_count reference actual)
      × ((n : ℕ) → Alignment reference actual n → edit_count reference actual ≤ n)
edit_count_minimal reference actual =
    (edit_count_attained reference actual, edit_count_least reference actual)

cost_zero : (x y : Text) → cost x y ≡ 0 → x ≡ y
unfolding cost
cost_zero x y h = elim (Bool-cases (text_eq x y)) [
  | inl e ↦ (text_eq_iff x y).0 e
  | inr e ↦ absurd (ground (arith, h, e))
]

cost_comm : (x y : Text) → cost x y ≡ cost y x
unfolding cost
cost_comm x y = ground (arith, text_eq_iff x y, text_eq_iff y x)

cost-le-one : (x y : Text) → cost x y ≤ 1
unfolding cost
cost-le-one x y = ground arith

cost_self : (x : Text) → cost x x ≡ 0
unfolding cost
cost_self x = ground (arith, text_eq_refl x)

free_alignment : {xs ys : List Text} {n : ℕ} → Alignment xs ys n → n ≡ 0 → xs ≡ ys
free_alignment start h = refl
free_alignment (remove x a e) h = absurd (omega arith)
free_alignment (insert y a e) h = absurd (omega arith)
free_alignment (exchange x y a e) h =
    cc (cost_zero x y (omega arith), free_alignment a (omega arith))

same_alignment : (xs : List Text) → Alignment xs xs 0
same_alignment [] = start
same_alignment (x ∷ xs) = exchange x x (same_alignment xs) (omega (arith, cost_self x))

-- The count is 0 exactly when the transcript is the reference.
pub edit_count_zero :
    (reference actual : List Text) → (edit_count reference actual ≡ 0) ↔ (reference ≡ actual)
edit_count_zero reference actual =
    let a = edit_count_attained reference actual in
    let best = edit_count_least reference actual in
    (
      λ h. free_alignment a h,
      λ e.
          omega (arith, best 0 (subst (λ l. Alignment reference l 0) e (same_alignment reference))),
    )

flip_alignment : {xs ys : List Text} {n : ℕ} → Alignment xs ys n → Alignment ys xs n
flip_alignment start = start
flip_alignment (remove x a e) = insert x (flip_alignment a) e
flip_alignment (insert y a e) = remove y (flip_alignment a) e
flip_alignment (exchange x y a e) = exchange y x (flip_alignment a) (omega (arith, cost_comm x y))

-- The count does not depend on which of the two texts is the reference.
pub edit_count_comm :
    (reference actual : List Text) → edit_count reference actual ≡ edit_count actual reference
edit_count_comm reference actual =
    let a = edit_count_attained reference actual in
    let b = edit_count_attained actual reference in
    let best_a = edit_count_least reference actual in
    let best_b = edit_count_least actual reference in
    omega (arith, best_a _ (flip_alignment b), best_b _ (flip_alignment a))

lengths : {xs ys : List Text} {n : ℕ} → Alignment xs ys n → length xs ≤ length ys + n
lengths start = omega arith
lengths (remove x a e) = omega (arith, lengths a)
lengths (insert y a e) = omega (arith, lengths a)
lengths (exchange x y a e) = omega (arith, lengths a)

longest : (xs ys : List Text) → (n : ℕ) × Alignment xs ys n × (n ≤ max (length xs) (length ys))
longest [] [] = (0, start, omega arith)
longest [] (y ∷ ys) = let (n, a, h) = longest [] ys in (n + 1, insert y a refl, omega arith)
longest (x ∷ xs) [] = let (n, a, h) = longest xs [] in (n + 1, remove x a refl, omega arith)
longest (x ∷ xs) (y ∷ ys) =
    let (n, a, h) = longest xs ys in
    (n + cost x y, exchange x y a refl, omega (arith, cost-le-one x y))

-- The count is at least the difference of the lengths and at most the longer length, so a word
-- error rate above 1 needs a transcript longer than its reference.
pub edit_count_bounds :
    (reference actual : List Text)
    → (length reference - length actual ≤ edit_count reference actual)
      × (length actual - length reference ≤ edit_count reference actual)
      × (edit_count reference actual ≤ max (length reference) (length actual))
edit_count_bounds reference actual =
    let a = edit_count_attained reference actual in
    let best = edit_count_least reference actual in
    let (n, b, h) = longest reference actual in
    (omega (arith, lengths a), omega (arith, lengths (flip_alignment a)), omega (arith, best n b))
