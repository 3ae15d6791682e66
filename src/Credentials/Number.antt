-- ===== src/Credentials/Number.antt =====
-- Digits and the number they write: `value` of ci/api_credentials.py's application id.
use capybaragram_build.Prelude.{
  ℕ, ◌+◌, ◌-◌, ◌*◌, ◌≤◌, ◌<◌, true, [], ◌∷◌, length, every, ◌≡◌, ◌⊎◌, inl, inr, refl, sym, arith,
  every-cons,
}
use capybaragram_build.Text.{Text}
use capybaragram_build.Credentials.{is_digit, value_from, value, is_id}

digit-bounds : (c : ℕ) → is_digit c ≡ true → (48 ≤ c) × (c ≤ 57)
unfolding is_digit
digit-bounds c h = ground arith

value_from-ge : (n : ℕ) (cs : Text) → n ≤ value_from n cs
unfolding value_from
value_from-ge n [] = omega arith
value_from-ge n (c ∷ cs) = let h = value_from-ge (n * 10 + (c - 48)) cs in omega (arith, h)

-- A smaller start and no more digits give a smaller number.
value_from-lt :
    (a b : ℕ) (cs ds : Text)
    → a < b
    → length cs ≤ length ds
    → every is_digit cs ≡ true
    → value_from a cs < value_from b ds
unfolding value_from length
value_from-lt a b [] ds l n h = let g = value_from-ge b ds in omega (arith, g, l)
value_from-lt a b (c ∷ cs) [] l n h = omega (arith, n)
value_from-lt a b (c ∷ cs) (d ∷ ds) l n h =
    let (e, hs) = every-cons is_digit c cs h in
    let (lo, hi) = digit-bounds c e in
    value_from-lt (a * 10 + (c - 48)) (b * 10 + (d - 48)) cs ds (omega (arith, l, lo, hi))
      (omega (arith, n)) hs

value_from-lengths :
    (a b : ℕ) (cs ds : Text)
    → a ≤ 9
    → 1 ≤ b
    → length cs < length ds
    → every is_digit cs ≡ true
    → value_from a cs < value_from b ds
unfolding value_from length
value_from-lengths a b cs [] l m n h = omega (arith, n)
value_from-lengths a b cs (d ∷ ds) l m n h =
    value_from-lt a (b * 10 + (d - 48)) cs ds (omega (arith, l, m)) (omega (arith, n)) h

-- Of two digit strings of one length, the starts and the digits follow from the number.
value_from_injective :
    (a b : ℕ) (cs ds : Text)
    → length cs ≡ length ds
    → every is_digit cs ≡ true
    → every is_digit ds ≡ true
    → value_from a cs ≡ value_from b ds
    → (a ≡ b) × (cs ≡ ds)
unfolding value_from length
value_from_injective a b [] [] n h k e = (e, refl)
value_from_injective a b [] (d ∷ ds) n h k e = absurd (omega (arith, n))
value_from_injective a b (c ∷ cs) [] n h k e = absurd (omega (arith, n))
value_from_injective a b (c ∷ cs) (d ∷ ds) n h k e =
    let (p, hs) = every-cons is_digit c cs h in
    let (q, ks) = every-cons is_digit d ds k in
    let (lo, hi) = digit-bounds c p in
    let (lo', hi') = digit-bounds d q in
    let (s, r) =
      value_from_injective (a * 10 + (c - 48)) (b * 10 + (d - 48)) cs ds (omega (arith, n)) hs ks
        e in
    (omega (arith, s, lo, hi, lo', hi'), ◌∷◌-ext c d cs ds (omega (arith, s, lo, hi, lo', hi')) r)
  where
    ◌∷◌-ext : (c d : ℕ) (cs ds : Text) → c ≡ d → cs ≡ ds → c ∷ cs ≡ d ∷ ds
    ◌∷◌-ext c d cs ds p q = cc (p, q)

-- What the pattern of an id says of its characters.
pub is_id-cons :
    (c : ℕ) (cs : Text)
    → is_id (c ∷ cs) ≡ true
    → (49 ≤ c) × (c ≤ 57) × (every is_digit cs ≡ true) × (length cs ≤ 9)
unfolding is_id
is_id-cons c cs h = (ground arith, ground arith, ground arith, ground arith)

-- Two strings that the pattern of an id accepts write one number only if they are the same: the
-- pattern leaves no second spelling.
pub value_injective : (s t : Text) → is_id s ≡ true → is_id t ≡ true → value s ≡ value t → s ≡ t
unfolding value_from is_id
value_injective [] t h k e = cc h
value_injective (c ∷ cs) [] h k e = cc k
value_injective (c ∷ cs) (d ∷ ds) h k e =
    let (lo, hi, hs, n) = is_id-cons c cs h in
    let (lo', hi', ks, m) = is_id-cons d ds k in
    elim (orders (length cs) (length ds)) [
      | inl less ↦ differ e (
          value_from-lengths (0 + (c - 48)) (0 + (d - 48)) cs ds (omega (arith, hi))
            (omega (arith, lo')) less hs)
      | inr (inl more) ↦ differ (sym e) (
          value_from-lengths (0 + (d - 48)) (0 + (c - 48)) ds cs (omega (arith, hi'))
            (omega (arith, lo)) more ks)
      | inr (inr same) ↦
          (let (s, r) = value_from_injective (0 + (c - 48)) (0 + (d - 48)) cs ds same hs ks e in
            let p : c ≡ d = omega (arith, s, lo, lo') in cc (p, r))
    ]
  where
    orders : (m n : ℕ) → (m < n) ⊎ ((n < m) ⊎ (m ≡ n))
    orders m n = ground arith

    differ : {m n : ℕ} {s t : Text} → m ≡ n → m < n → s ≡ t
    differ e l = absurd (omega (arith, e, l))

-- An id writes a positive number.
pub value_positive : (s : Text) → is_id s ≡ true → 0 < value s
unfolding value_from is_id
value_positive [] h = cc h
value_positive (c ∷ cs) h =
    let (lo, _, _, _) = is_id-cons c cs h in
    let g : 0 + (c - 48) ≤ value (c ∷ cs) = value_from-ge (0 + (c - 48)) cs in omega (arith, lo, g)
