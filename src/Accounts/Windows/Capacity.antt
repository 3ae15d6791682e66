-- ===== src/Accounts/Windows/Capacity.antt =====
-- What the Desktop transformation leaves in each file.
use capybaragram_build.Prelude.{
  ℕ, ◌+◌, ◌-◌, false, ◌&&◌, [], ◌∷◌, ◌++◌, ◌==◌, ◌≡◌, refl, sym, ap, ◌∙◌, String, ok, value_error,
  take, drop, >>=-eq-ok, require-eq-ok, refuse-eq-ok, arith, leb,
}
use capybaragram_build.Text.{Text, codes, count}
use capybaragram_build.Text.Occurs.{Occurs}
use capybaragram_build.Text.Split.{IsFree}
use capybaragram_build.Text.Slice.{index, index_sound, take-append-drop, drop-drop}
use capybaragram_build.Patch.{edit, apply}
use capybaragram_build.Patch.Settled.{installs, clears, apply-Occurs, apply-IsFree}
use capybaragram_build.Accounts.Windows.{domain_header, replace, header_edits, cut, transform}

header_step : (text : Text) → transform domain_header text ≡ apply replace header_edits text
unfolding transform
header_step text = refl

abbrev message : String
message = "Reviewed Desktop source anchor differs."

-- Ten accounts for everyone: if the domain header is accepted, the result has both constants at the new limit, and neither
-- of the old ones.
pub header_capacity :
    (text out : Text)
    → transform domain_header text ≡ ok out
    → Occurs (codes "static constexpr auto kMaxAccounts = 10;") out
      × Occurs (codes "static constexpr auto kPremiumMaxAccounts = kMaxAccounts;") out
      × IsFree (codes "static constexpr auto kMaxAccounts = 3;") out
      × IsFree (codes "static constexpr auto kPremiumMaxAccounts = 6;") out
unfolding replace header_edits installs clears
header_capacity text out h =
    let first =
      edit (codes "static constexpr auto kMaxAccounts = 3;")
        (codes "static constexpr auto kMaxAccounts = 10;") in
    let second =
      edit (codes "static constexpr auto kPremiumMaxAccounts = 6;")
        (codes "static constexpr auto kPremiumMaxAccounts = kMaxAccounts;") in
    let put = apply-Occurs message header_edits text out refl (sym (header_step text) ∙ h) in
    (
      put.0,
      put.1.0,
      apply-IsFree message [] first (second ∷ []) text out refl (sym (header_step text) ∙ h),
      apply-IsFree message (first ∷ []) second [] text out refl (sym (header_step text) ∙ h),
    )

cut-parts :
    (anchors order : String) (start end new text out : Text)
    → cut anchors order start end new text ≡ ok out
    → (i : ℕ) × (j : ℕ) × (index start text ≡ ok i)
      × (index end text ≡ ok j)
      × (leb j i ≡ false)
      × (out ≡ take i text ++ (new ++ drop j text))
unfolding cut
cut-parts anchors order start end new text out h =
    let (a, h1) =
      require-eq-ok (count start text == 1 && count end text == 1) (value_error anchors) _ h in
    let (i, b, h2) = >>=-eq-ok (index start text) _ h1 in
    let (j, d, h3) = >>=-eq-ok (index end text) _ h2 in
    let (k, h4) = refuse-eq-ok (leb j i) (value_error order) _ h3 in (i, j, b, d, k, sym (cc h4))

-- A cut that succeeds keeps the text before the first anchor and from the second one on, in this
-- order, and has the new text between them.
pub cut_keeps :
    (anchors order : String) (start end new text out : Text)
    → cut anchors order start end new text ≡ ok out
    → (before : Text) × (gone : Text) × (behind : Text) × (text
        ≡ before ++ (gone ++ (end ++ behind)))
      × (out ≡ before ++ (new ++ (end ++ behind)))
      × ((tail : Text) × (gone ++ (end ++ behind) ≡ start ++ tail))
cut_keeps anchors order start end new text out h =
    let (i, j, a, b, k, e) = cut-parts anchors order start end new text out h in
    let (tail, da, wa) = index_sound start text i a in
    let (behind, db, wb) = index_sound end text j b in
    let order : i + (j - i) ≡ j = ground (arith, k) in
    let rest : drop (j - i) (drop i text) ≡ end ++ behind =
      drop-drop i (j - i) text ∙ ap (λ n. drop n text) order ∙ db in
    let middle : take (j - i) (drop i text) ++ (end ++ behind) ≡ drop i text =
      ap (λ t. take (j - i) (drop i text) ++ t) (sym rest)
      ∙ take-append-drop (j - i) (drop i text) in
    (
      take i text,
      take (j - i) (drop i text),
      behind,
      sym (take-append-drop i text) ∙ ap (λ t. take i text ++ t) (sym middle),
      e ∙ ap (λ t. take i text ++ (new ++ t)) db,
      (tail, middle ∙ da),
    )
