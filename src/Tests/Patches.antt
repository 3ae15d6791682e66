-- ===== src/Tests/Patches.antt =====
-- The theorems on reviewed replacements at concrete texts.
use capybaragram_build.Prelude.{[], ◌∷◌, ◌++◌, All, ◌≡◌, ◌≢◌, refl, arith, err, value_error}
use capybaragram_build.Text.{Text, codes, replace_all, pieces_from, count, join}
use capybaragram_build.Text.Occurs.{Occurs}
use capybaragram_build.Text.Split.{IsFree}
use capybaragram_build.Patch.{Edit, edit, apply, exchange}
use capybaragram_build.Patch.Settled.{
  installs, clears, withholds, apply-Occurs, apply-IsFree, apply_again,
}
use capybaragram_build.Patch.Unique.{borderless, exchange_place}

abbrev limit : Edit
limit = edit (codes "max = 3;") (codes "max = 10;")

abbrev title : Edit
title = edit (codes "Desktop") (codes "Capybara")

abbrev before : Text
before = codes "// Desktop\nmax = 3;\n"

abbrev behind : Text
behind = codes "// Capybara\nmax = 10;\n"

apply-Occurs_example : All (λ e. Occurs e.new behind) (limit ∷ title ∷ [])
unfolding count pieces_from replace_all join apply exchange installs
apply-Occurs_example = apply-Occurs "anchor" (limit ∷ title ∷ []) before behind refl refl

apply-IsFree_example : IsFree (codes "max = 3;") behind
unfolding count pieces_from replace_all join apply exchange clears
apply-IsFree_example = apply-IsFree "anchor" [] limit (title ∷ []) before behind refl refl

one_is_not_none : limit.times ≢ 0
one_is_not_none h = omega (arith, h)

apply_again_example :
    apply (exchange "anchor") (limit ∷ title ∷ []) behind ≡ err (value_error "anchor")
unfolding count pieces_from replace_all join apply exchange clears withholds
apply_again_example =
    apply_again "anchor" [] limit (title ∷ []) before behind one_is_not_none refl refl refl

exchange_place_example : behind ≡ codes "// Capybara\n" ++ (codes "max = 10;" ++ codes "\n")
unfolding count pieces_from replace_all join exchange borderless
exchange_place_example =
    exchange_place "anchor" (codes "// Capybara\nmax = 3;\n") (codes "max = 3;") (codes "max = 10;")
      behind (codes "// Capybara\n") (codes "\n") refl refl refl
