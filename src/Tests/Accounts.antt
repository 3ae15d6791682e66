-- ===== src/Tests/Accounts.antt =====
-- The theorem on the prepared Desktop accounts at a concrete tree.
use capybaragram_build.Prelude.{true, false, List, [], ◌∷◌, ◌++◌, All, every, ◌≡◌, refl, some, ok}
use capybaragram_build.Text.{
  Text, codes, is_prefix, replace_all, pieces_from, count, join, text_eq, listed, find, normalized,
}
use capybaragram_build.Text.Slice.{index}
use capybaragram_build.Text.Utf8.{decode, encode}
use capybaragram_build.Checkout.{Checkout, read_bytes, regular, lookup}
use capybaragram_build.Patch.{apply, exchange}
use capybaragram_build.Folders.{windows_sha, same_names}
use capybaragram_build.Accounts.Windows.{
  files, domain_header, domain_source, preview_box, limits_box, header_edits, source_edits,
  preview_start, preview_end, limits_start, limits_end, replace, cut, transform,
}
use capybaragram_build.Accounts.Windows.Prepare.{
  changed, hashes, check_name, check_names, prepare, Checked, prepare-Checked,
}
use capybaragram_build.Tests.{value_of, anchors}

-- The committed texts: each has the anchors of its edits.
abbrev committed : List (Text × Text)
committed =
    (domain_header, anchors header_edits)
    ∷ (domain_source, anchors source_edits)
    ∷ (preview_box, preview_start ++ preview_end)
    ∷ (limits_box, limits_start ++ limits_end)
    ∷ []

abbrev original : Text → Text
original name = value_of (lookup name committed)

abbrev tree : Checkout
tree = record {
  symlink = λ path. false;
  inside = λ path. ok true;
  within = λ path. true;
  other = λ path. false;
  file = λ path. some (value_of (transform path (original path)));
  head = windows_sha;
  committed = λ path. ok (original path);
}

prepare-Checked_example :
    (tree ≡ tree)
    × (tree.head ≡ windows_sha)
    × All
        (Checked
          (λ raw. codes "h")
          ((domain_header, codes "h")
            ∷ (domain_source, codes "h")
            ∷ (preview_box, codes "h")
            ∷ (limits_box, codes "h")
            ∷ [])
          tree)
        files
unfolding is_prefix count pieces_from replace_all join exchange apply text_eq listed every find
    index normalized decode encode regular read_bytes lookup same_names replace cut header_edits
    source_edits transform changed hashes check_name check_names prepare
prepare-Checked_example =
    prepare-Checked (λ raw. codes "h")
      ((domain_header, codes "h")
        ∷ (domain_source, codes "h")
        ∷ (preview_box, codes "h")
        ∷ (limits_box, codes "h")
        ∷ [])
      tree false tree refl
