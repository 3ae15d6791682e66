-- ===== src/Tests/Plans.antt =====
-- The theorems on the shared plans at concrete trees.
use capybaragram_build.Prelude.{
  true, false, ◌≡◌, ◌≢◌, ◌⊎◌, refl, subst, none, some, Result, ok, err, os_error, value_error,
  if◌then◌else◌,
}
use capybaragram_build.Text.{
  Text, codes, is_prefix, replace_all, pieces_from, count, join, text_eq, normalized,
}
use capybaragram_build.Text.Utf8.{decode, encode}
use capybaragram_build.Checkout.{Checkout, read_bytes, write_bytes, regular}
use capybaragram_build.Patch.{exchange}
use capybaragram_build.Folders.{Pins, windows_sha, plan_one, run_one, produce, digest}
use capybaragram_build.Folders.Bulk
use capybaragram_build.Folders.Plan.{Planned, plan_one-Planned, run_one-check, run_one-file_ne}

abbrev name : Text
name = codes "a"

abbrev raw : Text
raw = codes "x=1\n"

abbrev changed : Text
changed = codes "x=2\n"

abbrev transform : Text → Result Text
transform text = exchange "anchor" text (codes "=1") (codes "=2") 1

abbrev pins : Pins
pins = record { pre = raw; post = changed }

abbrev tree : Checkout
tree = record {
  symlink = λ path. false;
  inside = λ path. ok true;
  within = λ path. true;
  other = λ path. false;
  file = λ path. if text_eq path name then some raw else none;
  head = windows_sha;
  committed = λ path. err os_error;
}

abbrev prepared : Checkout
prepared = write_bytes tree name changed

abbrev hash : Text → Text
hash text = text

plan_one-Planned_example : Planned hash Bulk.messages name transform pins tree false changed
unfolding is_prefix count pieces_from replace_all join exchange plan_one regular read_bytes produce
    digest normalized decode encode text_eq
plan_one-Planned_example =
    plan_one-Planned hash Bulk.messages name transform pins tree false changed refl

run_one-check_example :
    run_one hash windows_sha
      (value_error "revision")
      Bulk.messages
      name
      transform
      pins
      prepared
      true
    ≡ ok prepared
unfolding is_prefix count pieces_from replace_all join exchange plan_one run_one regular read_bytes
    produce digest normalized decode encode text_eq write_bytes
run_one-check_example =
    run_one-check hash Bulk.messages name transform pins windows_sha (value_error "revision") tree
      prepared changed refl refl refl

other_name : name ≢ codes "b"
unfolding text_eq
other_name h = subst (λ t. elim (text_eq name t) [ true ↦ Unit {0} | false ↦ ⊥ ]) h tt

run_one-file_ne_example :
    (prepared.file (codes "b") ≡ tree.file (codes "b")) × ((false ≡ false) ⊎ (prepared ≡ tree))
unfolding is_prefix count pieces_from replace_all join exchange plan_one run_one regular read_bytes
    produce digest normalized decode encode text_eq write_bytes
run_one-file_ne_example =
    run_one-file_ne hash Bulk.messages name transform pins windows_sha (value_error "revision") tree
      prepared false (codes "b") refl other_name
