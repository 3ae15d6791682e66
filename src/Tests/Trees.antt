-- ===== src/Tests/Trees.antt =====
-- The theorems on the hosts' plan and its command line at a tree of one host and one payload.
use capybaragram_build.Prelude.{
  true, false, List, [], ◌∷◌, All, ◌≡◌, refl, every, if◌then◌else◌, Result, ok, err, os_error,
  value_error, none, some, subst, inl, inr,
}
use capybaragram_build.Text.{
  Text, codes, is_prefix, replace_all, pieces_from, count, join, text_eq, listed, normalized,
}
use capybaragram_build.Text.Listed.{listed-cons}
use capybaragram_build.Text.Utf8.{decode, encode}
use capybaragram_build.Checkout.{Checkout, read_bytes, write_bytes, write_all, regular, lookup}
use capybaragram_build.Patch.{exchange}
use capybaragram_build.Folders.{windows_sha, digest, produce, same_names}
use capybaragram_build.Hosts
use capybaragram_build.Hosts.{
  Manifest, allowed, plan_host, plan_payload, collect, exists, is_installed,
}
use capybaragram_build.Hosts.Archive
use capybaragram_build.Hosts.Pinned.{plan-Entry}
use capybaragram_build.Hosts.Applied.{Applied, run-Applied}
use capybaragram_build.Hosts.Checked.{IsPlain, run-check}

abbrev transform : Text → Text → Result Text
transform name text = exchange "anchor" text (codes "=1") (codes "=2") 1

abbrev hashes : Manifest
hashes = record {
  source_sha = windows_sha;
  pre = (codes "host", codes "x=1") ∷ [];
  post = (codes "host", codes "x=2") ∷ [];
  added = (codes "new", codes "y") ∷ [];
}

abbrev tree_of : Text → Text → Checkout
tree_of name raw = record {
  symlink = λ path. false;
  inside = λ path. ok true;
  within = λ path. true;
  other = λ path. false;
  file = λ path. if text_eq path name then some raw else none;
  head = windows_sha;
  committed = λ path. err os_error;
}

abbrev planned : List (Text × Text)
planned = (codes "host", codes "x=2") ∷ (codes "new", codes "y") ∷ []

plan-Entry_example :
    All
      (Hosts.Pinned.Entry
        (λ raw. raw)
        Archive.messages
        transform
        hashes
        (tree_of (codes "host") (codes "x=1"))
        (tree_of (codes "own") (codes "y")))
      planned
unfolding is_prefix count pieces_from replace_all join exchange text_eq listed every regular
    read_bytes lookup digest normalized produce decode encode same_names allowed plan_host
    plan_payload collect exists is_installed Hosts.plan
plan-Entry_example =
    plan-Entry (λ raw. raw) Archive.messages transform hashes (tree_of (codes "host") (codes "x=1"))
      (tree_of (codes "own") (codes "y")) (codes "host" ∷ []) ((codes "new", codes "own") ∷ [])
      planned refl

abbrev before : Checkout
before = tree_of (codes "host") (codes "x=1")

abbrev own : Checkout
own = tree_of (codes "own") (codes "y")

abbrev behind : Checkout
unfolding write_all write_bytes
behind = write_all before planned

run-Applied_example :
    Applied
      (λ raw. raw)
      Archive.messages
      transform
      hashes
      before
      own
      (codes "host" ∷ codes "new" ∷ [])
      behind
unfolding is_prefix count pieces_from replace_all join exchange text_eq listed every regular
    read_bytes lookup digest normalized produce decode encode same_names allowed plan_host
    plan_payload collect exists is_installed Hosts.plan Hosts.run write_all write_bytes
run-Applied_example =
    run-Applied (λ raw. raw) Archive.messages transform hashes before own (value_error "revision")
      (codes "host" ∷ []) ((codes "new", codes "own") ∷ []) behind refl

plain : (name : Text) → listed name (codes "host" ∷ []) ≡ true → IsPlain behind name
unfolding is_prefix count pieces_from listed text_eq write_all write_bytes
plain name l raw f = elim (listed-cons name (codes "host") [] l) [
  | inl e ↦
      let g : some (codes "x=2") ≡ some raw = subst (λ n. behind.file n ≡ some raw) e f in
      let same : codes "x=2" ≡ raw = cc g in subst (λ t. count (13 ∷ 10 ∷ []) t ≡ 0) same refl
  | inr e ↦ cc e
]

run-check_example :
    Hosts.run
      (λ raw. raw)
      Archive.messages
      transform
      hashes
      behind
      own
      true
      (value_error "revision")
      (codes "host" ∷ [])
      ((codes "new", codes "own") ∷ [])
    ≡ ok behind
unfolding is_prefix count pieces_from replace_all join exchange text_eq listed every regular
    read_bytes lookup digest normalized produce decode encode same_names allowed plan_host
    plan_payload collect exists is_installed Hosts.plan Hosts.run write_all write_bytes
run-check_example =
    run-check (λ raw. raw) Archive.messages transform hashes before own (value_error "revision")
      (codes "host" ∷ []) ((codes "new", codes "own") ∷ []) behind refl plain
