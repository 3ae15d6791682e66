-- ===== src/Inventory/Members/Bounded.antt =====
-- What the scan of an archive's members guarantees to the code that reads them.
use capybaragram_build.Prelude.{
  ℕ, suc, ◌≢◌, Error, ◌+◌, ◌*◌, ◌≤◌, true, false, not, ◌||◌, List, [], ◌∷◌, ◌++◌, length, ltb, ◌≡◌,
  sym, ap, subst, ◌∙◌, arith, All, Option, none, some, ok, >>=-eq-ok, from_option, require-eq-ok,
  refuse-eq-ok,
}
use capybaragram_build.Text.{Text, codes, text_eq, is_prefix, pieces, contains, listed}
use capybaragram_build.Text.Equal.{text_eq_iff}
use capybaragram_build.Text.Occurs.{is_prefix_sound, is_prefix-append}
use capybaragram_build.Text.Split.{IsFree}
use capybaragram_build.Text.Slice.{contains-IsFree}
use capybaragram_build.Inventory.Members.{
  ℤ, pos, negsuc, Entry, Scan, start, mebibyte, safe, reviewed, add_member, add_members,
  scan_members,
}

-- No name stands twice.
abbrev pub Distinct : List Text → Type 0
Distinct [] = Unit
Distinct (n ∷ ns) = (listed n ns ≡ false) × Distinct ns

unfoldable pub magnitude : ℤ → ℕ
magnitude (pos n) = n
magnitude (negsuc n) = 0

-- The sizes of the members together.
unfoldable pub unpacked : List Entry → ℕ
unfolding magnitude
unpacked [] = 0
unpacked (entry ∷ members) = magnitude entry.size + unpacked members

-- A name that stays inside the directory `prefix`: no absolute path, no part that leads to the parent,
-- and neither a backslash nor a colon.
pub record IsInside (prefix name : Text) : Type 0 where
  pub rest : Text
  pub under : name ≡ prefix ++ rest
  pub relative : (t : Text) → name ≢ b'/' ∷ t
  pub no_parent : All (λ part. part ≢ codes "..") (pieces (codes "/") name)
  pub no_backslash : IsFree (codes "\\") name
  pub no_colon : IsFree (codes ":") name

pub record Bounded (prefix : Text) (scan : Scan) : Type 0 where
  pub distinct : Distinct scan.seen
  pub inside : All (IsInside prefix) scan.seen
  pub few : length scan.seen ≤ 20000
  pub small : scan.total ≤ 200 * mebibyte

listed-All : (x : Text) (ns : List Text) → listed x ns ≡ false → All (λ n. n ≢ x) ns
unfolding listed
listed-All x [] h = tt
listed-All x (n ∷ ns) h =
    let other : text_eq x n ≡ false = ground (arith, h) in
    let later : listed x ns ≡ false = ground (arith, h) in
    (
      λ e. let same : text_eq x n ≡ true = (text_eq_iff x n).1 (sym e) in cc (other, same),
      listed-All x ns later,
    )

safe-IsInside : (prefix name : Text) → safe prefix name ≡ true → IsInside prefix name
unfolding safe
safe-IsInside prefix name h =
    let start : is_prefix prefix name ≡ true = ground (arith, h) in
    let slash : is_prefix (codes "/") name ≡ false = ground (arith, h) in
    let parent : listed (codes "..") (pieces (codes "/") name) ≡ false = ground (arith, h) in
    let backslash : contains (codes "\\") name ≡ false = ground (arith, h) in
    let colon : contains (codes ":") name ≡ false = ground (arith, h) in
    let (rest, e) = is_prefix_sound prefix name start in
    record {
      rest = rest;
      under = e;
      relative = λ t f.
          let there : is_prefix (codes "/") name ≡ true =
            subst (λ n. is_prefix (codes "/") n ≡ true) (sym f) (is_prefix-append (codes "/") t) in
          cc (slash, there);
      no_parent = listed-All (codes "..") (pieces (codes "/") name) parent;
      no_backslash = contains-IsFree (codes "\\") name backslash;
      no_colon = contains-IsFree (codes ":") name colon;
    }

reviewed-magnitude : (z : ℤ) (n : ℕ) → reviewed z ≡ some n → magnitude z ≡ n
unfolding reviewed magnitude
reviewed-magnitude (pos m) n h = ground (arith, h)
reviewed-magnitude (negsuc m) n h = cc h

from_option-eq-ok : (e : Error) (o : Option ℕ) (n : ℕ) → from_option e o ≡ ok n → o ≡ some n
from_option-eq-ok e none n h = cc h
from_option-eq-ok e (some m) n h = cc h

ok-injective : (a b : Scan) → ok a ≡ ok b → a ≡ b
ok-injective a b h = cc h

add_member-Bounded :
    (name prefix : Text) (scan more : Scan) (entry : Entry)
    → Bounded prefix scan
    → add_member name prefix scan entry ≡ ok more
    → Bounded prefix more
      × (more.seen ≡ entry.name ∷ scan.seen)
      × (more.total ≡ scan.total + magnitude entry.size)
unfolding add_member
add_member-Bounded name prefix scan more entry b h =
    let (p, h1) =
      refuse-eq-ok (listed entry.name scan.seen || not (safe prefix entry.name)) _ _ h in
    let (q, h2) = require-eq-ok (entry.is_file || entry.is_dir) _ _ h1 in
    let (size, r, h3) = >>=-eq-ok (from_option _ (reviewed entry.size)) _ h2 in
    let (s, h4) =
      refuse-eq-ok
        (ltb (200 * mebibyte) (scan.total + size) || ltb 20000 (length (entry.name ∷ scan.seen))) _
        _ h3 in
    let counted =
      reviewed-magnitude entry.size size (from_option-eq-ok _ (reviewed entry.size) size r) in
    let same = ok-injective _ more h4 in
    let names : entry.name ∷ scan.seen ≡ more.seen = ap (λ t. t.seen) same in
    let sum : scan.total + size ≡ more.total = ap (λ t. t.total) same in
    let new : listed entry.name scan.seen ≡ false = ground (arith, p) in
    let good : safe prefix entry.name ≡ true = ground (arith, p) in
    let fits : scan.total + size ≤ 200 * mebibyte = ground (arith, s) in
    let count : length (entry.name ∷ scan.seen) ≤ 20000 = ground (arith, s) in
    (
      record {
        distinct = subst Distinct names (new, b.distinct);
        inside =
            subst (All (IsInside prefix)) names (safe-IsInside prefix entry.name good, b.inside);
        few = subst (λ t. length t ≤ 20000) names count;
        small = subst (λ t. t ≤ 200 * mebibyte) sum fits;
      },
      sym names,
      sym sum ∙ ap (λ k. scan.total + k) (sym counted),
    )

add_members-Bounded :
    (name prefix : Text) (members : List Entry) (scan out : Scan)
    → Bounded prefix scan
    → add_members name prefix scan members ≡ ok out
    → Bounded prefix out
      × (length out.seen ≡ length members + length scan.seen)
      × (out.total ≡ scan.total + unpacked members)
unfolding add_members unpacked length
add_members-Bounded name prefix [] scan out b h =
    let same = ok-injective scan out h in
    (
      subst (Bounded prefix) same b,
      ap (λ t. length t.seen) (sym same) ∙ omega arith,
      ap (λ t. t.total) (sym same) ∙ omega arith,
    )
add_members-Bounded name prefix (entry ∷ members) scan out b h =
    let (more, m, rest) = >>=-eq-ok (add_member name prefix scan entry) _ h in
    let (c, names, sum) = add_member-Bounded name prefix scan more entry b m in
    let (d, count, total) = add_members-Bounded name prefix members more out c rest in
    let step : length more.seen ≡ suc (length scan.seen) = ap length names in
    (d, omega (arith, count, step), omega (arith, total, sum))

-- An archive that passes the scan has at most 20,000 members, no two of one name, each under the
-- crate's own directory with no `..`, backslash or colon in its name; their sizes together are at
-- most 200 MiB, and `total` is that sum.
pub scan_members-Bounded :
    (name version : Text) (members : List Entry) (out : Scan)
    → scan_members name version members ≡ ok out
    → Bounded (name ++ (codes "-" ++ (version ++ codes "/"))) out
      × (length out.seen ≡ length members)
      × (out.total ≡ unpacked members)
unfolding scan_members length
scan_members-Bounded name version members out h =
    let prefix = name ++ (codes "-" ++ (version ++ codes "/")) in
    let empty : Bounded prefix start = record {
      distinct = tt;
      inside = tt;
      few = omega arith;
      small = omega arith;
    } in
    let (b, count, total) = add_members-Bounded name prefix members start out empty h in
    (b, omega (arith, count), omega (arith, total))
