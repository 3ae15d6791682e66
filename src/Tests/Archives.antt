-- ===== src/Tests/Archives.antt =====
-- The theorems on the dependency graph, on archive members and on the hosts' plan at concrete inputs.
use capybaragram_build.Prelude.{true, false, List, [], ◌∷◌, ◌≡◌, ◌⊎◌, ◌↔◌, refl, length, ok, err}
use capybaragram_build.Text.{Text, codes, is_prefix, pieces_from, text_eq, listed, find, contains}
use capybaragram_build.Inventory
use capybaragram_build.Inventory.{
  Node, Dep, Kind, normal, build, dev, deps_of, selected_deps, push_all, edges, reach, reached_from,
}
use capybaragram_build.Inventory.Reached.{Needs, reached_from_iff}
use capybaragram_build.Inventory.Members.{
  Entry, Scan, pos, safe, reviewed, add_member, add_members, scan_members,
}
use capybaragram_build.Inventory.Members.Bounded.{Bounded, unpacked, scan_members-Bounded}
use capybaragram_build.Inventory.Fuel.{reached_from-Ends}

-- `core` uses `tls` and, to build, `cc`; the tests of `tls` use `probe`.
abbrev graph : List Node
graph =
    record {
      id = codes "core";
      deps =
          record { pkg = codes "tls"; dep_kinds = normal ∷ [] }
          ∷ record { pkg = codes "cc"; dep_kinds = build ∷ [] }
          ∷ [];
    }
    ∷ record { id = codes "tls"; deps = record { pkg = codes "probe"; dep_kinds = dev ∷ [] } ∷ [] }
    ∷ record { id = codes "cc"; deps = [] }
    ∷ record { id = codes "probe"; deps = [] }
    ∷ []

abbrev found : List Text
found = codes "tls" ∷ codes "cc" ∷ codes "core" ∷ []

reached_from_iff_example :
    (listed (codes "probe") found ≡ true) ↔ Needs graph (codes "core") (codes "probe")
unfolding reached_from reach edges selected_deps deps_of push_all listed text_eq
reached_from_iff_example = reached_from_iff graph (codes "core") (codes "probe") found refl

reached_from-Ends_example :
    ((out : List Text) × (reached_from graph (codes "probe") ≡ ok out))
    ⊎ (reached_from graph (codes "probe") ≡ err Inventory.missing)
reached_from-Ends_example = reached_from-Ends graph (codes "probe")

abbrev members : List Entry
members =
    record { name = codes "a-1/src"; is_file = false; is_dir = true; size = pos 0 }
    ∷ record { name = codes "a-1/LICENSE"; is_file = true; is_dir = false; size = pos 7 }
    ∷ []

abbrev scanned : Scan
scanned = record {
  seen = codes "a-1/LICENSE" ∷ codes "a-1/src" ∷ [];
  files =
      (
        codes "LICENSE",
        record { name = codes "a-1/LICENSE"; is_file = true; is_dir = false; size = pos 7 },
      )
      ∷ [];
  total = 7;
}

scan_members-Bounded_example :
    Bounded (codes "a-1/") scanned
    × (length scanned.seen ≡ length members)
    × (scanned.total ≡ unpacked members)
unfolding is_prefix pieces_from find contains listed text_eq safe reviewed add_member add_members
    scan_members
scan_members-Bounded_example = scan_members-Bounded (codes "a") (codes "1") members scanned refl
