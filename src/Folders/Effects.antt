-- ===== src/Folders/Effects.antt =====
-- What the transformations of ci/folders/prepare_windows_*.py and prepare_android_folders.py do to a file
-- that they accept: nothing that they put in is taken out again by a later edit of the same script.
use capybaragram_build.Prelude.{
  Result, true, List, All, ◌≡◌, inl, inr, refl, Bool-cases, arith, ok, if◌then◌else◌,
}
use capybaragram_build.Text.{Text, text_eq, listed, is_prefix, codes, block}
use capybaragram_build.Text.Occurs.{Occurs}
use capybaragram_build.Patch.{Edit}
use capybaragram_build.Patch.Settled.{installs, apply-Occurs}
use capybaragram_build.Folders.Reconcile
use capybaragram_build.Folders.Mutations
use capybaragram_build.Folders.Bulk
use capybaragram_build.Folders.WindowsFolders
use capybaragram_build.Folders.AndroidFolders

reconcile_installs :
    (installs Reconcile.box_edits ≡ true)
    × (installs Reconcile.header_edits ≡ true)
    × (installs Reconcile.data_edits ≡ true)
unfolding installs Reconcile.box_edits Reconcile.header_edits Reconcile.data_edits
reconcile_installs = (refl, refl, refl)

-- The edits of one of the three files.
pub reconcile_edits : Text → List Edit
reconcile_edits name =
    if text_eq name Reconcile.box_file
    then Reconcile.box_edits
    else if text_eq name Reconcile.header_file
    then Reconcile.header_edits
    else Reconcile.data_edits

-- If the reconcile script accepts a file, the file is one of its three, and every replacement
-- text of that file's edits stands in the result.
reconcile-Occurs :
    (name text out : Text)
    → Reconcile.transform name text ≡ ok out
    → (listed name Reconcile.files ≡ true) × All (λ e. Occurs e.new out) (reconcile_edits name)
unfolding Reconcile.transform Reconcile.once reconcile_edits listed
reconcile-Occurs name text out h =
    let (box, header, other) = reconcile_installs in
    elim (Bool-cases (text_eq name Reconcile.box_file)) [
      | inl e ↦ (
        ground (arith, e),
        rw (e) (apply-Occurs _ Reconcile.box_edits text out box (rw (e) at h)),
      )
      | inr e ↦ elim (Bool-cases (text_eq name Reconcile.header_file)) [
        | inl f ↦ (
          ground (arith, e, f),
          rw (e, f) (apply-Occurs _ Reconcile.header_edits text out header (rw (e, f) at h)),
        )
        | inr f ↦ elim (Bool-cases (text_eq name Reconcile.data_file)) [
          | inl g ↦ (
            ground (arith, e, f, g),
            rw (e, f) (apply-Occurs _ Reconcile.data_edits text out other (rw (e, f, g) at h)),
          )
          | inr g ↦ ground (arith, rw (e, f, g) at h)
        ]
      ]
    ]

mutation_installs : (installs Mutations.box_edits ≡ true) × (installs Mutations.api_edits ≡ true)
unfolding installs Mutations.box_edits Mutations.api_edits capybaragram_build.Text.pieces_from
mutation_installs = (refl, refl)

-- The edits of one of the two files.
pub mutation_edits : Text → List Edit
mutation_edits name =
    if text_eq name Mutations.edit_box then Mutations.box_edits else Mutations.api_edits

-- If the mutations script accepts a file, the file is one of its two, and every replacement text of
-- that file's edits stands in the result.
mutations-Occurs :
    (name text out : Text)
    → Mutations.transform name text ≡ ok out
    → (listed name Mutations.files ≡ true) × All (λ e. Occurs e.new out) (mutation_edits name)
unfolding Mutations.transform Mutations.once mutation_edits listed
mutations-Occurs name text out h =
    let (box, api) = mutation_installs in
    elim (Bool-cases (text_eq name Mutations.edit_box)) [
      | inl e ↦ (
        ground (arith, e),
        rw (e) (apply-Occurs _ Mutations.box_edits text out box (rw (e) at h)),
      )
      | inr e ↦ elim (Bool-cases (text_eq name Mutations.api_filters)) [
        | inl f ↦ (
          ground (arith, e, f),
          rw (e) (apply-Occurs _ Mutations.api_edits text out api (rw (e, f) at h)),
        )
        | inr f ↦ ground (arith, rw (e, f) at h)
      ]
    ]

single_installs :
    (installs Bulk.edits ≡ true)
    × (installs WindowsFolders.edits ≡ true)
    × (installs AndroidFolders.edits ≡ true)
unfolding installs Bulk.edits WindowsFolders.edits AndroidFolders.edits
single_installs = (refl, refl, refl)

-- If the bulk script accepts the file, every replacement text stands in the result.
bulk-Occurs :
    (text out : Text) → Bulk.transform text ≡ ok out → All (λ e. Occurs e.new out) Bulk.edits
unfolding Bulk.transform Bulk.once
bulk-Occurs text out h = apply-Occurs _ Bulk.edits text out single_installs.0 h

-- If the script for the native Windows folders accepts the file, every replacement text stands in the result.
windows-Occurs :
    (text out : Text)
    → WindowsFolders.transform text ≡ ok out
    → All (λ e. Occurs e.new out) WindowsFolders.edits
unfolding WindowsFolders.transform WindowsFolders.once
windows-Occurs text out h = apply-Occurs _ WindowsFolders.edits text out single_installs.1 h

-- If the script for the Android folder editor accepts the file, every replacement text stands in the result.
android-Occurs :
    (text out : Text)
    → AndroidFolders.transform text ≡ ok out
    → All (λ e. Occurs e.new out) AndroidFolders.edits
unfolding AndroidFolders.transform AndroidFolders.once
android-Occurs text out h = apply-Occurs _ AndroidFolders.edits text out single_installs.2 h

-- The scripts that edit one file.
pub data OneFile : Type 0 where
  bulk windows android : OneFile

unfoldable pub one_transform : OneFile → Text → Result Text
one_transform bulk = Bulk.transform
one_transform windows = WindowsFolders.transform
one_transform android = AndroidFolders.transform

unfoldable pub one_edits : OneFile → List Edit
one_edits bulk = Bulk.edits
one_edits windows = WindowsFolders.edits
one_edits android = AndroidFolders.edits

-- If one of the three folder scripts for a single file accepts it, every replacement text of the script
-- stands in the result.
pub one_file-Occurs :
    (script : OneFile) (text out : Text)
    → one_transform script text ≡ ok out
    → All (λ e. Occurs e.new out) (one_edits script)
unfolding one_transform one_edits
one_file-Occurs bulk text out h = bulk-Occurs text out h
one_file-Occurs windows text out h = windows-Occurs text out h
one_file-Occurs android text out h = android-Occurs text out h

-- The scripts that edit several files.
pub data SeveralFiles : Type 0 where
  reconcile mutations : SeveralFiles

unfoldable pub several_transform : SeveralFiles → Text → Text → Result Text
several_transform reconcile = Reconcile.transform
several_transform mutations = Mutations.transform

unfoldable pub several_files : SeveralFiles → List Text
several_files reconcile = Reconcile.files
several_files mutations = Mutations.files

unfoldable pub several_edits : SeveralFiles → Text → List Edit
several_edits reconcile = reconcile_edits
several_edits mutations = mutation_edits

-- If one of the two folder scripts for several files accepts a file, the file is one of the script's, and
-- every replacement text of that file's edits stands in the result.
pub several_files-Occurs :
    (script : SeveralFiles) (name text out : Text)
    → several_transform script name text ≡ ok out
    → (listed name (several_files script) ≡ true)
      × All (λ e. Occurs e.new out) (several_edits script name)
unfolding several_transform several_files several_edits
several_files-Occurs reconcile name text out h = reconcile-Occurs name text out h
several_files-Occurs mutations name text out h = mutations-Occurs name text out h
