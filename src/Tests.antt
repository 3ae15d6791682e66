-- ===== src/Tests.antt =====
-- The theorems at concrete inputs.
pub mod Manifests
pub mod Patches
pub mod Plans
pub mod Scripts
pub mod Archives
pub mod Accounts
pub mod Secrets
pub mod Transcripts
pub mod Trees
pub mod Phones
use capybaragram_build.Prelude.{Result, ok, err, ℕ, zero, suc, List, [], ◌∷◌, ◌++◌}
use capybaragram_build.Text.{Text}
use capybaragram_build.Patch.{Edit}

-- The text of a result.
abbrev pub value_of : Result Text → Text
value_of (ok text) = text
value_of (err e) = []

-- A text with every anchor of the edits as often as it must occur, a line each.
abbrev pub repeated : ℕ → Text → Text
repeated zero text = []
repeated (suc n) text = text ++ 10 ∷ repeated n text

abbrev pub anchors : List Edit → Text
anchors [] = []
anchors (e ∷ es) = repeated e.times e.old ++ anchors es
