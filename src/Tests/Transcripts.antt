-- ===== src/Tests/Transcripts.antt =====
-- The theorems on the scoring of transcripts at concrete texts.
use capybaragram_build.Prelude.{
  some, true, ℕ, ◌≤◌, ◌&&◌, Bool, leb, List, [], ◌∷◌, All, ◌≡◌, ◌↔◌, ◌-◌, length, max, refl,
}
use mathlib.Core.List.{reverse}
use capybaragram_build.Text.{Text, codes, is_prefix, pieces_from, replace_all, join, text_eq}
use capybaragram_build.Text.Lines.{is_space}
use capybaragram_build.Speech.Lifecycle
use capybaragram_build.Speech.Lifecycle.{Library}
use capybaragram_build.Speech.Lifecycle.Freed.{Leads, idle, run-Leads}
use capybaragram_build.Speech.{cost, edit_count}
use capybaragram_build.Speech.Alignments.{
  Alignment, edit_count_minimal, edit_count_zero, edit_count_bounds,
}
use capybaragram_build.Speech.Distance.{distance, edit_count-eq-distance}
use capybaragram_build.Speech.Words.{IsWord, Kept, keep, words, fields, add_char, words-IsWord}

abbrev reference : List Text
reference = codes "добрый" ∷ codes "день" ∷ []

abbrev heard : List Text
heard = codes "день" ∷ []

one_removed : Alignment reference heard 1
unfolding cost text_eq
one_removed =
    Alignment.remove (codes "добрый")
      (Alignment.exchange (codes "день") (codes "день") Alignment.start refl) refl

edit_count_minimal_example :
    Alignment reference heard (edit_count reference heard)
    × ((n : ℕ) → Alignment reference heard n → edit_count reference heard ≤ n)
edit_count_minimal_example = edit_count_minimal reference heard

edit_count-eq-distance_example :
    edit_count reference heard ≡ distance (reverse reference) (reverse heard)
edit_count-eq-distance_example = edit_count-eq-distance reference heard

edit_count_zero_example : (edit_count reference heard ≡ 0) ↔ (reference ≡ heard)
edit_count_zero_example = edit_count_zero reference heard

edit_count_bounds_example :
    (length reference - length heard ≤ edit_count reference heard)
    × (length heard - length reference ≤ edit_count reference heard)
    × (edit_count reference heard ≤ max (length reference) (length heard))
edit_count_bounds_example = edit_count_bounds reference heard

abbrev is_letter : ℕ → Bool
is_letter c = leb 0x430 c && leb c 0x44F

abbrev is_number : ℕ → Bool
is_number c = leb 48 c && leb c 57

words-IsWord_example : All (IsWord (Kept is_letter is_number)) (codes "еж" ∷ codes "7" ∷ [])
unfolding is_prefix pieces_from replace_all join is_space keep words fields add_char
words-IsWord_example =
    words-IsWord (λ text. text) is_letter is_number (codes "ёж, 7!") (codes "еж" ∷ codes "7" ∷ [])
      refl

-- A library that loads every model, hears nothing, and writes every report.
abbrev library : Library
library = record {
  load = λ t. some 1;
  make = λ t. some 2;
  status = λ t. 0;
  answer = λ t. some [];
  parse = λ text. some text;
  words = λ text. some [];
  writes = λ t. true;
}

run-Leads_example : Leads (Lifecycle.run library [] (1 ∷ 2 ∷ []) []).1 idle
run-Leads_example = run-Leads library (λ t. refl) [] (1 ∷ 2 ∷ [])
