-- ===== src/Text/Utf8.antt =====
-- `bytes.decode('utf-8')` and `str.encode('utf-8')`, strict.
use capybaragram_build.Prelude.{
  ℕ, zero, suc, ◌+◌, ◌-◌, ◌*◌, ◌/◌, ◌%◌, not, ◌&&◌, [], ◌∷◌, ◌++◌, ltb, leb, if◌then◌else◌, Result,
  ok, err, unicode_error, ◌>>=◌,
}
use capybaragram_build.Text.{Text}

-- The bytes of a code point; a surrogate has none.
unfoldable pub encode_char : ℕ → Result Text
encode_char c =
    if ltb c 0x80
    then ok (c ∷ [])
    else if ltb c 0x800
    then ok ((0xC0 + c / 64) ∷ (0x80 + c % 64) ∷ [])
    else if leb 0xD800 c && leb c 0xDFFF
    then err unicode_error
    else if ltb c 0x10000
    then ok ((0xE0 + c / 4096) ∷ (0x80 + c / 64 % 64) ∷ (0x80 + c % 64) ∷ [])
    else ok
        ((0xF0 + c / 262144) ∷ (0x80 + c / 4096 % 64) ∷ (0x80 + c / 64 % 64) ∷ (0x80 + c % 64) ∷ [])

unfoldable pub encode : Text → Result Text
unfolding encode_char
encode [] = ok []
encode (c ∷ cs) = let rest = encode cs in do bytes ← encode_char c; tail ← rest; ok (bytes ++ tail)

-- Between code points, or inside one: the continuation bytes that are due, the value so far, and
-- the least and the greatest value that the next byte may have.
pub data Mode : Type 0 where
  start : Mode
  inside : ℕ → ℕ → ℕ → ℕ → Mode

-- A byte gives the next mode and the code point that it completes.
unfoldable pub lead : ℕ → Result (Mode × Text)
lead b =
    if ltb b 0x80
    then ok (start, b ∷ [])
    else if ltb b 0xC2
    then err unicode_error
    else if ltb b 0xE0
    then ok (inside 0 (b - 0xC0) 0x80 0xBF, [])
    else if ltb b 0xF0
    then ok (
      inside 1 (b - 0xE0) (if leb b 0xE0 then 0xA0 else 0x80)
          (if leb b 0xED && leb 0xED b then 0x9F else 0xBF),
      [],
    )
    else if ltb b 0xF5
    then ok (
      inside 2 (b - 0xF0) (if leb b 0xF0 then 0x90 else 0x80) (if leb 0xF4 b then 0x8F else 0xBF),
      [],
    )
    else err unicode_error

unfoldable pub advance : Mode → ℕ → Result (Mode × Text)
unfolding lead
advance start b = lead b
advance (inside due value low high) b =
    if not (leb low b && leb b high) then err unicode_error else elim due [
      | zero ↦ ok (start, (value * 64 + (b - 0x80)) ∷ [])
      | suc n ↦ ok (inside n (value * 64 + (b - 0x80)) 0x80 0xBF, [])
    ]

unfoldable pub decode_from : Mode → Text → Result Text
unfolding advance
decode_from start [] = ok []
decode_from (inside due value low high) [] = err unicode_error
decode_from mode (b ∷ bs) = elim (advance mode b) [
  | err e ↦ err e
  | ok (mode', out) ↦ elim (decode_from mode' bs) [ err e ↦ err e | ok t ↦ ok (out ++ t) ]
]

unfoldable pub decode : Text → Result Text
unfolding decode_from
decode bytes = decode_from start bytes
