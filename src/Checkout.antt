-- ===== src/Checkout.antt =====
-- A source checkout as the preparation scripts see it through `pathlib`, and its git metadata.
-- Paths are relative to the root; the contents of files are bytes. The file system itself is not
-- part of the repository: what it answers is a field here.
use capybaragram_build.Prelude.{
  Bool, true, false, List, [], ◌∷◌, Option, some, if◌then◌else◌, Error, Result, ok, err, os_error,
  key_error, ◌>>=◌, require, from_option,
}
use capybaragram_build.Text.{Text, text_eq}

pub record Checkout : Type 0 where
  -- `(root / name).is_symlink()`
  pub symlink : Text → Bool
  -- `(root / name).resolve(strict=True).is_relative_to(root)`; an error if the path is not there
  pub inside : Text → Result Bool
  -- `(root / name).resolve().is_relative_to(root)`, of a path that need not be there
  pub within : Text → Bool
  -- the bytes of the file at this path
  pub file : Text → Option Text
  -- whether what stands at this path is no file, but a directory, say
  pub other : Text → Bool
  -- `git rev-parse HEAD`, stripped
  pub head : Text
  -- `git show HEAD:name`
  pub committed : Text → Result Text

-- `path.read_bytes()`
unfoldable pub read_bytes : Checkout → Text → Result Text
read_bytes c name = from_option os_error (c.file name)

-- `path.write_bytes(raw)`
unfoldable pub write_bytes : Checkout → Text → Text → Checkout
unfolding text_eq
write_bytes c name raw = record c { file = λ n. if text_eq name n then some raw else c.file n }

-- `for name, raw in prepared.items(): (root / name).write_bytes(raw)`
unfoldable pub write_all : Checkout → List (Text × Text) → Checkout
write_all c [] = c
write_all c ((name, raw) ∷ rest) = write_all (write_bytes c name raw) rest

-- `if path.is_symlink() or not path.resolve(strict=True).is_relative_to(root): raise e`
unfoldable pub regular : Checkout → Text → Error → Result (Unit {0})
regular c name e = if c.symlink name then err e else do inside ← c.inside name; require inside e

-- `table[name]`
unfoldable pub lookup : Text → List (Text × Text) → Result Text
unfolding text_eq
lookup name [] = err key_error
lookup name ((n, v) ∷ rest) = elim (text_eq n name) [ true ↦ ok v | false ↦ lookup name rest ]
