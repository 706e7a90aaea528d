-- ===== src/Quarantine/Texts.antt =====
-- The texts of src/domain/ingestion/quarantine.py and src/infrastructure/ingestion/quarantine_repository.py:
-- `strip`, `upper`, `lower`, slices and searches. A text read letter by letter is its list of code points;
-- the change of case is that of the ASCII letters, which the names in the source are written with.
use Prim.Native.Char.{code}
use Prim.Native.String as Native
use reconciliation_ingestion.Prelude.{
  ℕ, zero, suc, ◌+◌, ◌-◌, ◌≤◌, String, Bool, true, false, ◌&&◌, ◌||◌, List, [], ◌∷◌, any,
  if◌then◌else◌, leb, ◌==◌, arith,
}

-- The code points of a text.
abbrev pub codes : String → List ℕ
codes Native.[] = []
codes (Native.◌∷◌ c s) = code c ∷ codes s

-- `str.isspace` of one character.
unfoldable is_space : ℕ → Bool
is_space c =
    (leb 9 c && leb c 13)
    || ((leb 28 c && leb c 32)
        || ((leb 8192 c && leb c 8202)
            || any (λ x. c == x) (133 ∷ 160 ∷ 5760 ∷ 8232 ∷ 8233 ∷ 8239 ∷ 8287 ∷ 12288 ∷ [])))

unfoldable lstrip : String → String
unfolding is_space
lstrip Native.[] = Native.[]
lstrip (Native.◌∷◌ c s) = let rest = lstrip s in if is_space (code c) then rest else Native.◌∷◌ c s

abbrev is_empty : String → Bool
is_empty Native.[] = true
is_empty (Native.◌∷◌ c s) = false

unfoldable rstrip : String → String
unfolding is_space
rstrip Native.[] = Native.[]
rstrip (Native.◌∷◌ c s) =
    let rest = rstrip s in
    if is_empty rest && is_space (code c) then Native.[] else Native.◌∷◌ c rest

-- `text.strip()`
unfoldable pub strip : String → String
unfolding lstrip rstrip
strip s = rstrip (lstrip s)

-- The number of characters, `len(text)`.
abbrev pub text_length : String → ℕ
text_length Native.[] = 0
text_length (Native.◌∷◌ c s) = suc (text_length s)

-- `text[:n]`
abbrev pub first_chars : ℕ → String → String
first_chars zero s = Native.[]
first_chars (suc n) Native.[] = Native.[]
first_chars (suc n) (Native.◌∷◌ c s) = Native.◌∷◌ c (first_chars n s)

unfoldable pub to_upper : ℕ → ℕ
to_upper c = if leb 97 c && leb c 122 then c - 32 else c

unfoldable pub to_lower : ℕ → ℕ
to_lower c = if leb 65 c && leb c 90 then c + 32 else c

-- `str.isalnum` of one lower-case ASCII character; no letter or digit outside ASCII is kept.
unfoldable pub is_alnum : ℕ → Bool
is_alnum c = (leb 97 c && leb c 122) || (leb 48 c && leb c 57)

abbrev pub same_codes : List ℕ → List ℕ → Bool
same_codes [] [] = true
same_codes (a ∷ xs) (b ∷ ys) = a == b && same_codes xs ys
same_codes _ _ = false

abbrev pub starts_with_codes : List ℕ → List ℕ → Bool
starts_with_codes [] s = true
starts_with_codes (t ∷ ts) [] = false
starts_with_codes (t ∷ ts) (c ∷ s) = t == c && starts_with_codes ts s

-- `token in text`
abbrev pub contains_codes : List ℕ → List ℕ → Bool
contains_codes t [] = starts_with_codes t []
contains_codes t (c ∷ s) = starts_with_codes t (c ∷ s) || contains_codes t s

pub first_chars-bound : (n : ℕ) (s : String) → text_length (first_chars n s) ≤ n
first_chars-bound zero s = omega arith
first_chars-bound (suc n) Native.[] = omega arith
first_chars-bound (suc n) (Native.◌∷◌ c s) = omega (arith, first_chars-bound n s)
