-- ===== src/Quarantine/Redaction.antt =====
-- What `sanitize_raw_row` and `_bounded_metadata` let through: src/domain/ingestion/quarantine.py and
-- src/infrastructure/ingestion/quarantine_repository.py.
use Prim.Native.String as Native
use Prim.Native.String.{◌++◌}
use text.Mathlib.TextLemmas.{nil-append, cons-append}
use reconciliation_ingestion.Prelude.{
  ℕ, ◌+◌, ◌≤◌, String, Bool, true, false, ltb, ◌≡◌, refl, ◌⊎◌, inl, inr, arith, Bool-cases,
  if◌then◌else◌, ap, sym, ◌∙◌,
}
use mathlib.Core.Bool.{true≢false}
use reconciliation_ingestion.Quarantine.Secrets.{NamesSecret, is_secret-NamesSecret}
use reconciliation_ingestion.Quarantine.Texts.{text_length, first_chars, first_chars-bound}
use reconciliation_ingestion.Quarantine.Values.{
  Value, Items, Entries, null, boolean, integer, instant, float, string, other, array, object,
  no_items, item, no_entries, entry, is_secret, redacted, cut_text, sanitize_raw_row,
  sanitize_items, sanitize_entries, is_forbidden, bounded_entry, bounded_metadata,
}

-- Every text is cut, and every entry whose key names a secret is masked.
unfoldable mutual
  pub IsClean : ℕ → Value → Type 0
  IsClean n null = Unit {0}
  IsClean n (boolean b) = Unit {0}
  IsClean n (integer i) = Unit {0}
  IsClean n (instant t) = Unit {0}
  IsClean n (float f) = Unit {0}
  IsClean n (string s) = text_length s ≤ n + 3
  IsClean n (other s) = Unit {0}
  IsClean n (array xs) = AreClean n xs
  IsClean n (object es) = AreMasked n es

  AreClean : ℕ → Items → Type 0
  AreClean n no_items = Unit {0}
  AreClean n (item v xs) = IsClean n v × AreClean n xs

  AreMasked : ℕ → Entries → Type 0
  AreMasked n no_entries = Unit {0}
  AreMasked n (entry k v es) =
      ((¬ (NamesSecret k) × IsClean n v) ⊎ (v ≡ string redacted)) × AreMasked n es

text_length-append : (s t : String) → text_length (s ++ t) ≡ text_length s + text_length t
text_length-append Native.[] t = omega (arith, ap text_length (nil-append t))
text_length-append (Native.◌∷◌ c s) t =
    omega (arith, text_length-append s t, ap text_length (cons-append c s t))

cut_text-bound : (n : ℕ) (s : String) → text_length (cut_text n s) ≤ n + 3
unfolding cut_text
cut_text-bound n s = elim (Bool-cases (ltb n (text_length s))) [
  | inl e ↦ rw e (omega (arith, text_length-append (first_chars n s) "...", first_chars-bound n s))
  | inr e ↦ rw e (ground arith)
]

masked_entry :
    (n : ℕ) (k : String) (v : Value)
    → IsClean n v
    → (b : Bool) → is_secret k ≡ b
    → (¬ (NamesSecret k) × IsClean n (if b then string redacted else v))
      ⊎ ((if b then string redacted else v) ≡ string redacted)
masked_entry n k v h true e = inr refl
masked_entry n k v h false e =
    inl (λ named. true≢false (sym (is_secret-NamesSecret k named) ∙ e), h)

mutual
  unfolding IsClean AreClean AreMasked sanitize_raw_row sanitize_items sanitize_entries

  IsClean-row : (n : ℕ) (v : Value) → IsClean n (sanitize_raw_row n v)
  IsClean-row n null = tt
  IsClean-row n (boolean b) = tt
  IsClean-row n (integer i) = tt
  IsClean-row n (instant t) = tt
  IsClean-row n (float f) = tt
  IsClean-row n (string s) = cut_text-bound n s
  IsClean-row n (other s) = tt
  IsClean-row n (array xs) = AreClean-items n xs
  IsClean-row n (object es) = AreMasked-entries n es

  AreClean-items : (n : ℕ) (xs : Items) → AreClean n (sanitize_items n xs)
  AreClean-items n no_items = tt
  AreClean-items n (item v xs) = (IsClean-row n v, AreClean-items n xs)

  AreMasked-entries : (n : ℕ) (es : Entries) → AreMasked n (sanitize_entries n es)
  AreMasked-entries n no_entries = tt
  AreMasked-entries n (entry k v es) = (
    masked_entry n k (sanitize_raw_row n v) (IsClean-row n v) (is_secret k) refl,
    AreMasked-entries n es,
  )

-- No secret survives: in the cleaned row, however deeply it is nested, every entry whose key has one of the seven words
-- for a secret in it, in either case and with spaces or punctuation of ASCII in between, holds the mask alone, and
-- every other text is at most three characters longer than the limit.
pub row_is_redacted : (n : ℕ) (row : Value) → IsClean n (sanitize_raw_row n row)
row_is_redacted = IsClean-row

-- The values that `_bounded_metadata` keeps.
abbrev IsScalar : Value → Type 0
IsScalar null = Unit {0}
IsScalar (boolean b) = Unit {0}
IsScalar (integer i) = Unit {0}
IsScalar (float f) = Unit {0}
IsScalar (string s) = text_length s ≤ 512
IsScalar _ = ⊥

abbrev pub AreBounded : Entries → Type 0
AreBounded no_entries = Unit {0}
AreBounded (entry k v es) = (is_forbidden k ≡ false) × (IsScalar v × AreBounded es)

bounded_entry-AreBounded :
    (k : String) (v : Value) (es : Entries)
    → is_forbidden k ≡ false
    → AreBounded es
    → AreBounded (bounded_entry k v es)
bounded_entry-AreBounded k null es p h = (p, (tt, h))
bounded_entry-AreBounded k (boolean b) es p h = (p, (tt, h))
bounded_entry-AreBounded k (integer i) es p h = (p, (tt, h))
bounded_entry-AreBounded k (float f) es p h = (p, (tt, h))
bounded_entry-AreBounded k (string s) es p h = (p, (first_chars-bound 512 s, h))
bounded_entry-AreBounded k (instant t) es p h = h
bounded_entry-AreBounded k (other s) es p h = h
bounded_entry-AreBounded k (array xs) es p h = h
bounded_entry-AreBounded k (object fs) es p h = h

-- The metadata of an event is bounded: none of its keys is one that the filter forbids, and each of its values
-- is a scalar, a text of at most 512 characters if it is a text.
pub metadata_is_bounded : (es : Entries) → AreBounded (bounded_metadata es)
unfolding bounded_metadata
metadata_is_bounded no_entries = tt
metadata_is_bounded (entry k v es) = elim (Bool-cases (is_forbidden k)) [
  | inl e ↦ rw e (metadata_is_bounded es)
  | inr e ↦ rw e (bounded_entry-AreBounded k v (bounded_metadata es) e (metadata_is_bounded es))
]
