-- ===== src/Quarantine/Values.antt =====
-- `sanitize_raw_row` of src/domain/ingestion/quarantine.py and `_bounded_metadata` of
-- src/infrastructure/ingestion/quarantine_repository.py, on the values of Python that they tell apart.
use Prim.Native.String.{◌++◌}
use reconciliation_ingestion.Prelude.{
  ℕ, String, Bool, ◌&&◌, ◌||◌, not, List, [], ◌∷◌, map, any, ltb, if◌then◌else◌,
}
use reconciliation_ingestion.Quarantine.Texts.{
  codes, to_lower, is_alnum, contains_codes, starts_with_codes, same_codes, text_length,
  first_chars,
}

-- A `float` is held by its text, an `instant` is a `datetime`; `other` is a value of any further type.
mutual
  pub data Value : Type 0 where
    null : Value
    boolean : Bool → Value
    integer instant : ℕ → Value
    float string other : String → Value
    array : Items → Value
    object : Entries → Value

  pub data Items : Type 0 where
    no_items : Items
    item : Value → Items → Items

  -- The keys and values of a dictionary, in its order; a key by its text.
  pub data Entries : Type 0 where
    no_entries : Entries
    entry : String → Value → Entries → Entries

abbrev pub keep_alnum : List ℕ → List ℕ
keep_alnum [] = []
keep_alnum (c ∷ s) = let rest = keep_alnum s in if is_alnum c then c ∷ rest else rest

-- `"".join(character for character in key_text.lower() if character.isalnum())`
unfoldable pub normalized_key : String → List ℕ
unfolding to_lower is_alnum
normalized_key k = keep_alnum (map to_lower (codes k))

abbrev pub secret_tokens : List String
secret_tokens =
    "password" ∷ "secret" ∷ "token" ∷ "apikey" ∷ "authorization" ∷ "credential" ∷ "fingerprint" ∷ []

-- The key of a field that `sanitize_raw_row` masks.
unfoldable pub is_secret : String → Bool
unfolding normalized_key
is_secret k = any (λ t. contains_codes (codes t) (normalized_key k)) secret_tokens

abbrev pub redacted : String
redacted = "[REDACTED]"

-- The text of a value: cut, and marked as cut, where it is longer than `max_length`.
unfoldable pub cut_text : ℕ → String → String
cut_text max_length s =
    if ltb max_length (text_length s) then first_chars max_length s ++ "..." else s

unfoldable mutual
  unfolding is_secret cut_text

  pub sanitize_raw_row : ℕ → Value → Value
  sanitize_raw_row max_length null = null
  sanitize_raw_row max_length (boolean b) = boolean b
  sanitize_raw_row max_length (integer n) = integer n
  sanitize_raw_row max_length (float n) = float n
  sanitize_raw_row max_length (instant t) = instant t
  sanitize_raw_row max_length (string s) = string (cut_text max_length s)
  sanitize_raw_row max_length (other s) = other s
  sanitize_raw_row max_length (array xs) = array (sanitize_items max_length xs)
  sanitize_raw_row max_length (object es) = object (sanitize_entries max_length es)

  pub sanitize_items : ℕ → Items → Items
  sanitize_items max_length no_items = no_items
  sanitize_items max_length (item v xs) =
      item (sanitize_raw_row max_length v) (sanitize_items max_length xs)

  pub sanitize_entries : ℕ → Entries → Entries
  sanitize_entries max_length no_entries = no_entries
  sanitize_entries max_length (entry k v es) =
      let clean = sanitize_raw_row max_length v in
      let rest = sanitize_entries max_length es in
      entry k (if is_secret k then string redacted else clean) rest

abbrev forbidden_tokens : List String
forbidden_tokens = "raw" ∷ "fingerprint" ∷ "password" ∷ "secret" ∷ "token" ∷ "credential" ∷ []

abbrev forbidden_keys : List String
forbidden_keys = "error" ∷ "exception" ∷ "trace" ∷ "stacktrace" ∷ "traceback" ∷ "authorization" ∷ []

-- The test of `_bounded_metadata`, on the normalized key.
abbrev is_forbidden_key : List ℕ → Bool
is_forbidden_key k =
    any (λ t. contains_codes (codes t) k) forbidden_tokens
    || (any (λ t. same_codes k (codes t)) forbidden_keys
        || ((starts_with_codes (codes "error") k && not (same_codes k (codes "errorcode")))
            || (starts_with_codes (codes "api") k || starts_with_codes (codes "auth") k)))

unfoldable pub is_forbidden : String → Bool
unfolding normalized_key
is_forbidden k = is_forbidden_key (normalized_key k)

-- What `_bounded_metadata` does with one permitted entry.
abbrev pub bounded_entry : String → Value → Entries → Entries
bounded_entry k null rest = entry k null rest
bounded_entry k (boolean b) rest = entry k (boolean b) rest
bounded_entry k (integer n) rest = entry k (integer n) rest
bounded_entry k (float n) rest = entry k (float n) rest
bounded_entry k (string s) rest = entry k (string (first_chars 512 s)) rest
bounded_entry k _ rest = rest

-- `_bounded_metadata`
unfoldable pub bounded_metadata : Entries → Entries
unfolding is_forbidden
bounded_metadata no_entries = no_entries
bounded_metadata (entry k v es) =
    let rest = bounded_metadata es in if is_forbidden k then rest else bounded_entry k v rest
