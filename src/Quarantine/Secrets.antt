-- ===== src/Quarantine/Secrets.antt =====
-- The names of secrets that `sanitize_raw_row` of src/domain/ingestion/quarantine.py finds in a key.
use mathlib.Core.Option.{some_inj}
use reconciliation_ingestion.Prelude.{
  ℕ, ◌+◌, ◌≤◌, ◌<◌, String, Bool, true, false, ◌||◌, List, [], ◌∷◌, ◌==◌, any, map, ◌≡◌, refl, zero,
  suc, get_elem?, some, inl, inr, arith, Bool-cases,
}
use reconciliation_ingestion.Quarantine.Texts.{
  codes, to_lower, is_alnum, starts_with_codes, contains_codes,
}
use reconciliation_ingestion.Quarantine.Values.{
  keep_alnum, normalized_key, secret_tokens, is_secret,
}

-- The words that name a secret.
pub data SecretWord : Type 0 where
  password secret token api_key authorization credential fingerprint : SecretWord

abbrev pub word_text : SecretWord → String
word_text password = "password"
word_text secret = "secret"
word_text token = "token"
word_text api_key = "apikey"
word_text authorization = "authorization"
word_text credential = "credential"
word_text fingerprint = "fingerprint"

-- The spaces and the punctuation of ASCII.
pub data IsSeparator (c : ℕ) : Type 0 where
  before_digits : c < 48 → IsSeparator c
  before_capitals : 58 ≤ c → c < 65 → IsSeparator c
  before_letters : 91 ≤ c → c < 97 → IsSeparator c
  after_letters : 123 ≤ c → c < 128 → IsSeparator c

-- A text starts with the small letters of a word, in either case and with separators in between.
pub data Spells : List ℕ → List ℕ → Type 0 where
  spelled : (text : List ℕ) → Spells [] text
  small_letter :
      (c : ℕ) (word text : List ℕ)
      → 97 ≤ c
      → c ≤ 122
      → Spells word text
      → Spells (c ∷ word) (c ∷ text)
  capital :
      (c : ℕ) (word text : List ℕ)
      → 65 ≤ c
      → c ≤ 90
      → Spells word text
      → Spells ((c + 32) ∷ word) (c ∷ text)
  separated :
      (c : ℕ) (word text : List ℕ) → IsSeparator c → Spells word text → Spells word (c ∷ text)

-- A text has a word in it.
pub data Has (word : List ℕ) : List ℕ → Type 0 where
  here : (text : List ℕ) → Spells word text → Has word text
  further : (c : ℕ) (text : List ℕ) → Has word text → Has word (c ∷ text)

-- A key that names a secret.
abbrev pub NamesSecret : String → Type 0
NamesSecret k = (w : SecretWord) × Has (codes (word_text w)) (codes k)

abbrev kept : List ℕ → List ℕ
kept text = keep_alnum (map to_lower text)

kept_small : (c : ℕ) → 97 ≤ c → c ≤ 122 → (is_alnum (to_lower c) ≡ true) × (to_lower c ≡ c)
unfolding is_alnum to_lower
kept_small c h g = ground arith

kept_capital : (c : ℕ) → 65 ≤ c → c ≤ 90 → (is_alnum (to_lower c) ≡ true) × (to_lower c ≡ c + 32)
unfolding is_alnum to_lower
kept_capital c h g = ground arith

dropped : (c : ℕ) → IsSeparator c → is_alnum (to_lower c) ≡ false
unfolding is_alnum to_lower
dropped c (before_digits h) = ground arith
dropped c (before_capitals h g) = ground arith
dropped c (before_letters h g) = ground arith
dropped c (after_letters h g) = ground arith

same_itself : (n : ℕ) → (n == n) ≡ true
same_itself n = ground arith

starts-Spells : (word text : List ℕ) → Spells word text → starts_with_codes word (kept text) ≡ true
starts-Spells _ text (spelled _) = refl
starts-Spells _ _ (small_letter c word text h g rest) =
    let (a, l) = kept_small c h g in rw (a, l) (rw (same_itself c) (starts-Spells word text rest))
starts-Spells _ _ (capital c word text h g rest) =
    let (a, l) = kept_capital c h g in
    rw (a, l) (rw (same_itself (c + 32)) (starts-Spells word text rest))
starts-Spells word _ (separated c _ text h rest) = rw (dropped c h) (starts-Spells word text rest)

contains-starts :
    (word text : List ℕ) → starts_with_codes word text ≡ true → contains_codes word text ≡ true
contains-starts word [] h = h
contains-starts word (c ∷ text) h = rw h refl

or-true : (a : Bool) → (a || true) ≡ true
or-true true = refl
or-true false = refl

contains-Has : (word text : List ℕ) → Has word text → contains_codes word (kept text) ≡ true
contains-Has word text (here _ h) = contains-starts word (kept text) (starts-Spells word text h)
contains-Has word _ (further c text h) = elim (Bool-cases (is_alnum (to_lower c))) [
  | inl e ↦ rw e (rw (contains-Has word text h) (or-true _))
  | inr e ↦ rw e (contains-Has word text h)
]

any-get_elem? :
    (p : String → Bool) (xs : List String) (i : ℕ) (t : String)
    → get_elem? xs i ≡ some t
    → p t ≡ true
    → any p xs ≡ true
any-get_elem? p [] i t e h = cc e
any-get_elem? p (x ∷ xs) zero t e h = rw (some_inj.0 e, h) refl
any-get_elem? p (x ∷ xs) (suc i) t e h = rw (any-get_elem? p xs i t e h) (or-true (p x))

abbrev index_of : SecretWord → ℕ
index_of password = 0
index_of secret = 1
index_of token = 2
index_of api_key = 3
index_of authorization = 4
index_of credential = 5
index_of fingerprint = 6

listed : (w : SecretWord) → get_elem? secret_tokens (index_of w) ≡ some (word_text w)
listed password = refl
listed secret = refl
listed token = refl
listed api_key = refl
listed authorization = refl
listed credential = refl
listed fingerprint = refl

-- A key that names a secret is found.
pub is_secret-NamesSecret : (k : String) → NamesSecret k → is_secret k ≡ true
unfolding is_secret normalized_key
is_secret-NamesSecret k (w, h) =
    any-get_elem? (λ t. contains_codes (codes t) (kept (codes k))) secret_tokens (index_of w)
      (word_text w) (listed w) (contains-Has (codes (word_text w)) (codes k) h)
