-- ===== src/Bql/Lexer.antt =====
-- libraries/dbal/production/src/bql/bql_lexer.cpp, bql_lexer.hpp: the tokens of a BQL line. A text
-- is the list of its bytes, since the lexer tests and cuts bytes.
pub mod Render
use dbal.Prelude.{
  ℕ, zero, suc, Bool, true, false, not, ◌&&◌, ◌||◌, Option, none, some, List, [], ◌∷◌, leb, ◌==◌,
  if◌then◌else◌, length, value_or, ◌++◌, ◌≡◌, ◌≢◌, ◌⊎◌,
}

abbrev pub Text : Type 0
Text = List ℕ

pub data TokenType : Type 0 where
  word string punct : TokenType

pub record Token : Type 0 where
  pub type : TokenType
  pub value : Text

-- `std::isspace` in the C locale: tab to carriage return, and the space.
abbrev pub is_space : ℕ → Bool
is_space c = (leb 9 c && leb c 13) || c == 32

-- `std::isalnum` in the C locale, or '_'.
abbrev pub is_word_char : ℕ → Bool
is_word_char c =
    (leb 48 c && leb c 57) || (leb 65 c && leb c 90) || (leb 97 c && leb c 122) || c == 95

-- `i + 1 < n && isWordChar(line[i + 1])`.
abbrev pub starts_wordlike : Text → Bool
starts_wordlike [] = false
starts_wordlike (c ∷ cs) = is_word_char c

abbrev pub is_stop : ℕ → Text → Bool
is_stop c rest = c == 46 && not (starts_wordlike rest)

-- The tests at which the loop over a word breaks.
abbrev pub ends_word : ℕ → Text → Bool
ends_word c rest = (is_space c || c == 34 || c == 44) || is_stop c rest

-- The text before the next '"', and what follows it; all of the line if there is none.
unfoldable pub until_quote : Text → Text × Text
until_quote [] = ([], [])
until_quote (c ∷ cs) =
    let rest = until_quote cs in if c == 34 then ([], cs) else (c ∷ rest.0, rest.1)

unfoldable pub take_word : Text → Text × Text
take_word [] = ([], [])
take_word (c ∷ cs) =
    let rest = take_word cs in if ends_word c cs then ([], c ∷ cs) else (c ∷ rest.0, rest.1)

-- One round of the loop at the byte `c`: the token that it pushes, if any, and the rest of the line.
unfoldable pub next_token : ℕ → Text → Option Token × Text
next_token c cs =
    if is_space c
    then (none, cs)
    else if c == 34
    then (some (record { type = string; value = (until_quote cs).0 }), (until_quote cs).1)
    else if c == 44
    then (some (record { type = punct; value = 44 ∷ [] }), cs)
    else if is_stop c cs
    then (some (record { type = punct; value = 46 ∷ [] }), cs)
    else (some (record { type = word; value = (take_word (c ∷ cs)).0 }), (take_word (c ∷ cs)).1)

abbrev pub push_token : Option Token → Option (List Token) → Option (List Token)
push_token t none = none
push_token none (some ts) = some ts
push_token (some t) (some ts) = some (t ∷ ts)

-- `while (i < n)`, on fuel; `none` means that the fuel ran out.
unfoldable pub scan : ℕ → Text → Option (List Token)
scan zero line = none
scan (suc fuel) [] = some []
scan (suc fuel) (c ∷ cs) = push_token (next_token c cs).0 (scan fuel (next_token c cs).1)

unfoldable pub tokenize : Text → List Token
tokenize line = value_or (scan (suc (length line)) line) []

-- A line with the tokens `ts`: each token, strings in quotes, with a space behind it, and then `end`.
abbrev pub spell : Token → Text → Text
spell t rest = elim t.type [ string ↦ 34 ∷ (t.value ++ 34 ∷ 32 ∷ rest) | _ ↦ t.value ++ 32 ∷ rest ]

unfoldable pub render : List Token → Text → Text
render [] end = end
render (t ∷ ts) end = spell t (render ts end)

-- No byte of the text breaks a word, when it stands before a space.
unfoldable pub IsWord : Text → Type 0
IsWord [] = Unit
IsWord (c ∷ cs) = (ends_word c cs ≡ false) × IsWord cs

unfoldable pub HasNoQuote : Text → Type 0
HasNoQuote [] = Unit
HasNoQuote (c ∷ cs) = (c ≢ 34) × HasNoQuote cs

-- The tokens that a line can spell.
abbrev pub IsToken : Token → Type 0
IsToken t = elim t.type [
  | word ↦ (t.value ≢ []) × IsWord t.value
  | string ↦ HasNoQuote t.value
  | punct ↦ (t.value ≡ 44 ∷ []) ⊎ (t.value ≡ 46 ∷ [])
]

unfoldable pub AreTokens : List Token → Type 0
AreTokens [] = Unit
AreTokens (t ∷ ts) = IsToken t × AreTokens ts

abbrev pub full_stop : Token
full_stop = record { type = punct; value = 46 ∷ [] }
