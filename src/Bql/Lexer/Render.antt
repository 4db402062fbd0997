-- ===== src/Bql/Lexer/Render.antt =====
-- libraries/dbal/production/src/bql/bql_lexer.cpp: tokens written as a line, and the lexer on it.
use dbal.Prelude.{
  ℕ, zero, suc, ◌+◌, ◌≤◌, ◌<◌, ◌≡◌, refl, ap, Option, none, some, List, [], ◌∷◌, ◌++◌, arith,
  length, inl, inr, ◌≢◌, ◌⊎◌, subst,
}
use mathlib.Core.List.{append-nil}
use dbal.Bql.Lexer.{
  full_stop, Text, TokenType, word, string, punct, Token, until_quote, take_word, next_token,
  push_token, scan, tokenize, spell, render, IsWord, HasNoQuote, IsToken, AreTokens,
}

-- The loop shortens the line in each round.
until_quote-shorter : (cs : Text) → length (until_quote cs).1 ≤ length cs
unfolding until_quote
until_quote-shorter [] = omega arith
until_quote-shorter (c ∷ cs) = ground (arith, until_quote-shorter cs)

take_word-shorter : (cs : Text) → length (take_word cs).1 ≤ length cs
unfolding take_word
take_word-shorter [] = omega arith
take_word-shorter (c ∷ cs) = ground (arith, take_word-shorter cs)

next_token-shorter : (c : ℕ) (cs : Text) → length (next_token c cs).1 ≤ length cs
unfolding next_token take_word
next_token-shorter c cs = ground (arith, until_quote-shorter cs, take_word-shorter cs)

-- With more fuel than the line has bytes, the loop of the lexer ends.
pub scan_total :
    (fuel : ℕ) (line : Text) → length line < fuel → (ts : List Token) × (scan fuel line ≡ some ts)
unfolding scan
scan_total zero line h = elim h [ ]
scan_total (suc fuel) [] h = ([], refl)
scan_total (suc fuel) (c ∷ cs) h =
    let (ts, e) = scan_total fuel (next_token c cs).1 (omega (arith, next_token-shorter c cs)) in
    rw e (pushed (next_token c cs).0 ts)
  where
    pushed :
        (t : Option Token) (ts : List Token)
        → (us : List Token) × (push_token t (some ts) ≡ some us)
    pushed none ts = (ts, refl)
    pushed (some t) ts = (t ∷ ts, refl)

take_word-IsWord : (w rest : Text) → IsWord w → take_word (w ++ 32 ∷ rest) ≡ (w, 32 ∷ rest)
unfolding take_word IsWord
take_word-IsWord [] rest h = refl
take_word-IsWord (c ∷ []) rest h = ground (arith, take_word-IsWord [] rest)
take_word-IsWord (c ∷ d ∷ w) rest h = ground (arith, take_word-IsWord (d ∷ w) rest)

until_quote-HasNoQuote : (s rest : Text) → HasNoQuote s → until_quote (s ++ 34 ∷ rest) ≡ (s, rest)
unfolding until_quote HasNoQuote
until_quote-HasNoQuote [] rest h = refl
until_quote-HasNoQuote (c ∷ s) rest h = ground (arith, until_quote-HasNoQuote s rest)

-- One round at the first byte of a spelled token, which leaves the space behind it.
next_token-word :
    (c : ℕ) (cs rest : Text)
    → IsWord (c ∷ cs)
    → next_token c (cs ++ 32 ∷ rest) ≡ (some (record { type = word; value = c ∷ cs }), 32 ∷ rest)
unfolding next_token IsWord
next_token-word c [] rest h = ground (arith, take_word-IsWord (c ∷ []) rest)
next_token-word c (d ∷ cs) rest h = ground (arith, take_word-IsWord (c ∷ d ∷ cs) rest)

next_token-string :
    (s rest : Text)
    → HasNoQuote s
    → next_token 34 (s ++ 34 ∷ 32 ∷ rest) ≡ (some (record { type = string; value = s }), 32 ∷ rest)
unfolding next_token
next_token-string s rest h = ground (arith, until_quote-HasNoQuote s (32 ∷ rest))

next_token-comma :
    (rest : Text)
    → next_token 44 (32 ∷ rest) ≡ (some (record { type = punct; value = 44 ∷ [] }), 32 ∷ rest)
unfolding next_token
next_token-comma rest = refl

next_token-full_stop :
    (rest : Text)
    → next_token 46 (32 ∷ rest) ≡ (some (record { type = punct; value = 46 ∷ [] }), 32 ∷ rest)
unfolding next_token
next_token-full_stop rest = refl

next_token-space : (rest : Text) → next_token 32 rest ≡ (none, rest)
unfolding next_token
next_token-space rest = refl

-- What follows lexes to `ts`, with any fuel above its length.
abbrev Lexes : Text → List Token → Type 0
Lexes rest ts = (k : ℕ) → length rest < k → scan k rest ≡ some ts

-- The two rounds on a token and the space behind it.
scan-spelled :
    (t : Token) (c : ℕ) (cs rest : Text) (fuel : ℕ) {ts : List Token}
    → next_token c cs ≡ (some t, 32 ∷ rest)
    → length rest < fuel
    → Lexes rest ts
    → scan (suc (suc fuel)) (c ∷ cs) ≡ some (t ∷ ts)
unfolding scan
scan-spelled t c cs rest fuel e l h = rw e (rw (next_token-space rest) (rw (h fuel l)))

length-spelled : (v rest : Text) → length (v ++ 32 ∷ rest) ≡ length v + length rest + 1
length-spelled [] rest = omega arith
length-spelled (c ∷ v) rest = omega (arith, length-spelled v rest)

length-quoted : (v rest : Text) → length (v ++ 34 ∷ 32 ∷ rest) ≡ length v + length rest + 2
length-quoted [] rest = omega arith
length-quoted (c ∷ v) rest = omega (arith, length-quoted v rest)

-- A spelled token in front of what lexes to `ts`, by the type of the token.
Lexes-word :
    (v rest : Text) (ts : List Token)
    → v ≢ []
    → IsWord v
    → Lexes rest ts
    → Lexes (v ++ 32 ∷ rest) (record { type = word; value = v } ∷ ts)
Lexes-word [] rest ts n h l k fuel = absurd (n refl)
Lexes-word (c ∷ v) rest ts n h l zero fuel = elim fuel [ ]
Lexes-word (c ∷ v) rest ts n h l (suc zero) fuel = absurd (omega (arith, length-spelled v rest))
Lexes-word (c ∷ v) rest ts n h l (suc (suc k)) fuel =
    scan-spelled _ c (v ++ 32 ∷ rest) rest k (next_token-word c v rest h)
      (omega (arith, length-spelled v rest)) l

Lexes-string :
    (v rest : Text) (ts : List Token)
    → HasNoQuote v
    → Lexes rest ts
    → Lexes (34 ∷ (v ++ 34 ∷ 32 ∷ rest)) (record { type = string; value = v } ∷ ts)
Lexes-string v rest ts h l zero fuel = elim fuel [ ]
Lexes-string v rest ts h l (suc zero) fuel = absurd (omega (arith, length-quoted v rest))
Lexes-string v rest ts h l (suc (suc k)) fuel =
    scan-spelled _ 34 (v ++ 34 ∷ 32 ∷ rest) rest k (next_token-string v rest h)
      (omega (arith, length-quoted v rest)) l

Lexes-punct :
    (v rest : Text) (ts : List Token)
    → (v ≡ 44 ∷ []) ⊎ (v ≡ 46 ∷ [])
    → Lexes rest ts
    → Lexes (v ++ 32 ∷ rest) (record { type = punct; value = v } ∷ ts)
Lexes-punct v rest ts h l zero fuel = elim fuel [ ]
Lexes-punct v rest ts (inl e) l (suc zero) fuel =
    absurd (omega (arith, length-spelled v rest, ap (length {0}) e))
Lexes-punct v rest ts (inr e) l (suc zero) fuel =
    absurd (omega (arith, length-spelled v rest, ap (length {0}) e))
Lexes-punct v rest ts (inl e) l (suc (suc k)) fuel = rw e (
    scan-spelled _ 44 (32 ∷ rest) rest k (next_token-comma rest)
      (omega (arith, length-spelled v rest, ap (length {0}) e)) l)
Lexes-punct v rest ts (inr e) l (suc (suc k)) fuel = rw e (
    scan-spelled _ 46 (32 ∷ rest) rest k (next_token-full_stop rest)
      (omega (arith, length-spelled v rest, ap (length {0}) e)) l)

Lexes-spell :
    (t : Token) (rest : Text) (ts : List Token)
    → IsToken t
    → Lexes rest ts
    → Lexes (spell t rest) (t ∷ ts)
Lexes-spell t rest ts = by_type t.type t.value
  where
    by_type :
        (k : TokenType) (v : Text)
        → IsToken (record { type = k; value = v })
        → Lexes rest ts
        → Lexes (spell (record { type = k; value = v }) rest) (record { type = k; value = v } ∷ ts)
    by_type word v h l = Lexes-word v rest ts h.0 h.1 l
    by_type string v h l = Lexes-string v rest ts h l
    by_type punct v h l = Lexes-punct v rest ts h l

Lexes-render :
    (ts : List Token) (end : Text) (us : List Token)
    → AreTokens ts
    → Lexes end us
    → Lexes (render ts end) (ts ++ us)
unfolding render AreTokens
Lexes-render [] end us h l = l
Lexes-render (t ∷ ts) end us h l =
    Lexes-spell t (render ts end) (ts ++ us) h.0 (Lexes-render ts end us h.1 l)

tokenize-Lexes : (line : Text) (ts : List Token) → Lexes line ts → tokenize line ≡ ts
unfolding tokenize
tokenize-Lexes line ts l = rw (l (suc (length line)) (omega arith))

Lexes-end : Lexes [] []
unfolding scan
Lexes-end zero h = elim h [ ]
Lexes-end (suc k) h = refl

Lexes-full_stop : Lexes (46 ∷ []) (full_stop ∷ [])
unfolding scan next_token
Lexes-full_stop zero h = elim h [ ]
Lexes-full_stop (suc zero) h = absurd (omega arith)
Lexes-full_stop (suc (suc k)) h = refl

-- Tokens that are written as a line, each with a space behind it, are lexed back: words that no
-- space, quote, comma or full stop breaks, strings without a quote, and the two punctuation marks.
pub tokenize-render : (ts : List Token) → AreTokens ts → tokenize (render ts []) ≡ ts
tokenize-render ts h =
    tokenize-Lexes (render ts []) ts
      (subst (Lexes (render ts [])) (append-nil ts) (Lexes-render ts [] [] h Lexes-end))

-- So are tokens with a full stop at the end of the line.
pub tokenize-sentence :
    (ts : List Token) → AreTokens ts → tokenize (render ts (46 ∷ [])) ≡ ts ++ full_stop ∷ []
tokenize-sentence ts h = tokenize-Lexes _ _ (Lexes-render ts _ _ h Lexes-full_stop)
