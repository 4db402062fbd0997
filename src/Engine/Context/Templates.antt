-- ===== src/Engine/Context/Templates.antt =====
-- libraries/dbal/production/include/workflow/wf_context.hpp: what a template stands for.
use dbal.Prelude.{
  ℕ, zero, suc, ◌+◌, ◌≤◌, ◌≡◌, refl, sym, ap, ap₂, ◌∙◌, Bool, true, false, not, ◌&&◌, none, some,
  List, [], ◌∷◌, ◌++◌, ◌==◌, length, arith, Bool-cases, inl, inr,
}
use dbal.Bql.Lexer.{Text}
use dbal.Json.{
  Json, Items, Members, null, boolean, number, text, array, object, no_items, item, no_members,
  member,
}
use dbal.Engine.Context.{
  Variables, get, until_brace, behind, placeholder, shown_text, interpolate, resolve_str,
  resolve_text, resolve, resolve_items, resolve_members,
}

-- A template: bytes, and keys in "${...}".
pub data Part : Type 0 where
  literal : ℕ → Part
  variable : Text → Part

-- The byte `n` is not in the text.
unfoldable pub lacks : ℕ → Text → Bool
lacks n [] = true
lacks n (c ∷ cs) = not (c == n) && lacks n cs

abbrev pub written_part : Part → Text
written_part (literal c) = c ∷ []
written_part (variable key) = 36 ∷ 123 ∷ (key ++ 125 ∷ [])

unfoldable pub written : List Part → Text
written [] = []
written (p ∷ ps) = written_part p ++ written ps

-- The text starts with a '{' and has a '}' behind it.
unfoldable pub opens_key : Text → Bool
unfolding lacks
opens_key [] = false
opens_key (d ∷ cs) = d == 123 && not (lacks 125 cs)

-- No key holds a '}', and no '$' among the bytes opens a "{...}".
unfoldable pub are_parts : List Part → Bool
unfolding opens_key written
are_parts [] = true
are_parts (literal c ∷ ps) = not (c == 36 && opens_key (written ps)) && are_parts ps
are_parts (variable key ∷ ps) = lacks 125 key && are_parts ps

append_assoc : (xs ys zs : Text) → (xs ++ ys) ++ zs ≡ xs ++ (ys ++ zs)
append_assoc [] ys zs = refl
append_assoc (x ∷ xs) ys zs = ap (λ (l : Text). x ∷ l) (append_assoc xs ys zs)

split_brace :
    (cs : Text)
    → lacks 125 cs ≡ false
    → (key rest : Text) × (cs ≡ key ++ 125 ∷ rest)
      × (lacks 125 key ≡ true)
      × (length rest ≤ length cs)
unfolding lacks
split_brace [] h = absurd (cc)
split_brace (c ∷ cs) h = elim (Bool-cases (c == 125)) [
  | inl e ↦
      let same : c ≡ 125 = ground arith in ([], cs, ap (λ (d : ℕ). d ∷ cs) same, refl, omega arith)
  | inr e ↦
      let (key, rest, split, free, small) = split_brace cs (rw e at h) in
      (c ∷ key, rest, ap (λ (l : Text). c ∷ l) split, rw e free, omega arith)
]

key_written :
    (c d : ℕ) (key rest later cs : Text)
    → c ≡ 36
    → d ≡ 123
    → cs ≡ key ++ 125 ∷ rest
    → later ≡ rest
    → 36 ∷ 123 ∷ ((key ++ 125 ∷ []) ++ later) ≡ c ∷ d ∷ cs
key_written c d key rest later cs dollar open_brace split w =
    ap (λ (l : Text). 36 ∷ 123 ∷ ((key ++ 125 ∷ []) ++ l)) w
    ∙ ap (λ (l : Text). 36 ∷ 123 ∷ l) (append_assoc key (125 ∷ []) rest ∙ sym split)
    ∙ ap₂ (λ (a b : ℕ). a ∷ b ∷ cs) (sym dollar) (sym open_brace)

text_parts :
    (n : ℕ) (t : Text) → length t ≤ n → (ps : List Part) × (written ps ≡ t) × (are_parts ps ≡ true)
unfolding written are_parts opens_key
text_parts n [] h = ([], refl, refl)
text_parts zero (c ∷ cs) h = absurd (omega arith)
text_parts (suc n) (c ∷ []) h = (literal c ∷ [], refl, ground arith)
text_parts (suc n) (c ∷ d ∷ cs) h = elim (Bool-cases (c == 36 && opens_key (d ∷ cs))) [
  | inl e ↦
      let dollar : c ≡ 36 = ground arith in
      let open_brace : d ≡ 123 = ground arith in
      let closes : lacks 125 cs ≡ false = ground arith in
      let (key, rest, split, free, small) = split_brace cs closes in
      let (ps, w, fits) = text_parts n rest (omega arith) in
      (
        variable key ∷ ps,
        key_written c d key rest (written ps) cs dollar open_brace split w,
        rw (free, fits) refl,
      )
  | inr e ↦
      let (ps, w, fits) = text_parts n (d ∷ cs) (omega arith) in
      (literal c ∷ ps, ap (λ (l : Text). c ∷ l) w, rw (w, e, fits) refl)
]

-- Every text is a template.
written_any : (t : Text) → (ps : List Part) × (written ps ≡ t) × (are_parts ps ≡ true)
written_any t = text_parts (length t) t (omega arith)

module _ (dump : Json → Text) (vars : Variables) where
  abbrev pub value_of : Part → Text
  value_of (literal c) = c ∷ []
  value_of (variable key) = shown_text dump (get vars key null)

  unfoldable pub values_of : List Part → Text
  values_of [] = []
  values_of (p ∷ ps) = value_of p ++ values_of ps

  until_brace-append :
      (key rest : Text) → lacks 125 key ≡ true → until_brace (key ++ 125 ∷ rest) ≡ some (key, rest)
  unfolding until_brace lacks
  until_brace-append [] rest h = refl
  until_brace-append (c ∷ key) rest h = elim (Bool-cases (c == 125)) [
    | inl e ↦ absurd (ground arith)
    | inr e ↦ rw e (ap (behind c) (until_brace-append key rest (rw e at h)))
  ]

  no_dollar : (c : ℕ) (cs : Text) → (c == 36) ≡ false → placeholder (c ∷ cs) ≡ none
  unfolding placeholder
  no_dollar c [] h = refl
  no_dollar c (d ∷ cs) h = rw h refl

  until_brace-lacks : (cs : Text) → lacks 125 cs ≡ true → until_brace cs ≡ none
  unfolding until_brace lacks
  until_brace-lacks [] h = refl
  until_brace-lacks (c ∷ cs) h = elim (Bool-cases (c == 125)) [
    | inl e ↦ absurd (ground arith)
    | inr e ↦ rw e (ap (behind c) (until_brace-lacks cs (rw e at h)))
  ]

  -- A '$' that opens no "{...}" is a byte like others.
  no_opening : (c : ℕ) (cs : Text) → (c == 36 && opens_key cs) ≡ false → placeholder (c ∷ cs) ≡ none
  unfolding placeholder opens_key
  no_opening c [] h = refl
  no_opening c (d ∷ cs) h = elim (Bool-cases (c == 36)) [
    | inl e ↦ elim (Bool-cases (d == 123)) [
      | inl f ↦
          let none_closes : lacks 125 cs ≡ true = ground arith in
          rw (e, f, until_brace-lacks cs none_closes) refl
      | inr f ↦ rw (e, f) refl
    ]
    | inr e ↦ rw e refl
  ]

  length-append : (xs ys : Text) → length (xs ++ ys) ≡ length xs + length ys
  length-append [] ys = omega arith
  length-append (x ∷ xs) ys = omega (arith, length-append xs ys)

  -- Fuel for the bytes of the template is enough.
  interpolate-written :
      (fuel : ℕ) (ps : List Part)
      → length (written ps) ≤ fuel
      → are_parts ps ≡ true
      → interpolate dump fuel vars (written ps) ≡ values_of ps
  unfolding interpolate written values_of are_parts
  interpolate-written zero [] h w = refl
  interpolate-written (suc fuel) [] h w = refl
  interpolate-written zero (literal c ∷ ps) h w = absurd (omega arith)
  interpolate-written zero (variable key ∷ ps) h w = absurd (omega arith)
  interpolate-written (suc fuel) (literal c ∷ ps) h w =
      let closed : (c == 36 && opens_key (written ps)) ≡ false = ground arith in
      let later : are_parts ps ≡ true = ground arith in
      rw (no_opening c (written ps) closed, interpolate)
        (ap (λ (t : Text). c ∷ t) (interpolate-written fuel ps (omega arith) later))
  interpolate-written (suc fuel) (variable key ∷ ps) h w =
      let size = length-append (key ++ 125 ∷ []) (written ps) in
      let split : lacks 125 key ≡ true = ground arith in
      let later : are_parts ps ≡ true = ground arith in
      let found : until_brace ((key ++ 125 ∷ []) ++ written ps) ≡ some (key, written ps) =
        ap until_brace (append_assoc key (125 ∷ []) (written ps))
        ∙ until_brace-append key (written ps) split in
      rw (found, interpolate)
        (ap (λ (t : Text). shown_text dump (get vars key null) ++ t)
          (interpolate-written fuel ps (omega arith) later))

  -- A template is written from bytes and from keys in "${...}", where no key holds a '}' and no '$'
  -- among the bytes opens a "{...}". It is replaced by its bytes, with the value of each variable in
  -- place of its key.
  pub resolve_str-written :
      (ps : List Part) → are_parts ps ≡ true → resolve_str dump vars (written ps) ≡ values_of ps
  unfolding resolve_str
  resolve_str-written ps w = interpolate-written (length (written ps)) ps (omega arith) w

  interpolate-lacks :
      (fuel : ℕ) (t : Text) → length t ≤ fuel → lacks 36 t ≡ true → interpolate dump fuel vars t ≡ t
  unfolding interpolate lacks
  interpolate-lacks zero [] h w = refl
  interpolate-lacks (suc fuel) [] h w = refl
  interpolate-lacks zero (c ∷ cs) h w = absurd (omega arith)
  interpolate-lacks (suc fuel) (c ∷ cs) h w = elim (Bool-cases (c == 36)) [
    | inl e ↦ absurd (ground arith)
    | inr e ↦
        rw (no_dollar c cs e, interpolate)
          (ap (λ (t : Text). c ∷ t) (interpolate-lacks fuel cs (omega arith) (rw e at w)))
  ]

  placeholder-lacks : (s : Text) → lacks 36 s ≡ true → placeholder s ≡ none
  unfolding placeholder lacks
  placeholder-lacks [] w = refl
  placeholder-lacks (c ∷ cs) w = elim (Bool-cases (c == 36)) [
    | inl e ↦ absurd (ground arith)
    | inr e ↦ no_dollar c cs e
  ]

  resolve_text-lacks : (s : Text) → lacks 36 s ≡ true → resolve_text dump vars s ≡ text s
  unfolding resolve_text resolve_str
  resolve_text-lacks s w =
      rw (placeholder-lacks s w, resolve_text)
        (ap (λ (t : Text). text t) (interpolate-lacks (length s) s (omega arith) w))

-- No string in the value has a '$'.
unfoldable mutual
  unfolding lacks

  pub is_plain : Json → Bool
  is_plain null = true
  is_plain (boolean b) = true
  is_plain (number n) = true
  is_plain (text s) = lacks 36 s
  is_plain (array is) = are_plain is
  is_plain (object ms) = members_plain ms

  pub are_plain : Items → Bool
  are_plain no_items = true
  are_plain (item v is) = is_plain v && are_plain is

  pub members_plain : Members → Bool
  members_plain no_members = true
  members_plain (member k v ms) = is_plain v && members_plain ms

module _ (dump : Json → Text) (vars : Variables) where
  mutual
    unfolding is_plain resolve

    -- A value without a '$' in its strings is resolved to itself.
    pub resolve-is_plain : (v : Json) → is_plain v ≡ true → resolve dump vars v ≡ v
    resolve-is_plain null w = refl
    resolve-is_plain (boolean b) w = refl
    resolve-is_plain (number n) w = refl
    resolve-is_plain (text s) w = resolve_text-lacks dump vars s w
    resolve-is_plain (array is) w = ap (λ (k : Items). array k) (resolve-items is w)
    resolve-is_plain (object ms) w = ap (λ (k : Members). object k) (resolve-members ms w)

    resolve-items : (is : Items) → are_plain is ≡ true → resolve_items dump vars is ≡ is
    resolve-items no_items w = refl
    resolve-items (item v is) w =
        ap₂ (λ (a : Json) (b : Items). item a b) (resolve-is_plain v (ground arith))
          (resolve-items is (ground arith))

    resolve-members : (ms : Members) → members_plain ms ≡ true → resolve_members dump vars ms ≡ ms
    resolve-members no_members w = refl
    resolve-members (member k v ms) w =
        ap₂ (λ (a : Json) (b : Members). member k a b) (resolve-is_plain v (ground arith))
          (resolve-members ms (ground arith))
