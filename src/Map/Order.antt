-- ===== src/Map/Order.antt =====
-- The order of the keys of a std::map.
use Prim.Native.Nat.{Ordering}
use Prim.Native.Char.{Char, code}
use Prim.Native.String.compare
use text.Mathlib.TextEquality.{Char-path}
use dbal.Prelude.{
  String, ◌≡◌, refl, ap, ap₂, sym, ◌∙◌, true, false, none, some, [], ◌∷◌, arith, str_eq, eq_iff,
  eq_refl, Bool-cases, inl, inr, ltb, ◌==◌, ◌&&◌, ◌||◌, ◌≢◌, ==_iff, Member, subst,
}
use dbal.Map.{Map, str_lt, lookup, insert, erase, values}

str_lt-nil-cons : (d : Char) (t : String) → str_lt "" (String.◌∷◌ d t) ≡ true
str_lt-nil-cons d t =
    ap (λ o. elim o [ Ordering.lt ↦ true | _ ↦ false ]) (λ i. compare.nil-cons d t i)

str_lt-cons-nil : (d : Char) (t : String) → str_lt (String.◌∷◌ d t) "" ≡ false
str_lt-cons-nil d t =
    ap (λ o. elim o [ Ordering.lt ↦ true | _ ↦ false ]) (λ i. compare.cons-nil d t i)

str_lt-cons-cons :
    (c d : Char) (s t : String)
    → str_lt (String.◌∷◌ c s) (String.◌∷◌ d t)
      ≡ (ltb (code c) (code d) || code c == code d && str_lt s t)
str_lt-cons-cons c d s t =
    ap (λ o. elim o [ Ordering.lt ↦ true | _ ↦ false ]) (λ i. compare.cons-cons c d s t i)
    ∙ ground arith

str_lt_trans : (a b c : String) → str_lt a b ≡ true → str_lt b c ≡ true → str_lt a c ≡ true
str_lt_trans String.[] String.[] c p q = q
str_lt_trans a (String.◌∷◌ y b) String.[] p q = cc (str_lt-cons-nil y b)
str_lt_trans (String.◌∷◌ x a) String.[] c p q = cc (str_lt-cons-nil x a)
str_lt_trans String.[] (String.◌∷◌ y b) (String.◌∷◌ z c) p q = str_lt-nil-cons z c
str_lt_trans (String.◌∷◌ x a) (String.◌∷◌ y b) (String.◌∷◌ z c) p q = ground (
  arith,
  str_lt-cons-cons x y a b,
  str_lt-cons-cons y z b c,
  str_lt-cons-cons x z a c,
  str_lt_trans a b c,
)

pub str_lt_irrefl : (a : String) → str_lt a a ≡ false
str_lt_irrefl String.[] = refl
str_lt_irrefl (String.◌∷◌ x a) = ground (arith, str_lt-cons-cons x x a a, str_lt_irrefl a)

-- What is neither equal nor before is after.
str_lt_total : (a b : String) → a ≢ b → str_lt b a ≡ false → str_lt a b ≡ true
str_lt_total String.[] String.[] p q = absurd (p refl)
str_lt_total String.[] (String.◌∷◌ y b) p q = str_lt-nil-cons y b
str_lt_total (String.◌∷◌ x a) String.[] p q = cc (str_lt-nil-cons x a)
str_lt_total (String.◌∷◌ x a) (String.◌∷◌ y b) p q = elim (Bool-cases (code x == code y)) [
  | inl e ↦
      let same : x ≡ y = Char-path x y ((==_iff _ _).0 e) in
      ground (
        arith,
        str_lt-cons-cons x y a b,
        str_lt-cons-cons y x b a,
        str_lt_total a b (λ r. p (ap₂ String.◌∷◌ same r)),
      )
  | inr n ↦ ground (arith, str_lt-cons-cons x y a b, str_lt-cons-cons y x b a)
]

differ_eq : (a b : String) → str_eq a b ≡ false → a ≢ b
differ_eq a b e q = ground (arith, eq_iff a b)

module _ {V : Type 0} where
  -- Every key comes after `k`.
  abbrev pub Above : String → Map V → Type 0
  Above k [] = Unit
  Above k ((j, v) ∷ m) = (str_lt k j ≡ true) × Above j m

  abbrev pub IsOrdered : Map V → Type 0
  IsOrdered [] = Unit
  IsOrdered ((k, v) ∷ m) = Above k m

  pub Above-weaken : (j k : String) (m : Map V) → str_lt j k ≡ true → Above k m → Above j m
  Above-weaken j k [] p h = tt
  Above-weaken j k ((i, v) ∷ m) p h = (str_lt_trans j k i p h.0, h.1)

  insert-Above :
      (j k : String) (v : V) (m : Map V) → str_lt j k ≡ true → Above j m → Above j (insert k v m)
  unfolding insert
  insert-Above j k v [] p h = (p, tt)
  insert-Above j k v ((i, w) ∷ m) p h = elim (Bool-cases (str_eq i k)) [
    | inl e ↦ rw e (p, subst (λ t. Above t m) ((eq_iff i k).0 e) h.1)
    | inr e ↦ elim (Bool-cases (str_lt k i)) [
      | inl l ↦ rw (e, l) (p, (l, h.1))
      | inr g ↦ rw (e, g) (h.0, insert-Above i k v m (str_lt_total i k (differ_eq i k e) g) h.1)
    ]
  ]

  erase-Above : (j k : String) (m : Map V) → Above j m → Above j (erase k m)
  unfolding erase
  erase-Above j k [] h = tt
  erase-Above j k ((i, w) ∷ m) h = elim (Bool-cases (str_eq i k)) [
    | inl e ↦ rw e (erase-Above j k m (Above-weaken j i m h.0 h.1))
    | inr e ↦ rw e (h.0, erase-Above i k m h.1)
  ]

  pub insert-IsOrdered : (k : String) (v : V) (m : Map V) → IsOrdered m → IsOrdered (insert k v m)
  unfolding insert
  insert-IsOrdered k v [] h = tt
  insert-IsOrdered k v ((i, w) ∷ m) h = elim (Bool-cases (str_eq i k)) [
    | inl e ↦ rw e (subst (λ t. Above t m) ((eq_iff i k).0 e) h)
    | inr e ↦ elim (Bool-cases (str_lt k i)) [
      | inl l ↦ rw (e, l) (l, h)
      | inr g ↦ rw (e, g) (insert-Above i k v m (str_lt_total i k (differ_eq i k e) g) h)
    ]
  ]

  pub Above-IsOrdered : (k : String) (m : Map V) → Above k m → IsOrdered m
  Above-IsOrdered k [] h = tt
  Above-IsOrdered k ((i, w) ∷ m) h = h.1

  pub erase-IsOrdered : (k : String) (m : Map V) → IsOrdered m → IsOrdered (erase k m)
  unfolding erase
  erase-IsOrdered k [] h = tt
  erase-IsOrdered k ((i, w) ∷ m) h = elim (Bool-cases (str_eq i k)) [
    | inl e ↦ rw e (erase-IsOrdered k m (Above-IsOrdered i m h))
    | inr e ↦ rw e (erase-Above i k m h)
  ]

  pub lookup-Above : (k : String) (m : Map V) → Above k m → lookup k m ≡ none
  unfolding lookup
  lookup-Above k [] h = refl
  lookup-Above k ((i, w) ∷ m) h =
      ground (arith, lookup-Above k m (Above-weaken k i m h.0 h.1), eq_iff i k, str_lt_irrefl k)

  -- What iteration visits is what `find` finds.
  pub Member-values_of_lookup :
      (k : String) (v : V) (m : Map V) → lookup k m ≡ some v → Member v (values m)
  unfolding lookup values
  Member-values_of_lookup k v [] h = cc
  Member-values_of_lookup k v ((i, w) ∷ m) h = elim (Bool-cases (str_eq i k)) [
    | inl e ↦ inl (ground arith)
    | inr e ↦ inr (Member-values_of_lookup k v m (ground arith))
  ]

  pub lookup_of_Member-values :
      (v : V) (m : Map V) → IsOrdered m → Member v (values m) → (k : String) × (lookup k m ≡ some v)
  unfolding lookup values
  lookup_of_Member-values v [] h n = elim n [ ]
  lookup_of_Member-values v ((i, w) ∷ m) h (inl e) = (i, ground (arith, eq_refl i))
  lookup_of_Member-values v ((i, w) ∷ m) h (inr n) =
      let (k, q) = lookup_of_Member-values v m (Above-IsOrdered i m h) n in
      (k, ground (arith, eq_iff i k, lookup-Above i m h))

  head_of_lookup : (k : String) (v w : V) (m : Map V) → lookup k ((k, v) ∷ m) ≡ some w → v ≡ w
  unfolding lookup
  head_of_lookup k v w m h = ground (arith, eq_refl k)

  skip_lookup : (j k : String) (v : V) (m : Map V) → j ≢ k → lookup k ((j, v) ∷ m) ≡ lookup k m
  unfolding lookup
  skip_lookup j k v m n = ground (arith, eq_iff j k)

  found_head : (k : String) (v : V) (m : Map V) → lookup k ((k, v) ∷ m) ≡ some v
  unfolding lookup
  found_head k v m = ground (arith, eq_refl k)

  none_of_nil : (k : String) → lookup {V = V} k [] ≡ none
  unfolding lookup
  none_of_nil k = refl

  -- A key that both maps have first: the rests agree.
  rest_agree :
      (k : String) (v w : V) (m n : Map V)
      → Above k m
      → Above k n
      → ((i : String) → lookup i ((k, v) ∷ m) ≡ lookup i ((k, w) ∷ n))
      → (i : String) → lookup i m ≡ lookup i n
  rest_agree k v w m n hm hn e i = elim (Bool-cases (str_eq k i)) [
    | inl q ↦
        let same : k ≡ i = (eq_iff k i).0 q in cc (same, lookup-Above k m hm, lookup-Above k n hn)
    | inr q ↦
        sym (skip_lookup k i v m (differ_eq k i q)) ∙ e i ∙ skip_lookup k i w n (differ_eq k i q)
  ]

  -- The first keys of maps that agree are the same.
  first_agree :
      (j k : String) (v w : V) (m n : Map V)
      → Above j m
      → Above k n
      → ((i : String) → lookup i ((j, v) ∷ m) ≡ lookup i ((k, w) ∷ n))
      → j ≡ k
  first_agree j k v w m n hm hn e = elim (Bool-cases (str_eq j k)) [
    | inl q ↦ (eq_iff j k).0 q
    | inr q ↦ elim (Bool-cases (str_lt j k)) [
      | inl l ↦ cc (found_head j v m, e j, lookup-Above j ((k, w) ∷ n) (l, hn))
      | inr g ↦ cc (
        found_head k w n,
        e k,
        lookup-Above k ((j, v) ∷ m) (str_lt_total k j (λ r. differ_eq j k q (sym r)) g, hm),
      )
    ]
  ]

  -- Two maps in which every key finds the same are the same map.
  pub map_ext :
      (m n : Map V) → IsOrdered m → IsOrdered n → ((i : String) → lookup i m ≡ lookup i n) → m ≡ n
  map_ext [] [] hm hn e = refl
  map_ext [] ((k, w) ∷ n) hm hn e = absurd (cc (found_head k w n, e k, none_of_nil k))
  map_ext ((j, v) ∷ m) [] hm hn e = absurd (cc (found_head j v m, e j, none_of_nil j))
  map_ext ((j, v) ∷ m) ((k, w) ∷ n) hm hn e =
      let same : k ≡ j = sym (first_agree j k v w m n hm hn e) in
      let hn' : Above j n = subst (λ t. Above t n) same hn in
      let e' : (i : String) → lookup i ((j, v) ∷ m) ≡ lookup i ((j, w) ∷ n) =
        λ i. e i ∙ ap (λ t. lookup i ((t, w) ∷ n)) same in
      let rest : m ≡ n =
        map_ext m n (Above-IsOrdered j m hm) (Above-IsOrdered j n hn')
          (rest_agree j v w m n hm hn' e') in
      let value : v ≡ w = head_of_lookup j v w m (e' j ∙ found_head j w n) in cc
