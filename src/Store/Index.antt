-- ===== src/Store/Index.antt =====
-- A map of entities beside a unique index from one of their fields to their ids, as
-- libraries/dbal/production/src/store/in_memory_store.hpp keeps for page paths, workflow names,
-- session tokens and package keys.
use dbal.Prelude.{
  true, ℕ, suc, ◌<◌, ◌≤◌, String, ◌≡◌, ◌⊎◌, sym, none, some, Bool-cases, Option-cases, inl, inr,
  arith, str_eq, eq_iff,
}
use dbal.Map.{Map, lookup, insert, erase, lookup-insert, lookup-erase}
use dbal.Store.Ids.{generate_id, generate_id-injective, fits_buffer, int_end}

module _ {ℓ} {E : Type ℓ} (key : E → String) where
  -- Each entity is found by its key, and each key leads to its entity.
  pub record IsIndexed (m : Map E) (ix : Map String) : Type ℓ where
    pub forward : (i : String) (e : E) → lookup i m ≡ some e → lookup (key e) ix ≡ some i
    pub backward :
        (k i : String) → lookup k ix ≡ some i → (e : E) × (lookup i m ≡ some e) × (key e ≡ k)

  module _ {m : Map E} {ix : Map String} (h : IsIndexed m ix) (i : String) (e : E) where
    -- A new entity under a free key.
    pub IsIndexed-insert :
        lookup i m ≡ none
        → lookup (key e) ix ≡ none
        → IsIndexed (insert i e m) (insert (key e) i ix)
    IsIndexed-insert fresh free = record {
      forward = λ j f p. ground (
        arith,
        lookup-insert i j e m,
        lookup-insert (key e) (key f) i ix,
        h.forward j f,
        eq_iff i j,
        eq_iff (key e) (key f),
      );
      backward = λ k j p. elim (Bool-cases (str_eq (key e) k)) [
        | inl hit ↦ (
          e,
          ground (arith, lookup-insert i j e m, lookup-insert (key e) k i ix, eq_iff i j),
          (eq_iff (key e) k).0 hit,
        )
        | inr miss ↦
            let (f, q, r) = h.backward k j (ground (arith, lookup-insert (key e) k i ix)) in
            (f, ground (arith, lookup-insert i j e m, eq_iff i j), r)
      ];
    }

    pub IsIndexed-erase : lookup i m ≡ some e → IsIndexed (erase i m) (erase (key e) ix)
    IsIndexed-erase old = record {
      forward = λ j f p. ground (
        arith,
        lookup-erase i j m,
        lookup-erase (key e) (key f) ix,
        h.forward j f,
        h.forward i e,
        eq_iff i j,
        eq_iff (key e) (key f),
      );
      backward = λ k j p.
          let (f, q, r) = h.backward k j (ground (arith, lookup-erase (key e) k ix)) in
          (
            f,
            ground (
              arith,
              lookup-erase i j m,
              lookup-erase (key e) k ix,
              eq_iff i j,
              eq_iff (key e) k,
            ),
            r,
          );
    }

    -- A new value for an entity, its key as before.
    pub IsIndexed-replace :
        (f : E) → lookup i m ≡ some e → key f ≡ key e → IsIndexed (insert i f m) ix
    IsIndexed-replace f old same = record {
      forward =
          λ j g p. ground (arith, lookup-insert i j f m, h.forward j g, h.forward i e, eq_iff i j);
      backward = λ k j p. elim (Bool-cases (str_eq i j)) [
        | inl hit ↦
            (f, ground (arith, lookup-insert i j f m), ground (arith, h.backward k j p, eq_iff i j))
        | inr miss ↦
            let (g, q, r) = h.backward k j p in (g, ground (arith, lookup-insert i j f m), r)
      ];
    }

    -- A new value under another key, which must be free or its own.
    pub IsIndexed-rekey :
        (f : E)
        → lookup i m ≡ some e
        → (lookup (key f) ix ≡ none) ⊎ (lookup (key f) ix ≡ some i)
        → IsIndexed (insert i f m) (insert (key f) i (erase (key e) ix))
    IsIndexed-rekey f old free = record {
      forward = λ j g p. ground (
        arith,
        lookup-insert i j f m,
        lookup-insert (key f) (key g) i (erase (key e) ix),
        lookup-erase (key e) (key g) ix,
        h.forward j g,
        h.forward i e old,
        eq_iff i j,
        eq_iff (key f) (key g),
        eq_iff (key e) (key g),
      );
      backward = λ k j p. elim (Bool-cases (str_eq (key f) k)) [
        | inl hit ↦ (
          f,
          ground (
            arith,
            lookup-insert i j f m,
            lookup-insert (key f) k i (erase (key e) ix),
            eq_iff i j,
          ),
          (eq_iff (key f) k).0 hit,
        )
        | inr miss ↦
            let q : lookup k (erase (key e) ix) ≡ some j =
              ground (arith, lookup-insert (key f) k i (erase (key e) ix)) in
            let (g, r, t) = h.backward k j (ground (arith, lookup-erase (key e) k ix)) in
            (
              g,
              ground (
                arith,
                lookup-insert i j f m,
                lookup-erase (key e) k ix,
                eq_iff i j,
                eq_iff (key e) k,
              ),
              t,
            )
      ];
    }

module _ {ℓ} {E : Type ℓ} (prefix : String) (id : E → String) where
  -- Every entity carries its own id, which `generateId` made of a value that the counter has had.
  pub record IsNumbered (counter : ℕ) (m : Map E) : Type ℓ where
    pub numbered :
        (i : String) (e : E)
        → lookup i m ≡ some e
        → (id e ≡ i) × ((n : ℕ) × (n ≤ counter) × (i ≡ generate_id prefix n))

  module _ {counter : ℕ} {m : Map E} (h : IsNumbered counter m) where
    -- The next id is not in use.
    pub IsNumbered-fresh :
        fits_buffer prefix ≡ true
        → suc counter < int_end
        → lookup (generate_id prefix (suc counter)) m ≡ none
    IsNumbered-fresh short small =
        elim (Option-cases (lookup (generate_id prefix (suc counter)) m)) [
          | inl e ↦ e
          | inr (e, p) ↦
              let (n, le, q) = (h.numbered _ e p).1 in
              absurd (
                omega
                  (arith, generate_id-injective prefix (suc counter) n short small (omega arith) q))
        ]

    pub IsNumbered-insert :
        (e : E)
        → id e ≡ generate_id prefix (suc counter)
        → IsNumbered (suc counter) (insert (generate_id prefix (suc counter)) e m)
    IsNumbered-insert e own = record {
      numbered = λ i f p. elim (Bool-cases (str_eq (generate_id prefix (suc counter)) i)) [
        | inl hit ↦
            let same : generate_id prefix (suc counter) ≡ i = (eq_iff _ i).0 hit in
            (
              ground (arith, lookup-insert (generate_id prefix (suc counter)) i e m),
              (suc counter, omega arith, sym same),
            )
        | inr miss ↦
            let (o, (n, le, q)) =
              h.numbered i f
                (ground (arith, lookup-insert (generate_id prefix (suc counter)) i e m)) in
            (o, (n, omega arith, q))
      ];
    }

    pub IsNumbered-erase : (i : String) → IsNumbered counter (erase i m)
    IsNumbered-erase i = record {
      numbered = λ j f p. h.numbered j f (ground (arith, lookup-erase i j m));
    }

    pub IsNumbered-replace :
        (i : String) (e f : E)
        → lookup i m ≡ some e
        → id f ≡ id e
        → IsNumbered counter (insert i f m)
    IsNumbered-replace i e f old same = record {
      numbered = λ j g p. elim (Bool-cases (str_eq i j)) [
        | inl hit ↦
            let own : i ≡ j = (eq_iff i j).0 hit in
            let (o, n) = h.numbered i e old in (ground (arith, lookup-insert i j f m), rw (← own) n)
        | inr miss ↦ h.numbered j g (ground (arith, lookup-insert i j f m))
      ];
    }
