-- ===== src/Component/Descent.antt =====
-- `hasDescendant` of libraries/dbal/production/src/entities/component/helpers.hpp and the
-- relation that it decides.
use dbal.Prelude.{
  ℕ, zero, suc, ◌<◌, String, ◌≡◌, ◌↔◌, ◌⊎◌, refl, sym, ◌∙◌, Bool, true, false, Option, some, List,
  [], ◌∷◌, arith, Member, inl, inr, Bool-cases, Option-cases, str_eq, eq_iff, subst,
}
use dbal.Map.{Map, lookup}
use dbal.Component.{scan_children, has_descendant}

module _ (by_parent : Map (List String)) where
  -- `candidate` stands below `ancestor` in the index of the children.
  pub data Descends (candidate : String) : String → Type 0 where
    is_child :
        {ancestor : String} (children : List String)
        → lookup ancestor by_parent ≡ some children
        → Member candidate children
        → Descends candidate ancestor
    is_below :
        {ancestor : String} (x : String) (children : List String)
        → lookup ancestor by_parent ≡ some children
        → Member x children
        → Descends candidate x
        → Descends candidate ancestor

  -- The children of a component have a lower height than it: so there is no cycle.
  abbrev pub IsForest : (String → ℕ) → Type 0
  IsForest height =
      (parent child : String) (children : List String)
      → lookup parent by_parent ≡ some children
      → Member child children
      → height child < height parent

  -- One of `children` is the candidate or has it below itself.
  Below : String → List String → Type 0
  Below candidate children =
      (x : String) × Member x children × ((x ≡ candidate) ⊎ Descends candidate x)

  abbrev pub Decides : Option Bool → Type 0 → Type 0
  Decides o P = (b : Bool) × (o ≡ some b) × ((b ≡ true) ↔ P)

  scan_children-Decides :
      (deep : String → Option Bool) (candidate : String) (children : List String)
      → ((x : String) → Member x children → Decides (deep x) (Descends candidate x))
      → Decides (scan_children deep candidate children) (Below candidate children)
  unfolding scan_children Below
  scan_children-Decides deep candidate [] h = (false, refl, (λ e. cc, λ (x, m, r). absurd m))
  scan_children-Decides deep candidate (c ∷ cs) h = elim (Bool-cases (str_eq c candidate)) [
    | inl e ↦ (
      true,
      rw (e, scan_children) refl,
      (λ q. (c, inl refl, inl ((eq_iff c candidate).0 e)), λ q. refl),
    )
    | inr n ↦
        let (b, e, f) = h c (inl refl) in
        elim (Bool-cases b) [
          | inl yes_b ↦ (
            true,
            rw (n, e, yes_b, scan_children) refl,
            (λ q. (c, inl refl, inr (f.0 yes_b)), λ q. refl),
          )
          | inr no_b ↦
              let (r, e', f') = scan_children-Decides deep candidate cs (λ x m. h x (inr m)) in
              (
                r,
                rw (n, e, no_b, scan_children) e',
                (
                  λ q. let (x, m, w) = f'.0 q in (x, inr m, w),
                  λ (x, m, w). elim m [
                    | inl same ↦ elim w [
                      | inl hit ↦ absurd (cc (n, (eq_iff c candidate).1 (sym same ∙ hit)))
                      | inr d ↦
                          let top : b ≡ true = f.1 (subst (Descends candidate) same d) in
                          absurd (cc (no_b, top))
                    ]
                    | inr later ↦ f'.1 (x, later, w)
                  ],
                ),
              )
        ]
  ]

  Descends-inverse :
      {candidate ancestor : String}
      → Descends candidate ancestor
      → (children : List String) × (lookup ancestor by_parent ≡ some children)
        × Below candidate children
  unfolding Below
  Descends-inverse {candidate} (is_child cs q m) = (cs, q, (candidate, m, inl refl))
  Descends-inverse (is_below x cs q m d) = (cs, q, (x, m, inr d))

  Below-Descends :
      (candidate ancestor : String) (children : List String)
      → lookup ancestor by_parent ≡ some children
      → Below candidate children ↔ Descends candidate ancestor
  unfolding Below
  Below-Descends candidate ancestor children e = (
    λ (x, m, w). elim w [
      | inl same ↦ is_child children e (subst (λ y. Member y children) same m)
      | inr d ↦ is_below x children e m d
    ],
    λ d.
        let (cs, q, below) = Descends-inverse d in
        let same : cs ≡ children = cc in subst (λ l. Below candidate l) same below,
  )

  -- In an index with no cycle, and with more fuel than the height of the ancestor, the search ends
  -- and says whether the candidate stands below the ancestor.
  pub has_descendant-Decides :
      (height : String → ℕ) (fuel : ℕ) (ancestor candidate : String)
      → IsForest height
      → height ancestor < fuel
      → Decides (has_descendant fuel by_parent ancestor candidate) (Descends candidate ancestor)
  unfolding has_descendant
  has_descendant-Decides height zero ancestor candidate f h = absurd (omega arith)
  has_descendant-Decides height (suc fuel) ancestor candidate f h =
      elim (Option-cases (lookup ancestor by_parent)) [
        | inl e ↦ (
          false,
          rw (e, has_descendant) refl,
          (λ q. cc, λ d. let (cs, q, below) = Descends-inverse d in cc (q, e)),
        )
        | inr (children, e) ↦
            let deep : (x : String)
                → Member x children
                → Decides (has_descendant fuel by_parent x candidate) (Descends candidate x) =
              λ x m.
                let lower : height x < height ancestor = f ancestor x children e m in
                has_descendant-Decides height fuel x candidate f (omega arith) in
            let (b, q, r) =
              scan_children-Decides (λ x. has_descendant fuel by_parent x candidate) candidate
                children deep in
            let s = Below-Descends candidate ancestor children e in
            (b, rw (e, has_descendant) q, (λ t. s.0 (r.0 t), λ d. r.1 (s.1 d)))
      ]
