-- ===== src/Page/Updates.antt =====
-- `update` of libraries/dbal/production/src/entities/page/crud/update_page.hpp:
-- the assignments, the index, and the store after a failure.
use dbal.Prelude.{
  String, ◌≡◌, ◌≢◌, refl, sym, subst, ◌∙◌, true, false, none, some, arith, Option-cases, Bool-cases,
  inl, inr, is_empty, str_eq, eq_refl, value_or, or_else, if◌then◌else◌,
}
use dbal.Map.{lookup, lookup-insert, taken}
use dbal.Result.{
  Result, ok, err, validation_error, reject_if, find_or, when_set, reject_if-ok, find_or-ok,
  when_set-ok,
}
use dbal.Types.{PageConfig, UpdatePageInput}
use dbal.Store.{InMemoryStore}
use dbal.Validation.{is_valid_path}
use dbal.Page.{
  update, update_path, update_title, update_texts, update_level, update_rest, put_page, repath,
  set_rest, set_texts, bad_title,
}
use dbal.Page.Invariant.{IsValid, update-IsValid}

-- The page with each field that the input gives.
abbrev pub assigned : UpdatePageInput → PageConfig → PageConfig
assigned input a = record a {
  path = value_or input.path a.path;
  title = value_or input.title a.title;
  description = or_else input.description a.description;
  icon = or_else input.icon a.icon;
  component = or_else input.component a.component;
  level = value_or input.level a.level;
  requires_auth = value_or input.requires_auth a.requires_auth;
  required_role = or_else input.required_role a.required_role;
  parent_path = or_else input.parent_path a.parent_path;
  sort_order = value_or input.sort_order a.sort_order;
  is_published = value_or input.is_published a.is_published;
  params = or_else input.params a.params;
  meta = or_else input.meta a.meta;
  package_id = or_else input.package_id a.package_id;
  tenant_id = or_else input.tenant_id a.tenant_id;
}

-- `s'` has `b` under `id` and is otherwise as `s`, as far as the pages go.
abbrev pub Assigns : InMemoryStore → String → PageConfig → InMemoryStore → Type 0
Assigns s id b s' =
    (j : String) → lookup j s'.pages ≡ (if str_eq id j then some b else lookup j s.pages)

-- A write under the id before the last one does not show.
Assigns-put :
    (s t s' : InMemoryStore) (id : String) (c b : PageConfig)
    → Assigns s id c t
    → Assigns t id b s'
    → Assigns s id b s'
Assigns-put s t s' id c b first last j = ground (arith, first j, last j)

update_rest-ok :
    (s : InMemoryStore) (id : String) (a : PageConfig) (input : UpdatePageInput) {b : PageConfig}
    {s' : InMemoryStore}
    → update_rest s id a input ≡ (ok b, s')
    → (b ≡ set_rest input a) × Assigns s id b s'
unfolding update_rest
update_rest-ok s id a input {b} {s'} h =
    let e : set_rest input a ≡ b = cc in
    (
      sym e,
      λ j.
          subst
            (λ (r : Result PageConfig × InMemoryStore).
              lookup j r.1.pages ≡ (if str_eq id j then some b else lookup j s.pages))
            h (lookup-insert id j (set_rest input a) s.pages ∙ rw e refl),
    )

update_level-ok :
    (s : InMemoryStore) (id : String) (a : PageConfig) (input : UpdatePageInput) {b : PageConfig}
    {s' : InMemoryStore}
    → update_level s id a input ≡ (ok b, s')
    → (b ≡ set_rest input (record a { level = value_or input.level a.level })) × Assigns s id b s'
unfolding update_level
update_level-ok s id a input {b} {s'} h = elim (when_set-ok _ _ _ h) [
  | inl (e, k) ↦ let r = update_rest-ok s id a input k in rw e r
  | inr (level, e, k) ↦
      let (p, k₁) = reject_if-ok _ _ _ _ k in
      let c : PageConfig = record a { level = level } in
      let r = update_rest-ok _ id c input k₁ in
      rw e (r.0, Assigns-put s (put_page s id c) s' id c b (λ j. lookup-insert id j c s.pages) r.1)
]

update_texts-ok :
    (s : InMemoryStore) (id : String) (a : PageConfig) (input : UpdatePageInput) {b : PageConfig}
    {s' : InMemoryStore}
    → update_texts s id a input ≡ (ok b, s')
    → (b ≡ set_rest input (record (set_texts input a) { level = value_or input.level a.level }))
      × Assigns s id b s'
unfolding update_texts
update_texts-ok s id a input {b} {s'} h =
    let c : PageConfig = set_texts input a in
    let r = update_level-ok (put_page s id c) id c input h in
    (r.0, Assigns-put s (put_page s id c) s' id c b (λ j. lookup-insert id j c s.pages) r.1)

-- What `update` assigns after the path.
abbrev titled : UpdatePageInput → PageConfig → PageConfig
titled input a =
    set_rest input (record (set_texts input (record a { title = value_or input.title a.title })) {
      level = value_or input.level a.level;
    })

update_title-ok :
    (s : InMemoryStore) (id : String) (a : PageConfig) (input : UpdatePageInput) {b : PageConfig}
    {s' : InMemoryStore}
    → update_title s id a input ≡ (ok b, s')
    → (b ≡ titled input a) × Assigns s id b s'
unfolding update_title
update_title-ok s id a input {b} {s'} h = elim (when_set-ok _ _ _ h) [
  | inl (e, k) ↦ let r = update_texts-ok s id a input k in rw e r
  | inr (title, e, k) ↦
      let (p, k₁) = reject_if-ok _ _ _ _ k in
      let c : PageConfig = record a { title = title } in
      let r = update_texts-ok (put_page s id c) id c input k₁ in
      rw e (r.0, Assigns-put s (put_page s id c) s' id c b (λ j. lookup-insert id j c s.pages) r.1)
]

update_path-ok :
    (s : InMemoryStore) (id : String) (a : PageConfig) (input : UpdatePageInput) {b : PageConfig}
    {s' : InMemoryStore}
    → update_path s id a input ≡ (ok b, s')
    → (b ≡ assigned input a) × Assigns s id b s'
unfolding update_path
update_path-ok s id a input {b} {s'} h = elim (when_set-ok _ _ _ h) [
  | inl (e, k) ↦ let r = update_title-ok s id a input k in rw e r
  | inr (path, e, k) ↦
      let (p, k₁) = reject_if-ok _ _ _ _ k in
      let (q, k₂) = reject_if-ok _ _ _ _ k₁ in
      let c : PageConfig = record a { path = path } in
      let r = update_title-ok (repath s id a path) id c input k₂ in
      rw e
        (r.0, Assigns-put s (repath s id a path) s' id c b (λ j. lookup-insert id j c s.pages) r.1)
]

-- An update that succeeds finds a page under the id, assigns each field that the input gives and no
-- other, returns the page as it is stored now, and changes no other page.
pub update_page-assigned :
    (s : InMemoryStore) (id : String) (input : UpdatePageInput) {b : PageConfig}
    {s' : InMemoryStore}
    → update s id input ≡ (ok b, s')
    → (a : PageConfig) × (lookup id s.pages ≡ some a) × (b ≡ assigned input a) × Assigns s id b s'
unfolding update
update_page-assigned s id input h =
    let (p, k) = reject_if-ok _ _ _ _ h in
    let (a, e, k₁) = find_or-ok _ _ _ _ k in
    let r = update_path-ok s id a input k₁ in (a, e, r.0, r.1)

-- In a consistent store an update that succeeds makes the path that it returns the one that leads to
-- the page, and if the path is another than before, the old one leads nowhere.
pub update-moves_path :
    (s : InMemoryStore) (id : String) (input : UpdatePageInput) (a b : PageConfig)
    {s' : InMemoryStore}
    → IsValid s
    → lookup id s.pages ≡ some a
    → update s id input ≡ (ok b, s')
    → (lookup b.path s'.page_paths ≡ some id)
      × (a.path ≢ b.path → lookup a.path s'.page_paths ≡ none)
update-moves_path s id input a b {s'} v old h =
    let (a', e, same, set) = update_page-assigned s id input h in
    let w : IsValid s' = subst (λ r. IsValid r.1) h (update-IsValid s id input v).left in
    (
      w.index.forward id b (set id ∙ ground (arith, eq_refl id)),
      λ differ. elim (Option-cases (lookup a.path s'.page_paths)) [
        | inl n ↦ n
        | inr (j, p) ↦
            let (c, q, r) = w.index.backward a.path j p in
            elim (Bool-cases (str_eq id j)) [
              | inl hit ↦
                  let is_b : some b ≡ some c = ground (arith, set j) in
                  absurd (differ (sym r ∙ sym (cc)))
              | inr miss ↦
                  let there : lookup j s.pages ≡ some c = ground (arith, set j) in
                  absurd
                    (cc (v.index.forward j c there, v.index.forward id a old, eq_refl id, r, miss))
            ]
      ],
    )

-- An update is not all or nothing: where it gives a valid path that is free and a title that is not
-- valid, it returns an error, but the page has moved to the new path already.
pub update-keeps_path :
    (s : InMemoryStore) (id : String) (input : UpdatePageInput) (a : PageConfig)
    (path title : String)
    → is_empty id ≡ false
    → lookup id s.pages ≡ some a
    → input.path ≡ some path
    → is_valid_path path ≡ true
    → taken (lookup path s.page_paths) id ≡ false
    → input.title ≡ some title
    → bad_title title ≡ true
    → update s id input
      ≡ (err (validation_error "Title must be between 1 and 255 characters"), repath s id a path)
unfolding update update_path update_title reject_if find_or when_set
update-keeps_path s id input a path title p e u q k t r = rw (p, e, u, q, k, t, r) refl
