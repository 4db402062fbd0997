-- ===== src/Session/Expiry.antt =====
-- `cleanExpired` and `list` of libraries/dbal/production/src/entities/session/crud:
-- which sessions they remove and show.
use dbal.Prelude.{
  ℕ, ◌≤◌, ◌<◌, String, ◌≡◌, ◌↔◌, refl, sym, ◌∙◌, Bool, true, false, ◌||◌, Option, none, some, List,
  [], ◌∷◌, arith, Bool-cases, Option-cases, inl, inr, leb, ltb, str_eq, eq_iff, if◌then◌else◌,
  length, Member,
}
use dbal.Prelude.Int.{pos}
use dbal.Map.{Map, lookup, erase, values, contains, lookup-erase}
use dbal.Map.Order.{
  IsOrdered, Above-IsOrdered, lookup-Above, Member-values_of_lookup, lookup_of_Member-values,
}
use dbal.Types.{Timestamp, Session, ListOptions}
use dbal.Store.{InMemoryStore}
use dbal.Store.Ids.{int_end}
use dbal.Listing.{done, filter_list}
use dbal.Listing.Sorting.{
  Member-filter_list, Member-sort_by, Member-sort_by', length-sort_by, length-filter_list,
}
use dbal.Listing.Pages.{paginate_all}
use dbal.Session.{
  expired_ids, erase_found, erase_all, clean_expired, session_matches, sort_sessions, list,
}
use dbal.Session.Invariant.{IsValid, clean_expired-IsValid}

-- What is left of an entry at a time.
abbrev pub unexpired : Timestamp → Option Session → Option Session
unexpired now none = none
unexpired now (some a) = if leb a.expires_at now then none else some a

elem : String → List String → Bool
elem k [] = false
elem k (i ∷ is) = str_eq i k || elem k is

lookup-erase_found :
    (s : InMemoryStore) (id j : String)
    → lookup j (erase_found s id).sessions ≡ (if str_eq id j then none else lookup j s.sessions)
unfolding erase_found
lookup-erase_found s id j = elim (Option-cases (lookup id s.sessions)) [
  | inl e ↦ rw (e, erase_found) (ground (arith, eq_iff id j))
  | inr (a, e) ↦ rw (e, erase_found) (lookup-erase id j s.sessions)
]

lookup-erase_all :
    (s : InMemoryStore) (ids : List String) (j : String)
    → lookup j (erase_all s ids).sessions ≡ (if elem j ids then none else lookup j s.sessions)
unfolding erase_all elem
lookup-erase_all s [] j = refl
lookup-erase_all s (id ∷ ids) j =
    ground (arith, lookup-erase_all (erase_found s id) ids j, lookup-erase_found s id j)

not-elem-expired_ids :
    (now : Timestamp) (j : String) (m : Map Session)
    → lookup j m ≡ none
    → elem j (expired_ids now m) ≡ false
unfolding expired_ids elem lookup
not-elem-expired_ids now j [] h = refl
not-elem-expired_ids now j ((i, a) ∷ m) h = ground (arith, not-elem-expired_ids now j m)

elem-expired_ids :
    (now : Timestamp) (j : String) (m : Map Session)
    → IsOrdered m
    → (if elem j (expired_ids now m) then none else lookup j m) ≡ unexpired now (lookup j m)
unfolding expired_ids elem lookup
elem-expired_ids now j [] h = refl
elem-expired_ids now j ((i, a) ∷ m) h = elim (Bool-cases (str_eq i j)) [
  | inl e ↦
      let rest : elem j (expired_ids now m) ≡ false =
        not-elem-expired_ids now j m (rw (← (eq_iff i j).0 e) (lookup-Above i m h)) in
      ground arith
  | inr e ↦ ground (arith, elem-expired_ids now j m (Above-IsOrdered i m h))
]

-- In a consistent store a cleanup removes each session that has expired and changes no other.
pub clean_expired-lookup :
    (now : Timestamp) (s : InMemoryStore) (j : String)
    → IsValid s
    → lookup j (clean_expired now s).1.sessions ≡ unexpired now (lookup j s.sessions)
unfolding clean_expired
clean_expired-lookup now s j v =
    lookup-erase_all s (expired_ids now s.sessions) j ∙ elem-expired_ids now j s.sessions v.ordered

Member-sort_sessions :
    (options : ListOptions) (a : Session) (xs : List Session)
    → Member a (sort_sessions options xs) ↔ Member a xs
unfolding sort_sessions
Member-sort_sessions options a xs = elim (Bool-cases (contains "createdAt" options.sort)) [
  | inl e ↦ rw e (Member-sort_by _ a xs, Member-sort_by' _ a xs)
  | inr e ↦ elim (Bool-cases (contains "expiresAt" options.sort)) [
    | inl f ↦ rw (e, f) (Member-sort_by _ a xs, Member-sort_by' _ a xs)
    | inr f ↦ rw (e, f) (λ m. m, λ m. m)
  ]
]

length-sort_sessions :
    (options : ListOptions) (xs : List Session) → length (sort_sessions options xs) ≡ length xs
unfolding sort_sessions
length-sort_sessions options xs = ground (
  arith,
  length-sort_by (λ (a b : Session). ltb a.created_at b.created_at) xs,
  length-sort_by (λ (a b : Session). ltb a.expires_at b.expires_at) xs,
)

-- A session as `list` shows it: stored, not expired, and one that the filters pass.
abbrev pub IsShown : Timestamp → InMemoryStore → ListOptions → Session → Type 0
IsShown now s options a =
    (id : String) × (lookup id s.sessions ≡ some a)
    × (leb a.expires_at now ≡ false)
    × (session_matches options a ≡ true)

unexpired-some :
    (now : Timestamp) (o : Option Session) (a : Session)
    → unexpired now o ≡ some a
    → (o ≡ some a) × (leb a.expires_at now ≡ false)
unexpired-some now none a h = cc
unexpired-some now (some b) a h = elim (Bool-cases (leb b.expires_at now)) [
  | inl e ↦ absurd (ground arith)
  | inr e ↦ let same : some b ≡ some a = ground arith in (same, cc)
]

shown_sessions : Timestamp → InMemoryStore → ListOptions → List Session
shown_sessions now s options =
    sort_sessions options
      (filter_list (session_matches options) (values (clean_expired now s).1.sessions))

Member-IsShown :
    (now : Timestamp) (s : InMemoryStore) (options : ListOptions) (a : Session)
    → IsValid s
    → Member a (shown_sessions now s options) ↔ IsShown now s options a
unfolding shown_sessions
Member-IsShown now s options a v =
    let left = (clean_expired now s).1.sessions in
    let filtered = filter_list (session_matches options) (values left) in
    let sorts = Member-sort_sessions options a filtered in
    let filters = Member-filter_list (session_matches options) a (values left) in
    let ordered : IsOrdered left = (clean_expired-IsValid now s v).left.ordered in
    (
      λ m.
          let (here, fits) = filters.0 (sorts.0 m) in
          let (id, e) = lookup_of_Member-values a left ordered here in
          let (p, q) = unexpired-some now _ a (sym (clean_expired-lookup now s id v) ∙ e) in
          (id, p, q, fits),
      λ (id, p, q, fits).
          let e : lookup id left ≡ some a = clean_expired-lookup now s id v ∙ rw (p, q) refl in
          sorts.1 (filters.1 (Member-values_of_lookup id a left e, fits)),
    )

length-erase : (k : String) (m : Map Session) → length (values (erase k m)) ≤ length (values m)
unfolding erase values
length-erase k [] = omega arith
length-erase k ((i, a) ∷ m) = ground (arith, length-erase k m)

length-erase_found :
    (s : InMemoryStore) (id : String)
    → length (values (erase_found s id).sessions) ≤ length (values s.sessions)
unfolding erase_found
length-erase_found s id = elim (Option-cases (lookup id s.sessions)) [
  | inl e ↦ rw (e, erase_found) (omega arith)
  | inr (a, e) ↦ rw (e, erase_found) (length-erase id s.sessions)
]

length-erase_all :
    (s : InMemoryStore) (ids : List String)
    → length (values (erase_all s ids).sessions) ≤ length (values s.sessions)
unfolding erase_all
length-erase_all s [] = omega arith
length-erase_all s (id ∷ ids) =
    omega (arith, length-erase_all (erase_found s id) ids, length-erase_found s id)

length-shown :
    (now : Timestamp) (s : InMemoryStore) (options : ListOptions)
    → length (shown_sessions now s options) ≤ length (values s.sessions)
unfolding shown_sessions clean_expired
length-shown now s options =
    let left = (clean_expired now s).1.sessions in
    omega (
      arith,
      length-sort_sessions options (filter_list (session_matches options) (values left)),
      length-filter_list (session_matches options) (values left),
      length-erase_all s (expired_ids now s.sessions),
    )

-- The first page of a list of sessions, where its limit is at least the number of sessions stored,
-- and an int, is returned and shows exactly the sessions of the consistent store that have not expired and that
-- the filters pass.
pub list-IsShown :
    (now : Timestamp) (s : InMemoryStore) (options : ListOptions) (limit : ℕ) (a : Session)
    → IsValid s
    → options.page ≡ pos 1
    → options.limit ≡ pos limit
    → limit < int_end
    → length (values s.sessions) ≤ limit
    → (shown : List Session) × ((list now s options).0 ≡ done shown)
      × (Member a shown ↔ IsShown now s options a)
unfolding list
list-IsShown now s options limit a v first bound small enough = (
  shown_sessions now s options,
  unfold shown_sessions in
      (paginate_all options.page options.limit limit (shown_sessions now s options) first bound
        small (omega (arith, length-shown now s options))),
  Member-IsShown now s options a v,
)
