-- ===== src/Tests/Components.antt =====
-- The theorems on components at concrete stores.
use Prim.{tt}
use dbal.Prelude.{
  ℕ, ap, ◌∙◌, String, ◌≡◌, refl, false, true, none, some, [], ◌∷◌, arith, Member, inl, inr, str_eq,
  eq_iff, Bool-cases, subst, sym, ◌<◌, ◌↔◌, List, if◌then◌else◌,
}
use dbal.Prelude.Int.{pos, ltb_ℤ, min_ℤ, ◌-ℤ◌, ◌*ℤ◌, ◌+ℤ◌}
use dbal.Map.{lookup, values, contains}
use dbal.Component.Tree.{get_tree, build_tree, collect_children, roots, entries_at, visit_all}
use dbal.Component.Tree.Visits.{InTree, HasChildren, get_tree-InTree}
use dbal.Result.{ok}
use dbal.Types.{PageConfig, ComponentNode, ComponentOrderUpdate}
use dbal.Store.{InMemoryStore, empty_data, init}
use dbal.Component.{has_descendant, check_order, reorder}
use dbal.Component.Descent.{Descends, IsForest, Decides, has_descendant-Decides}
use dbal.Map.Order.{IsOrdered}
use dbal.Result.{err, validation_error}
use dbal.Types.{MoveComponentInput}
use dbal.Component.Descent.{is_child}
use dbal.Component.Move.{move}
use dbal.Component.Move.Cycle.{move-Descends}
use dbal.Component.Lists.{list, get_children}
use dbal.Listing.{done, filter_list, sort_by, cut, int_of, paginate}
use dbal.Component.Delete.{remove}
use dbal.Component.Delete.Shrinks.{Subtree}
use dbal.Component.Delete.Severs.{Linked, AllGone}
use dbal.Component.Delete.Parts.{IsPart, remove-IsPart}
use dbal.Component.Reorder.{ordered, reorder-ordered}

abbrev box : ComponentNode
box = record {
  id = "box";
  page_id = "page_00000001";
  parent_id = none;
  kind = "Box";
  child_ids = "";
  order = pos 0;
}

abbrev home : PageConfig
home = record {
  id = "page_00000001";
  tenant_id = none;
  package_id = none;
  path = "/home";
  title = "Home";
  description = none;
  icon = none;
  component = none;
  level = pos 1;
  requires_auth = false;
  required_role = none;
  parent_path = none;
  sort_order = pos 0;
  is_published = true;
  params = none;
  meta = none;
  created_at = 0;
}

abbrev label : ComponentNode
label = record box { id = "label"; parent_id = some "box"; kind = "Label" }

-- A box with a label in it.
abbrev store_1 : InMemoryStore
store_1 = record init {
  contents = record empty_data {
    components = ("box", box) ∷ ("label", label) ∷ [];
    components_by_page = ("page_00000001", "box" ∷ "label" ∷ []) ∷ [];
    components_by_parent = ("box", "label" ∷ []) ∷ [];
  };
}

abbrev height : String → ℕ
height id = if str_eq id "box" then 1 else 0

store_1-IsForest : IsForest store_1.components_by_parent height
unfolding lookup
store_1-IsForest parent child children e m = elim (Bool-cases (str_eq "box" parent)) [
  | inl hit ↦
      let same : "label" ∷ [] ≡ children = ground arith in
      let is_box : "box" ≡ parent = (eq_iff "box" parent).0 hit in
      elim (subst (Member child) (sym same) m) [
        | inl is_label ↦ rw (is_label, ← is_box) (omega arith)
        | inr none_left ↦ absurd none_left
      ]
  | inr miss ↦ absurd (ground arith)
]

label_there : lookup "label" store_1.components ≡ some label
unfolding lookup
label_there = refl

box_there : lookup "box" store_1.components ≡ some box
unfolding lookup
box_there = refl

children_of_box : get_children store_1 "box" (some "Label") (pos 0) ≡ done (ok (label ∷ []))
unfolding get_children lookup filter_list sort_by cut ltb_ℤ
children_of_box = refl

listed_labels :
    list store_1
      (record { filters = ("type", "Label") ∷ []; sort = []; page = pos 0; limit = pos 0 })
    ≡ done (label ∷ [])
unfolding list values lookup paginate int_of ◌-ℤ◌ ◌*ℤ◌ ◌+ℤ◌ ltb_ℤ min_ℤ
listed_labels = refl

has_descendant-Decides_example :
    Decides store_1.components_by_parent
      (has_descendant 2 store_1.components_by_parent "box" "label")
      (Descends store_1.components_by_parent "label" "box")
has_descendant-Decides_example =
    has_descendant-Decides store_1.components_by_parent height 2 "box" "label" store_1-IsForest
      (omega arith)

store_1-Linked : Linked store_1
unfolding lookup
store_1-Linked parent child (children, e, m) = elim (Bool-cases (str_eq "box" parent)) [
  | inl hit ↦ (
    box,
    ap (λ (i : String). lookup i store_1.components) (sym ((eq_iff "box" parent).0 hit))
        ∙ box_there,
  )
  | inr miss ↦ absurd (ground arith)
]

remove-IsPart_example :
    (t : InMemoryStore) × (remove 2 store_1 "box" ≡ some (ok true, t))
    × IsPart store_1 t (Subtree store_1.components_by_parent "box")
    × AllGone store_1 "box" t
remove-IsPart_example =
    remove-IsPart height 2 store_1 "box" box store_1-IsForest store_1-Linked (omega arith) refl
      box_there

abbrev update : ComponentOrderUpdate
update = record { id = "label"; order = pos 3 }

abbrev store_2 : InMemoryStore
store_2 = (reorder store_1 (update ∷ [])).1

reorder_1 : reorder store_1 (update ∷ []) ≡ (ok true, store_2)
unfolding reorder check_order lookup ltb_ℤ
reorder_1 = refl

reorder-ordered_example :
    ((a : ComponentNode) × (lookup "label" store_1.components ≡ some a)
      × (ltb_ℤ (pos 3) (pos 0) ≡ false))
    × (lookup "label" store_2.components
        ≡ ordered (update ∷ []) "label" (lookup "label" store_1.components))
reorder-ordered_example =
    reorder-ordered store_1 (update ∷ []) update "label" {b = true} {s' = store_2} reorder_1
      (inl refl)

not_negative : ltb_ℤ (pos 0) (pos 0) ≡ false
unfolding ltb_ℤ
not_negative = refl

-- The box under its own label.
abbrev inwards : MoveComponentInput
inwards = record { id = "box"; new_parent_id = "label"; order = pos 0 }

children_there : lookup "box" store_1.components_by_parent ≡ some ("label" ∷ [])
unfolding lookup
children_there = refl

move-Descends_example :
    move 2 store_1 inwards
    ≡ some (err (validation_error "Cannot move component under its descendant"), store_1)
move-Descends_example =
    move-Descends height 2 store_1 inwards box label store_1-IsForest (omega arith) refl
      not_negative box_there refl refl refl label_there refl
      (is_child ("label" ∷ []) children_there (inl refl))

components_in_order : IsOrdered store_1.components
components_in_order = (refl, tt)

-- The same components, on a page that is stored.
abbrev paged : InMemoryStore
paged = record store_1 {
  contents = record store_1.contents { pages = ("page_00000001", home) ∷ [] };
}

low : (id : String) → height id < 2
low id = elim (Bool-cases (str_eq id "box")) [
  | inl e ↦ rw e (omega arith)
  | inr e ↦ rw e (omega arith)
]

paged_children : HasChildren paged "page_00000001"
unfolding lookup
paged_children parent child children e m = elim (Bool-cases (str_eq "box" parent)) [
  | inl hit ↦
      let same : "label" ∷ [] ≡ children = ground arith in
      elim (subst (Member child) (sym same) m) [
        | inl is_label ↦ rw is_label (label, refl)
        | inr none_left ↦ absurd none_left
      ]
  | inr miss ↦ absurd (ground arith)
]

get_tree-InTree_example :
    (tree : List ComponentNode) × (get_tree 3 paged "page_00000001" ≡ some (done (ok tree)))
    × ((n : ComponentNode) → Member n tree ↔ InTree paged "page_00000001" n)
unfolding contains lookup
get_tree-InTree_example =
    get_tree-InTree paged "page_00000001" height store_1-IsForest paged_children 2 (refl, tt) low
      refl refl

tree_of_box : get_tree 3 paged "page_00000001" ≡ some (done (ok (box ∷ label ∷ [])))
unfolding get_tree contains lookup build_tree collect_children roots entries_at visit_all sort_by
    ltb_ℤ
tree_of_box = refl
