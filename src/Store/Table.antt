-- ===== src/Store/Table.antt =====
-- One kind of entity in the store of libraries/dbal/production/src/store/in_memory_store.hpp: its
-- map, its counter and its unique index, with a lemma for each way in which the operations write.
use dbal.Prelude.{ℕ, suc, ◌<◌, String, ◌≡◌, true, false, none, some}
use dbal.Map.{Map, lookup, insert, erase, taken, not-taken}
use dbal.Map.Order.{IsOrdered, insert-IsOrdered, erase-IsOrdered}
use dbal.Store.Ids.{generate_id, fits_buffer, int_end}
use dbal.Store.Index.{
  IsIndexed, IsIndexed-insert, IsIndexed-erase, IsIndexed-replace, IsIndexed-rekey, IsNumbered,
  IsNumbered-fresh, IsNumbered-insert, IsNumbered-erase, IsNumbered-replace,
}

module _ {E : Type 0} (prefix : String) (key id : E → String) where
  pub record IsTable (counter : ℕ) (m : Map E) (ix : Map String) : Type 0 where
    pub index : IsIndexed key m ix
    pub ids : IsNumbered prefix id counter m
    pub ordered : IsOrdered m

  module _ {counter : ℕ} {m : Map E} {ix : Map String} (h : IsTable counter m ix) where
    pub IsTable-insert :
        (e : E)
        → fits_buffer prefix ≡ true
        → suc counter < int_end
        → id e ≡ generate_id prefix (suc counter)
        → lookup (key e) ix ≡ none
        → IsTable (suc counter) (insert (id e) e m) (insert (key e) (id e) ix)
    IsTable-insert e short small own free = rw own (record {
      index =
          IsIndexed-insert key h.index (generate_id prefix (suc counter)) e
            (IsNumbered-fresh prefix id h.ids short small) free;
      ids = IsNumbered-insert prefix id h.ids e own;
      ordered = insert-IsOrdered _ e m h.ordered;
    })

    pub IsTable-erase :
        (i : String) (e : E) → lookup i m ≡ some e → IsTable counter (erase i m) (erase (key e) ix)
    IsTable-erase i e old = record {
      index = IsIndexed-erase key h.index i e old;
      ids = IsNumbered-erase prefix id h.ids i;
      ordered = erase-IsOrdered i m h.ordered;
    }

    module _ (i : String) (e f : E) (old : lookup i m ≡ some e) (own : id f ≡ id e) where
      pub IsTable-replace : key f ≡ key e → IsTable counter (insert i f m) ix
      IsTable-replace same = record {
        index = IsIndexed-replace key h.index i e f old same;
        ids = IsNumbered-replace prefix id h.ids i e f old own;
        ordered = insert-IsOrdered i f m h.ordered;
      }

      pub IsTable-rekey :
          taken (lookup (key f) ix) i ≡ false
          → IsTable counter (insert i f m) (insert (key f) i (erase (key e) ix))
      IsTable-rekey free = record {
        index = IsIndexed-rekey key h.index i e f old (not-taken (lookup (key f) ix) i free);
        ids = IsNumbered-replace prefix id h.ids i e f old own;
        ordered = insert-IsOrdered i f m h.ordered;
      }
