-- ===== src/Gc/Places.antt =====
-- What the several readings of one dict have to do with one another: its place, its location, and what
-- `_add_blob` and `_add_pack_path` take of it.
use arq_backup_tui.Common.{arith, ◌≡◌, refl, true, some, ◌⊎◌, inl, inr, ap, Option, none, [], ◌∷◌}
use arq_backup_tui.Common.Int.{ℤ}
use arq_backup_tui.Pack.Builder.{codes}
use arq_backup_tui.Record.Values.{
  Value, null, bool, int, text, list, dict, opaque, Fields, get_field, Python, truth, text_or_empty,
  int_or,
}
use arq_backup_tui.Gc.Walk.{TreeLoc, bid_of_dict, loc_of_dict}
use arq_backup_tui.Gc.Collect.{add_blob, add_pack_path}
use arq_backup_tui.Gc.Live.{Place, place_of_dict, stated_loc, stated_compression, IsCompressed}

-- The fields that a location takes from a dict.
pub record FromDict (py : Python) (d : Fields) (loc : TreeLoc) : Type 0 where
  pub bid : loc.bid ≡ bid_of_dict py d
  pub rel : loc.rel ≡ text_or_empty py (get_field d (codes "relativePath"))
  pub is_packed : loc.is_packed ≡ truth py (get_field d (codes "isPacked"))

pub loc_of_dict-FromDict :
    (py : Python) (d : Fields) (loc : TreeLoc) → loc_of_dict py d ≡ some loc → FromDict py d loc
unfolding loc_of_dict
loc_of_dict-FromDict py d loc e = ground arith

pub stated_loc-FromDict :
    (py : Python) (d : Fields) (loc : TreeLoc) → stated_loc py d ≡ some loc → FromDict py d loc
unfolding stated_loc bid_of_dict
stated_loc-FromDict py d loc e = ground arith

int_or-stated_compression :
    (py : Python) (v : Value)
    → (v ≡ null) ⊎ (truth py v ≡ true)
    → int_or py v 2 ≡ stated_compression py v
unfolding int_or stated_compression
int_or-stated_compression py null h = unfold truth in refl
int_or-stated_compression py (bool t) (inr h) = rw h refl
int_or-stated_compression py (int z) (inr h) = rw h refl
int_or-stated_compression py (text t) (inr h) = rw h refl
int_or-stated_compression py (list vs) (inr h) = rw h refl
int_or-stated_compression py (dict d) (inr h) = rw h refl
int_or-stated_compression py (opaque n) (inr h) = rw h refl
int_or-stated_compression py (bool t) (inl e) = cc
int_or-stated_compression py (int z) (inl e) = cc
int_or-stated_compression py (text t) (inl e) = cc
int_or-stated_compression py (list vs) (inl e) = cc
int_or-stated_compression py (dict d) (inl e) = cc
int_or-stated_compression py (opaque n) (inl e) = cc

-- The code reads the location that a dict states, unless its compression type is 0.
pub loc_of_dict-stated_loc :
    (py : Python) (d : Fields) → IsCompressed py d → loc_of_dict py d ≡ stated_loc py d
unfolding loc_of_dict stated_loc bid_of_dict
loc_of_dict-stated_loc py d h =
    ap
      (λ (c : Option ℤ).
        elim (int_or py (get_field d (codes "offset")) 0) as (λ x. Option TreeLoc) [
          | none ↦ none
          | some offset ↦
              elim (int_or py (get_field d (codes "length")) 0) as (λ x. Option TreeLoc) [
                | none ↦ none
                | some size ↦ elim c as (λ x. Option TreeLoc) [
                  | none ↦ none
                  | some compression ↦ some record {
                    bid = py.lower (text_or_empty py (get_field d (codes "blobIdentifier")));
                    rel = text_or_empty py (get_field d (codes "relativePath"));
                    is_packed = truth py (get_field d (codes "isPacked"));
                    offset = offset;
                    size = size;
                    compression = compression;
                  }
                ]
              ]
        ])
      (int_or-stated_compression py (get_field d (codes "compressionType")) h)

-- What a dict that has a place gives elsewhere.
pub record HasPlace (py : Python) (d : Fields) (place : Place) : Type 0 where
  pub blob : add_blob py d ≡ place.id ∷ []
  pub bid : bid_of_dict py d ≡ place.id
  pub rel : text_or_empty py (get_field d (codes "relativePath")) ≡ place.path
  pub is_packed : truth py (get_field d (codes "isPacked")) ≡ place.is_packed
  pub pack_path : place.is_packed ≡ true → add_pack_path py d ≡ place.path ∷ []

pub place_of_dict-HasPlace :
    (py : Python) (d : Fields) (place : Place)
    → place_of_dict py d ≡ some place
    → HasPlace py d place
unfolding place_of_dict add_blob bid_of_dict text_or_empty add_pack_path
place_of_dict-HasPlace py d place e = record {
  blob = ground arith;
  bid = ground arith;
  rel = ground arith;
  is_packed = ground arith;
  pack_path = λ h. ground arith;
}
