-- ===== src/Gc/Written.antt =====
-- The location that a record has of a tree, as arq_writer/backuprecord.py writes it and as the walks read it.
use arq_backup_tui.Common.{
  ℕ, zero, suc, ◌≡◌, ◌≢◌, refl, Bool, true, some, ◌∷◌, length, ◌==◌, ==_iff, list_eq,
}
use arq_backup_tui.Common.Int.{pos}
use arq_backup_tui.Wire.Types.{BlobLoc, Text}
use arq_backup_tui.Record.Values.{
  int, bool, Python, get_field, truth, text_or_empty, to_int, int_or,
}
use arq_backup_tui.Record.Parse.{blobloc_to_dict}
use arq_backup_tui.Gc.Walk.{loc_of_blobloc, loc_of_dict, bid_of_dict}
use arq_backup_tui.Gc.Live.{place_of, place_of_dict}

int_or-pos : (py : Python) (n default : ℕ) → n ≢ 0 → int_or py (int (pos n)) default ≡ some (pos n)
unfolding int_or truth to_int
int_or-pos py zero default h = absurd (h refl)
int_or-pos py (suc n) default h = refl

int_or-pos_zero : (py : Python) (n : ℕ) → int_or py (int (pos n)) 0 ≡ some (pos n)
unfolding int_or truth to_int
int_or-pos_zero py zero = refl
int_or-pos_zero py (suc n) = refl

truth-bool : (py : Python) (t : Bool) → truth py (bool t) ≡ t
unfolding truth
truth-bool py t = refl

-- What the walks read of the dict that blobloc_to_dict writes is what they read of the BlobLoc itself, where
-- its compression type is not 0.
pub loc_of_dict-blobloc_to_dict :
    (py : Python) (loc : BlobLoc)
    → loc.compression_type ≢ 0
    → loc_of_dict py (blobloc_to_dict loc) ≡ some (loc_of_blobloc py loc)
unfolding loc_of_dict bid_of_dict blobloc_to_dict get_field list_eq text_or_empty truth
    loc_of_blobloc
loc_of_dict-blobloc_to_dict py loc h =
    rw
      (
        int_or-pos_zero py loc.offset,
        loc_of_dict,
        int_or-pos_zero py loc.length,
        int_or-pos py loc.compression_type 2 h,
      )
      refl

-- With an identifier of 64 characters and a path, the dict that blobloc_to_dict writes has the place of the
-- BlobLoc.
pub place_of_dict-blobloc_to_dict :
    (py : Python) (loc : BlobLoc)
    → length loc.blob_identifier ≡ 64
    → (c : ℕ) (cs : Text) → loc.relative_path ≡ c ∷ cs
    → place_of_dict py (blobloc_to_dict loc) ≡ some (place_of py loc)
unfolding place_of_dict blobloc_to_dict get_field list_eq truth place_of
place_of_dict-blobloc_to_dict py loc h c cs e =
    let long : (length loc.blob_identifier == 64) ≡ true =
      (==_iff (length loc.blob_identifier) 64).1 h in
    rw (e, place_of_dict, long) refl
