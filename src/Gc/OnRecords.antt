-- ===== src/Gc/OnRecords.antt =====
-- Predicates on the items, the nodes and the folders of records, and that they grow.
use arq_backup_tui.Common.{◌≡◌, true, Option, none, some, List, All}
use arq_backup_tui.Common.Result.{ok}
use arq_backup_tui.Wire.Types.{Text}
use arq_backup_tui.Pack.Builder.{codes}
use arq_backup_tui.Backend.{Backend}
use arq_backup_tui.Record.Values.{
  Value, null, bool, int, text, list, dict, opaque, Values, nil, cons, Fields, get_field, Python,
}
use arq_backup_tui.Layout.Paths.{backupfolders_dir, join, computer_root}
use arq_backup_tui.Layout.Records.{list_backuprecords}
use arq_backup_tui.Gc.Walk.{or_raise}

-- A predicate on the dicts of a list.
abbrev pub AllDicts : (Fields → Type 0) → Values → Type 0
AllDicts Q nil = Unit
AllDicts Q (cons (dict d) vs) = Q d × AllDicts Q vs
AllDicts Q (cons other vs) = AllDicts Q vs

abbrev pub OnItems : (Fields → Type 0) → Value → Type 0
OnItems Q (list vs) = AllDicts Q vs
OnItems Q other = Unit

abbrev pub OnDict : (Fields → Type 0) → Value → Type 0
OnDict Q (dict d) = Q d
OnDict Q other = Unit

-- What is asked of the node of a record: of each location in its lists, and of that of its tree.
abbrev pub OnNode : (Fields → Type 0) → (Fields → Type 0) → Value → Type 0
OnNode Q T (dict node) =
    OnItems Q (get_field node (codes "dataBlobLocs"))
    × OnItems Q (get_field node (codes "xattrsBlobLocs"))
    × OnDict T (get_field node (codes "treeBlobLoc"))
OnNode Q T other = Unit

abbrev pub OnRecord : (Fields → Type 0) → (Fields → Type 0) → Option Fields → Type 0
OnRecord Q T none = Unit
OnRecord Q T (some rec) = OnNode Q T (get_field rec (codes "node"))

pub or_raise_ok {ℓ} : {A : Type ℓ} (o : Option A) (a : A) → or_raise o ≡ ok a → o ≡ some a
unfolding or_raise
or_raise_ok none a e = cc
or_raise_ok (some c) a e = cc

-- A predicate on the path of every record of a folder, and of every record of a computer.
module _ {State : Type 0} (b : Backend State) (py : Python) (s : State) (root cu : Text)
    (Q : Text → Type 0) where
  abbrev pub OnFolder : Text → Type 0
  OnFolder fu =
      (paths : List Text) → list_backuprecords b py s root cu fu ≡ some paths → All Q paths

  abbrev pub EachRecord : Type 0
  EachRecord =
      (folders : List Text)
      → b.is_dir s (join (computer_root root cu) backupfolders_dir) ≡ true
      → b.list_dir s (join (computer_root root cu) backupfolders_dir) ≡ some folders
      → All OnFolder folders

module _ (Q R T U : Fields → Type 0) (q : (d : Fields) → Q d → R d)
    (t : (d : Fields) → T d → U d) where
  pub AllDicts-mono : (vs : Values) → AllDicts Q vs → AllDicts R vs
  AllDicts-mono nil h = tt
  AllDicts-mono (cons (dict d) vs) (h, hs) = (q d h, AllDicts-mono vs hs)
  AllDicts-mono (cons null vs) h = AllDicts-mono vs h
  AllDicts-mono (cons (bool b) vs) h = AllDicts-mono vs h
  AllDicts-mono (cons (int z) vs) h = AllDicts-mono vs h
  AllDicts-mono (cons (text x) vs) h = AllDicts-mono vs h
  AllDicts-mono (cons (list us) vs) h = AllDicts-mono vs h
  AllDicts-mono (cons (opaque n) vs) h = AllDicts-mono vs h

  OnItems-mono : (v : Value) → OnItems Q v → OnItems R v
  OnItems-mono (list vs) h = AllDicts-mono vs h
  OnItems-mono (dict d) h = tt
  OnItems-mono null h = tt
  OnItems-mono (bool b) h = tt
  OnItems-mono (int z) h = tt
  OnItems-mono (text x) h = tt
  OnItems-mono (opaque n) h = tt

  OnDict-mono : (v : Value) → OnDict T v → OnDict U v
  OnDict-mono (dict d) h = t d h
  OnDict-mono (list vs) h = tt
  OnDict-mono null h = tt
  OnDict-mono (bool b) h = tt
  OnDict-mono (int z) h = tt
  OnDict-mono (text x) h = tt
  OnDict-mono (opaque n) h = tt

  OnNode-mono : (v : Value) → OnNode Q T v → OnNode R U v
  OnNode-mono (dict node) (a, b, c) = (
    OnItems-mono (get_field node (codes "dataBlobLocs")) a,
    OnItems-mono (get_field node (codes "xattrsBlobLocs")) b,
    OnDict-mono (get_field node (codes "treeBlobLoc")) c,
  )
  OnNode-mono (list vs) h = tt
  OnNode-mono null h = tt
  OnNode-mono (bool b) h = tt
  OnNode-mono (int z) h = tt
  OnNode-mono (text x) h = tt
  OnNode-mono (opaque n) h = tt

  pub OnRecord-mono : (r : Option Fields) → OnRecord Q T r → OnRecord R U r
  OnRecord-mono none h = tt
  OnRecord-mono (some rec) h = OnNode-mono (get_field rec (codes "node")) h
