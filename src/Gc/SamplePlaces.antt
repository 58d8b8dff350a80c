-- ===== src/Gc/SamplePlaces.antt =====
-- The paths of the sample destination: which of its files a path of the layout can be.
use arq_backup_tui.Common.{
  ◌≡◌, refl, sym, ap, ◌∙◌, subst, Bool, true, false, ◌∷◌, ◌++◌, append_assoc, ◌⊎◌, inl, inr,
  Bool-cases, ◌==◌, ◌&&◌, list_eq, list_eq_iff,
}
use arq_backup_tui.Wire.Types.{Text}
use arq_backup_tui.Pack.Builder.{codes}
use arq_backup_tui.Layout.Paths.{
  join, rstrip_slash, computer_root, object_path, keyset_path, matches_all, computer_uuid_re,
  is_hex, is_hex_lower, IsComputer, standardobjects_dir, treepacks_dir, blobpacks_dir,
  largeblobpacks_dir,
}
use arq_backup_tui.Layout.Slash.{
  NoSlash, first_name, two_names, slash_inside, has_slash-NoSlash, IsComputer-NoSlash,
}
use arq_backup_tui.Gc.Disk.{Differs, NoEntry}
use arq_backup_tui.Gc.Computer.{IsPackFamily}
use arq_backup_tui.Gc.Live.{Place}
use arq_backup_tui.Gc.Same.{InFolders, InFolders-join}
use arq_backup_tui.Gc.Spare.{IsFamily, IsPlaced, IsSeparate}
use arq_backup_tui.Gc.Sample.{cu, tree_id, tree_path, pack_path, object_rest, python}

abbrev pub root : Text
root = codes "/"

pub cu-IsComputer : IsComputer cu
unfolding matches_all computer_uuid_re is_hex is_hex_lower
cu-IsComputer = refl

object_path_eq :
    (other family shard name : Text)
    → object_path root other family shard name
      ≡ 0x2f ∷ (other ++ 0x2f ∷ (family ++ 0x2f ∷ (shard ++ 0x2f ∷ name)))
unfolding object_path computer_root join rstrip_slash
object_path_eq other family shard name =
    rw
      (
        append_assoc ((other ++ 0x2f ∷ family)) (0x2f ∷ shard) (0x2f ∷ name),
        append_assoc other (0x2f ∷ family) (0x2f ∷ (shard ++ 0x2f ∷ name)),
      )
      refl

family_NoSlash : (family : Text) → IsFamily family → NoSlash family
family_NoSlash family (inl e) = subst NoSlash (sym e) (has_slash-NoSlash standardobjects_dir refl)
family_NoSlash family (inr (inl e)) = subst NoSlash (sym e) (has_slash-NoSlash treepacks_dir refl)
family_NoSlash family (inr (inr (inl e))) =
    subst NoSlash (sym e) (has_slash-NoSlash blobpacks_dir refl)
family_NoSlash family (inr (inr (inr e))) =
    subst NoSlash (sym e) (has_slash-NoSlash largeblobpacks_dir refl)

-- What a file of objects below the sample's computer has for its names.
below_computer :
    (other family shard name rest : Text)
    → IsComputer other
    → object_path root other family shard name ≡ 0x2f ∷ (cu ++ 0x2f ∷ rest)
    → (other ≡ cu) × (family ++ 0x2f ∷ (shard ++ 0x2f ∷ name) ≡ rest)
below_computer other family shard name rest c e =
    let whole : 0x2f ∷ (other ++ 0x2f ∷ (family ++ 0x2f ∷ (shard ++ 0x2f ∷ name)))
        ≡ 0x2f ∷ (cu ++ 0x2f ∷ rest) =
      sym (object_path_eq other family shard name) ∙ e in
    let tails : other ++ 0x2f ∷ (family ++ 0x2f ∷ (shard ++ 0x2f ∷ name)) ≡ cu ++ 0x2f ∷ rest =
      cc in
    first_name other cu (family ++ 0x2f ∷ (shard ++ 0x2f ∷ name)) rest (IsComputer-NoSlash other c)
      (IsComputer-NoSlash cu cu-IsComputer) tails

in_family :
    (family shard name X Y : Text)
    → IsFamily family
    → NoSlash X
    → family ++ 0x2f ∷ (shard ++ 0x2f ∷ name) ≡ X ++ 0x2f ∷ Y
    → (family ≡ X) × (shard ++ 0x2f ∷ name ≡ Y)
in_family family shard name X Y f g e =
    first_name family X (shard ++ 0x2f ∷ name) Y (family_NoSlash family f) g e

abbrev starts_as_folders : Text → Bool
starts_as_folders (c ∷ d ∷ cs) = (c == 0x62) && (d == 0x61)
starts_as_folders other = false

-- No family's path starts as the folders' does.
not_folders :
    (family rest more : Text) → IsFamily family → family ++ rest ≡ codes "backupfolders" ++ more → ⊥
not_folders family rest more (inl e) same =
    let s : standardobjects_dir ++ rest ≡ codes "backupfolders" ++ more =
      subst (λ t. t ++ rest ≡ codes "backupfolders" ++ more) e same in
    let wrong : false ≡ true = ap starts_as_folders s in absurd cc
not_folders family rest more (inr (inl e)) same =
    let s : treepacks_dir ++ rest ≡ codes "backupfolders" ++ more =
      subst (λ t. t ++ rest ≡ codes "backupfolders" ++ more) e same in
    let wrong : false ≡ true = ap starts_as_folders s in absurd cc
not_folders family rest more (inr (inr (inl e))) same =
    let s : blobpacks_dir ++ rest ≡ codes "backupfolders" ++ more =
      subst (λ t. t ++ rest ≡ codes "backupfolders" ++ more) e same in
    let wrong : false ≡ true = ap starts_as_folders s in absurd cc
not_folders family rest more (inr (inr (inr e))) same =
    let s : largeblobpacks_dir ++ rest ≡ codes "backupfolders" ++ more =
      subst (λ t. t ++ rest ≡ codes "backupfolders" ++ more) e same in
    let wrong : false ≡ true = ap starts_as_folders s in absurd cc

folders_apart :
    (other family shard name q : Text)
    → IsComputer other
    → IsFamily family
    → InFolders root cu q
    → Differs (object_path root other family shard name) q
unfolding computer_root join rstrip_slash
folders_apart other family shard name q c f (rest, e) same =
    not_folders family (0x2f ∷ (shard ++ 0x2f ∷ name)) rest f
      (below_computer other family shard name (codes "backupfolders" ++ rest) c (same ∙ e)).1

keyset_apart :
    (other family shard name : Text)
    → IsComputer other
    → IsFamily family
    → Differs (object_path root other family shard name) (keyset_path root cu)
unfolding keyset_path computer_root join rstrip_slash
keyset_apart other family shard name c f same = slash_inside family (shard ++ 0x2f ∷ name) (
    subst NoSlash
      (sym (below_computer other family shard name (codes "encryptedkeyset.dat") c same).1)
      (has_slash-NoSlash (codes "encryptedkeyset.dat") refl))

pub sample-IsSeparate : IsSeparate Differs NoEntry python.lower root cu
sample-IsSeparate = record {
  folders = λ other family shard name q c f h. (
    folders_apart other family shard name q c f h,
    λ n same.
        folders_apart other family shard name (join q n) c f (InFolders-join root cu q n h)
          (sym same),
  );
  keyset = keyset_apart;
}

equal-or-Differs : (p q : Text) → (p ≡ q) ⊎ Differs p q
equal-or-Differs p q = elim (Bool-cases (list_eq p q)) [
  | inl same ↦ inl ((list_eq_iff p q).0 same)
  | inr differs ↦ inr (λ e. let yes : list_eq p q ≡ true = (list_eq_iff p q).1 e in absurd cc)
]

not_objects : (family : Text) → IsPackFamily family → family ≡ standardobjects_dir → ⊥
unfolding list_eq
not_objects family (inl e) same =
    let wrong : false ≡ true = ap (λ t. list_eq t standardobjects_dir) (sym e ∙ same) in absurd cc
not_objects family (inr (inl e)) same =
    let wrong : false ≡ true = ap (λ t. list_eq t standardobjects_dir) (sym e ∙ same) in absurd cc
not_objects family (inr (inr e)) same =
    let wrong : false ≡ true = ap (λ t. list_eq t standardobjects_dir) (sym e ∙ same) in absurd cc

-- The tree's object, and the pack with the file's data.
abbrev pub tree_place : Place
tree_place = record { id = tree_id; is_packed = false; path = tree_path }

abbrev pub data_place : Place
data_place = record { id = codes "bb"; is_packed = true; path = pack_path }

tree_at :
    (other family shard name : Text)
    → IsComputer other
    → IsFamily family
    → object_path root other family shard name ≡ tree_path
    → (other ≡ cu) × (family ≡ standardobjects_dir) × (shard ++ name ≡ tree_id)
tree_at other family shard name c f e =
    let (same, below) =
      below_computer other family shard name (codes "standardobjects/aa/" ++ object_rest) c e in
    let (its_family, inside) =
      in_family family shard name standardobjects_dir (codes "aa/" ++ object_rest) f
        (has_slash-NoSlash standardobjects_dir refl) below in
    let (its_shard, its_name) =
      two_names shard name (codes "aa") object_rest (has_slash-NoSlash (codes "aa") refl)
        (has_slash-NoSlash object_rest refl) inside in
    (same, its_family, rw (its_shard, its_name) refl)

data_at :
    (other family shard name : Text)
    → IsComputer other
    → IsFamily family
    → object_path root other family shard name ≡ pack_path
    → (other ≡ cu) × (family ≡ blobpacks_dir)
data_at other family shard name c f e =
    let (same, below) = below_computer other family shard name (codes "blobpacks/bb/P.pack") c e in
    let (its_family, inside) =
      in_family family shard name blobpacks_dir (codes "bb/P.pack") f
        (has_slash-NoSlash blobpacks_dir refl) below in
    (same, its_family)

pub tree_place-IsPlaced : IsPlaced Differs NoEntry python.lower root cu tree_place
tree_place-IsPlaced = record {
  objects = λ other shard name c.
      elim (equal-or-Differs (object_path root other standardobjects_dir shard name) tree_path) [
        | inl e ↦
            let (same, its_family, its_name) =
              tree_at other standardobjects_dir shard name c (inl refl) e in
            inl (same, its_name)
        | inr d ↦ inr d
      ];
  packs = λ other family shard name c f.
      elim (equal-or-Differs (object_path root other family shard name) tree_path) [
        | inl e ↦ absurd (not_objects family f (tree_at other family shard name c (inr f) e).1)
        | inr d ↦ inr d
      ];
}

pub data_place-IsPlaced : IsPlaced Differs NoEntry python.lower root cu data_place
data_place-IsPlaced = record {
  objects = λ other shard name c.
      elim (equal-or-Differs (object_path root other standardobjects_dir shard name) pack_path) [
        | inl e ↦ absurd (
            not_objects blobpacks_dir (inr (inl refl))
              (sym (data_at other standardobjects_dir shard name c (inl refl) e).1))
        | inr d ↦ inr d
      ];
  packs = λ other family shard name c f.
      elim (equal-or-Differs (object_path root other family shard name) pack_path) [
        | inl e ↦ inl ((data_at other family shard name c (inr f) e).0, refl, e)
        | inr d ↦ inr d
      ];
}
