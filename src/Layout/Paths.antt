-- ===== src/Layout/Paths.antt =====
-- The paths of a destination, and the names that arq_validator/constants.py gives and tests.
use arq_backup_tui.Common.{
  ℕ, ◌≡◌, Bool, true, false, ◌&&◌, ◌||◌, List, [], ◌∷◌, ◌++◌, leb, ◌==◌, replicate,
}
use arq_backup_tui.Wire.Types.{Text}
use arq_backup_tui.Pack.Builder.{codes}

abbrev pub blobpacks_dir : Text
blobpacks_dir = codes "blobpacks"

abbrev pub treepacks_dir : Text
treepacks_dir = codes "treepacks"

abbrev pub largeblobpacks_dir : Text
largeblobpacks_dir = codes "largeblobpacks"

abbrev pub standardobjects_dir : Text
standardobjects_dir = codes "standardobjects"

abbrev pub backupfolders_dir : Text
backupfolders_dir = codes "backupfolders"

abbrev pub backuprecords_dir : Text
backuprecords_dir = codes "backuprecords"

abbrev pub keyset_file : Text
keyset_file = codes "encryptedkeyset.dat"

-- `f"{directory}/{name}"`
unfoldable pub join : Text → Text → Text
join directory name = directory ++ (codes "/" ++ name)

-- `path.rstrip("/")`
unfoldable pub rstrip_slash : Text → Text
rstrip_slash [] = []
rstrip_slash (c ∷ cs) = elim (rstrip_slash cs) [
  | [] ↦ elim (c == 0x2f) [ true ↦ [] | false ↦ c ∷ [] ]
  | d ∷ ds ↦ c ∷ d ∷ ds
]

unfoldable pub computer_root : Text → Text → Text
computer_root root computer_uuid = join (rstrip_slash root) computer_uuid

unfoldable pub object_path : Text → Text → Text → Text → Text → Text
object_path root computer_uuid kind shard file_name =
    join (join (join (computer_root root computer_uuid) kind) shard) file_name

unfoldable pub keyset_path : Text → Text → Text
keyset_path root computer_uuid = join (computer_root root computer_uuid) keyset_file

abbrev digit : ℕ → Bool
digit c = leb 0x30 c && leb c 0x39

unfoldable pub is_hex_lower : ℕ → Bool
is_hex_lower c = digit c || (leb 0x61 c && leb c 0x66)

unfoldable pub is_hex : ℕ → Bool
is_hex c = is_hex_lower c || (leb 0x41 c && leb c 0x46)

-- A regular expression that gives a test for each character, with `^` and `$` around it: `$` matches at
-- the end and before a newline at the end.
unfoldable pub matches_all : List (ℕ → Bool) → Text → Bool
matches_all [] [] = true
matches_all [] (c ∷ []) = c == 0x0a
matches_all [] (c ∷ d ∷ cs) = false
matches_all (test ∷ tests) [] = false
matches_all (test ∷ tests) (c ∷ cs) = test c && matches_all tests cs

abbrev dash : ℕ → Bool
dash c = c == 0x2d

abbrev hex_group : ℕ → List (ℕ → Bool)
hex_group n = dash ∷ replicate n is_hex

-- ".pack" under IGNORECASE, which takes the Kelvin sign for a k.
abbrev pack_suffix : List (ℕ → Bool)
pack_suffix =
    (λ c. c == 0x2e)
    ∷ (λ c. c == 0x70 || (c == 0x50))
    ∷ (λ c. c == 0x61 || (c == 0x41))
    ∷ (λ c. c == 0x63 || (c == 0x43))
    ∷ (λ c. c == 0x6b || (c == 0x4b) || (c == 0x212a))
    ∷ []

unfoldable pub pack_name_re : List (ℕ → Bool)
pack_name_re =
    replicate 6 is_hex
    ++ (hex_group 4 ++ (hex_group 4 ++ (hex_group 4 ++ (hex_group 12 ++ pack_suffix))))

unfoldable pub standardobject_name_re : List (ℕ → Bool)
standardobject_name_re = replicate 62 is_hex_lower

unfoldable pub computer_uuid_re : List (ℕ → Bool)
computer_uuid_re =
    replicate 8 is_hex ++ (hex_group 4 ++ (hex_group 4 ++ (hex_group 4 ++ hex_group 12)))

abbrev pub IsComputer : Text → Type 0
IsComputer name = matches_all computer_uuid_re name ≡ true
