-- ===== src/Pack/Builder.antt =====
-- arq_writer/pack_builder.py: `PackBuilder`. The backend is what was written to it.
use Prim.Native.Char.{code}
use Prim.Native.String.{String}
use arq_backup_tui.Common.{
  ℕ, ◌+◌, ◌*◌, Bool, true, false, not, ◌&&◌, Option, none, some, List, [], ◌∷◌, ◌++◌, length, take,
  drop, ltb, ◌==◌, if◌then◌else◌,
}
use arq_backup_tui.Common.Slices.{slice}
use arq_backup_tui.Wire.Types.{Text, BlobLoc}
use arq_backup_tui.Pack.Dict.{Dict, get, put}

abbrev pub codes : String → Text
codes String.[] = []
codes (String.◌∷◌ c s) = code c ∷ codes s

pub record PackFileInfo : Type 0 where
  pub relative_path : Text
  pub size : ℕ
  pub blob_count : ℕ
  pub blob_ids : List Text

abbrev pub default_max_pack_bytes : ℕ
default_max_pack_bytes = 5 * 1024 * 1024

-- `drawn` counts the UUIDs that were drawn. `files` is what `backend.write_all` has stored.
pub record PackBuilder : Type 0 where
  pub computer_uuid : Text
  pub family : Text
  pub max_pack_bytes : ℕ
  pub compression_type : ℕ
  pub buffer : List ℕ
  pub current_relative_path : Text
  pub current_blob_ids : List Text
  pub cache : Dict BlobLoc
  pub packs_written : List PackFileInfo
  pub drawn : ℕ
  pub files : Dict (List ℕ)

unfoldable pub is_empty : List ℕ → Bool
is_empty [] = true
is_empty (x ∷ xs) = false

-- The `n`-th value of `str(uuid.uuid4()).upper()` is `uuid n`.
module _ (uuid : ℕ → Text) where
  unfoldable pub allocate_pack_path : Text → Text → ℕ → Text
  allocate_pack_path computer_uuid family n =
      let pack_id = uuid n in
      codes "/"
      ++ (computer_uuid
          ++ (codes "/"
              ++ (family
                  ++ (codes "/"
                      ++ (take 2 pack_id ++ (codes "/" ++ (drop 2 pack_id ++ codes ".pack")))))))

  unfoldable pub init : Text → Text → ℕ → ℕ → PackBuilder
  init computer_uuid family max_pack_bytes compression_type = record {
    computer_uuid = computer_uuid;
    family = family;
    max_pack_bytes = max_pack_bytes;
    compression_type = compression_type;
    buffer = [];
    current_relative_path = allocate_pack_path computer_uuid family 0;
    current_blob_ids = [];
    cache = [];
    packs_written = [];
    drawn = 1;
    files = [];
  }

  -- `_flush`. Making the parent directory changes no file.
  unfoldable pub flush : PackBuilder → PackBuilder
  flush b = record b {
    files = put b.files b.current_relative_path b.buffer;
    packs_written =
        b.packs_written
        ++ record {
          relative_path = b.current_relative_path;
          size = length b.buffer;
          blob_count = length b.current_blob_ids;
          blob_ids = b.current_blob_ids;
        }
          ∷ [];
    buffer = [];
    current_blob_ids = [];
    current_relative_path = allocate_pack_path b.computer_uuid b.family b.drawn;
    drawn = b.drawn + 1;
  }

  -- The flush before an append: never of an empty buffer.
  unfoldable pub make_room : PackBuilder → List ℕ → PackBuilder
  make_room b arqo =
      if not (is_empty b.buffer) && ltb b.max_pack_bytes (length b.buffer + length arqo)
      then flush b
      else b

  unfoldable pub location : PackBuilder → Text → List ℕ → BlobLoc
  location b blob_id arqo = record {
    blob_identifier = blob_id;
    is_packed = true;
    is_large_pack = false;
    relative_path = b.current_relative_path;
    offset = length b.buffer;
    length = length arqo;
    stretch_encryption_key = true;
    compression_type = b.compression_type;
  }

  unfoldable pub append_blob : PackBuilder → Text → List ℕ → PackBuilder × BlobLoc
  append_blob b blob_id arqo =
      let loc = location b blob_id arqo in
      (
        record b {
          buffer = b.buffer ++ arqo;
          current_blob_ids = b.current_blob_ids ++ blob_id ∷ [];
          cache = put b.cache blob_id loc;
        },
        loc,
      )

  unfoldable pub add : PackBuilder → Text → List ℕ → PackBuilder × BlobLoc
  add b blob_id arqo = elim (get b.cache blob_id) [
    | some cached ↦ (b, cached)
    | none ↦ append_blob (make_room b arqo) blob_id arqo
  ]

  unfoldable pub close : PackBuilder → PackBuilder
  close b = if is_empty b.buffer then b else flush b

  -- A walk's calls of `add`, in order.
  unfoldable pub add_all : PackBuilder → List (Text × List ℕ) → PackBuilder
  add_all b [] = b
  add_all b ((blob_id, arqo) ∷ blobs) = add_all (add b blob_id arqo).0 blobs

-- `LocalBackend.read_range`, at a natural offset and length; `none` is a file that is not there.
unfoldable pub read_range : Dict (List ℕ) → Text → ℕ → ℕ → Option (List ℕ)
read_range files path offset count =
    if count == 0
    then some []
    else elim (get files path) [ none ↦ none | some body ↦ some (slice body offset count) ]
