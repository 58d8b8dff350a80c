-- ===== src/Lib.antt =====
-- A model of arq-backup-tui, a backup program that writes and reads the Arq 7 format, with proofs. What
-- is modelled is the part that decides whether a backup can be read again: the binary format, the
-- compression wrapper, the encryption, the pack files, the chunkers, the policies for exclusion and
-- retention, and the deletion of records and blobs.
--
-- How a blob travels: a tree is serialised (Wire), wrapped as LZ4 (Lz4), encrypted as an object under the
-- keys of the keyset file (Crypto), and appended to a pack, which gives the location that the parent tree
-- records (Pack). A restore goes the same way back. Retention chooses the records that stay. Gc
-- finds the records by the layout of the destination (Layout), reads them (Record) and the trees below
-- them, and deletes through the backend (Backend) the blobs that it has not gathered there.
--
-- The files and the code they model:
--   Common     shared names, Boolean tests, native lists, slices, results, integers.
--   Wire       arq_writer/serialize.py, arq_writer/types.py, arq_reader/parse.py. One function for each
--              writer and parser, under their names; a parser takes the rest of the input and returns a
--              value and what is left. Wire.Utf8 is Python's UTF-8 codec with its replacement mode.
--              Wire.RoundTrip and Wire.Truncated have the proofs.
--   Lz4        arq_writer/lz4_block.py: lz4_block_compress, lz4_block_decompress, lz4_wrap, lz4_unwrap.
--   Crypto     arq_writer/crypto_write.py, arq_reader/decrypt.py and the checks of
--              arq_validator/crypto.py. Crypto.Object has the encrypted object, Crypto.Multi the
--              check of several in a file, Crypto.Keyset the keyset file, Crypto.Rotation the password
--              change on disk as a list of writes.
--   Pack       arq_writer/pack_builder.py (Pack.Builder), and arq_reader/pack.py: the index
--              (Pack.Index) and the decoder (Pack.Decode). Pack.Dict is a Python
--              dictionary, which also stands for the files of a backend.
--   Chunker    arq_writer/chunker.py: the Buzhash chunker and the fixed-size one. Chunker.Hash has the hash,
--              with the IndexError of a short table, Chunker.Buzhash the constructor and the loops,
--              Chunker.Returns what a table of 256 words gives. The default table is an argument.
--   Retention  RetentionPolicy and select_retained of arq_writer/retention.py, with the calendar of
--              Python's datetime module (Retention.Dates). Retention.Reference says which paths a policy
--              keeps of records that stand newest first, and Retention.Described what newest first means.
--   Backend    the protocol of arq_validator/backend.py: a record of operations over a type of states.
--   Record     arq_writer/backuprecord.py: the values of Python that a record holds (Record.Values), and
--              parse_backuprecord and blobloc_to_dict (Record.Parse).
--   Layout     arq_validator/layout.py and the names of arq_validator/constants.py: paths (Layout.Paths),
--              discover_layout (Layout.Discover), the lists of records (Layout.Records).
--   Gc         prune_records, gc_orphan_blobs and apply_retention of arq_writer/retention.py. Gc.Walk
--              has the walks over trees, Gc.Collect the two collections over records, Gc.Sweep the
--              loops that delete, Gc.Prune the records. Gc.Live says by rules what a computer's records
--              need: Named has all that a node names, its ACL with it, and Gathered what the code gathers,
--              which lacks the ACL of a record's own node. Gc.Deletes is the relation of states before and
--              after deletions, Gc.Spare says which files may go, Gc.PruneRecords has the steps of a run
--              of prune_records. The three kinds of walk in the code are one walk with a record of
--              what it collects; a set is the list of what was added to it.
--   Exclusions arq_writer/exclusions.py: the rules and their order.
--
-- Conventions. A byte is a number below 256, a text the list of its code points. Exceptions are values of
-- Result; each component has a type of its errors. Machine words keep their wrap-around. Loops are
-- structural, or run on fuel: the LZ4 decoder on the length of the block, the chunkers and the pack index
-- on one more than the length of the input. That this is enough is part of the theorems on those loops,
-- which have no answer "out of fuel". The walks over trees take their fuel as an argument, as the code
-- has only Python's limit on recursion; the number of identifiers of trees and one is enough.
--
-- Parameters. The openssl command, HMAC-SHA256, PBKDF2 and SHA-256 are a record of functions
-- (Crypto.Primitives), with the laws: decryption undoes encryption, padding to blocks of 16, the sizes of
-- digests. Python's fnmatch and re are two tests of a text against a pattern (Exclusions.Rules). The
-- parsers of plist and JSON, int, str, lower and isdigit are fields of Record.Values.Python. The operations
-- of a backend are arguments with laws on unlink (Backend), and the order in which the threads of
-- discover_layout end is a function on the list of shards. Random bytes and UUIDs are arguments; the pack
-- theorem takes the UUIDs to be distinct texts of 36 characters. The examples fill the parameters with
-- concrete functions.
--
-- An openssl command that fails or that takes too long is one error, openssl_failed; a call of a backend
-- that raises an OSError or a RuntimeError is none.
--
-- Not modelled: the walk over the source tree and the records it writes (arq_writer/backup.py), the
-- callbacks of retention and the texts of its failures, the restore, the Arq 5 readers, the validation
-- tiers and reports, the SFTP client, file-system metadata, and the user interface.
pub mod Backend
pub mod Chunker
pub mod Common
pub mod Crypto
pub mod Exclusions
pub mod Gc
pub mod Layout
pub mod Lz4
pub mod Pack
pub mod Record
pub mod Retention
pub mod Wire
