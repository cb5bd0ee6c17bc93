-- ===== src/Cache/Files.antt =====
-- The file system that the cache keeps its entries in: the functions of os and filepath that it
-- calls, on the state of the disk, and what their documentation promises of them.
use ome_kafka_bridge.Common.{
  ℕ, ◌≡◌, ◌≢◌, Bool, false, Option, some, List, [], ◌∷◌, ◌++◌, Bytes, codes, IsIn,
}

-- `none` is an error. `remove` leaves its error out, as the cache does, and `write_file` returns the
-- disk and whether there was an error.
pub record FileSystem : Type 1 where
  pub Disk : Type 0
  pub join : Bytes → Bytes → Bytes
  pub mkdir_all : Disk → Bytes → Option Disk
  pub glob : Disk → Bytes → Option (List Bytes)
  pub stat : Disk → Bytes → Option ℕ
  pub read_file : Disk → Bytes → Option Bytes
  pub write_file : Disk → Bytes → Bytes → Disk × Bool
  pub remove : Disk → Bytes → Disk

-- The disk without some files.
abbrev pub remove_all : (fs : FileSystem) → fs.Disk → List Bytes → fs.Disk
remove_all fs d [] = d
remove_all fs d (p ∷ paths) = remove_all fs (fs.remove d p) paths

-- Removing a file leaves the others as they are.
pub record KeepsOthers (fs : FileSystem) : Type 0 where
  pub stat-remove : (d : fs.Disk) (p q : Bytes) → p ≢ q → fs.stat (fs.remove d p) q ≡ fs.stat d q
  pub read_file-remove :
      (d : fs.Disk) (p q : Bytes) → p ≢ q → fs.read_file (fs.remove d p) q ≡ fs.read_file d q

-- A file that is written without an error is read back, and a JSON file is listed in its directory.
pub record KeepsWritten (fs : FileSystem) : Type 0 where
  pub read_file-write_file :
      (d : fs.Disk) (p bytes : Bytes) (d' : fs.Disk)
      → fs.write_file d p bytes ≡ (d', false)
      → fs.read_file d' p ≡ some bytes
  pub glob-write_file :
      (d : fs.Disk) (dir name bytes : Bytes) (d' : fs.Disk) (files : List Bytes)
      → fs.write_file d (fs.join dir (name ++ codes ".json")) bytes ≡ (d', false)
      → fs.glob d' (fs.join dir (codes "*.json")) ≡ some files
      → IsIn (fs.join dir (name ++ codes ".json")) files
