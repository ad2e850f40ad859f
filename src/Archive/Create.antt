-- ===== src/Archive/Create.antt =====
-- `create_canonical_file` of src/mailarchive/ingest.py. `states` has every state of the files that
-- the call goes through, newest first: a crash leaves one of them.
use mailarchive.Base.{
  Bool, true, false, Option, none, some, String, List, [], ◌∷◌, str_eq, if◌then◌else◌,
}
use mailarchive.Host.{Host, Bytes}
use mailarchive.Archive.Files.{Node, file, other, Files, lookup, put, remove}

-- What may raise an `OSError`.
pub data Action : Type 0 where
  making_directories reading making_temporary writing linking synchronizing unlinking : Action

-- Whether an action fails on the files; the path that `mkstemp` makes; and what another process has
-- put at the destination by the time of `os.link`.
pub record Disk : Type 0 where
  pub fails : Action → Files → Bool
  pub temporary : String
  pub arrival : Option Node

pub data Made : Type 0 where
  made mismatch os_error : Made

pub record Creation : Type 0 where
  pub outcome : Made
  pub files : Files
  pub states : List Files

abbrev pub ends : Made → Files → List Files → Creation
ends outcome files states = record { outcome = outcome; files = files; states = states }

-- The `except`: the temporary file is removed, where that does not fail too.
unfoldable pub abandon : Disk → Made → Files → List Files → Creation
abandon disk outcome files states = elim (disk.fails unlinking files) [
  | true ↦ ends os_error files states
  | false ↦ let left = remove disk.temporary files in ends outcome left (left ∷ states)
]

module _ {W : Type 0} (host : Host W) (disk : Disk) (destination : String) (raw : Bytes)
    (sha256 : String) where
  -- `not destination.is_file() or sha256_file(destination) != sha256`, as what is returned
  unfoldable pub examine : Node → Files → Made
  examine other files = mismatch
  examine (file bytes) files =
      if disk.fails reading files
      then os_error
      else if str_eq (host.sha256 bytes) sha256
      then made
      else mismatch

  -- After `os.link`: the directory is synchronized and the temporary file removed.
  unfoldable pub settle : Files → List Files → Creation
  unfolding abandon
  settle files states = elim (disk.fails synchronizing files) [
    | true ↦ abandon disk os_error files states
    | false ↦ elim (disk.fails unlinking files) [
      | true ↦ ends os_error files states
      | false ↦ let left = remove disk.temporary files in ends made left (left ∷ states)
    ]
  ]

  -- `FileExistsError`
  unfoldable pub arrived : Made → Files → List Files → Creation
  unfolding abandon settle
  arrived made files states = settle files states
  arrived outcome files states = abandon disk outcome files states

  unfoldable pub link : Option Node → Files → List Files → Creation
  unfolding abandon settle arrived examine
  link none files states = elim (disk.fails linking files) [
    | true ↦ abandon disk os_error files states
    | false ↦ let linked = put destination (file raw) files in settle linked (linked ∷ states)
  ]
  link (some node) files states =
      let met = put destination node files in arrived (examine node met) met (met ∷ states)

  -- The temporary file: empty, then written.
  unfoldable pub write : Files → List Files → Creation
  unfolding link abandon
  write files states =
      let empty = put disk.temporary (file []) files in
      let full = put disk.temporary (file raw) empty in
      elim (disk.fails writing empty) [
        | true ↦ abandon disk os_error empty (empty ∷ states)
        | false ↦ link disk.arrival full (full ∷ empty ∷ states)
      ]

  unfoldable pub create_new : Option Node → Files → Creation
  unfolding write examine
  create_new (some node) files = ends (examine node files) files (files ∷ [])
  create_new none files = elim (disk.fails making_temporary files) [
    | true ↦ ends os_error files (files ∷ [])
    | false ↦ write files (files ∷ [])
  ]

  unfoldable pub create_canonical_file : Files → Creation
  unfolding create_new
  create_canonical_file files = elim (disk.fails making_directories files) [
    | true ↦ ends os_error files (files ∷ [])
    | false ↦ create_new (lookup destination files) files
  ]
