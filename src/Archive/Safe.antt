-- ===== src/Archive/Safe.antt =====
-- What `create_canonical_file` of src/mailarchive/ingest.py leaves at the destination, at its end and
-- at every point before it.
use mailarchive.Base.{
  ◌≡◌, ◌≢◌, refl, ◌∙◌, Bool, true, false, Option, none, some, String, List, [], ◌∷◌, ◌⊎◌, inl, inr,
  str_eq, eq_iff, if◌then◌else◌,
}
use mailarchive.Base.Lists.{All}
use mailarchive.Host.{Host, Bytes}
use mailarchive.Archive.Files.{
  Node, file, other, Files, lookup, put, remove, lookup-put_self, lookup-put_other,
  lookup-remove_other,
}
use mailarchive.Archive.Create.{
  Disk, unlinking, synchronizing, linking, writing, reading, making_temporary, making_directories,
  Made, made, mismatch, os_error, Creation, ends, abandon, examine, settle, arrived, link, write,
  create_new, create_canonical_file,
}

module _ {W : Type 0} (host : Host W) (disk : Disk) (destination : String) (raw : Bytes)
    (sha256 : String) where
  -- The destination is as it was, as another process has made it, or has all the bytes.
  abbrev pub IsSafe : Files → Files → Type 0
  IsSafe start files =
      (lookup destination files ≡ lookup destination start)
      ⊎ ((lookup destination files ≡ disk.arrival) ⊎ (lookup destination files ≡ some (file raw)))

  -- A regular file with the digest.
  abbrev pub IsStored : Files → Type 0
  IsStored files =
      (bytes : Bytes) × (lookup destination files ≡ some (file bytes))
      × (host.sha256 bytes ≡ sha256)

  abbrev pub WhereMade : Made → Files → Type 0
  WhereMade made files = IsStored files
  WhereMade mismatch files = Unit
  WhereMade os_error files = Unit

  pub record IsSound (start : Files) (c : Creation) : Type 0 where
    pub safe : All (IsSafe start) c.states
    pub stored : WhereMade c.outcome c.files

  IsSafe-remove :
      (start files : Files)
      → disk.temporary ≢ destination
      → IsSafe start files
      → IsSafe start (remove disk.temporary files)
  IsSafe-remove start files apart safe =
      rw (lookup-remove_other disk.temporary destination files apart) safe

  IsStored-remove :
      (files : Files)
      → disk.temporary ≢ destination
      → IsStored files
      → IsStored (remove disk.temporary files)
  IsStored-remove files apart stored =
      rw (lookup-remove_other disk.temporary destination files apart) stored

  module _ (start : Files) (apart : disk.temporary ≢ destination) where
    elim-IsSound :
        (b : Bool) (x y : Creation)
        → IsSound start x
        → IsSound start y
        → IsSound start (elim b [ true ↦ x | false ↦ y ])
    elim-IsSound true x y h k = h
    elim-IsSound false x y h k = k

    abandon-IsSound :
        (outcome : Made) (files : Files) (states : List Files)
        → ((left : Files) → WhereMade outcome left)
        → IsSafe start files
        → All (IsSafe start) states
        → IsSound start (abandon disk outcome files states)
    unfolding abandon
    abandon-IsSound outcome files states failed safe all =
        elim-IsSound (disk.fails unlinking files) (ends os_error files states) _
          (record { safe = all; stored = tt })
          (record {
            safe = (IsSafe-remove start files apart safe, all);
            stored = failed (remove disk.temporary files);
          })

    settle-IsSound :
        (files : Files) (states : List Files)
        → IsSafe start files
        → All (IsSafe start) states
        → IsStored files
        → IsSound start (settle host disk destination raw sha256 files states)
    unfolding settle
    settle-IsSound files states safe all stored =
        elim-IsSound (disk.fails synchronizing files) (abandon disk os_error files states) _
          (abandon-IsSound os_error files states (λ _. tt) safe all)
          (elim-IsSound (disk.fails unlinking files) (ends os_error files states) _
            (record { safe = all; stored = tt })
            (record {
              safe = (IsSafe-remove start files apart safe, all);
              stored = IsStored-remove files apart stored;
            }))

    arrived-IsSound :
        (outcome : Made) (files : Files) (states : List Files)
        → IsSafe start files
        → All (IsSafe start) states
        → WhereMade outcome files
        → IsSound start (arrived host disk destination raw sha256 outcome files states)
    unfolding arrived
    arrived-IsSound made files states safe all stored = settle-IsSound files states safe all stored
    arrived-IsSound mismatch files states safe all stored =
        abandon-IsSound mismatch files states (λ _. tt) safe all
    arrived-IsSound os_error files states safe all stored =
        abandon-IsSound os_error files states (λ _. tt) safe all

    examine-WhereMade :
        (node : Node) (files : Files)
        → lookup destination files ≡ some node
        → WhereMade (examine host disk destination raw sha256 node files) files
    unfolding examine
    examine-WhereMade other files h = tt
    examine-WhereMade (file bytes) files h =
        tested (disk.fails reading files) (str_eq (host.sha256 bytes) sha256) refl
      where
        tested :
            (a b : Bool)
            → str_eq (host.sha256 bytes) sha256 ≡ b
            → WhereMade (if a then os_error else if b then made else mismatch) files
        tested true b k = tt
        tested false true k = (bytes, h, (eq_iff (host.sha256 bytes) sha256).0 k)
        tested false false k = tt

    link-IsSound :
        (arrival : Option Node) (files : Files) (states : List Files)
        → arrival ≡ disk.arrival
        → host.sha256 raw ≡ sha256
        → IsSafe start files
        → All (IsSafe start) states
        → IsSound start (link host disk destination raw sha256 arrival files states)
    unfolding link
    link-IsSound none files states same digest safe all =
        let linked = put destination (file raw) files in
        let there = lookup-put_self destination (file raw) files in
        elim-IsSound (disk.fails linking files) (abandon disk os_error files states) _
          (abandon-IsSound os_error files states (λ _. tt) safe all)
          (settle-IsSound linked (linked ∷ states) (inr (inr there)) (inr (inr there), all)
            (raw, there, digest))
    link-IsSound (some node) files states same digest safe all =
        let met = put destination node files in
        let there = lookup-put_self destination node files in
        let safe_met : IsSafe start met = inr (inl (there ∙ same)) in
        arrived-IsSound (examine host disk destination raw sha256 node met) met (met ∷ states)
          safe_met (safe_met, all) (examine-WhereMade node met there)

    write-IsSound :
        (states : List Files)
        → host.sha256 raw ≡ sha256
        → All (IsSafe start) states
        → IsSound start (write host disk destination raw sha256 start states)
    unfolding write
    write-IsSound states digest all =
        let empty = put disk.temporary (file []) start in
        let full = put disk.temporary (file raw) empty in
        let kept = lookup-put_other disk.temporary destination (file []) start apart in
        let kept' = lookup-put_other disk.temporary destination (file raw) empty apart ∙ kept in
        elim-IsSound (disk.fails writing empty) (abandon disk os_error empty (empty ∷ states)) _
          (abandon-IsSound os_error empty (empty ∷ states) (λ _. tt) (inl kept) (inl kept, all))
          (link-IsSound disk.arrival full (full ∷ empty ∷ states) refl digest (inl kept')
            (inl kept', (inl kept, all)))

    create_new-IsSound :
        (node : Option Node)
        → lookup destination start ≡ node
        → host.sha256 raw ≡ sha256
        → IsSound start (create_new host disk destination raw sha256 node start)
    unfolding create_new
    create_new-IsSound (some node) h digest = record {
      safe = (inl refl, tt);
      stored = examine-WhereMade node start h;
    }
    create_new-IsSound none h digest =
        elim-IsSound (disk.fails making_temporary start) (ends os_error start (start ∷ [])) _
          (record { safe = (inl refl, tt); stored = tt })
          (write-IsSound (start ∷ []) digest (inl refl, tt))

  -- Where the temporary file is not the destination and the digest is that of the bytes: at every
  -- point, so also after a crash, the destination is as it was before, or as another process has
  -- made it, or has all the bytes; and where the call succeeds, a regular file with the digest
  -- stands there.
  pub create_canonical_file-IsSound :
      (files : Files)
      → disk.temporary ≢ destination
      → host.sha256 raw ≡ sha256
      → IsSound files (create_canonical_file host disk destination raw sha256 files)
  unfolding create_canonical_file
  create_canonical_file-IsSound files apart digest =
      elim-IsSound files apart (disk.fails making_directories files)
        (ends os_error files (files ∷ [])) _ (record { safe = (inl refl, tt); stored = tt })
        (create_new-IsSound files apart (lookup destination files) refl digest)
