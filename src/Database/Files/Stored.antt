-- ===== src/Database/Files/Stored.antt =====
-- internal/database/files.go: what is read of the table of files after it is written.
use p2p_folder_sync.Prelude.{
  ◌≡◌, refl, ◌≢◌, ◌⊎◌, inl, inr, Bool-cases, Option, Option-cases, none, some, [], ◌++◌, Str, bytes,
  ℤ, list_eq, nat_eq, ◌==◌, arith, if◌then◌else◌,
}
use p2p_folder_sync.Prelude.Dict.{lookup, lookup-insert, lookup-erase}
use p2p_folder_sync.Prelude.Fallible.{returned, failed, Fallible-cases}
use p2p_folder_sync.Rows.{FileMetadata, unix, of_unix}
use p2p_folder_sync.Database.{Codec, FileRow, Database, exec, query}
use p2p_folder_sync.Database.Log.Durable.{Faithful}
use p2p_folder_sync.Database.Files.{
  written_row, insert_file, scanned, get_file_by_id, delete_file, has_chunks,
}

-- What is kept of the metadata of a file: its modification time in whole seconds, the time of its
-- first insertion, and that of the last.
unfoldable pub kept : ℤ → Option FileRow → FileMetadata → FileMetadata
kept now old fm = record fm {
  mtime = of_unix (unix fm.mtime);
  created_at = of_unix (elim old [ none ↦ now | some row ↦ row.created_at ]);
  updated_at = of_unix now;
}

scanned_written :
    (codec : Codec) (now : ℤ) (vc_json : Str) (fm : FileMetadata) (old : Option FileRow)
    → codec.unmarshal vc_json ≡ returned fm.vector_clock
    → scanned codec fm.file_id (written_row now vc_json fm old) ≡ returned (kept now old fm)
unfolding scanned written_row kept
scanned_written codec now vc_json fm old read = ground (arith, read)

-- A file that is inserted is found by its id, with what is kept of its metadata; any other file is
-- found as before. It is assumed that a clock is read as it was written, and never written as
-- the empty text.
pub get_file_by_id-insert_file :
    (codec : Codec) (now : ℤ) (fm : FileMetadata) (db : Database) (id : Str)
    → Faithful codec
    → codec.marshal fm.vector_clock ≢ returned []
    → (insert_file codec none now fm db).0 ≡ none
    → get_file_by_id codec none id (insert_file codec none now fm db).1 ≡ (
        if id == fm.file_id
        then returned (kept now (lookup fm.file_id db.files) fm)
        else get_file_by_id codec none id db)
unfolding insert_file exec get_file_by_id query
get_file_by_id-insert_file codec now fm db id law nonempty accepted =
    elim (Fallible-cases (codec.marshal fm.vector_clock)) [
      | inl (_, bad) ↦ absurd (ground (arith, accepted, bad))
      | inr (vc_json, good) ↦
          let old = lookup fm.file_id db.files in
          let row = written_row now vc_json fm old in
          let read = scanned_written codec now vc_json fm old (law fm.vector_clock vc_json good) in
          let stored : row.vector_clock ≡ vc_json = unfold written_row in refl in
          let there = lookup-insert id fm.file_id row db.files in
          elim (Bool-cases (id == fm.file_id)) [
            | inl same ↦
                let named : id ≡ fm.file_id = ground (arith, same) in
                ground (arith, good, there, read, stored, nonempty, same, named)
            | inr other ↦ ground (arith, good, there, other)
          ]
    ]

-- A file that is deleted is not found, and any other is found as before; a deletion that reports
-- an error, as it does where chunks refer to the file, changes nothing.
get_file_by_id-delete_file :
    (codec : Codec) (fault : Option Str) (file_id other : Str) (db : Database)
    → let (error, after) = delete_file fault file_id db in
      ((e : Str) × (error ≡ some e) × (after ≡ db))
      ⊎ ((error ≡ none)
          × (get_file_by_id codec none other after ≡ (
              if other == file_id
              then failed (bytes "file not found: " ++ other)
              else get_file_by_id codec none other db)))
unfolding delete_file exec get_file_by_id query
get_file_by_id-delete_file codec fault file_id other db =
    let gone = lookup-erase other file_id db.files in
    elim (Option-cases fault) [
      | inr (cause, broken) ↦
          inl (
            bytes "failed to delete file: " ++ cause,
            ground (arith, broken),
            ground (arith, broken),
          )
      | inl fine ↦ elim (Bool-cases (has_chunks file_id db.chunks)) [
        | inl held ↦ inl (
          bytes "failed to delete file: " ++ bytes "FOREIGN KEY constraint failed",
          ground (arith, fine, held),
          ground (arith, fine, held),
        )
        | inr free ↦ inr (ground (arith, fine, free), ground (arith, fine, free, gone))
      ]
    ]
