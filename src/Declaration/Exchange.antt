-- ===== src/Declaration/Exchange.antt =====
-- internal/state: two peers that declare their tables to each other.
use p2p_folder_sync.Prelude.{
  ◌≡◌, refl, ◌∙◌, ap, Bool-cases, inl, inr, not, ◌&&◌, ◌||◌, none, List, [], ◌∷◌, Str, str_ltb,
  list_eq, nat_eq, ◌==◌, arith, contains,
}
use p2p_folder_sync.Prelude.Dict.{Dict, lookup, has}
use p2p_folder_sync.Prelude.Fallible.{returned, Fallible-cases}
use p2p_folder_sync.Messages.{LogEntryPayload}
use p2p_folder_sync.Reconcile.{ManifestEntry, StateDeclaration, reconcile_states}
use p2p_folder_sync.Reconcile.Differences.{keep_if, is_missing, file_ids, reconcile_states_exact}
use p2p_folder_sync.Rows.{FileMetadata}
use p2p_folder_sync.Database.{Codec, FileRow, Database, query}
use p2p_folder_sync.Database.Files.{get_all_files, scan_files, scanned, by_path, insert_by_path}
use p2p_folder_sync.Database.Log.{get_unacknowledged_operations}
use p2p_folder_sync.Declaration.{manifest_entry, manifest_of, build_state_declaration}

has-insert_by_path :
    (id other : Str) (row : FileRow) (rows : Dict Str FileRow)
    → has id (insert_by_path (other, row) rows) ≡ (id == other || has id rows)
unfolding insert_by_path lookup
has-insert_by_path id other row [] = ground arith
has-insert_by_path id other row ((k, r) ∷ rows) =
    let later = has-insert_by_path id other row rows in
    elim (Bool-cases (str_ltb r.path row.path)) [
      | inl before ↦ elim (Bool-cases (id == k)) [
        | inl here ↦ elim (Bool-cases (id == other)) [
          | inl same ↦ ground (arith, before, here, same)
          | inr differs ↦ ground (arith, before, here, differs)
        ]
        | inr elsewhere ↦ ground (arith, before, elsewhere, later)
      ]
      | inr after ↦ elim (Bool-cases (id == other)) [
        | inl same ↦ ground (arith, after, same)
        | inr differs ↦ ground (arith, after, differs)
      ]
    ]

has-by_path : (id : Str) (rows : Dict Str FileRow) → has id (by_path rows) ≡ has id rows
unfolding by_path lookup
has-by_path id [] = refl
has-by_path id ((k, r) ∷ rows) =
    ground (arith, has-insert_by_path id k r (by_path rows), has-by_path id rows)

contains-keep_missing :
    (here fs : List ManifestEntry) (id : Str)
    → contains (file_ids (keep_if (is_missing here) fs)) id
      ≡ (contains (file_ids fs) id && not (contains (file_ids here) id))
unfolding file_ids is_missing
contains-keep_missing here [] id = refl
contains-keep_missing here (f ∷ fs) id = ground (arith, contains-keep_missing here fs id)

module _ (codec : Codec) where
  scanned_id :
      (k : Str) (r : FileRow) (fm : FileMetadata) → scanned codec k r ≡ returned fm → fm.file_id ≡ k
  unfolding scanned
  scanned_id k r fm read = elim (Fallible-cases (codec.unmarshal r.vector_clock)) [
    | inl (_, bad) ↦ absurd (ground (arith, read, bad))
    | inr (vc, good) ↦ ground (arith, read, good)
  ]

  scanned_ids :
      (rows : Dict Str FileRow) (files : List FileMetadata)
      → scan_files codec rows ≡ returned files
      → (id : Str) → contains (file_ids (manifest_of files)) id ≡ has id rows
  unfolding scan_files manifest_of manifest_entry file_ids lookup
  scanned_ids [] files read id =
      let none_there : files ≡ [] = ground (arith, read) in
      ap (λ fs. contains (file_ids (manifest_of fs)) id) none_there
  scanned_ids ((k, r) ∷ rows) files read id = elim (Fallible-cases (scanned codec k r)) [
    | inl (_, bad) ↦ absurd (ground (arith, read, bad))
    | inr (fm, good) ↦ elim (Fallible-cases (scan_files codec rows)) [
      | inl (_, bad) ↦ absurd (ground (arith, read, good, bad))
      | inr (rest, scanned_rest) ↦
          let later = scanned_ids rows rest scanned_rest id in
          let named = scanned_id k r fm good in
          let all : files ≡ fm ∷ rest = ground (arith, read, good, scanned_rest) in
          ap (λ fs. contains (file_ids (manifest_of fs)) id) all ∙ ground (arith, named, later)
    ]
  ]

  declared_ids :
      (peer_id : Str) (db : Database) (declared : StateDeclaration LogEntryPayload)
      → build_state_declaration codec none none peer_id db ≡ returned declared
      → (id : Str) → contains (file_ids declared.file_manifest) id ≡ has id db.files
  unfolding build_state_declaration get_all_files query
  declared_ids peer_id db declared built id =
      elim (Fallible-cases (scan_files codec (by_path db.files))) [
        | inl (_, bad) ↦ absurd (ground (arith, built, bad))
        | inr (files, read) ↦ elim (Fallible-cases (get_unacknowledged_operations codec none db)) [
          | inl (_, bad) ↦ absurd (ground (arith, built, read, bad))
          | inr (ops, got) ↦
              let same : declared.file_manifest ≡ manifest_of files =
                ground (arith, built, read, got) in
              ap (λ fs. contains (file_ids fs) id) same
              ∙ scanned_ids (by_path db.files) files read id
              ∙ has-by_path id db.files
        ]
      ]

-- Two peers whose tables are declared without an error find, when one reconciles the declarations,
-- exactly the files it lacks: those with an id in the other's table of files and not in its own.
pub declared_missing :
    (codec far_codec : Codec) (peer_id far_peer_id : Str) (db far : Database)
    (here there : StateDeclaration LogEntryPayload) (id : Str)
    → build_state_declaration codec none none peer_id db ≡ returned here
    → build_state_declaration far_codec none none far_peer_id far ≡ returned there
    → contains
        (file_ids
          (reconcile_states (λ (p : LogEntryPayload). p.operation_id) here there).missing_files)
        id
      ≡ (has id far.files && not (has id db.files))
declared_missing codec far_codec peer_id far_peer_id db far here there id built far_built =
    let operation_id = λ (p : LogEntryPayload). p.operation_id in
    let exact = (reconcile_states_exact operation_id here there).0 in
    let mine = declared_ids codec peer_id db here built id in
    let yours = declared_ids far_codec far_peer_id far there far_built id in
    ap (λ fs. contains (file_ids fs) id) exact
    ∙ contains-keep_missing here.file_manifest there.file_manifest id
    ∙ ground (arith, mine, yours)
