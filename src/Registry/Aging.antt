-- ===== src/Registry/Aging.antt =====
-- internal/network/discovery/registry.go and internal/filesystem/rename_detector.go.
use p2p_folder_sync.Prelude.{
  ◌≡◌, refl, ℕ, ◌+◌, ◌&&◌, none, some, [], ◌∷◌, ltb, Str, ℤ, list_eq, nat_eq, int_eq, ◌==◌,
  if◌then◌else◌, arith,
}
use p2p_folder_sync.Prelude.Dict.{
  Dict, lookup, insert, lookup-insert, lookup-erase, insert-NodupKeys, NodupKeys,
}
use p2p_folder_sync.Registry.{
  drop_old, Deletes, DeletedFileInfo, record_delete, check_rename, cleanup, rename_detection_ttl,
}

-- A cleanup removes exactly the entries that are older than the age, and changes no other.
lookup-drop_old {ℓ} :
    {V : Type ℓ} (time : V → ℕ) (age now : ℕ) (d : Dict Str V) (k : Str)
    → NodupKeys d
    → lookup k (drop_old time age now d) ≡ (elim (lookup k d) [
      | none ↦ none
      | some v ↦ if ltb (time v + age) now then none else some v
    ])
unfolding drop_old lookup
lookup-drop_old time age now [] k u = refl
lookup-drop_old time age now ((j, v) ∷ d) k u = ground (arith, lookup-drop_old time age now d k u.1)

-- A file that was deleted and is created again is a rename from its old path exactly when no more
-- than the window has passed and the checksum and the size are unchanged; in every case the
-- deletion is used up.
check_rename-record_delete :
    (now later : ℕ) (f checksum checksum' path : Str) (size size' : ℤ) (mtime : ℕ)
    (recent : Deletes)
    → NodupKeys recent
    → let out =
        check_rename f checksum' size'
          (cleanup later (record_delete now f checksum path size mtime recent)) in
      (out.0 ≡ (
        if ltb (now + rename_detection_ttl) later
        then none
        else if checksum == checksum' && size == size'
        then some path
        else none))
      × (lookup f out.1 ≡ none)
unfolding check_rename record_delete
check_rename-record_delete now later f c c' path s s' m recent u =
    let info : DeletedFileInfo = record {
      file_id = f;
      checksum = c;
      size = s;
      mtime = m;
      path = path;
      deleted_at = now;
    } in
    let recorded = insert f info recent in
    let old =
      lookup-drop_old (λ (i : DeletedFileInfo). i.deleted_at) rename_detection_ttl later recorded f
        (insert-NodupKeys f info recent u) in
    let at = lookup-insert f f info recent in
    let gone = lookup-erase f f (cleanup later recorded) in
    (ground (arith, old, at), ground (arith, old, at, gone))
