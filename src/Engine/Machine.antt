-- ===== src/Engine/Machine.antt =====
-- The world of the engine with the tables of internal/database in it: the state is the disk's and the
-- peers', `D`, and a database that does not fail by itself.
pub mod Recorded
use p2p_folder_sync.Prelude.{ℕ, Option, none, some, List, Str, ℤ}
use p2p_folder_sync.Prelude.Fallible.{Fallible}
use p2p_folder_sync.Operation.{SyncOperation}
use p2p_folder_sync.Database.{Codec, Database}
use p2p_folder_sync.Database.Files as Files
use p2p_folder_sync.Database.Log as Log
use p2p_folder_sync.Engine.{World}

-- What a world is without the database.
pub record Outside (D : Type 0) : Type 0 where
  pub join : Str → Str
  pub rel : Str → Fallible Str
  pub hash : List ℕ → Str
  pub read_file : Str → D → Fallible (List ℕ)
  pub write_file : Str → List ℕ → D → Option Str × D
  pub rename_file : Str → Str → D → Option Str × D
  pub remove_file : Str → D → Option Str × D
  pub file_size : Str → D → Fallible ℤ
  pub get_file_id : Str → D → Str
  pub generate_file_id : Str → Str → D → Fallible Str
  pub set_file_id : Str → Str → D → D
  pub broadcast : SyncOperation → D → Option Str × D
  -- `unixepoch()`
  pub epoch : D → ℤ

module _ {D : Type 0} (codec : Codec) (out : Outside D) where
  on_disk : (D → Option Str × D) → D × Database → Option Str × (D × Database)
  on_disk call (d, db) = let (error, d') = call d in (error, (d', db))

  on_tables : (D → Database → Option Str × Database) → D × Database → Option Str × (D × Database)
  on_tables call (d, db) = let (error, db') = call d db in (error, (d, db'))

  unfoldable pub machine : World (D × Database)
  unfolding on_disk on_tables
  machine = record {
    join = out.join;
    rel = out.rel;
    hash = out.hash;
    read_file = λ path w. out.read_file path w.0;
    write_file = λ path contents w. on_disk (out.write_file path contents) w;
    rename_file = λ from_path path w. on_disk (out.rename_file from_path path) w;
    remove_file = λ path w. on_disk (out.remove_file path) w;
    file_size = λ path w. out.file_size path w.0;
    get_file_id = λ path w. out.get_file_id path w.0;
    generate_file_id = λ path peer w. out.generate_file_id path peer w.0;
    set_file_id = λ path file_id w. (out.set_file_id path file_id w.0, w.1);
    get_file_by_id = λ file_id w. Files.get_file_by_id codec none file_id w.1;
    get_file_by_path = λ path w. Files.get_file_by_path codec none path w.1;
    insert_file = λ fm w. on_tables (λ d db. Files.insert_file codec none (out.epoch d) fm db) w;
    delete_file = λ file_id w. on_tables (λ d db. Files.delete_file none file_id db) w;
    append_operation = λ entry w. on_tables (λ d db. Log.append_operation codec none entry db) w;
    unacknowledged = λ w. Log.get_unacknowledged_operations codec none w.1;
    broadcast = λ op w. on_disk (out.broadcast op) w;
  }
