-- ===== src/Connector/Tests.antt =====
-- Concrete connectors and files, for the theorems of src/DBConnector.cc with assumptions.
use mathlib.Core.Equiv.{IsContr}
use mathlib.Core.List.Perm
use mathlib.Core.Quot
use key_value_cluster_perf.Connector.Bag.{Files, Bag, Left, left_behind, run_entries-Bag}
use key_value_cluster_perf.Connector.Order.{IsDetermined, SameRun, run_entries-Perm}
use key_value_cluster_perf.Base.{
  same, if◌then◌else◌, ap, All, ◌≢◌, Option, map, zero, suc, some, drop, ℕ, ◌+◌, ◌%◌, ◌^◌, ◌≤◌,
  Bytes, List, [], ◌∷◌, ◌++◌, none, ◌≡◌, refl, codes, true, false, ◌&&◌, length, lacks→Lacks, pos,
  negsuc, ℤ, arith, less, ◌⊎◌,
}
use key_value_cluster_perf.StdMap.{lookup, insert, StringMap}
use key_value_cluster_perf.Connector.{
  Connector, Entry, key_of, run_entries, transmit, get_value, load, put_value, limit_passed,
}
use key_value_cluster_perf.Connector.Accounting.{
  regular_files, transmitted, run_entries_counts, run_entries_limit,
}
use key_value_cluster_perf.Connector.Objects.{serialised, Root, Serialises, create, create_all}
use key_value_cluster_perf.Connector.Creation.{
  IsSerialised, run_entries-create_all, create-get_value,
}
use key_value_cluster_perf.Connector.Key.{key_of_path}
use key_value_cluster_perf.Connector.Storage.{latest, payloads, run_entries-latest}
use key_value_cluster_perf.Connector.Lifetime.{
  is_up, exit_code, Members, AreClosed, new_members, delete_members, new_members-delete_members,
}
use key_value_cluster_perf.Mq.{Outcome, undefined, done, ◌>>=◌}
use key_value_cluster_perf.Samples.{connection, garbage, codec, broker, broker-Stores}

abbrev fresh : ℤ → Connector ℕ
fresh limit = record { loaded_objects = 0; total_data_size = 0; duration = 0; bytes_limit = limit }

abbrev file : Bytes → Bytes → Entry ℕ
file path payload = record { path = path; regular = true; payload = payload; elapsed = 5 }

abbrev folder : Bytes → Entry ℕ
folder path = record { path = path; regular = false; payload = []; elapsed = 0 }

-- Two of the files have one name, in two folders.
abbrev tree : List (Entry ℕ)
tree =
    folder (codes "/OCDB/TPC")
    ∷ file (codes "/OCDB/TPC/Run0.v1.root") (1 ∷ 2 ∷ 3 ∷ [])
    ∷ file (codes "/OCDB/ITS/Run0.v1.root") (4 ∷ 5 ∷ [])
    ∷ file (codes "/OCDB/readme") (6 ∷ [])
    ∷ []

keys : key_of (codes "/OCDB/TPC/Run0.v1.root") ≡ codes "Run0.v1"
unfolding key_of
keys = refl

stops :
    (run_entries codec broker ◌+◌ (fresh (pos 4)) [] tree).0
    ≡ record { loaded_objects = 2; total_data_size = 5; duration = 10; bytes_limit = pos 4 }
unfolding run_entries transmit load limit_passed put_value get_value key_of insert lookup less
stops = refl

key_of_path_example :
    (key_of (codes "/OCDB/TPC" ++ (b'/' ∷ (codes "Run0.v1" ++ (b'.' ∷ codes "root"))))
      ≡ codes "Run0.v1")
    × (key_of (codes "/OCDB/TPC" ++ (b'/' ∷ codes "root")) ≡ codes "root")
key_of_path_example =
    key_of_path (codes "/OCDB/TPC") (codes "Run0.v1") (codes "root")
      (lacks→Lacks b'/' (codes "Run0.v1") refl) (lacks→Lacks b'/' (codes "root") refl)
      (lacks→Lacks b'.' (codes "root") refl)

run_entries_counts_example :
    let d = (run_entries codec broker ◌+◌ (fresh (pos 4)) [] tree).0 in
    (d.loaded_objects ≡ (0 + 2) % 2 ^ 32)
    × (d.total_data_size ≡ 0 + 5)
    × (length (run_entries codec broker ◌+◌ (fresh (pos 4)) [] tree).2 ≡ 2)
run_entries_counts_example =
    run_entries_counts codec broker ◌+◌ (fresh (pos 4)) [] tree (omega arith)

run_entries_limit_example :
    let d = (run_entries codec broker ◌+◌ (fresh (pos 4)) [] tree).0 in
    (d.total_data_size ≤ 4 + 3)
    × (d.total_data_size ≤ 4 → transmitted (fresh (pos 4)) tree ≡ regular_files tree)
run_entries_limit_example =
    run_entries_limit codec broker ◌+◌ (fresh (pos 4)) [] tree 4 3 (omega arith) refl (omega arith)
      (omega arith)

run_entries-latest_example :
    let sent = transmitted (fresh (negsuc 0)) tree in
    ((run_entries codec broker ◌+◌ (fresh (negsuc 0)) [] tree).2 ≡ payloads sent)
    × ((key : Bytes)
        → lookup key (run_entries codec broker ◌+◌ (fresh (negsuc 0)) [] tree).1
          ≡ latest key (lookup key []) sent)
run_entries-latest_example =
    run_entries-latest codec broker broker-Stores ◌+◌ (fresh (negsuc 0)) [] tree

abbrev stored : StringMap
stored = (codes "Run0", 9 ∷ []) ∷ []

new_members-delete_members_example :
    (((is_up connection && is_up connection) ≡ false)
      × (new_members connection connection (pos 3) (garbage 3)
          ≡ Outcome.exited (exit_code connection connection)))
    ⊎ (((is_up connection && is_up connection) ≡ true)
        × (m : Members) × ((new_members connection connection (pos 3) (garbage 3) >>= λ made.
              delete_members made connection connection)
            ≡ done m)
        × AreClosed m)
new_members-delete_members_example = new_members-delete_members connection connection 2 (garbage 3)

-- Objects are texts, and a buffer holds a 0 for a null pointer, and a 1 before a text.
abbrev write_text : Bytes → Option Bytes → Bytes
write_text buf none = buf ++ (0 ∷ [])
write_text buf (some en) = buf ++ (1 ∷ en)

abbrev read_text : Bytes → Option Bytes
read_text [] = none
read_text (zero ∷ bytes) = none
read_text (suc tag ∷ bytes) = some bytes

abbrev texts : Root
texts = record {
  Object = Bytes;
  Buffer = Bytes;
  write_buffer = [];
  write_object = write_text;
  write_buf = λ buf value. buf ++ value;
  set_read_mode = λ buf. buf;
  set_buffer_offset = λ buf offset. drop offset buf;
  contents = λ buf. buf;
  read_object = read_text;
}

text_read_back : (en : Option Bytes) → read_text (write_text [] en) ≡ en
text_read_back none = refl
text_read_back (some en) = refl

text_some_bytes : (en : Option Bytes) → write_text [] en ≢ []
text_some_bytes none h = cc
text_some_bytes (some en) h = cc

texts-Serialises : Serialises texts
texts-Serialises = record {
  copied = λ value. refl;
  same_contents = λ buf buf' e. ap read_text e;
  read_back = text_read_back;
  some_bytes = text_some_bytes;
}

abbrev object_of : Entry ℕ → Option Bytes
object_of e = read_text e.payload

abbrev texts_tree : List (Entry ℕ)
texts_tree =
    file (codes "/OCDB/TPC/Run0.v1.root") (1 ∷ 2 ∷ 3 ∷ [])
    ∷ file (codes "/OCDB/ITS/Run0.v1.root") (1 ∷ 4 ∷ [])
    ∷ []

texts_tree-IsSerialised : All (IsSerialised texts texts-Serialises object_of) texts_tree
unfolding serialised
texts_tree-IsSerialised = (refl, (refl, tt))

run_entries-create_all_example :
    create_all texts (run_entries codec broker ◌+◌ (fresh (pos 1)) [] texts_tree).2
    ≡ Outcome.done (map object_of (transmitted (fresh (pos 1)) texts_tree))
run_entries-create_all_example =
    run_entries-create_all texts texts-Serialises object_of codec broker broker-Stores ◌+◌
      (fresh (pos 1)) [] texts_tree texts_tree-IsSerialised

create-get_value_example : create texts (get_value codec broker stored (codes "Run1")).1 ≡ undefined
unfolding lookup
create-get_value_example =
    create-get_value texts codec broker broker-Stores stored (codes "Run1") refl

-- Two files of one key that are equal, and a third, in another order.
abbrev copies : List (Entry ℕ)
copies =
    file (codes "/OCDB/TPC/Run0.root") (4 ∷ [])
    ∷ file (codes "/OCDB/ITS/Run0.root") (4 ∷ [])
    ∷ file (codes "/OCDB/ITS/Run1.root") (5 ∷ [])
    ∷ []

abbrev copies_otherwise : List (Entry ℕ)
copies_otherwise =
    file (codes "/OCDB/ITS/Run0.root") (4 ∷ [])
    ∷ file (codes "/OCDB/TPC/Run0.root") (4 ∷ [])
    ∷ file (codes "/OCDB/ITS/Run1.root") (5 ∷ [])
    ∷ []

abbrev content : Bytes → Bytes
content key = if same key (codes "Run0") then 4 ∷ [] else 5 ∷ []

copies-IsDetermined : All (IsDetermined content) copies
unfolding key_of
copies-IsDetermined = (refl, (refl, (refl, tt)))

run_entries-Perm_example :
    SameRun codec broker broker-Stores ◌+◌ (fresh (negsuc 0)) [] copies copies_otherwise
run_entries-Perm_example =
    run_entries-Perm codec broker broker-Stores ◌+◌ content (fresh (negsuc 0)) [] copies
      copies_otherwise (omega arith) refl copies-IsDetermined (Perm.swap _ _ _)

run_entries-Bag_example : IsContr (
    (f : Bag ℕ content → Left) × ((x : Files ℕ content)
      → f (Quot.mk x)
        ≡ left_behind codec broker broker-Stores ◌+◌ content (fresh (negsuc 0)) [] x.0))
run_entries-Bag_example =
    run_entries-Bag codec broker broker-Stores ◌+◌ content (fresh (negsuc 0)) [] (omega arith) refl

-- A function of the files up to order, at files of which two have one key.
counted_copies :
    (f : Bag ℕ content → Left)
    → ((x : Files ℕ content)
        → f (Quot.mk x)
          ≡ left_behind codec broker broker-Stores ◌+◌ content (fresh (negsuc 0)) [] x.0)
    → ((f (Quot.mk (copies, copies-IsDetermined))).0 ≡ 3)
      × ((f (Quot.mk (copies, copies-IsDetermined))).1 ≡ 3)
unfolding run_entries transmit load limit_passed put_value get_value key_of insert lookup less
counted_copies f h =
    let same_left = h (copies, copies-IsDetermined) in
    (ap (λ (l : Left). l.0) same_left, ap (λ (l : Left). l.1) same_left)
