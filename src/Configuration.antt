-- ===== src/Configuration.antt =====
-- src/ConfigurationManager.cc: 'key=value' lines read into a map and written from one, and the
-- files that hold them.
pub mod Lines
pub mod Clean
pub mod Render
pub mod RoundTrip
pub mod Append
mod Tests
use mathlib.Core.Option
use key_value_cluster_perf.Base.{
  ℕ, Bytes, Bool, true, false, List, [], ◌∷◌, ◌++◌, Option, none, some, same, ◌==◌, if◌then◌else◌,
}
use key_value_cluster_perf.StdMap.{StringMap, insert, at}

-- The lines that `while (getline(iss, line))` reads: the text after the last newline is a line
-- unless it is empty.
push : ℕ → List Bytes → List Bytes
push c [] = (c ∷ []) ∷ []
push c (l ∷ ls) = (c ∷ l) ∷ ls

unfoldable pub lines : Bytes → List Bytes
unfolding push
lines [] = []
lines (c ∷ cs) = let rest = lines cs in if c == b'\n' then [] ∷ rest else push c rest

-- line.compare(0, 1, "#") == 0
unfoldable pub is_comment : Bytes → Bool
is_comment [] = false
is_comment (c ∷ cs) = c == b'#'

cons_key : ℕ → Bytes × Bytes → Bytes × Bytes
cons_key c (k, v) = (c ∷ k, v)

-- line.find("="), and the two substrings around it.
pub split_line : Bytes → Option (Bytes × Bytes)
unfolding cons_key
split_line [] = none
split_line (c ∷ cs) =
    let rest = split_line cs in if c == b'=' then some ([], cs) else Option.map (cons_key c) rest

add_entry : StringMap → Option (Bytes × Bytes) → StringMap
add_entry configuration none = configuration
add_entry configuration (some (k, v)) = insert k v configuration

-- The body of the loop of `readString`.
pub read_line : StringMap → Bytes → StringMap
unfolding is_comment split_line add_entry
read_line configuration line =
    if is_comment line then configuration else add_entry configuration (split_line line)

pub read_lines : StringMap → List Bytes → StringMap
read_lines configuration [] = configuration
read_lines configuration (l ∷ ls) = read_lines (read_line configuration l) ls

unfoldable pub read_string : Bytes → StringMap
unfolding read_lines read_line lines
read_string str = read_lines [] (lines str)

-- it->first << "=" << configuration[it->first]
pub write_entry : StringMap → Bytes → Bytes
write_entry configuration key = key ++ (b'=' ∷ at configuration key)

-- The loop of `writeString`, over the entries behind the first.
pub write_rest : StringMap → StringMap → Bytes
unfolding write_entry
write_rest configuration [] = []
write_rest configuration ((k, v) ∷ m) =
    b'\n' ∷ (write_entry configuration k ++ write_rest configuration m)

-- `none` on the empty map, where the source dereferences `configuration.begin()`, its end.
unfoldable pub write_string : StringMap → Option Bytes
unfolding write_rest
write_string [] = none
write_string ((k, v) ∷ m) =
    let configuration = (k, v) ∷ m in
    some (write_entry configuration k ++ write_rest configuration m)

-- The files by name, with their contents.
abbrev pub Files : Type 0
Files = Bytes → Option Bytes

-- A file that cannot be opened gives an empty stream.
contents : Option Bytes → Bytes
contents none = []
contents (some text) = text

unfoldable pub read_file : Files → Bytes → StringMap
unfolding contents read_string
read_file files file_name = read_string (contents (files file_name))

store : Files → Bytes → Option Bytes → Option Files
store files file_name none = none
store files file_name (some text) =
    some (λ name. if same file_name name then some text else files name)

unfoldable pub write_file : Files → Bytes → StringMap → Option Files
unfolding store write_string
write_file files file_name configuration = store files file_name (write_string configuration)

-- The host file: its lines as they are.
unfoldable pub read_host_file : Files → Bytes → List Bytes
unfolding contents lines
read_host_file files file_name = lines (contents (files file_name))
