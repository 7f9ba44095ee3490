-- ===== src/Workload.antt =====
-- The access patterns of src/AccessPattern.cc, src/RandomAccessPattern.cc,
-- src/ReadOnlyAccessPattern.cc, src/WriteOnlyAccessPattern.cc and src/OCDBAccessPattern.cc, and the
-- value distribution of src/ConstantValueDistribution.cc.
--
-- The generator behind rand() and the operations on doubles are arguments. An int has 32 bits, and
-- what is undefined of its arithmetic, a division by zero among it, is `undefined`.
pub mod Keys
pub mod Patterns
mod Values
mod Tests
use key_value_cluster_perf.Base.{
  ℕ, zero, suc, ◌+◌, ◌-◌, ◌%◌, ◌^◌, ◌≤◌, Bytes, Bool, true, false, ◌&&◌, leb, ltb, not,
  if◌then◌else◌, List, [], ◌∷◌, length, ℤ, pos, negsuc, pos_part, neg_part, ◌+ℤ◌, ◌-ℤ◌, set,
}
use key_value_cluster_perf.Buffer.{c_string}
use key_value_cluster_perf.Decimal.{print_int}
use key_value_cluster_perf.Mq.{Outcome, done, exited, undefined, ◌>>=◌}
use key_value_cluster_perf.StdMap.{StringMap, insert}

-- rand(): its hidden state, and numbers up to RAND_MAX.
pub record Random : Type 1 where
  pub State : Type 0
  pub next : State → ℕ × State

-- The operations on doubles that the patterns use; the conversion to int drops the fraction.
pub record Doubles : Type 1 where
  pub Double : Type 0
  pub of_nat : ℕ → Double
  pub of_int : ℤ → Double
  pub one_plus : ℤ → Double
  pub divide : Double → Double → Double
  pub greater : Double → Double → Bool
  pub to_int : Double → ℤ
  pub rand_max : Double

pub record SingleAccess : Type 0 where
  pub read : Bool
  pub key : Bytes
  pub value : Bytes

-- The range of int.
abbrev pub int_range : ℤ → Bool
int_range n = leb (pos_part n) (2 ^ 31 - 1) && leb (neg_part n) (2 ^ 31)

int_result : ℤ → Outcome ℤ
int_result n = if int_range n then done n else undefined

-- r % d on ints: the remainder of a number that is not negative has its sign.
int_remainder : ℕ → ℤ → Outcome ℤ
int_remainder r (pos zero) = undefined
int_remainder r (pos (suc d)) = done (pos (r % suc d))
int_remainder r (negsuc d) = done (pos (r % suc d))

-- rand() % (maxKey - minKey) + minKey
unfoldable pub next_key : ℤ → ℤ → ℕ → Outcome ℤ
unfolding int_result int_remainder
next_key min_key max_key r = do
  width ← int_result (max_key -ℤ min_key)
  offset ← int_remainder r width
  int_result (offset +ℤ min_key)

-- The loop `for (int i = minKey; i <= maxKey; i++)` with `left` rounds to go.
unfoldable pub initialise_keys : Bytes → ℤ → ℕ → StringMap → StringMap
initialise_keys value i zero pairs = pairs
initialise_keys value i (suc left) pairs =
    initialise_keys value (i +ℤ pos 1) left (insert (print_int i) value pairs)

-- How many rounds the loop makes.
abbrev pub key_rounds : ℤ → ℤ → ℕ
key_rounds min_key max_key = pos_part ((max_key -ℤ min_key) +ℤ pos 1)

-- The last `i++` goes to maxKey + 1.
unfoldable pub initialisation_pairs : ℤ → ℤ → Bytes → Outcome StringMap
unfolding initialise_keys int_result
initialisation_pairs min_key max_key value = do
  _ ← int_result (max_key +ℤ pos 1)
  done (initialise_keys value min_key (key_rounds min_key max_key) [])

module _ (g : Random) where
  -- The virtual methods of class AccessPattern.
  pub record AccessPattern : Type 0 where
    pub get_next : g.State → Outcome (SingleAccess × g.State)
    pub get_initialisation_key_value_pairs : Outcome StringMap

  -- readOrWrite > readWriteBorder ? false : true, then the key, of the next number.
  abbrev pub border_access :
      (d : Doubles) → d.Double → ℤ → ℤ → Bytes → g.State → Outcome (SingleAccess × g.State)
  border_access d border min_key max_key value s =
      let (r, s') = g.next s in
      let read = not (d.greater (d.divide (d.of_nat r) d.rand_max) border) in
      let (r', s'') = g.next s' in
      do
        key ← next_key min_key max_key r'
        done (record { read = read; key = print_int key; value = value }, s'')

  abbrev pub plain_access : Bool → ℤ → ℤ → Bytes → g.State → Outcome (SingleAccess × g.State)
  plain_access read min_key max_key value s =
      let (r, s') = g.next s in
      do
        key ← next_key min_key max_key r
        done (record { read = read; key = print_int key; value = value }, s')

  -- int readWriteRatio = ratio; readWriteBorder = readWriteRatio / (1.0 + readWriteRatio)
  unfoldable pub read_write_border : (d : Doubles) → d.Double → d.Double
  read_write_border d ratio =
      let read_write_ratio = d.to_int ratio in
      d.divide (d.of_int read_write_ratio) (d.one_plus read_write_ratio)

  unfoldable pub random_access_pattern : (d : Doubles) → ℤ → ℤ → d.Double → Bytes → AccessPattern
  unfolding read_write_border
  random_access_pattern d min_key max_key ratio value = record {
    get_next = border_access d (read_write_border d ratio) min_key max_key value;
    get_initialisation_key_value_pairs = initialisation_pairs min_key max_key value;
  }

  unfoldable pub ocdb_access_pattern : (d : Doubles) → ℤ → ℤ → d.Double → Bytes → AccessPattern
  unfolding read_write_border
  ocdb_access_pattern d min_key max_key ratio value = record {
    get_next = border_access d (read_write_border d ratio) min_key max_key value;
    get_initialisation_key_value_pairs = initialisation_pairs min_key max_key value;
  }

  unfoldable pub read_only_access_pattern : ℤ → ℤ → Bytes → AccessPattern
  read_only_access_pattern min_key max_key value = record {
    get_next = plain_access true min_key max_key value;
    get_initialisation_key_value_pairs = initialisation_pairs min_key max_key value;
  }

  unfoldable pub write_only_access_pattern : ℤ → ℤ → Bytes → AccessPattern
  write_only_access_pattern min_key max_key value = record {
    get_next = plain_access false min_key max_key value;
    get_initialisation_key_value_pairs = initialisation_pairs min_key max_key value;
  }

-- memset(cells, b, n), for an n up to the length.
abbrev pub fill : ℕ → ℕ → Bytes → Bytes
fill b zero cells = cells
fill b (suc n) [] = []
fill b (suc n) (c ∷ cells) = b ∷ fill b n cells

-- ConstantValueDistribution::ConstantValueDistribution, with what `new char[size]` holds: the value
-- that getNext gives for ever. A size of 0 makes memset write SIZE_MAX bytes, and for a negative
-- one `new` throws, which nothing catches and which aborts the process.
unfoldable pub constant_value : ℤ → Bytes → Outcome Bytes
constant_value (pos zero) cells = undefined
constant_value (pos (suc n)) cells = done (c_string (set (fill b'X' n cells) n 0))
constant_value (negsuc n) cells = exited 134
