-- ===== src/Samples.antt =====
-- Concrete libraries and machines, at which the theorems with assumptions are applied.
use key_value_cluster_perf.Base.{
  ℕ, suc, ◌+◌, Bytes, true, [], ◌∷◌, ◌++◌, Option, none, some, same, ◌≡◌, refl, ap, ◌∙◌, length,
  take, drop, codes, if◌then◌else◌, negsuc, pos, pos_part, ltb, ◌*◌, ◌/◌, arith, lacks→Lacks,
}
use key_value_cluster_perf.StdMap.{StringMap, lookup, insert}
use key_value_cluster_perf.StdMap.Laws.{lookup-insert}
use key_value_cluster_perf.Broker.{
  Message, Codec, Broker, Stores, put_message, get_message, ok_reply, error_reply,
}
use key_value_cluster_perf.Decimal.{print_nat, print_nat-Lacks}
use key_value_cluster_perf.Mq.{destroyed_ok}
use key_value_cluster_perf.Results.{Platform}
use key_value_cluster_perf.Results.Delivery.{IsPlain}
use key_value_cluster_perf.Transfer.{Connection}
use key_value_cluster_perf.Transfer.Delivery.{IsUp}
use key_value_cluster_perf.Connector.Lifetime.{new_members}
use key_value_cluster_perf.Worker.{World, Construction, Constructs}
use key_value_cluster_perf.Database.{Hashes, RiakState, new_message_sender}
use key_value_cluster_perf.Workload.{Random, Doubles}

-- A message as its fields, each but the last behind its length.
abbrev pub write_message : Message → Bytes
write_message m =
    length m.command
    ∷ (m.command ++ (length m.key ∷ (m.key ++ (length m.value ∷ (m.value ++ m.error)))))

abbrev pub field : Bytes → Bytes
field [] = []
field (n ∷ s) = take n s

abbrev pub behind : Bytes → Bytes
behind [] = []
behind (n ∷ s) = drop n s

abbrev pub read_message : Bytes → Message
read_message s = record {
  command = field s;
  key = field (behind s);
  value = field (behind (behind s));
  error = behind (behind (behind s));
}

take-append : (xs ys : Bytes) → take (length xs) (xs ++ ys) ≡ xs
take-append [] ys = refl
take-append (x ∷ xs) ys = ap (◌∷◌ x) (take-append xs ys)

drop-append : (xs ys : Bytes) → drop (length xs) (xs ++ ys) ≡ ys
drop-append [] ys = refl
drop-append (x ∷ xs) ys = drop-append xs ys

pub read_message-write_message : (m : Message) → read_message (write_message m) ≡ m
read_message-write_message m = simp (take-append, drop-append)

abbrev pub codec : Codec
codec = record {
  encode = write_message;
  decode = read_message;
  decode-encode = read_message-write_message;
}

-- A broker over one map.
abbrev pub found : Option Bytes → Message
found none = error_reply (codes "no such key")
found (some value) = ok_reply value

abbrev pub serve : StringMap → Message → StringMap × Message
serve m request =
    if same request.command (codes "PUT")
    then (insert request.key request.value m, ok_reply (codes ""))
    else if same request.command (codes "GET")
    then (m, found (lookup request.key m))
    else (m, error_reply (codes "bad command"))

abbrev pub answer_bytes : StringMap → Bytes → StringMap × Bytes
answer_bytes m request =
    let (m', reply) = serve m (read_message request) in (m', write_message reply)

abbrev pub broker : Broker
broker = record { State = StringMap; exchange = answer_bytes }

pub serve_request :
    (m : StringMap) (request : Message)
    → answer_bytes m (write_message request)
      ≡ ((serve m request).0, write_message (serve m request).1)
serve_request m request =
    ap (λ (r : Message). ((serve m r).0, write_message (serve m r).1))
      (read_message-write_message request)

abbrev pub broker-Stores : Stores codec broker
broker-Stores = record {
  view = λ m key. lookup key m;
  error_text = λ m key. codes "no such key";
  put_reply =
      λ m key value. ap (λ (a : StringMap × Bytes). a.1) (serve_request m (put_message key value));
  put_view = λ m key value other.
      ap (λ (a : StringMap × Bytes). lookup other a.0) (serve_request m (put_message key value))
      ∙ lookup-insert key value other m;
  get_found = λ m key value h.
      ap (λ (a : StringMap × Bytes). a.1) (serve_request m (get_message key))
      ∙ ap (λ (o : Option Bytes). write_message (found o)) h;
  get_missing = λ m key h.
      ap (λ (a : StringMap × Bytes). a.1) (serve_request m (get_message key))
      ∙ ap (λ (o : Option Bytes). write_message (found o)) h;
  get_view = λ m key other.
      ap (λ (a : StringMap × Bytes). lookup other a.0) (serve_request m (get_message key));
}

abbrev pub connection : Connection
connection = record { created = true; opened = true; attached = true; ended = destroyed_ok }

pub connection-IsUp : IsUp connection
connection-IsUp = record { created = refl; opened = refl; attached = refl }

abbrev pub platform : Platform ℕ
platform = record { hostname = codes "node1"; show_double = print_nat; show_duration = print_nat }

pub platform-IsPlain : IsPlain platform
platform-IsPlain = record {
  hostname_line = lacks→Lacks b'\n' (codes "node1") refl;
  double_line = λ n. print_nat-Lacks b'\n' n (omega arith);
  duration_line = λ n. print_nat-Lacks b'\n' n (omega arith);
  hostname_nul = lacks→Lacks 0 (codes "node1") refl;
  double_nul = λ n. print_nat-Lacks 0 n (omega arith);
  duration_nul = λ n. print_nat-Lacks 0 n (omega arith);
}

abbrev pub world : World
world = record {
  codec = codec;
  broker = broker;
  Duration = ℕ;
  plus = ◌+◌;
  no_time = 0;
  platform = platform;
  bytes_limit = negsuc 0;
  value_size = pos 3;
}

-- An array that holds `n` bytes of no meaning.
abbrev pub garbage : ℕ → Bytes
garbage ℕ.zero = []
garbage (suc n) = 7 ∷ garbage n

pub length-garbage : (n : ℕ) → length (garbage n) ≡ n
length-garbage ℕ.zero = refl
length-garbage (suc n) = ap suc (length-garbage n)

-- A connector is made with no call that fails.
abbrev pub construction : Construction
construction = record { connection = connection; sender = connection; cells = garbage 3 }

pub constructs : Constructs world construction
unfolding new_members
constructs = (_, refl)

-- A generator of numbers that count up.
abbrev pub random : Random
random = record { State = ℕ; next = λ s. (s, s + 1) }

-- Numbers of tenths in place of doubles.
abbrev pub doubles : Doubles
doubles = record {
  Double = ℕ;
  of_nat = λ n. n * 10;
  of_int = λ n. pos_part n * 10;
  one_plus = λ n. 10 + pos_part n * 10;
  divide = λ a b. a * 10 / b;
  greater = λ a b. ltb b a;
  to_int = λ a. pos (a / 10);
  rand_max = 21474836470;
}

abbrev pub hashes : Hashes
hashes = record { sha1 = λ message. take 20 message; vmac = λ message. length message }

abbrev pub riak_start : RiakState hashes codec broker
riak_start = record { sender = new_message_sender (codes "sha1") 0; stored = []; log = [] }
