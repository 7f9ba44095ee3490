-- ===== src/Connector/Bag.antt =====
-- The files of a data path up to order: a directory has no order, the directory iterator of
-- src/DBConnector.cc gives one.
use mathlib.Core.Path.{fun_ext}
use mathlib.Core.Equiv.{IsContr}
use mathlib.Core.HLevel.{Σ_prop_path}
use mathlib.Core.List.{Perm}
use mathlib.Core.Quot
use mathlib.Core.Quot.{Quot, Quot-set}
use key_value_cluster_perf.Base.{ℕ, ◌<◌, ◌^◌, Bytes, List, Option, negsuc, ◌≡◌, refl, All}
use key_value_cluster_perf.Broker.{Codec, Broker, Stores}
use key_value_cluster_perf.Connector.{Connector, Entry, run_entries}
use key_value_cluster_perf.Connector.Order.{IsDetermined, run_entries-Perm}

module _ (T : Type 0) (content : Bytes → Bytes) where
  -- Files, in some order, of which those of one key are equal.
  abbrev pub Files : Type 0
  Files = (es : List (Entry T)) × All (IsDetermined content) es

  abbrev pub SameFiles : Files → Files → Type 0
  SameFiles x y = Perm x.0 y.0

  abbrev pub Bag : Type 0
  Bag = Quot SameFiles

-- What the connector has counted, and what is then under each key.
abbrev pub Left : Type 0
Left = ℕ × ℕ × (Bytes → Option Bytes)

Left-IsSet : IsSet Left
Left-IsSet = hlevel

module _ (c : Codec) (b : Broker) (stores : Stores c b) {T : Type 0} (plus : T → T → T)
    (content : Bytes → Bytes) where
  abbrev pub left_behind : Connector T → b.State → List (Entry T) → Left
  left_behind d s es =
      let (d', s', _made) = run_entries c b plus d s es in
      (d'.loaded_objects, d'.total_data_size, stores.view s')

  module _ (d : Connector T) (s : b.State) (fits : d.loaded_objects < 2 ^ 32)
      (unlimited : d.bytes_limit ≡ negsuc 0) where
    left_behind-SameFiles :
        (x y : Files T content)
        → SameFiles T content x y
        → left_behind d s x.0 ≡ left_behind d s y.0
    left_behind-SameFiles x y perm =
        let (count, size, views) =
          run_entries-Perm c b stores plus content d s x.0 y.0 fits unlimited x.1 perm in
        λ i. (count i, size i, fun_ext views i)

    run_bag : Bag T content → Left
    run_bag = Quot.lift Left-IsSet (λ x. left_behind d s x.0) left_behind-SameFiles

    -- With a database that stores what it is sent, without a limit, -1, and with files of which
    -- those of one key are equal: there is one function of the files up to order, and no other,
    -- that gives what a run over them in any order has counted and leaves under each key.
    pub run_entries-Bag :
        IsContr (
          (f : Bag T content → Left) × ((x : Files T content)
            → f (Quot.mk x) ≡ left_behind d s x.0))
    unfolding run_bag
    run_entries-Bag = (
      (run_bag, λ x. refl),
      λ other.
          Σ_prop_path (λ f. hlevel) (fun_ext (Quot.ind (λ q. Left-IsSet _ _) (λ x. other.1 x))),
    )
