-- ===== src/Connector/Lifetime.antt =====
-- The constructor and the destructor of src/DBConnector.cc, with the objects that they make and
-- delete: the RiakJava database with its MessageSender, the OCDB pattern and the constant values.
use key_value_cluster_perf.Base.{
  ℕ, suc, Bytes, Bool, true, false, ℤ, pos, ◌&&◌, not, if◌then◌else◌, arith, ◌≡◌, refl, ◌⊎◌, inl,
  inr, set, Bool-cases,
}
use key_value_cluster_perf.Mq.{
  Mq, null, live, destroyed, Outcome, done, exited, ◌>>=◌, DestroyResult, destroyed_ok, interrupted,
  failed, new_mq, open_socket, connect, close_socket, destroy,
}
use key_value_cluster_perf.Transfer.{Connection}
use key_value_cluster_perf.Database.Sender.{new_sender, delete_sender}
use key_value_cluster_perf.Workload.{constant_value, fill}
use key_value_cluster_perf.Buffer.{c_string}

-- The connection of the connector, that of its MessageSender, and its value.
pub record Members : Type 0 where
  pub mq : Mq
  pub sender : Mq
  pub value : Bytes

-- DBConnector::DBConnector; the member `mq` is made first.
unfoldable pub new_members : Connection → Connection → ℤ → Bytes → Outcome Members
unfolding new_mq new_sender open_socket connect constant_value
new_members z y size cells = do
  mq ← new_mq z.created
  sender ← new_sender y.created y.opened y.attached
  value ← constant_value size cells
  opened ← open_socket mq z.opened
  _ ← connect opened z.attached
  done (record { mq = opened; sender = sender; value = value })

-- DBConnector::~DBConnector
pub delete_members : Members → Connection → Connection → Outcome Members
delete_members m z y = do
  sender ← delete_sender m.sender y.ended
  closed ← close_socket m.mq
  mq ← destroy closed z.ended
  done (record m { mq = mq; sender = sender })

-- The pointer to the socket is null, and the library holds no socket open.
abbrev pub IsClosed : Mq → Type 0
IsClosed m = (m.socket ≡ null) × (m.open_sockets ≡ 0)

abbrev pub AreClosed : Members → Type 0
AreClosed m = IsClosed m.mq × IsClosed m.sender

-- Every call of the library on a connection succeeds, but perhaps the last.
abbrev pub is_up : Connection → Bool
is_up z = z.created && (z.opened && z.attached)

abbrev opened : Mq
opened = record { context = live; socket = live; open_sockets = 1 }

new_sender_lem :
    (y : Connection)
    → ((is_up y ≡ false) × (new_sender y.created y.opened y.attached ≡ exited 255))
      ⊎ ((is_up y ≡ true) × (new_sender y.created y.opened y.attached ≡ done opened))
unfolding new_sender
new_sender_lem y = elim (Bool-cases y.created) [
  | inr e ↦ inl (rw e refl, rw e refl)
  | inl e ↦ elim (Bool-cases y.opened) [
    | inr f ↦ inl (rw (e, f) refl, rw (e, f) refl)
    | inl f ↦ elim (Bool-cases y.attached) [
      | inr g ↦ inl (rw (e, f, g) refl, rw (e, f, g) refl)
      | inl g ↦ inr (rw (e, f, g) refl, rw (e, f, g) refl)
    ]
  ]
]

delete_sender_lem : (r : DestroyResult) → (m : Mq) × (delete_sender opened r ≡ done m) × IsClosed m
unfolding delete_sender
delete_sender_lem destroyed_ok =
    (record { context = destroyed; socket = null; open_sockets = 0 }, refl, (refl, refl))
delete_sender_lem interrupted =
    (record { context = live; socket = null; open_sockets = 0 }, refl, (refl, refl))
delete_sender_lem failed =
    (record { context = live; socket = null; open_sockets = 0 }, refl, (refl, refl))

abbrev closed : Mq
closed = record { context = live; socket = null; open_sockets = 0 }

destroy_lem : (r : DestroyResult) → (m : Mq) × (destroy closed r ≡ done m) × IsClosed m
unfolding destroy
destroy_lem destroyed_ok =
    (record { context = destroyed; socket = null; open_sockets = 0 }, refl, (refl, refl))
destroy_lem interrupted =
    (record { context = live; socket = null; open_sockets = 0 }, refl, (refl, refl))
destroy_lem failed =
    (record { context = null; socket = null; open_sockets = 0 }, refl, (refl, refl))

abbrev made : Bytes → Members
made value = record { mq = opened; sender = opened; value = value }

-- The value that the constructor makes.
abbrev value_of : ℕ → Bytes → Bytes
value_of n cells = c_string (set (fill b'X' n cells) n 0)

-- Which code the constructor ends the process with, if a call of the library fails.
abbrev pub exit_code : Connection → Connection → ℕ
exit_code z y = if z.created && not (is_up y) then 255 else 1

pub new_members_lem :
    (z y : Connection) (n : ℕ) (cells : Bytes)
    → (((is_up z && is_up y) ≡ false)
        × (new_members z y (pos (suc n)) cells ≡ exited (exit_code z y)))
      ⊎ (((is_up z && is_up y) ≡ true)
          × (new_members z y (pos (suc n)) cells ≡ done (made (value_of n cells))))
unfolding new_members new_mq open_socket connect constant_value
new_members_lem z y n cells = elim (Bool-cases z.created) [
  | inr e ↦ inl (rw e refl, rw e refl)
  | inl e ↦ elim (new_sender_lem y) [
    | inl (down, f) ↦ inl (ground (arith, down, e), rw e (rw (f, down) refl))
    | inr (up, f) ↦ elim (Bool-cases z.opened) [
      | inr g ↦ inl (rw (e, g) refl, rw e (rw (f, up) (rw g refl)))
      | inl g ↦ elim (Bool-cases z.attached) [
        | inr h ↦ inl (rw (e, g, h) refl, rw e (rw (f, up) (rw (g, h) refl)))
        | inl h ↦ inr (rw (e, g, h) up, rw e (rw f (rw (g, h) refl)))
      ]
    ]
  ]
]

delete_members_lem :
    (value : Bytes) (z y : Connection)
    → (m : Members) × (delete_members (made value) z y ≡ done m) × AreClosed m
unfolding delete_members close_socket
delete_members_lem value z y =
    let (sender, deleted, no_sender) = delete_sender_lem y.ended in
    let (mq, ended, no_mq) = destroy_lem z.ended in
    (
      record { mq = mq; sender = sender; value = value },
      rw deleted (rw ended refl),
      (no_mq, no_sender),
    )

-- For values of a size above 0, whatever the library's calls return: if those of the constructor
-- succeed, a connector is made, and deleted with no pointer that is not live handed to the library;
-- the pointers to the sockets are then null, and the library holds no socket open. If one of them
-- fails, the constructor ends the process, with code 255 if the context of `mq` was made and a call
-- of the MessageSender failed, and else with code 1.
pub new_members-delete_members :
    (z y : Connection) (n : ℕ) (cells : Bytes)
    → (((is_up z && is_up y) ≡ false)
        × (new_members z y (pos (suc n)) cells ≡ exited (exit_code z y)))
      ⊎ (((is_up z && is_up y) ≡ true)
          × (m : Members) × ((new_members z y (pos (suc n)) cells >>= λ made.
                delete_members made z y)
              ≡ done m)
          × AreClosed m)
new_members-delete_members z y n cells = elim (new_members_lem z y n cells) [
  | inl ended ↦ inl ended
  | inr (up, made) ↦
      let (m, deleted, gone) = delete_members_lem (value_of n cells) z y in
      inr (up, m, rw made deleted, gone)
]
