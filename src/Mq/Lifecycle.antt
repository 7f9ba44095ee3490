-- ===== src/Mq/Lifecycle.antt =====
-- The order of calls that the program makes on an `MQ`.
use key_value_cluster_perf.Base.{◌≡◌, refl, arith}
use key_value_cluster_perf.Mq.{
  live, Mq, Outcome, done, undefined, ◌>>=◌, DestroyResult, destroyed_ok, failed, destroy,
  close_socket,
}

-- Closing a socket that has been closed does nothing.
pub close_socket-close_socket :
    (mq : Mq) {mq' : Mq} → close_socket mq ≡ done mq' → close_socket mq' ≡ done mq'
unfolding close_socket
close_socket-close_socket mq h = ground arith

-- After a `destroy` that succeeded the context pointer is not cleared, so a second `destroy` hands
-- the library a destroyed context; after one that failed it is cleared, and a second does nothing.
pub destroy-destroy :
    (mq : Mq) (again : DestroyResult)
    → mq.context ≡ live
    → mq.open_sockets ≡ 0
    → ((destroy mq destroyed_ok >>= λ mq'. destroy mq' again) ≡ undefined)
      × ((destroy mq failed >>= λ mq'. destroy mq' again) ≡ destroy mq failed)
unfolding destroy
destroy-destroy mq again h none_open = rw (h, none_open) (refl, refl)

pub done-eq {ℓ} : {A : Type ℓ} (a b : A) → Outcome.done a ≡ Outcome.done b → a ≡ b
done-eq a b h = cc
