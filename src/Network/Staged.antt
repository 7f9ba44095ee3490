-- ===== src/Network/Staged.antt =====
-- Each worker is at a stage of its own, and the controller's calls that are left are those of the
-- stages: what a call and what a round of a worker make of this.
use mathlib.Core.Path.{subst}
use key_value_cluster_perf.Base.{
  ℕ, ◌<◌, ◌==◌, ==_iff, Bool-cases, true, false, List, ◌∷◌, ◌≡◌, refl, ap, sym, ◌∙◌, arith, inl,
  inr,
}
use key_value_cluster_perf.Worker.{World}
use key_value_cluster_perf.Network.{Action, update, Site, Peer}
use key_value_cluster_perf.Network.Stages.{Call, Stage, todo, after, tail-todo}
use key_value_cluster_perf.Network.Sites.{IsSound}
use key_value_cluster_perf.Network.Calls.{At}
use key_value_cluster_perf.Network.Program.{index, call_of, mine, Within}

==_refl : (i : ℕ) → (i == i) ≡ true
==_refl i = ground arith

pub update_here {ℓ} : {A : Type ℓ} (f : ℕ → A) (i : ℕ) (a : A) → update f i a i ≡ a
update_here f i a = rw (==_refl i) refl

mine_here :
    (a : Action) (rest : List Action) → mine (index a) (a ∷ rest) ≡ call_of a ∷ mine (index a) rest
mine_here a rest = rw (==_refl (index a)) refl

mine_other :
    (a : Action) (rest : List Action) (j : ℕ)
    → (index a == j) ≡ false
    → mine j (a ∷ rest) ≡ mine j rest
mine_other a rest j h = rw h refl

-- A family that is changed at `i` has what is asked if the new value has at `i`, and the family has
-- elsewhere.
pub update-cases {ℓ κ} :
    {A : Type ℓ} (P : ℕ → A → Type κ) (f : ℕ → A) (i : ℕ) (a : A) (j : ℕ)
    → P i a
    → ((i == j) ≡ false → P j (f j))
    → P j (update f i a j)
update-cases {A} P f i a j given elsewhere = elim (Bool-cases (i == j)) [
  | inl e ↦
      subst (λ (m : ℕ). P m (update f i a m)) ((==_iff i j).0 e)
        (subst (λ (b : A). P i b) (sym (update_here f i a)) given)
  | inr e ↦ rw e (elsewhere e)
]

module _ (w : World) (s₀ : w.broker.State) (sites : ℕ → Site w) (n : ℕ)
    (sound : (i : ℕ) → IsSound w s₀ (sites i)) where
  abbrev pub AtSite : ℕ → Stage → Peer w → Type 0
  AtSite i t p = At w s₀ (sites i) (sound i).text t p

  -- Every worker's peer is at its stage, and the calls that are left on it are those of the stage.
  pub record Staged (program : List Action) (peers : ℕ → Peer w) : Type 0 where
    pub stage : ℕ → Stage
    pub behind : (i : ℕ) → i < n → mine i program ≡ todo (stage i)
    pub at : (i : ℕ) → i < n → AtSite i (stage i) (peers i)
    pub within : Within n program

  both_updated :
      (i j : ℕ) (t : Stage) (p : Peer w) (stage : ℕ → Stage) (peers : ℕ → Peer w)
      → AtSite i t p
      → ((i == j) ≡ false → AtSite j (stage j) (peers j))
      → AtSite j (update stage i t j) (update peers i p j)
  both_updated i j t p stage peers given elsewhere = elim (Bool-cases (i == j)) [
    | inl e ↦
        subst (λ (m : ℕ). AtSite m (update stage i t m) (update peers i p m)) ((==_iff i j).0 e)
          (rw (update_here stage i t) (rw (update_here peers i p) given))
    | inr e ↦ rw e (elsewhere e)
  ]

  -- The controller's next call is the next of the stage of its worker.
  pub call_left :
      {program : List Action} {peers : ℕ → Peer w} (a : Action) (rest : List Action)
      (staged : Staged program peers)
      → program ≡ a ∷ rest
      → (index a < n) × (call_of a ∷ mine (index a) rest ≡ todo (staged.stage (index a)))
  call_left a rest staged e =
      let lt : index a < n = (subst (Within n) e staged.within).0 in
      (
        lt,
        sym (mine_here a rest)
            ∙ ap (λ (q : List Action). mine (index a) q) (sym e)
            ∙ staged.behind (index a) lt,
      )

  -- A call on the connection of one worker, which takes its peer to the next stage.
  pub call-Staged :
      {program : List Action} {peers : ℕ → Peer w} (a : Action) (rest : List Action) (p : Peer w)
      → Staged program peers
      → program ≡ a ∷ rest
      → ((t : Stage) (cs : List Call)
          → call_of a ∷ cs ≡ todo t
          → AtSite (index a) t (peers (index a))
          → AtSite (index a) (after t) p)
      → Staged rest (update peers (index a) p)
  call-Staged {program} {peers} a rest p staged e moves =
      let i = index a in
      let (lt, left) = call_left a rest staged e in
      record {
        stage = update staged.stage i (after (staged.stage i));
        behind = λ j below.
            update-cases (λ (m : ℕ) (t : Stage). mine m rest ≡ todo t) staged.stage i
              (after (staged.stage i)) j (tail-todo (staged.stage i) (call_of a) (mine i rest) left)
              (λ other.
                sym (mine_other a rest j other)
                ∙ ap (λ (q : List Action). mine j q) (sym e)
                ∙ staged.behind j below);
        at = λ j below.
            both_updated i j (after (staged.stage i)) p staged.stage peers
              (moves (staged.stage i) (mine i rest) left (staged.at i lt))
              (λ other. staged.at j below);
        within = (subst (Within n) e staged.within).1;
      }

  -- A round of one worker, which leaves its peer at its stage.
  pub work-Staged :
      {program : List Action} {peers : ℕ → Peer w} (i : ℕ) (p : Peer w)
      → Staged program peers
      → i < n
      → ((t : Stage) → AtSite i t (peers i) → AtSite i t p)
      → Staged program (update peers i p)
  work-Staged {program} {peers} i p staged lt moves = record {
    stage = staged.stage;
    behind = staged.behind;
    at = λ j below.
        update-cases (λ (m : ℕ) (q : Peer w). AtSite m (staged.stage m) q) peers i p j
          (moves (staged.stage i) (staged.at i lt)) (λ other. staged.at j below);
    within = staged.within;
  }
