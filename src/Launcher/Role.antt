-- ===== src/Launcher/Role.antt =====
-- The options that ask `main` for a role.
use key_value_cluster_perf.Base.{
  Bool, true, false, not, ◌≡◌, refl, ap, sym, ◌∙◌, arith, ◌⊎◌, inl, inr, Bool-cases, if◌then◌else◌,
}
use key_value_cluster_perf.Launcher.{
  parsed, refused, Configuration, VariablesMap, apply_options, accept_options,
}

pub given : (b : Bool) → (if b then true else false) ≡ b
given true = refl
given false = refl

module _ {Double : Type 0} where
  -- The options ask for one role and not for help.
  pub record IsRole (vm : VariablesMap Double) : Type 0 where
    pub no_help : vm.help ≡ false
    pub one : vm.controller ≡ not vm.worker

  pub accept_options_lem :
      (vm : VariablesMap Double) (c : Configuration Double)
      → IsRole vm
      → accept_options vm c ≡ parsed (apply_options vm c)
  unfolding accept_options
  accept_options_lem vm c role = ground (arith, role.no_help, role.one)

  pub IsRole-cases :
      (vm : VariablesMap Double) (c : Configuration Double)
      → (accept_options vm c ≡ refused) ⊎ IsRole vm
  unfolding accept_options
  IsRole-cases vm c = elim (Bool-cases vm.help) [
    | inl h ↦ inl (ground arith)
    | inr h ↦ elim (Bool-cases vm.controller) [
      | inl k ↦ elim (Bool-cases vm.worker) [
        | inl l ↦ inl (ground arith)
        | inr l ↦ inr (record { no_help = h; one = k ∙ sym (ap not l) })
      ]
      | inr k ↦ elim (Bool-cases vm.worker) [
        | inl l ↦ inr (record { no_help = h; one = k ∙ sym (ap not l) })
        | inr l ↦ inl (ground arith)
      ]
    ]
  ]
