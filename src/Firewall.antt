-- ===== src/Firewall.antt =====
-- The iptables rules of cmd/splitter/main_linux.go: installIptablesRules and its removal.
pub mod Chain
pub mod Laws
use gov_pass.Prelude.{
  ℕ, zero, suc, Bool, true, false, not, Option, none, some, List, [], ◌∷◌, ◌++◌, ◌==◌,
  if◌then◌else◌,
}
use gov_pass.Settings.{Text}
use gov_pass.Strings.{contains}

pub record RuleOptions : Type 0 where
  pub queue_num : ℕ
  pub mark : ℕ
  pub exclude_loopback : Bool

-- The rules of the chain: `-m mark --mark m/m -j RETURN`, `-o lo -j RETURN`, and
-- `-p tcp --dport 443 -j NFQUEUE --queue-num n --queue-bypass`.
pub data Rule : Type 0 where
  return_marked : ℕ → Rule
  return_loopback : Rule
  queue_https : ℕ → Rule

-- The command lines of iptables, on the chain GOVPASS_OUTPUT of the table mangle: -N, -F and -X of
-- the chain, -C, -I and -D of the jump to it from OUTPUT, and -A of a rule.
pub data IptablesCall : Type 0 where
  new_chain flush_chain delete_chain check_jump insert_jump delete_jump : IptablesCall
  append_rule : Rule → IptablesCall

-- runCommand in a state `W` that iptables changes, with the text of its error, and ToLower.
pub record Iptables (W : Type 0) : Type 0 where
  pub run_command : IptablesCall → W → W × Option Text
  pub to_lower : Text → Text

-- "exists"
abbrev pub exists_text : Text
exists_text = 101 ∷ 120 ∷ 105 ∷ 115 ∷ 116 ∷ 115 ∷ []

-- The next step, where the one before gave no error.
abbrev pub step_after : {W : Type 0} → W × Option Text → (W → W × Option Text) → W × Option Text
step_after (w, none) step = step w
step_after (w, some e) step = (w, some e)

module _ {W : Type 0} (ipt : Iptables W) where
  -- ensureIptablesChain
  unfoldable pub ensure_chain : W → W × Option Text
  ensure_chain w =
      let r = ipt.run_command new_chain w in
      elim r.1 [
        | none ↦ (r.0, none)
        | some e ↦ if contains (ipt.to_lower e) exists_text then (r.0, none) else (r.0, some e)
      ]

  -- ensureIptablesRule, for the jump.
  unfoldable pub ensure_jump : W → W × Option Text
  ensure_jump w =
      let r = ipt.run_command check_jump w in
      elim r.1 [ none ↦ (r.0, none) | some e ↦ ipt.run_command insert_jump r.0 ]

  unfoldable pub add_mark : RuleOptions → W → W × Option Text
  add_mark opts w =
      if not (opts.mark == 0)
      then ipt.run_command (append_rule (return_marked opts.mark)) w
      else (w, none)

  unfoldable pub add_loopback : RuleOptions → W → W × Option Text
  add_loopback opts w =
      if opts.exclude_loopback then ipt.run_command (append_rule return_loopback) w else (w, none)

  -- installIptablesRules
  unfoldable pub install_rules : RuleOptions → W → W × Option Text
  install_rules opts w =
      step_after
        (step_after
          (step_after
            (step_after (step_after (ensure_chain w) (ipt.run_command flush_chain)) ensure_jump)
            (add_mark opts))
          (add_loopback opts))
        (ipt.run_command (append_rule (queue_https opts.queue_num)))

  -- The loop of uninstallIptablesRules; `none` is out of fuel.
  pub delete_jumps : ℕ → W → Option W
  delete_jumps zero w = none
  delete_jumps (suc fuel) w =
      let r = ipt.run_command delete_jump w in
      elim r.1 [ some e ↦ some r.0 | none ↦ delete_jumps fuel r.0 ]

  -- uninstallIptablesRules, which returns nil.
  pub uninstall_rules : ℕ → W → Option W
  uninstall_rules fuel w = elim (delete_jumps fuel w) [
    | none ↦ none
    | some w1 ↦ some (ipt.run_command delete_chain (ipt.run_command flush_chain w1).0).0
  ]
