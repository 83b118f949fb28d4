-- ===== src/Firewall/Laws.antt =====
-- The rules that installIptablesRules of cmd/splitter/main_linux.go leaves, and their removal.
use mathlib.Core.List.{append-nil}
use mathlib.Core.Path.{subst}
use gov_pass.Prelude.{
  ℕ, zero, suc, ◌+◌, ◌≤◌, ◌<◌, ◌≡◌, refl, ap, sym, ◌∙◌, arith, Bool, true, false, not, Option, none,
  some, List, [], ◌∷◌, ◌++◌, ◌==◌, if◌then◌else◌, option_cases, Option-cases, ◌⊎◌, inl, inr,
}
use gov_pass.Settings.{Text}
use gov_pass.Firewall.Chain.{rules_of, Outgoing, treat, wanted, treat-rules}
use gov_pass.Firewall.{
  RuleOptions, Rule, return_marked, return_loopback, queue_https, new_chain, flush_chain,
  delete_chain, check_jump, insert_jump, delete_jump, append_rule, Iptables, step_after,
  ensure_chain, ensure_jump, add_mark, add_loopback, install_rules, delete_jumps, uninstall_rules,
}

-- The documented effect of a command that succeeds, on the chain's rules, if there is one, and on
-- the number of jumps to it: -D takes one jump away, and -X the chain, which it leaves alone where it
-- fails. Any command may fail, for whatever reason.
pub record Documented {W : Type 0} (ipt : Iptables W) (chain_of : W → Option (List Rule))
    (jumps : W → ℕ) : Type 0 where
  pub new_keeps : (w : W) → jumps (ipt.run_command new_chain w).0 ≡ jumps w
  pub flush_empties :
      (w : W)
      → (ipt.run_command flush_chain w).1 ≡ none
      → chain_of (ipt.run_command flush_chain w).0 ≡ some []
  pub flush_keeps : (w : W) → jumps (ipt.run_command flush_chain w).0 ≡ jumps w
  pub check_finds : (w : W) → (ipt.run_command check_jump w).1 ≡ none → 1 ≤ jumps w
  pub check_keeps :
      (w : W)
      → (chain_of (ipt.run_command check_jump w).0 ≡ chain_of w)
        × (jumps (ipt.run_command check_jump w).0 ≡ jumps w)
  pub insert_jumps :
      (w : W)
      → (ipt.run_command insert_jump w).1 ≡ none
      → jumps (ipt.run_command insert_jump w).0 ≡ jumps w + 1
  pub insert_keeps : (w : W) → chain_of (ipt.run_command insert_jump w).0 ≡ chain_of w
  pub append_adds :
      (r : Rule) (w : W) (rs : List Rule)
      → (ipt.run_command (append_rule r) w).1 ≡ none
      → chain_of w ≡ some rs
      → chain_of (ipt.run_command (append_rule r) w).0 ≡ some (rs ++ r ∷ [])
  pub append_keeps : (r : Rule) (w : W) → jumps (ipt.run_command (append_rule r) w).0 ≡ jumps w
  pub delete_finds :
      (w : W)
      → (ipt.run_command delete_jump w).1 ≡ none
      → jumps w ≡ jumps (ipt.run_command delete_jump w).0 + 1
  pub delete_keeps : (w : W) → chain_of (ipt.run_command delete_jump w).0 ≡ chain_of w
  pub chain_deleted :
      (w : W)
      → (ipt.run_command delete_chain w).1 ≡ none
      → chain_of (ipt.run_command delete_chain w).0 ≡ none
  pub chain_kept :
      (w : W) (e : Text)
      → (ipt.run_command delete_chain w).1 ≡ some e
      → chain_of (ipt.run_command delete_chain w).0 ≡ chain_of w

-- One step of an installation that succeeds.
step_after-none :
    {W : Type 0} (r : W × Option Text) (step : W → W × Option Text)
    → (step_after r step).1 ≡ none
    → (r.1 ≡ none) × (step_after r step ≡ step r.0)
step_after-none (w, none) step h = (refl, refl)
step_after-none (w, some e) step h = cc h

same_end : {W : Type 0} {a b : W × Option Text} → a ≡ b → a.1 ≡ none → b.1 ≡ none
same_end eq h = ap (λ r. r.1) (sym eq) ∙ h

module _ {W : Type 0} (ipt : Iptables W) (chain_of : W → Option (List Rule)) (jumps : W → ℕ)
    (doc : Documented ipt chain_of jumps) where
  -- A chain with these rules, and a jump to it.
  abbrev Holds : List Rule → W → Type 0
  Holds rs w = (chain_of w ≡ some rs) × (1 ≤ jumps w)

  ensure_jump-Holds :
      (w : W) → chain_of w ≡ some [] → (ensure_jump ipt w).1 ≡ none → Holds [] (ensure_jump ipt w).0
  unfolding ensure_jump
  ensure_jump-Holds w empty =
      let goal : W × Option Text → Type 0 = λ r. r.1 ≡ none → Holds [] r.0 in
      let r = ipt.run_command check_jump w in
      let kept = doc.check_keeps w in
      option_cases goal r.1
        (λ found _.
          let least = doc.check_finds w found in (kept.0 ∙ empty, omega (arith, kept.1, least)))
        λ e _ h. (doc.insert_keeps r.0 ∙ kept.0 ∙ empty, omega (arith, doc.insert_jumps r.0 h))

  append-Holds :
      (rule : Rule) (rs : List Rule) (w : W)
      → Holds rs w
      → (ipt.run_command (append_rule rule) w).1 ≡ none
      → Holds (rs ++ rule ∷ []) (ipt.run_command (append_rule rule) w).0
  append-Holds rule rs w h e =
      (doc.append_adds rule w rs e h.0, omega (arith, h.1, doc.append_keeps rule w))

  -- A rule that the options may leave out.
  optional_rule :
      (b : Bool) (rule : Rule) (rs : List Rule) (w : W)
      → Holds rs w
      → (if b then ipt.run_command (append_rule rule) w else (w, none)).1 ≡ none
      → Holds
          (rs ++ (if b then rule ∷ [] else []))
          (if b then ipt.run_command (append_rule rule) w else (w, none)).0
  optional_rule true rule rs w h e = append-Holds rule rs w h e
  optional_rule false rule rs w h e = (h.0 ∙ ap some (sym (append-nil rs)), h.1)

  install_rules-Holds :
      (opts : RuleOptions) (w : W)
      → (install_rules ipt opts w).1 ≡ none
      → Holds (rules_of opts) (install_rules ipt opts w).0
  unfolding install_rules add_mark add_loopback
  install_rules-Holds opts w e =
      let flushed = step_after (ensure_chain ipt w) (ipt.run_command flush_chain) in
      let jumped = step_after flushed (ensure_jump ipt) in
      let marked = step_after jumped (add_mark ipt opts) in
      let looped = step_after marked (add_loopback ipt opts) in
      let five =
        step_after-none looped (ipt.run_command (append_rule (queue_https opts.queue_num))) e in
      let four = step_after-none marked (add_loopback ipt opts) five.0 in
      let three = step_after-none jumped (add_mark ipt opts) four.0 in
      let two = step_after-none flushed (ensure_jump ipt) three.0 in
      let one = step_after-none (ensure_chain ipt w) (ipt.run_command flush_chain) two.0 in
      let w1 = (ensure_chain ipt w).0 in
      let empty : chain_of flushed.0 ≡ some [] =
        ap (λ r. chain_of r.0) one.1 ∙ doc.flush_empties w1 (same_end one.1 two.0) in
      let a : Holds [] jumped.0 =
        subst (λ r. Holds [] r.0) (sym two.1)
          (ensure_jump-Holds flushed.0 empty (same_end two.1 three.0)) in
      let b : Holds (if not (opts.mark == 0) then return_marked opts.mark ∷ [] else []) marked.0 =
        subst (λ r. Holds (if not (opts.mark == 0) then return_marked opts.mark ∷ [] else []) r.0)
          (sym three.1)
          (optional_rule (not (opts.mark == 0)) (return_marked opts.mark) [] jumped.0 a
            (same_end three.1 four.0)) in
      let c : Holds
          ((if not (opts.mark == 0) then return_marked opts.mark ∷ [] else [])
            ++ (if opts.exclude_loopback then return_loopback ∷ [] else []))
          looped.0 =
        subst
          (λ r.
            Holds
              ((if not (opts.mark == 0) then return_marked opts.mark ∷ [] else [])
                ++ (if opts.exclude_loopback then return_loopback ∷ [] else []))
              r.0)
          (sym four.1)
          (optional_rule opts.exclude_loopback return_loopback _ marked.0 b
            (same_end four.1 five.0)) in
      subst (λ r. Holds (rules_of opts) r.0) (sym five.1)
        (append-Holds (queue_https opts.queue_num) _ looped.0 c (same_end five.1 e))

  -- The loop of the removal ends: at the latest when no jump is left.
  delete_jumps-ends :
      (fuel : ℕ) (w : W) → jumps w < fuel → (w1 : W) × (delete_jumps ipt fuel w ≡ some w1)
  unfolding delete_jumps
  delete_jumps-ends zero w enough = absurd (omega (arith, enough))
  delete_jumps-ends (suc fuel) w enough =
      let r = ipt.run_command delete_jump w in
      let goal : Option W → Type 0 = λ o. (w1 : W) × (o ≡ some w1) in
      option_cases goal r.1
        (λ found. delete_jumps-ends fuel r.0 (omega (arith, enough, doc.delete_finds w found)))
        (λ e refused. (r.0, refl))

  -- What -X leaves of the chain.
  delete_chain-leaves :
      (w : W)
      → (chain_of (ipt.run_command delete_chain w).0 ≡ none)
        ⊎ (chain_of (ipt.run_command delete_chain w).0 ≡ chain_of w)
  delete_chain-leaves w = elim (Option-cases (ipt.run_command delete_chain w).1) [
    | inl done ↦ inl (doc.chain_deleted w done)
    | inr (e, failed) ↦ inr (doc.chain_kept w e failed)
  ]

-- With iptables as its documents say: an installation that returns nil leaves the chain that the
-- options ask for and a jump to it, whatever rules were there before; and in that chain a packet with
-- the mark of what the program sends, if there is a mark, and one by the loopback, if that is left
-- out, pass by, any other of TCP to port 443 is queued, and the rest pass by.
pub install_rules-wanted :
    {W : Type 0}
    → (ipt : Iptables W) (chain_of : W → Option (List Rule)) (jumps : W → ℕ)
    → Documented ipt chain_of jumps
    → (opts : RuleOptions) (w : W) (p : Outgoing) → (install_rules ipt opts w).1 ≡ none
    → (chain_of (install_rules ipt opts w).0 ≡ some (rules_of opts))
      × (1 ≤ jumps (install_rules ipt opts w).0)
      × (treat (rules_of opts) p ≡ wanted opts p)
unfolding wanted
install_rules-wanted ipt chain_of jumps doc opts w p e =
    let holds = install_rules-Holds ipt chain_of jumps doc opts w e in
    (
      holds.0,
      holds.1,
      treat-rules (not (opts.mark == 0)) opts.exclude_loopback opts.mark opts.queue_num p,
    )

-- With iptables as its documents say, where any command may fail, and more turns than there are jumps
-- to the chain: the removal ends; and then the chain is gone, or it has no rules, so that nothing is
-- queued, or iptables refused to flush it.
pub uninstall_rules-ends :
    {W : Type 0}
    → (ipt : Iptables W) (chain_of : W → Option (List Rule)) (jumps : W → ℕ)
    → Documented ipt chain_of jumps
    → (fuel : ℕ) (w : W) → jumps w < fuel
    → (w1 : W) × (uninstall_rules ipt fuel w ≡ some w1)
      × ((chain_of w1 ≡ none)
          ⊎ (chain_of w1 ≡ some [])
          ⊎ ((w0 : W) × (e : Text) × (delete_jumps ipt fuel w ≡ some w0)
              × ((ipt.run_command flush_chain w0).1 ≡ some e)))
unfolding uninstall_rules
uninstall_rules-ends ipt chain_of jumps doc fuel w enough =
    let ended = delete_jumps-ends ipt chain_of jumps doc fuel w enough in
    let flushed = (ipt.run_command flush_chain ended.0).0 in
    (
      (ipt.run_command delete_chain flushed).0,
      rw (ended.1, uninstall_rules) refl,
      elim (delete_chain-leaves ipt chain_of jumps doc flushed) [
        | inl gone ↦ inl gone
        | inr kept ↦ elim (Option-cases (ipt.run_command flush_chain ended.0).1) [
          | inl done ↦ inr (inl (kept ∙ doc.flush_empties ended.0 done))
          | inr (e, failed) ↦ inr (inr (ended.0, e, ended.1, failed))
        ]
      ],
    )
