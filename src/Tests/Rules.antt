-- ===== src/Tests/Rules.antt =====
-- The iptables rules installed and removed, against a small firewall.
use gov_pass.Prelude.{
  ℕ, zero, suc, ◌+◌, ◌≤◌, ◌≡◌, refl, arith, true, false, Option, none, some, List, [], ◌∷◌, ◌++◌,
  ◌⊎◌,
}
use gov_pass.Flow.{bytes_eq}
use gov_pass.Strings.{contains, index_of}
use gov_pass.Settings.{Text}
use gov_pass.Firewall.{
  RuleOptions, Rule, queue_https, IptablesCall, new_chain, flush_chain, delete_chain, check_jump,
  insert_jump, delete_jump, append_rule, Iptables, exists_text, ensure_chain, ensure_jump, add_mark,
  add_loopback, install_rules, uninstall_rules, delete_jumps,
}
use gov_pass.Firewall.Chain.{rules_of, Outgoing, treat, wanted}
use gov_pass.Firewall.Laws.{Documented, install_rules-wanted, uninstall_rules-ends}

-- The chain's rules, and the jumps to it.
abbrev World : Type 0
World = Option (List Rule) × ℕ

abbrev filter_command : IptablesCall → World → World × Option Text
filter_command new_chain (none, n) = ((some [], n), none)
filter_command new_chain (some rs, n) = ((some rs, n), some exists_text)
filter_command flush_chain (none, n) = ((none, n), some [])
filter_command flush_chain (some rs, n) = ((some [], n), none)
filter_command delete_chain (some [], zero) = ((none, 0), none)
filter_command delete_chain (some [], suc n) = ((some [], suc n), some [])
filter_command delete_chain (some (r ∷ rs), n) = ((some (r ∷ rs), n), some [])
filter_command delete_chain (none, n) = ((none, n), some [])
filter_command check_jump (c, zero) = ((c, 0), some [])
filter_command check_jump (c, suc n) = ((c, suc n), none)
filter_command insert_jump (c, n) = ((c, n + 1), none)
filter_command delete_jump (c, zero) = ((c, 0), some [])
filter_command delete_jump (c, suc n) = ((c, n), none)
filter_command (append_rule r) (none, n) = ((none, n), some [])
filter_command (append_rule r) (some rs, n) = ((some (rs ++ r ∷ []), n), none)

abbrev small : Iptables World
small = record { run_command = filter_command; to_lower = λ t. t }

abbrev chain_in : World → Option (List Rule)
chain_in w = w.0

abbrev jumps_in : World → ℕ
jumps_in w = w.1

small-Documented : Documented small chain_in jumps_in
small-Documented = record {
  new_keeps = new_keeps;
  flush_empties = flush_empties;
  flush_keeps = flush_keeps;
  check_finds = check_finds;
  check_keeps = check_keeps;
  insert_jumps = λ w h. refl;
  insert_keeps = λ w. refl;
  append_adds = append_adds;
  append_keeps = append_keeps;
  delete_finds = delete_finds;
  delete_keeps = delete_keeps;
  chain_deleted = chain_deleted;
  chain_kept = chain_kept;
}
  where
    new_keeps : (w : World) → (filter_command new_chain w).0.1 ≡ w.1
    new_keeps (none, n) = refl
    new_keeps (some rs, n) = refl

    flush_empties :
        (w : World)
        → (filter_command flush_chain w).1 ≡ none
        → (filter_command flush_chain w).0.0 ≡ some []
    flush_empties (none, n) h = cc h
    flush_empties (some rs, n) h = refl

    flush_keeps : (w : World) → (filter_command flush_chain w).0.1 ≡ w.1
    flush_keeps (none, n) = refl
    flush_keeps (some rs, n) = refl

    check_finds : (w : World) → (filter_command check_jump w).1 ≡ none → 1 ≤ w.1
    check_finds (c, zero) h = cc h
    check_finds (c, suc n) h = omega arith

    check_keeps :
        (w : World)
        → ((filter_command check_jump w).0.0 ≡ w.0) × ((filter_command check_jump w).0.1 ≡ w.1)
    check_keeps (c, zero) = (refl, refl)
    check_keeps (c, suc n) = (refl, refl)

    append_adds :
        (r : Rule) (w : World) (rs : List Rule)
        → (filter_command (append_rule r) w).1 ≡ none
        → w.0 ≡ some rs
        → (filter_command (append_rule r) w).0.0 ≡ some (rs ++ r ∷ [])
    append_adds r (none, n) rs h e = cc
    append_adds r (some qs, n) rs h e = cc e

    append_keeps : (r : Rule) (w : World) → (filter_command (append_rule r) w).0.1 ≡ w.1
    append_keeps r (none, n) = refl
    append_keeps r (some rs, n) = refl

    delete_finds :
        (w : World)
        → (filter_command delete_jump w).1 ≡ none
        → w.1 ≡ (filter_command delete_jump w).0.1 + 1
    delete_finds (c, zero) h = cc h
    delete_finds (c, suc n) h = omega arith

    delete_keeps : (w : World) → (filter_command delete_jump w).0.0 ≡ w.0
    delete_keeps (c, zero) = refl
    delete_keeps (c, suc n) = refl

    chain_deleted :
        (w : World)
        → (filter_command delete_chain w).1 ≡ none
        → (filter_command delete_chain w).0.0 ≡ none
    chain_deleted (none, n) h = cc h
    chain_deleted (some [], zero) h = refl
    chain_deleted (some [], suc n) h = cc h
    chain_deleted (some (r ∷ rs), n) h = cc h

    chain_kept :
        (w : World) (e : Text)
        → (filter_command delete_chain w).1 ≡ some e
        → (filter_command delete_chain w).0.0 ≡ w.0
    chain_kept (none, n) e h = refl
    chain_kept (some [], zero) e h = cc h
    chain_kept (some [], suc n) e h = refl
    chain_kept (some (r ∷ rs), n) e h = refl

-- Rules are there already, and two jumps.
abbrev old_rules : World
old_rules = (some (queue_https 9 ∷ []), 2)

abbrev marked_packet : Outgoing
marked_packet = record { mark = 5; loopback = false; https = true }

abbrev rule_options : RuleOptions
rule_options = record { queue_num = 100; mark = 1; exclude_loopback = true }

install_rules-wanted_example :
    (chain_in (install_rules small rule_options old_rules).0 ≡ some (rules_of rule_options))
    × (1 ≤ jumps_in (install_rules small rule_options old_rules).0)
    × (treat (rules_of rule_options) marked_packet ≡ wanted rule_options marked_packet)
unfolding install_rules ensure_chain ensure_jump add_mark add_loopback contains index_of bytes_eq
install_rules-wanted_example =
    install_rules-wanted small chain_in jumps_in small-Documented rule_options old_rules
      marked_packet refl

uninstall_rules-ends_example :
    (w1 : World) × (uninstall_rules small 3 old_rules ≡ some w1)
    × ((chain_in w1 ≡ none)
        ⊎ (chain_in w1 ≡ some [])
        ⊎ ((w0 : World) × (e : Text) × (delete_jumps small 3 old_rules ≡ some w0)
            × ((filter_command flush_chain w0).1 ≡ some e)))
uninstall_rules-ends_example =
    uninstall_rules-ends small chain_in jumps_in small-Documented 3 old_rules (omega arith)
