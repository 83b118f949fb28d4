-- ===== src/Firewall/Chain.antt =====
-- The chain that installIptablesRules of cmd/splitter/main_linux.go is to leave, and what becomes of a
-- packet in it.
use gov_pass.Prelude.{
  bit_and, ℕ, ◌≡◌, refl, Bool, true, false, not, ◌&&◌, List, [], ◌∷◌, ◌++◌, ◌==◌, if◌then◌else◌,
}
use gov_pass.Firewall.{RuleOptions, Rule, return_marked, return_loopback, queue_https}

-- The chain that the options ask for: what is let by stands before the queue.
abbrev pub rules_of : RuleOptions → List Rule
rules_of opts =
    (if not (opts.mark == 0) then return_marked opts.mark ∷ [] else [])
    ++ (if opts.exclude_loopback then return_loopback ∷ [] else [])
    ++ queue_https opts.queue_num ∷ []

-- A packet that leaves the host: its mark, whether it leaves by the loopback, and whether it is of TCP
-- to port 443.
pub record Outgoing : Type 0 where
  pub mark : ℕ
  pub loopback : Bool
  pub https : Bool

pub data Treatment : Type 0 where
  passes_by : Treatment
  queued_in : ℕ → Treatment

-- What becomes of a packet in the chain, by the first rule that is for it.
pub treat : List Rule → Outgoing → Treatment
treat [] p = passes_by
treat (return_marked m ∷ rs) p =
    let rest = treat rs p in if bit_and p.mark m == m then passes_by else rest
treat (return_loopback ∷ rs) p = let rest = treat rs p in if p.loopback then passes_by else rest
treat (queue_https n ∷ rs) p = let rest = treat rs p in if p.https then queued_in n else rest

-- What the options ask for.
unfoldable pub wanted : RuleOptions → Outgoing → Treatment
wanted opts p =
    if not (opts.mark == 0) && bit_and p.mark opts.mark == opts.mark
    then passes_by
    else if opts.exclude_loopback && p.loopback
    then passes_by
    else if p.https
    then queued_in opts.queue_num
    else passes_by

pub treat-rules :
    (marks loops : Bool) (m n : ℕ) (p : Outgoing)
    → treat
        ((if marks then return_marked m ∷ [] else [])
          ++ (if loops then return_loopback ∷ [] else [])
          ++ queue_https n ∷ [])
        p
      ≡ (if marks && bit_and p.mark m == m
          then passes_by
          else if loops && p.loopback
          then passes_by
          else if p.https
          then queued_in n
          else passes_by)
unfolding treat
treat-rules true true m n p = refl
treat-rules true false m n p = refl
treat-rules false true m n p = refl
treat-rules false false m n p = refl
