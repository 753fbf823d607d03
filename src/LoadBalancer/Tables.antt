-- ===== src/LoadBalancer/Tables.antt =====
-- The nftables tables that wao-loadbalancer/pkg/proxy/nftables/proxier.go writes: the commands of a
-- transaction on chains, and what nftables documents of running them.
use waok8s.Prelude.{ℕ, ◌≡◌, refl, List, [], ◌∷◌, ◌++◌, Option, Text, text_eq, if◌then◌else◌}
use waok8s.LoadBalancer.Rules.{Rule}

-- The rules of the chains of services and endpoints: those of `writeServiceToEndpointRules`; the mark
-- for masquerading of traffic to the cluster IP, with the words of the local detector if it has any;
-- and the three rules of an endpoint's chain.
pub data ChainRule : Type 0 where
  balancing : Rule → ChainRule
  mark_internal : Text → Text → Text → ℕ → Option Text → ChainRule
  mark_hairpin : Text → Text → ChainRule
  update_affinity : Text → Text → ChainRule
  dnat : Text → Text → ChainRule

-- `tx.Add` of a chain or of a rule, and `tx.Flush` of a chain.
pub data Command : Type 0 where
  add_chain : Text → Command
  flush_chain : Text → Command
  add_rule : Text → ChainRule → Command

-- The rules of the chain `c`, which are `rules` before, after the commands one after the other.
unfoldable pub replay : Text → List Command → List ChainRule → List ChainRule
unfolding text_eq
replay c [] rules = rules
replay c (add_chain d ∷ tx) rules = replay c tx rules
replay c (flush_chain d ∷ tx) rules = replay c tx (if text_eq d c then [] else rules)
replay c (add_rule d r ∷ tx) rules = replay c tx (if text_eq d c then rules ++ r ∷ [] else rules)

-- The tables of the kernel: the rules of each chain, and a transaction that nftables accepts, which
-- is carried out as a whole and in order.
pub record NfTables (T : Type 0) : Type 0 where
  pub rules_of : T → Text → List ChainRule
  pub run : T → List Command → T
  pub run_lem :
      (t : T) (tx : List Command) (c : Text) → rules_of (run t tx) c ≡ replay c tx (rules_of t c)

pub replay-append :
    (c : Text) (xs ys : List Command) (rules : List ChainRule)
    → replay c (xs ++ ys) rules ≡ replay c ys (replay c xs rules)
unfolding replay
replay-append c [] ys rules = refl
replay-append c (add_chain d ∷ xs) ys rules = replay-append c xs ys rules
replay-append c (flush_chain d ∷ xs) ys rules = replay-append c xs ys _
replay-append c (add_rule d r ∷ xs) ys rules = replay-append c xs ys _
