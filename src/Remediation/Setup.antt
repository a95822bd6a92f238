-- ===== src/Remediation/Setup.antt =====
-- agent/remediation/ipset_remediator.go and ipset_state.go: the rules that the ipset remediator sets up and
-- tears down. Whether a command succeeds is the function `runs`.
use kerneleye.Base.{
  ℕ, zero, suc, ◌+◌, ◌≡◌, refl, Bool, true, false, not, ◌&&◌, Option, none, some, List, [], ◌∷◌,
  ◌++◌, if◌then◌else◌, arith,
}
use kerneleye.Base.Str.{Str, str}

abbrev pub Command : Type 0
Command = List Str

abbrev pub chain_name : Str
chain_name = str "KERNEL_EYE"

-- One set of `createIPSets`.
unfoldable pub create_args : Str → Bool → Command
create_args name v6 =
    str "ipset"
    ∷ str "create"
    ∷ name
    ∷ str "hash:ip"
    ∷ str "timeout"
    ∷ str "0"
    ∷ str "maxelem"
    ∷ str "1000000"
    ∷ str "-exist"
    ∷ (if v6 then str "family" ∷ str "inet6" ∷ [] else [])

unfoldable pub create_sets : List Command
unfolding create_args
create_sets =
    create_args (str "kernel_eye_block") false
    ∷ create_args (str "kernel_eye_ratelimit") false
    ∷ create_args (str "kernel_eye_block_v6") true
    ∷ create_args (str "kernel_eye_ratelimit_v6") true
    ∷ []

-- The commands that ran, and whether one that matters failed.
abbrev pub Ran : Type 0
Ran = List Command × Bool

-- Commands whose failure ends the set-up.
unfoldable pub run_all : (Command → Bool) → List Command → Ran
run_all runs [] = ([], false)
run_all runs (c ∷ cs) =
    let rest = run_all runs cs in if runs c then (c ∷ rest.0, rest.1) else (c ∷ [], true)

-- `createIPSets`
unfoldable pub create_ip_sets : (Command → Bool) → Ran
unfolding run_all create_sets
create_ip_sets runs = run_all runs create_sets

abbrev pub append_rule : Str → List Str → Command
append_rule tables rule = tables ∷ str "-A" ∷ chain_name ∷ rule

abbrev pub match_set : Str → List Str → List Str
match_set set rest = str "-m" ∷ str "set" ∷ str "--match-set" ∷ set ∷ str "src" ∷ rest

abbrev pub within_limit : List Str
within_limit =
    str "-m"
    ∷ str "limit"
    ∷ str "--limit"
    ∷ str "10/minute"
    ∷ str "--limit-burst"
    ∷ str "20"
    ∷ str "-j"
    ∷ str "ACCEPT"
    ∷ []

abbrev pub drop_saying : Str → List Str
drop_saying text = str "-j" ∷ str "DROP" ∷ str "-m" ∷ str "comment" ∷ str "--comment" ∷ text ∷ []

-- The commands of `setupIPTables` from the flush to the rules, each of which must succeed.
unfoldable pub chain_rules : List Command
chain_rules =
    (str "iptables" ∷ str "-F" ∷ chain_name ∷ [])
    ∷ append_rule (str "iptables")
        (match_set (str "kernel_eye_block") (drop_saying (str "KernelEye blocked IPs")))
    ∷ append_rule (str "iptables") (match_set (str "kernel_eye_ratelimit") within_limit)
    ∷ append_rule (str "iptables")
        (match_set (str "kernel_eye_ratelimit") (drop_saying (str "KernelEye rate limited")))
    ∷ []

abbrev pub jump_args : Str → Str → Str → Command
jump_args tables op chain = tables ∷ op ∷ chain ∷ str "-j" ∷ chain_name ∷ []

abbrev pub insert_jump : Str → Str → Command
insert_jump tables chain = tables ∷ str "-I" ∷ chain ∷ str "1" ∷ str "-j" ∷ chain_name ∷ []

-- `ruleExists` and `chainExists`
unfoldable pub rule_exists : (Command → Bool) → Str → Bool
rule_exists runs chain = runs (jump_args (str "iptables") (str "-C") chain)

unfoldable pub chain_exists : (Command → Bool) → Str → Bool
chain_exists runs chain = runs (str "iptables" ∷ str "-L" ∷ chain ∷ str "-n" ∷ [])

-- The jumps of `setupIPTables`, once the rules are there: into INPUT, which must succeed, into FORWARD, and
-- into DOCKER-USER if it exists.
unfoldable pub jumps : (Command → Bool) → List Command
unfolding rule_exists chain_exists
jumps runs =
    (if rule_exists runs (str "FORWARD")
      then []
      else insert_jump (str "iptables") (str "FORWARD") ∷ [])
    ++ (if chain_exists runs (str "DOCKER-USER") && not (rule_exists runs (str "DOCKER-USER"))
        then insert_jump (str "iptables") (str "DOCKER-USER") ∷ []
        else [])

-- `setupIP6Tables`, whose failures are ignored; `found` is whether ip6tables is there.
unfoldable pub ip6_rules : (Command → Bool) → Bool → List Command
ip6_rules runs false = []
ip6_rules runs true =
    (str "ip6tables" ∷ str "-N" ∷ chain_name ∷ [])
    ∷ (str "ip6tables" ∷ str "-F" ∷ chain_name ∷ [])
    ∷ append_rule (str "ip6tables")
        (match_set (str "kernel_eye_block_v6") (str "-j" ∷ str "DROP" ∷ []))
    ∷ append_rule (str "ip6tables") (match_set (str "kernel_eye_ratelimit_v6") within_limit)
    ∷ append_rule (str "ip6tables")
        (match_set (str "kernel_eye_ratelimit_v6") (str "-j" ∷ str "DROP" ∷ []))
    ∷ (if runs (jump_args (str "ip6tables") (str "-C") (str "INPUT"))
        then []
        else insert_jump (str "ip6tables") (str "INPUT") ∷ [])

-- `setupIPTables`
unfoldable pub setup_ip_tables : (Command → Bool) → Bool → Ran
unfolding run_all chain_rules jumps ip6_rules rule_exists
setup_ip_tables runs ip6 =
    let ran = run_all runs (
      chain_rules
      ++ (if rule_exists runs (str "INPUT")
          then []
          else insert_jump (str "iptables") (str "INPUT") ∷ [])) in
    (
      (str "iptables" ∷ str "-N" ∷ chain_name ∷ [])
          ∷ (if ran.1 then ran.0 else ran.0 ++ (jumps runs ++ ip6_rules runs ip6)),
      ran.1,
    )

-- A loop of `Teardown` over a chain, from its command number `i` on: it asks whether the jump is there and
-- deletes it. `runs` is whether a command succeeds, by its number; `breaks` is whether the loop ends at a
-- deletion that fails; `none` means that the fuel ran out. The result is the commands that were run.
unfoldable pub remove_jumps : (ℕ → Command → Bool) → Bool → Str → ℕ → ℕ → Option (List Command)
remove_jumps runs breaks chain zero i = none
remove_jumps runs breaks chain (suc fuel) i =
    let asks = jump_args (str "iptables") (str "-C") chain in
    let deletes = jump_args (str "iptables") (str "-D") chain in
    let rest = remove_jumps runs breaks chain fuel (i + 2) in
    if not (runs i asks)
    then some (asks ∷ [])
    else if breaks && not (runs (i + 1) deletes)
    then some (asks ∷ deletes ∷ [])
    else elim rest [ none ↦ none | some more ↦ some (asks ∷ deletes ∷ more) ]

-- The loops over INPUT, and over FORWARD and DOCKER-USER.
unfoldable pub remove_input_jumps : (ℕ → Command → Bool) → ℕ → ℕ → Option (List Command)
unfolding remove_jumps
remove_input_jumps runs fuel i = remove_jumps runs true (str "INPUT") fuel i

unfoldable pub remove_other_jumps : (ℕ → Command → Bool) → Str → ℕ → ℕ → Option (List Command)
unfolding remove_jumps
remove_other_jumps runs chain fuel i = remove_jumps runs false chain fuel i

-- A loop over FORWARD or DOCKER-USER does not end while the jump stays, as it does where its deletion
-- fails: no fuel is enough.
pub remove_other_jumps-diverges :
    (runs : ℕ → Command → Bool) (chain : Str) (fuel i : ℕ)
    → ((j : ℕ) → runs j (jump_args (str "iptables") (str "-C") chain) ≡ true)
    → remove_other_jumps runs chain fuel i ≡ none
unfolding remove_other_jumps remove_jumps
remove_other_jumps-diverges runs chain zero i stays = refl
remove_other_jumps-diverges runs chain (suc fuel) i stays =
    ground (arith, stays i, remove_other_jumps-diverges runs chain fuel (i + 2) stays)

-- The sets that `Teardown` destroys, in order; `exists` is whether `ipset list` shows one.
unfoldable pub destroy_sets : (Str → Bool) → List Str → List Command
destroy_sets exists [] = []
destroy_sets exists (set ∷ sets) =
    let rest = destroy_sets exists sets in
    if exists set
    then (str "ipset" ∷ str "flush" ∷ set ∷ []) ∷ (str "ipset" ∷ str "destroy" ∷ set ∷ []) ∷ rest
    else rest

-- The commands of `Teardown` after its loops.
unfoldable pub teardown_commands : (Str → Bool) → List Command
unfolding destroy_sets
teardown_commands exists =
    (str "iptables" ∷ str "-F" ∷ chain_name ∷ [])
    ∷ (str "iptables" ∷ str "-X" ∷ chain_name ∷ [])
    ∷ destroy_sets exists (
        str "kernel_eye_block"
        ∷ str "kernel_eye_block_v6"
        ∷ str "kernel_eye_ratelimit"
        ∷ str "kernel_eye_ratelimit_v6"
        ∷ str "kerneleye_block_cidr"
        ∷ str "kerneleye_block_cidr_v6"
        ∷ [])
