-- ===== src/Tests/Acts.antt =====
-- Runs of the theorems on the remediators and the auto-blocker.
use kerneleye.Base.{
  ◌+◌, ◌≡◌, ◌≢◌, ◌≤◌, inl, refl, Bool, true, false, ◌&&◌, ◌||◌, Option, none, some, List, [], ◌∷◌,
  ◌++◌, length, leb, ◌==◌, arith, if◌then◌else◌,
}
use kerneleye.Base.Str.{Str, str_eq}
use kerneleye.Base.Dict.{lookup}
use kerneleye.Base.Int.{pos, ltb_ℤ, leb_ℤ, ◌+ℤ◌, ◌-ℤ◌}
use kerneleye.Scoring.{ThreatScore, malicious, syn_flood, inbound}
use kerneleye.Remediation.{
  is_valid_ip, Net, IpSetRemediator, internal_ip, ratelimit, blocklist, is_external_ip, block,
  rate_limit, unblock, unblock_args, is_blocked, far_future, temp_adds,
}
use kerneleye.Remediation.Memory.{block-is_blocked, unblock_rate_limit-forgets}
use kerneleye.Remediation.External.{internal_untouched}
use kerneleye.Remediation.Hybrid.{
  Hybrid, World, hybrid_block, has_error, xdp_fails, hybrid_block-fallback,
}
use kerneleye.AutoBlocker.{AutoBlocker, Remediator, Deed, blocks, process_score}
use kerneleye.AutoBlocker.Guards.{Warranted, process_score-Warranted}
use kerneleye.AutoBlocker.Storm.{deeds_of, deeds_of-limit}
use kerneleye.Network.{is_private_ip}
use kerneleye.Network.Tracked.{NetLaws, not_private-external}
use kerneleye.Tests.{sys, address}
use kerneleye.Tests.Traffic.{whole}

abbrev four_bytes : Str → Option Str
four_bytes ip = if length ip == 4 then some ip else none

abbrev private_bytes : Str → Bool
private_bytes (a ∷ b ∷ c ∷ d ∷ []) =
    a == 10 || (a == 172 && leb 16 b && leb b 31) || (a == 192 && b == 168)
private_bytes _ = false

abbrev pub net : Net
net = record {
  to4 = four_bytes;
  to16 = λ ip. some ip;
  text = λ ip. ip;
  is_loopback = λ ip. false;
  is_link_local_unicast = λ ip. false;
  is_link_local_multicast = λ ip. false;
  is_private = private_bytes;
}

abbrev pub multicast : Str → Bool
multicast [] = false
multicast (b ∷ bs) = b == 255

net_laws : NetLaws net multicast
net_laws = record {
  private_v4 = λ a b c d. refl;
  to4-four = λ ip h. ground arith;
  four = λ ip ip4 h. ground arith;
  multicast_v6 = λ b bs l h. refl;
  sixteen = λ ip h. refl;
}

abbrev pub public_ip : Str
public_ip = 8 ∷ 8 ∷ 4 ∷ 4 ∷ []

abbrev home_ip : Str
home_ip = 10 ∷ 0 ∷ 0 ∷ 7 ∷ []

not_private : is_private_ip net multicast public_ip ≡ false
unfolding is_private_ip
not_private = refl

not_private-external_example : is_external_ip net public_ip ≡ true
not_private-external_example =
    not_private-external net multicast net_laws public_ip not_private (inl refl)

public-external : is_external_ip net public_ip ≡ true
unfolding is_external_ip
public-external = refl

home-internal : is_external_ip net home_ip ≡ false
unfolding is_external_ip
home-internal = refl

abbrev remediator : IpSetRemediator
remediator = record { has_on_block = true; blocked_ips = [] }

abbrev runs : List Str → Bool
runs args = true

block_succeeds : (block sys net runs (pos 100) remediator public_ip (pos 60)).error ≡ none
unfolding block is_external_ip
block_succeeds = refl

block-is_blocked_example :
    (is_blocked net
      (pos 150)
      (block sys net runs (pos 100) remediator public_ip (pos 60)).state
      public_ip).0
    ≡ (if str_eq public_ip public_ip
        then leb_ℤ (pos 150) (if ltb_ℤ (pos 0) (pos 60) then pos 100 +ℤ pos 60 else far_future)
        else (is_blocked net (pos 150) remediator public_ip).0)
block-is_blocked_example =
    block-is_blocked sys net runs (pos 100) (pos 150) remediator public_ip public_ip (pos 60)
      public-external block_succeeds

unblock_succeeds : (unblock net runs remediator public_ip ratelimit).error ≡ none
unfolding unblock
unblock_succeeds = refl

unblock_rate_limit-forgets_example :
    ((is_blocked net (pos 150) (unblock net runs remediator public_ip ratelimit).state public_ip).0
      ≡ false)
    × ((unblock net runs remediator public_ip ratelimit).commands
        ≡ unblock_args net public_ip ratelimit ∷ [])
    × (unblock_args net public_ip ratelimit ≢ unblock_args net public_ip blocklist)
unblock_rate_limit-forgets_example =
    unblock_rate_limit-forgets net runs (pos 150) remediator public_ip unblock_succeeds

internal_untouched_example :
    (block sys net runs (pos 100) remediator home_ip (pos 60)
      ≡ record { state = remediator; commands = []; calls = []; error = none })
    × (rate_limit sys net runs remediator home_ip (pos 60)
        ≡ record { state = remediator; commands = []; calls = []; error = some internal_ip })
    × ((before after : List Str)
        → temp_adds net (before ++ home_ip ∷ after) ≡ temp_adds net (before ++ after))
unfolding is_valid_ip
internal_untouched_example =
    internal_untouched sys net runs (pos 100) remediator home_ip (pos 60) home-internal refl

abbrev world : World
world = record { sys = sys; net = net; runs = runs; puts = false; now = pos 100; boot = pos 3 }

abbrev hybrid : Hybrid
hybrid = record {
  xdp = some (record { attached = true; blocked = []; blocked_v6 = [] });
  iptables = remediator;
  has_on_block = true;
}

hybrid_block-fallback_example :
    let r = hybrid_block world hybrid public_ip (pos 60) in
    let b = block sys net runs (pos 100) remediator public_ip (pos 60) in
    (r.state.iptables ≡ b.state)
    × (r.failed ≡ (has_error b.error && xdp_fails world hybrid public_ip (pos 60)))
hybrid_block-fallback_example = hybrid_block-fallback world hybrid public_ip (pos 60)

abbrev pub auto_blocker : AutoBlocker whole
auto_blocker = record {
  config = record {
    enabled = true;
    block_threshold = pos 80;
    base_block_duration = pos 3600;
    max_block_duration = pos 7200;
    escalation_multiplier = pos 2;
    max_blocks_per_minute = 2;
  };
  history = [];
  blocks_this_minute = 0;
  last_minute = pos 0;
  backend_rate_limits = [];
}

abbrev pub answers : Remediator
answers = record {
  parse_ip = λ ip. some ip;
  safelisted = λ ip. false;
  is_blocked = λ ip. false;
  block_succeeds = λ ip. true;
  rate_limit_succeeds = λ ip. true;
}

abbrev score : ThreatScore whole
score = record {
  score = pos 90;
  final_score = pos 90;
  level = malicious;
  kind = syn_flood;
  confidence = pos 1;
  direction = inbound;
}

abbrev no_deeds : List Deed
no_deeds = []

acted :
    (process_score whole answers auto_blocker (pos 5) address score).deeds
    ≡ blocks address (pos 3600) ∷ []
unfolding process_score ◌-ℤ◌ lookup
acted = refl

process_score-Warranted_example :
    (no_deeds ≡ []) × Warranted whole answers auto_blocker address score address (pos 3600)
process_score-Warranted_example =
    process_score-Warranted whole answers auto_blocker (pos 5) address score
      (blocks address (pos 3600)) [] acted

soon : ltb_ℤ (pos 60000000000) (pos 5 -ℤ pos 0) ≡ false
unfolding ◌-ℤ◌
soon = refl

deeds_of-limit_example :
    0
      + length (
          deeds_of whole answers auto_blocker
            ((pos 5, address, score) ∷ (pos 5, address, score) ∷ (pos 5, address, score) ∷ []))
    ≤ 2
deeds_of-limit_example =
    deeds_of-limit whole answers auto_blocker
      ((pos 5, address, score) ∷ (pos 5, address, score) ∷ (pos 5, address, score) ∷ [])
      (soon, (soon, (soon, tt))) (ground arith)
