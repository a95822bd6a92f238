-- ===== src/Remediation/Hybrid.antt =====
-- agent/remediation/hybrid_remediator.go: XDP first, ipset as well or instead. Whether the kernel
-- accepts a write to a map is `puts`.
use kerneleye.Base.{
  ◌≡◌, inl, inr, Option-cases, ◌∙◌, refl, Bool, true, false, ◌&&◌, ◌||◌, Option, none, some, List,
  [], ◌∷◌, if◌then◌else◌,
}
use kerneleye.Base.Str.{Str}
use kerneleye.Base.Int.{ℤ}
use kerneleye.Signing.{Sys}
use kerneleye.Remediation.Xdp.{Xdp, XdpError, xdp_block, xdp_unblock}
use kerneleye.Remediation.{
  Net, IpSetRemediator, Action, action_block, action_rate_limit, block, unblock, rate_limit,
  BlockType,
}

-- `HybridRemediator`: `none` where XDP is not enabled.
pub record Hybrid : Type 0 where
  pub xdp : Option Xdp
  pub iptables : IpSetRemediator
  pub has_on_block : Bool

-- The outside of a call: which commands and map writes succeed, and the clocks.
pub record World : Type 0 where
  pub sys : Sys
  pub net : Net
  pub runs : List Str → Bool
  pub puts : Bool
  pub now : ℤ
  pub boot : ℤ

-- The reason that the callback gets.
pub data Reason : Type 0 where
  xdp_reason iptables_reason rate_limit_reason : Reason

pub record Outcome : Type 0 where
  pub state : Hybrid
  pub failed : Bool
  pub calls : List (Action × Str × Reason × ℤ)

abbrev pub has_error {ℓ} : {A : Type ℓ} → Option A → Bool
has_error none = false
has_error (some e) = true

abbrev notify : Hybrid → Action → Str → Reason → ℤ → List (Action × Str × Reason × ℤ)
notify h action ip reason duration =
    if h.has_on_block then (action, ip, reason, duration) ∷ [] else []

-- `Block` without XDP, or after it failed.
unfoldable pub block_by_iptables : World → Hybrid → Str → ℤ → Outcome
block_by_iptables w h ip duration =
    let r = block w.sys w.net w.runs w.now h.iptables ip duration in
    record {
      state = record h { iptables = r.state };
      failed = has_error r.error;
      calls = if has_error r.error then [] else notify h action_block ip iptables_reason duration;
    }

-- `Block` after XDP answered.
unfoldable pub after_xdp : World → Hybrid → Str → ℤ → Xdp × Option XdpError → Outcome
unfolding block_by_iptables
after_xdp w h ip duration (x, none) = record {
  state = record h {
    xdp = some x;
    iptables = (block w.sys w.net w.runs w.now h.iptables ip duration).state;
  };
  failed = false;
  calls = notify h action_block ip xdp_reason duration;
}
after_xdp w h ip duration (x, some e) = block_by_iptables w (record h { xdp = some x }) ip duration

unfoldable pub hybrid_block : World → Hybrid → Str → ℤ → Outcome
unfolding block_by_iptables after_xdp xdp_block
hybrid_block w h ip duration = elim h.xdp [
  | none ↦ block_by_iptables w h ip duration
  | some x ↦ after_xdp w h ip duration (xdp_block w.net w.puts w.boot x ip duration)
]

unfoldable pub hybrid_rate_limit : World → Hybrid → Str → ℤ → Outcome
hybrid_rate_limit w h ip duration =
    let r = rate_limit w.sys w.net w.runs h.iptables ip duration in
    record {
      state = record h { iptables = r.state };
      failed = has_error r.error;
      calls =
          if has_error r.error
          then []
          else notify h action_rate_limit ip rate_limit_reason duration;
    }

-- `Unblock` goes to both, whatever the first answers.
unfoldable pub hybrid_unblock : World → Hybrid → Str → BlockType → Outcome
unfolding xdp_unblock
hybrid_unblock w h ip kind =
    let r = unblock w.net w.runs h.iptables ip kind in
    elim h.xdp [
      | none ↦ record {
        state = record h { iptables = r.state };
        failed = has_error r.error;
        calls = [];
      }
      | some x ↦
          let (x', e) = xdp_unblock w.net w.puts x ip in
          record {
            state = record h { xdp = some x'; iptables = r.state };
            failed = has_error e || has_error r.error;
            calls = [];
          }
    ]

by_iptables :
    (w : World) (h : Hybrid) (ip : Str) (duration : ℤ)
    → let b = block w.sys w.net w.runs w.now h.iptables ip duration in
      ((block_by_iptables w h ip duration).state.iptables ≡ b.state)
      × ((block_by_iptables w h ip duration).failed ≡ has_error b.error)
unfolding block_by_iptables
by_iptables w h ip duration = (refl, refl)

after_xdp_lem :
    (w : World) (h : Hybrid) (ip : Str) (duration : ℤ) (a : Xdp × Option XdpError)
    → let b = block w.sys w.net w.runs w.now h.iptables ip duration in
      ((after_xdp w h ip duration a).state.iptables ≡ b.state)
      × ((after_xdp w h ip duration a).failed ≡ (has_error b.error && has_error a.1))
unfolding after_xdp
after_xdp_lem w h ip duration (x, none) = (refl, and_false _)
  where
    and_false : (b : Bool) → false ≡ (b && false)
    and_false true = refl
    and_false false = refl
after_xdp_lem w h ip duration (x, some e) =
    let (kept, same) = by_iptables w (record h { xdp = some x }) ip duration in
    (kept, same ∙ and_true _)
  where
    and_true : (b : Bool) → b ≡ (b && true)
    and_true true = refl
    and_true false = refl

-- Whether XDP is off or fails.
unfoldable pub xdp_fails : World → Hybrid → Str → ℤ → Bool
xdp_fails w h ip duration = elim h.xdp [
  | none ↦ true
  | some x ↦ has_error (xdp_block w.net w.puts w.boot x ip duration).1
]

-- A block by the hybrid remediator fails exactly if ipset fails and XDP is off or fails as well;
-- whatever XDP does, ipset is left as its own block would leave it.
pub hybrid_block-fallback :
    (w : World) (h : Hybrid) (ip : Str) (duration : ℤ)
    → let r = hybrid_block w h ip duration in
      let b = block w.sys w.net w.runs w.now h.iptables ip duration in
      (r.state.iptables ≡ b.state) × (r.failed ≡ (has_error b.error && xdp_fails w h ip duration))
unfolding hybrid_block xdp_fails
hybrid_block-fallback w h ip duration = elim (Option-cases h.xdp) [
  | inl e ↦
      let (kept, same) = by_iptables w h ip duration in
      rw (e, hybrid_block, xdp_fails) (kept, same ∙ and_true _)
  | inr (x, e) ↦ rw (e, hybrid_block, xdp_fails) (after_xdp_lem w h ip duration _)
]
  where
    and_true : (b : Bool) → b ≡ (b && true)
    and_true true = refl
    and_true false = refl
