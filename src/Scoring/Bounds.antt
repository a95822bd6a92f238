-- ===== src/Scoring/Bounds.antt =====
-- The bounds of a score.
use kerneleye.Base.{
  ltb, Bool-cases, inl, inr, ℕ, ◌≡◌, ◌≤◌, ◌<◌, Bool, true, false, arith, le→leb, lt→ltb, leb, ◌&&◌,
  if◌then◌else◌,
}
use kerneleye.Base.Int.{pos, ◌≤ℤ◌}
use kerneleye.Float.{Float, FloatLaws, num}
use kerneleye.Scoring.{
  ThreatScorer, IpMetrics, is_outbound, outbound, is_block_worthy, classify_threat,
}
use kerneleye.Scoring.Score.{calculate_score, adjusted_score, capped, cap, total_events}

-- A capped float passes neither its cap nor what it did not pass before.
cap_same : {f : Float} (laws : FloatLaws f) (n : ℕ) (x : f.F) → f.lt (num f n) (cap f n x) ≡ false
unfolding cap
cap_same {f} laws n x = ground (arith, laws.lt_irrefl (num f n))

cap_keeps :
    {f : Float} (laws : FloatLaws f) (n k : ℕ) (x : f.F)
    → f.lt (num f n) x ≡ false
    → f.lt (num f n) (cap f k x) ≡ false
unfolding cap
cap_keeps {f} laws n k x h = ground (arith, laws.lt_trans (num f n) (num f k) x)

capped_le_100 :
    {f : Float} (laws : FloatLaws f) (m : IpMetrics f) (confidence x : f.F)
    → f.lt (num f 100) (capped f m confidence x) ≡ false
unfolding capped
capped_le_100 {f} laws m confidence x = cap_same laws 100 _

capped_le_30 :
    {f : Float} (laws : FloatLaws f) (m : IpMetrics f) (confidence x : f.F)
    → is_outbound m.direction ≡ true
    → total_events m ≤ 3
    → f.lt (num f 30) (capped f m confidence x) ≡ false
unfolding capped
capped_le_30 {f} laws m confidence x out few =
    rw (out, le→leb (total_events m) 3 few) (cap_keeps laws 30 100 _ (cap_same laws 30 _))

capped_le_40 :
    {f : Float} (laws : FloatLaws f) (m : IpMetrics f) (confidence x : f.F)
    → f.lt confidence (f.decimal 5 1) ≡ true
    → total_events m < 5
    → f.lt (num f 40) (capped f m confidence x) ≡ false
unfolding capped
capped_le_40 {f} laws m confidence x low few =
    rw (low, lt→ltb (total_events m) 5 few)
      (cap_keeps laws 40 100 _ (outbound_keeps (is_outbound m.direction && leb (total_events m) 3)))
  where
    outbound_keeps :
        (b : Bool) → f.lt (num f 40) (if b then cap f 30 (cap f 40 x) else cap f 40 x) ≡ false
    outbound_keeps true = cap_keeps laws 40 30 _ (cap_same laws 40 x)
    outbound_keeps false = cap_same laws 40 x

-- The most that a score can be: 30 for outbound traffic of at most three events; 40 for fewer than five
-- events at a confidence below one half; else 100.
abbrev pub most : {f : Float} → IpMetrics f → f.F → ℕ
most {f} m confidence =
    if is_outbound m.direction && leb (total_events m) 3
    then 30
    else if f.lt confidence (f.decimal 5 1) && ltb (total_events m) 5
    then 40
    else 100

capped_le_most :
    {f : Float} (laws : FloatLaws f) (m : IpMetrics f) (confidence x : f.F)
    → f.lt (num f (most m confidence)) (capped f m confidence x) ≡ false
capped_le_most {f} laws m confidence x =
    elim (Bool-cases (is_outbound m.direction && leb (total_events m) 3)) [
      | inl e ↦ rw e (capped_le_30 laws m confidence x (out e) (few e))
      | inr e ↦
          rw e (elim (Bool-cases (f.lt confidence (f.decimal 5 1) && ltb (total_events m) 5)) [
            | inl e' ↦ rw e' (capped_le_40 laws m confidence x (low e') (little e'))
            | inr e' ↦ rw e' (capped_le_100 laws m confidence x)
          ])
    ]
  where
    out :
        (is_outbound m.direction && leb (total_events m) 3) ≡ true → is_outbound m.direction ≡ true
    out e = ground arith

    few : (is_outbound m.direction && leb (total_events m) 3) ≡ true → total_events m ≤ 3
    few e = ground arith

    low :
        (f.lt confidence (f.decimal 5 1) && ltb (total_events m) 5) ≡ true
        → f.lt confidence (f.decimal 5 1) ≡ true
    low e = ground arith

    little : (f.lt confidence (f.decimal 5 1) && ltb (total_events m) 5) ≡ true → total_events m < 5
    little e = ground arith

-- A score is at most 100; at most 40 for fewer than five events at a confidence below one half; at most
-- 30 for outbound traffic of at most three events.
pub calculate_score-bounded :
    {f : Float} (laws : FloatLaws f) (ts : ThreatScorer f) (now : ℕ) (m : IpMetrics f)
    → (calculate_score f ts now m).score ≤ℤ pos (most m (calculate_score f ts now m).confidence)
unfolding calculate_score adjusted_score
calculate_score-bounded {f} laws ts now m =
    laws.trunc_le _ _ (ground arith)
      (capped_le_most laws m (calculate_score f ts now m).confidence _)

-- A block-worthy score is malicious and at least the threshold of automatic blocks, with a confidence
-- of at least one half, and is not that of outbound traffic of at most three events, if that threshold
-- is above 30 (`NewThreatScorer` has 40).
pub is_block_worthy_sound :
    {f : Float} (laws : FloatLaws f) (ts : ThreatScorer f) (now : ℕ) (m : IpMetrics f)
    → pos 31 ≤ℤ ts.auto_block_threshold
    → is_block_worthy f ts (calculate_score f ts now m) ≡ true
    → let r = calculate_score f ts now m in
      (ts.auto_block_threshold ≤ℤ r.score)
      × (ts.malicious_threshold ≤ℤ r.score)
      × (f.le (f.decimal 5 1) r.confidence ≡ true)
      × ¬ ((m.direction ≡ outbound) × (total_events m ≤ 3))
unfolding is_block_worthy calculate_score classify_threat
is_block_worthy_sound {f} laws ts now m t h = ground (arith, calculate_score-bounded laws ts now m)
