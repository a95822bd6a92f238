-- ===== src/Scoring/Kind.antt =====
-- shared/scoring/scorer.go: `classifyThreatType`, the type of the strongest component.
use kerneleye.Base.{
  ℕ, ◌≡◌, refl, Bool, true, false, ◌&&◌, ◌||◌, not, List, [], ◌∷◌, ltb, if◌then◌else◌, Bool-cases,
  ◌⊎◌, inl, inr, All, arith,
}
use kerneleye.Float.{Float, FloatLaws, num}
use kerneleye.Scoring.{
  ThreatScorer, IpMetrics, ThreatType, no_threat, port_scan, service_abuse, syn_flood,
  failed_handshake, connection_burst,
}

-- `candidate`: the priority breaks ties, the lower wins.
pub record Candidate (f : Float) : Type 0 where
  pub threat_type : ThreatType
  pub value : f.F
  pub priority : ℕ

-- `bestPriority` starts at `math.MaxInt`.
abbrev max_int : ℕ
max_int = 9223372036854775807

unfoldable pub candidates : (f : Float) → f.F → f.F → f.F → f.F → f.F → List (Candidate f)
candidates f syn port failed service burst =
    record { threat_type = service_abuse; value = service; priority = 0 }
    ∷ record { threat_type = port_scan; value = port; priority = 1 }
    ∷ record { threat_type = syn_flood; value = syn; priority = 2 }
    ∷ record { threat_type = failed_handshake; value = failed; priority = 3 }
    ∷ record { threat_type = connection_burst; value = burst; priority = 4 }
    ∷ []

-- What a candidate's type asks for, beyond a value that is not at most zero.
unfoldable pub qualifies : (f : Float) → ThreatScorer f → IpMetrics f → ThreatType → f.F → Bool
qualifies f ts m port_scan value = not (ltb m.unique_ports ts.port_scan_threshold)
qualifies f ts m service_abuse value = not (ltb m.max_port_hits ts.service_abuse_threshold)
qualifies f ts m connection_burst value = not (f.le value (num f 5))
qualifies f ts m no_threat value = true
qualifies f ts m syn_flood value = true
qualifies f ts m failed_handshake value = true

unfoldable pub admissible : (f : Float) → ThreatScorer f → IpMetrics f → Candidate f → Bool
unfolding qualifies
admissible f ts m c = not (f.le c.value (num f 0)) && qualifies f ts m c.threat_type c.value

-- A candidate against the best so far.
unfoldable pub beats : (f : Float) → Candidate f → Candidate f → Bool
beats f c best =
    f.lt best.value c.value || (f.eq c.value best.value && ltb c.priority best.priority)

-- The best after a candidate.
abbrev better_of :
    (f : Float) → ThreatScorer f → IpMetrics f → Candidate f → Candidate f → Candidate f
better_of f ts m best c = if admissible f ts m c && beats f c best then c else best

unfoldable pub pick_best :
    (f : Float) → ThreatScorer f → IpMetrics f → Candidate f → List (Candidate f) → Candidate f
unfolding admissible beats
pick_best f ts m best [] = best
pick_best f ts m best (c ∷ cs) = pick_best f ts m (better_of f ts m best c) cs

abbrev pub no_candidate : (f : Float) → Candidate f
no_candidate f = record { threat_type = no_threat; value = num f 0; priority = max_int }

unfoldable pub classify_threat_type :
    (f : Float) → ThreatScorer f → IpMetrics f → f.F → f.F → f.F → f.F → f.F → ThreatType
unfolding candidates pick_best
classify_threat_type f ts m syn port failed service burst =
    (pick_best f ts m (no_candidate f) (candidates f syn port failed service burst)).threat_type

-- What holds of the start and of every admissible candidate holds of the best.
pick_best-keeps :
    (f : Float) (ts : ThreatScorer f) (m : IpMetrics f) (P : Candidate f → Type 0)
    (best : Candidate f) (cs : List (Candidate f))
    → P best
    → All (λ c. admissible f ts m c ≡ true → P c) cs
    → P (pick_best f ts m best cs)
unfolding pick_best
pick_best-keeps f ts m P best [] b all = b
pick_best-keeps f ts m P best (c ∷ cs) b all =
    pick_best-keeps f ts m P (better_of f ts m best c) cs step all.1
  where
    step : P (better_of f ts m best c)
    step = elim (Bool-cases (admissible f ts m c)) [
      | inl ok ↦ elim (Bool-cases (beats f c best)) [
        | inl e ↦ rw (ok, e) (all.0 ok)
        | inr e ↦ rw (ok, e) b
      ]
      | inr bad ↦ rw bad b
    ]

-- A value that the best so far reaches is reached by the best of all.
pick_best-reaches :
    {f : Float} (laws : FloatLaws f) (ts : ThreatScorer f) (m : IpMetrics f) (best : Candidate f)
    (cs : List (Candidate f)) (x : f.F)
    → f.lt best.value x ≡ false
    → f.lt (pick_best f ts m best cs).value x ≡ false
unfolding pick_best beats
pick_best-reaches laws ts m best [] x h = h
pick_best-reaches {f} laws ts m best (c ∷ cs) x h =
    pick_best-reaches laws ts m (better_of f ts m best c) cs x step
  where
    step : f.lt (better_of f ts m best c).value x ≡ false
    step = ground (arith, h, laws.lt_trans best.value c.value x, laws.lt_eq c.value best.value x)

pick_best-maximal :
    {f : Float} (laws : FloatLaws f) (ts : ThreatScorer f) (m : IpMetrics f) (best : Candidate f)
    (cs : List (Candidate f))
    → let top = pick_best f ts m best cs in
      All (λ c. admissible f ts m c ≡ true → f.lt top.value c.value ≡ false) cs
unfolding pick_best beats
pick_best-maximal laws ts m best [] = tt
pick_best-maximal {f} laws ts m best (c ∷ cs) = (
  λ ok. pick_best-reaches laws ts m (better_of f ts m best c) cs c.value (step ok),
  pick_best-maximal laws ts m (better_of f ts m best c) cs,
)
  where
    step : admissible f ts m c ≡ true → f.lt (better_of f ts m best c).value c.value ≡ false
    step ok = ground (arith, ok, laws.lt_irrefl c.value)

-- The value of the component that stands behind a type, zero for none.
abbrev pub component : (f : Float) → f.F → f.F → f.F → f.F → f.F → ThreatType → f.F
component f syn port failed service burst no_threat = num f 0
component f syn port failed service burst port_scan = port
component f syn port failed service burst service_abuse = service
component f syn port failed service burst syn_flood = syn
component f syn port failed service burst failed_handshake = failed
component f syn port failed service burst connection_burst = burst

-- The type of a score is none or that of a component that is not at most zero and meets what its type
-- asks for, and no component that is so exceeds the one behind the type (zero for none).
pub classify_threat_type-maximal :
    {f : Float} (laws : FloatLaws f) (ts : ThreatScorer f) (m : IpMetrics f)
    (syn port failed service burst : f.F)
    → let t = classify_threat_type f ts m syn port failed service burst in
      let v = component f syn port failed service burst t in
      ((t ≡ no_threat) ⊎ ((f.le v (num f 0) ≡ false) × (qualifies f ts m t v ≡ true)))
      × All
          (λ c. admissible f ts m c ≡ true → f.lt v c.value ≡ false)
          (candidates f syn port failed service burst)
unfolding classify_threat_type candidates admissible
classify_threat_type-maximal {f} laws ts m syn port failed service burst =
    (backed.1, rw (← backed.0) (pick_best-maximal laws ts m (no_candidate f) cs))
  where
    cs : List (Candidate f)
    cs = candidates f syn port failed service burst

    P : Candidate f → Type 0
    P c =
        (c.value ≡ component f syn port failed service burst c.threat_type)
        × ((c.threat_type ≡ no_threat)
            ⊎ ((f.le (component f syn port failed service burst c.threat_type) (num f 0) ≡ false)
                × (qualifies f ts m c.threat_type
                      (component f syn port failed service burst c.threat_type)
                    ≡ true)))

    both :
        (t : ThreatType) (v : f.F) (n : ℕ)
        → admissible f ts m (record { threat_type = t; value = v; priority = n }) ≡ true
        → (f.le v (num f 0) ≡ false) × (qualifies f ts m t v ≡ true)
    both t v n h = ground arith

    backed : P (pick_best f ts m (no_candidate f) cs)
    backed =
        pick_best-keeps f ts m P (no_candidate f) cs (refl, inl refl)
          (
            λ h. (refl, inr (both service_abuse service 0 h)),
            (
              λ h. (refl, inr (both port_scan port 1 h)),
              (
                λ h. (refl, inr (both syn_flood syn 2 h)),
                (
                  λ h. (refl, inr (both failed_handshake failed 3 h)),
                  (λ h. (refl, inr (both connection_burst burst 4 h)), tt),
                ),
              ),
            ),
          )
