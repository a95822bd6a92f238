-- ===== src/Analyzer/Ring.antt =====
-- The ring buffer of SYN times against what it stands for: the newest times, oldest first.
use kerneleye.Base.{
  take-drop, take_all, drop_all, take-set, drop-set, drop_tail, length-drop, drop-append, ap, sym,
  ◌∙◌, ℕ, zero, suc, ◌+◌, ◌-◌, ◌%◌, ◌≤◌, ◌<◌, ◌≡◌, refl, true, false, List, [], ◌∷◌, ◌++◌,
  append_assoc, append-nil, length, set, take, drop, length-append, length-set, length-replicate,
  arith, ltb, ltb→lt, Bool-cases, if◌then◌else◌, inl, inr,
}
use native.Mathlib.Nat.{mod-eq_of_lt, mod_self}
use kerneleye.Analyzer.{AnalyzerConfig, IpState, new_state, push_syn, count_recent}

-- How many of the times are in the window, the zero time not among them.
abbrev pub count : ℕ → ℕ → List ℕ → ℕ
count now window ts = count_recent now window (length ts) ts

count-append :
    (now window : ℕ) (xs ys : List ℕ)
    → count now window (xs ++ ys) ≡ count now window xs + count now window ys
unfolding count_recent
count-append now window [] ys = omega arith
count-append now window (x ∷ xs) ys = ground (arith, count-append now window xs ys)

count-take :
    (now window n : ℕ) (xs : List ℕ)
    → n ≤ length xs
    → count_recent now window n xs ≡ count now window (take n xs)
unfolding count_recent
count-take now window zero xs h = refl
count-take now window (suc n) [] h = ground arith
count-take now window (suc n) (x ∷ xs) h = ground (arith, count-take now window n xs (omega arith))

-- The newest `n` of some times, which stand oldest first.
abbrev pub newest : ℕ → List ℕ → List ℕ
newest n h = drop (length h - n) h

newest_few : (n : ℕ) (h : List ℕ) → length h ≤ n → newest n h ≡ h
newest_few n h le = rw (zero_of le) refl
  where
    zero_of : length h ≤ n → length h - n ≡ 0
    zero_of le' = omega arith

newest-snoc :
    (n : ℕ) (h : List ℕ) (v : ℕ)
    → 0 < n
    → n ≤ length h
    → newest n (h ++ v ∷ []) ≡ drop 1 (newest n h) ++ v ∷ []
newest-snoc n h v pos le =
    rw (sizes, drop_tail (length h - n) h)
      (drop-append (suc (length h - n)) h (v ∷ []) (omega arith))
  where
    sizes : length (h ++ v ∷ []) - n ≡ suc (length h - n)
    sizes = omega (arith, length-append h (v ∷ []))

-- The ring of `n` entries after the times `h`: its first entries are the times while it fills up; once
-- it is full, those from the index on, before those up to it, are the newest.
data Holds (n : ℕ) (s : IpState) (h : List ℕ) : Type 0 where
  filling :
      length s.syns ≡ n
      → s.syn_len < n
      → s.syn_idx ≡ s.syn_len
      → length h ≡ s.syn_len
      → take s.syn_len s.syns ≡ h
      → Holds n s h
  full :
      length s.syns ≡ n
      → s.syn_len ≡ n
      → s.syn_idx < n
      → n ≤ length h
      → drop s.syn_idx s.syns ++ take s.syn_idx s.syns ≡ newest n h
      → Holds n s h

-- The index after the last entry is the first.
rotate :
    (n i : ℕ) (xs : List ℕ)
    → i < n
    → length xs ≡ n
    → drop ((i + 1) % n) xs ++ take ((i + 1) % n) xs ≡ drop (suc i) xs ++ take (suc i) xs
rotate n i xs lt len = elim (Bool-cases (ltb (i + 1) n)) [
  | inl e ↦ rw (inside e) refl
  | inr e ↦
      rw (wrapped e, drop_all (suc i) xs (last e), take_all (suc i) xs (last e)) (append-nil xs)
]
  where
    inside : ltb (i + 1) n ≡ true → (i + 1) % n ≡ suc i
    inside e = mod-eq_of_lt (ltb→lt (i + 1) n e) ∙ omega arith

    exactly : ltb (i + 1) n ≡ false → i + 1 ≡ n
    exactly e = ground arith

    wrapped : ltb (i + 1) n ≡ false → (i + 1) % n ≡ 0
    wrapped e = ap (λ m. m % n) (exactly e) ∙ mod_self n

    last : ltb (i + 1) n ≡ false → length xs ≤ suc i
    last e = ground arith

-- A write at the index, seen from behind it.
overwrite :
    (i now : ℕ) (xs : List ℕ)
    → i < length xs
    → drop (suc i) (set xs i now) ++ take (suc i) (set xs i now)
      ≡ drop 1 (drop i xs ++ take i xs) ++ now ∷ []
overwrite i now xs lt =
    rw
      (
        drop-set i xs now lt,
        take-set i xs now lt,
        drop-append 1 (drop i xs) (take i xs) long,
        drop_tail i xs,
      )
      (sym (append_assoc (drop (suc i) xs) (take i xs) (now ∷ [])))
  where
    long : 1 ≤ length (drop i xs)
    long = omega (arith, length-drop i xs)

push_syn-Holds :
    (n now : ℕ) (s : IpState) (h : List ℕ)
    → 0 < n
    → Holds n s h
    → Holds n (push_syn now s) (h ++ now ∷ [])
unfolding push_syn
push_syn-Holds n now s h pos (full size used idx many rep) =
    full size' used' idx' (omega (arith, length-append h (now ∷ []), many)) shown
  where
    syns' : List ℕ
    syns' = set s.syns s.syn_idx now

    size' : length syns' ≡ n
    size' = length-set s.syns s.syn_idx now ∙ size

    used' : (if ltb s.syn_len (length s.syns) then s.syn_len + 1 else s.syn_len) ≡ n
    used' = ground (arith, size, used)

    idx' : (s.syn_idx + 1) % length s.syns < n
    idx' = rw size (omega arith)

    shown :
        drop ((s.syn_idx + 1) % length s.syns) syns' ++ take ((s.syn_idx + 1) % length s.syns) syns'
        ≡ newest n (h ++ now ∷ [])
    shown =
        rw
          (
            size,
            rotate n s.syn_idx syns' idx size',
            overwrite s.syn_idx now s.syns (rw size idx),
            rep,
          )
          (sym (newest-snoc n h now pos many))
push_syn-Holds n now s h pos (filling size used idx len rep) =
    elim (Bool-cases (ltb (s.syn_len + 1) n)) [
      | inl e ↦
          filling size' (rw used' (ltb→lt _ _ e)) (next e ∙ sym used') (many ∙ sym used')
            (rw (used', idx) shown)
      | inr e ↦
          full size' (rw used' (ground arith)) (rw size (omega arith))
            (ground (arith, many, used, e))
            (rw (size, rotate n s.syn_idx syns' (rw idx used) size') (last e))
    ]
  where
    syns' : List ℕ
    syns' = set s.syns s.syn_idx now

    size' : length syns' ≡ n
    size' = length-set s.syns s.syn_idx now ∙ size

    used' : (if ltb s.syn_len (length s.syns) then s.syn_len + 1 else s.syn_len) ≡ s.syn_len + 1
    used' = ground (arith, size, used)

    many : length (h ++ now ∷ []) ≡ s.syn_len + 1
    many = omega (arith, length-append h (now ∷ []), len)

    plus : s.syn_len + 1 ≡ suc s.syn_len
    plus = omega arith

    shown : take (s.syn_len + 1) (set s.syns s.syn_len now) ≡ h ++ now ∷ []
    shown = rw (plus, take-set s.syn_len s.syns now (rw size used), rep) refl

    next : ltb (s.syn_len + 1) n ≡ true → (s.syn_idx + 1) % length s.syns ≡ s.syn_len + 1
    next e = rw (size, idx) (mod-eq_of_lt (ltb→lt (s.syn_len + 1) n e))

    last :
        ltb (s.syn_len + 1) n ≡ false
        → drop (suc s.syn_idx) syns' ++ take (suc s.syn_idx) syns' ≡ newest n (h ++ now ∷ [])
    last e =
        rw
          (
            drop_all (suc s.syn_idx) syns' (ground (arith, size', idx, e)),
            take-set s.syn_idx s.syns now (rw (size, idx) used),
            idx,
            rep,
          )
          (sym (newest_few n (h ++ now ∷ []) (omega (arith, many, used))))

-- SYNs at these times, in this order.
abbrev pub push_all : IpState → List ℕ → IpState
push_all s [] = s
push_all s (t ∷ ts) = push_all (push_syn t s) ts

push_all-Holds :
    (n : ℕ) (s : IpState) (h ts : List ℕ) → 0 < n → Holds n s h → Holds n (push_all s ts) (h ++ ts)
push_all-Holds n s h [] pos holds = rw (append-nil h) holds
push_all-Holds n s h (t ∷ ts) pos holds =
    rw (← append_assoc h (t ∷ []) ts)
      (push_all-Holds n (push_syn t s) (h ++ t ∷ []) ts pos (push_syn-Holds n t s h pos holds))

count-Holds :
    (now window n : ℕ) (s : IpState) (h : List ℕ)
    → Holds n s h
    → count_recent now window s.syn_len s.syns ≡ count now window (newest n h)
count-Holds now window n s h (filling size used idx len rep) =
    count-take now window s.syn_len s.syns (omega (arith, size, used))
    ∙ rw (rep, newest_few n h (omega (arith, len, used))) refl
count-Holds now window n s h (full size used idx many rep) =
    rw
      (
        used,
        count-take now window n s.syns (omega (arith, size)),
        take_all n s.syns (omega (arith, size)),
        ← rep,
      )
      (ap (count now window) (sym (take-drop s.syn_idx s.syns))
        ∙ count-append now window (take s.syn_idx s.syns) (drop s.syn_idx s.syns)
        ∙ omega (arith, count-append now window (drop s.syn_idx s.syns) (take s.syn_idx s.syns)))

-- The flood check counts right: after SYNs at any times, what it counts in the ring of an address whose
-- state was made new before them is how many of the newest ones, one more than the threshold, are in
-- the window.
pub count_recent-newest :
    (cfg : AnalyzerConfig) (now window : ℕ) (h : List ℕ)
    → let s = push_all (new_state cfg) h in
      count_recent now window s.syn_len s.syns
      ≡ count now window (newest (cfg.syn_flood_threshold + 1) h)
unfolding new_state
count_recent-newest cfg now window h = count-Holds now window n (push_all (new_state cfg) h) h (
    push_all-Holds n (new_state cfg) [] h (omega arith)
      (filling (length-replicate n 0) (omega arith) refl refl refl))
  where
    n : ℕ
    n = cfg.syn_flood_threshold + 1
