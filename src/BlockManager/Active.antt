-- ===== src/BlockManager/Active.antt =====
-- The active blocks of the block manager: who is blocked, once, and for how long.
use kerneleye.Base.{
  ap, ◌∙◌, ◌≡◌, refl, Bool, true, false, Option, none, some, List, [], ◌∷◌, ◌++◌, All, arith,
  Bool-cases, inl, inr, ◌⊎◌, Option-cases,
}
use kerneleye.Base.Str.{Str, str_eq, str_eq_iff}
use kerneleye.Base.Dict.{Dict, contains, insert, lookup-insert}
use kerneleye.Base.Int.{ℤ}
use kerneleye.Signing.{Sys}
use kerneleye.Hub.{HubCommand}
use kerneleye.BlockManager.{
  Manager, Row, Answers, Effect, insert_block, create_alert, send_command, broadcast_block,
  ActiveBlock, NewBlock, consider, hub_effects, record_block, decide, create_block, evaluate_row,
  evaluate_and_block, new_block, active_block, sign_command, block_command, agent_block_type,
}
use kerneleye.BlockManager.Matrix.{Decision}

-- The addresses for which commands are sent.
abbrev pub commanded : List Effect → List Str
commanded [] = []
commanded (send_command agent cmd ∷ es) = cmd.ip ∷ commanded es
commanded (insert_block b ∷ es) = commanded es
commanded (create_alert server ip score sev ∷ es) = commanded es
commanded (broadcast_block user b ∷ es) = commanded es

abbrev pub Distinct : List Str → Type 0
Distinct [] = Unit
Distinct (x ∷ xs) = All (λ y. str_eq x y ≡ false) xs × Distinct xs

abbrev pub Among : Bool → Dict ActiveBlock → List Str → Type 0
Among b m = All (λ ip. contains ip m ≡ b)

commanded-append : (es fs : List Effect) → commanded (es ++ fs) ≡ commanded es ++ commanded fs
commanded-append [] fs = refl
commanded-append (send_command agent cmd ∷ es) fs = rw (commanded-append es fs)
commanded-append (insert_block b ∷ es) fs = commanded-append es fs
commanded-append (create_alert server ip score sev ∷ es) fs = commanded-append es fs
commanded-append (broadcast_block user b ∷ es) fs = commanded-append es fs

-- What one row does to the active blocks: it changes nothing and commands nobody, or it adds the
-- row's address, which was not there, and commands for that address at most.
abbrev RowOutcome : Manager → Row → Manager × List Effect → Type 0
RowOutcome bm row r =
    ((r.0.active_blocks ≡ bm.active_blocks) × (commanded r.1 ≡ []))
    ⊎ ((b : ActiveBlock) × (r.0.active_blocks ≡ insert row.source_ip b bm.active_blocks)
        × (contains row.source_ip bm.active_blocks ≡ false)
        × ((commanded r.1 ≡ []) ⊎ (commanded r.1 ≡ row.source_ip ∷ [])))

command-ip :
    (s : Sys) (key : Str) (nonce acted_at : ℤ) (cmd : HubCommand)
    → (sign_command s key nonce acted_at cmd).ip ≡ cmd.ip
unfolding sign_command
command-ip s key nonce acted_at cmd = ground arith

hub_effects-commanded :
    (hub : Bool) (user : Option Str) (agent : Str) (cmd : HubCommand) (b : NewBlock)
    → (commanded (hub_effects hub user agent cmd b) ≡ [])
      ⊎ (commanded (hub_effects hub user agent cmd b) ≡ cmd.ip ∷ [])
unfolding hub_effects
hub_effects-commanded false user agent cmd b = inl refl
hub_effects-commanded true none agent cmd b = inr refl
hub_effects-commanded true (some user) agent cmd b = inr refl

record_block-RowOutcome :
    (s : Sys) (bm : Manager) (row : Row) (a : Answers) (d : Decision) (id : Str)
    → contains row.source_ip bm.active_blocks ≡ false
    → RowOutcome bm row (record_block s bm row a d id)
unfolding record_block block_command
record_block-RowOutcome s bm row a d id h =
    inr (active_block row d a.now a.kept_at, refl, h, targets hub)
  where
    cmd : HubCommand
    cmd =
        sign_command s a.key a.nonce a.acted_at
          (block_command s row.source_ip d.duration row.threat_type (agent_block_type d.kind) id)

    es : List Effect
    es =
        hub_effects bm.has_hub row.user_id row.server_id cmd (new_block s row d a.now a.inserted_at)

    cmd-ip : cmd.ip ≡ row.source_ip
    cmd-ip = command-ip s a.key a.nonce a.acted_at _

    hub : (commanded es ≡ []) ⊎ (commanded es ≡ cmd.ip ∷ [])
    hub =
        hub_effects-commanded bm.has_hub row.user_id row.server_id cmd
          (new_block s row d a.now a.inserted_at)

    targets :
        (commanded es ≡ []) ⊎ (commanded es ≡ cmd.ip ∷ [])
        → (commanded es ≡ []) ⊎ (commanded es ≡ row.source_ip ∷ [])
    targets (inl e) = inl e
    targets (inr e) = inr (e ∙ ap (λ ip. ip ∷ []) cmd-ip)

create_block-RowOutcome :
    (s : Sys) (bm : Manager) (row : Row) (a : Answers)
    → contains row.source_ip bm.active_blocks ≡ false
    → RowOutcome bm row (create_block s bm row a)
unfolding create_block
create_block-RowOutcome s bm row a h = elim (Option-cases a.block_id) [
  | inl none_made ↦ rw (none_made, create_block) (inl (refl, refl))
  | inr (id, made) ↦
      rw (made, create_block) (record_block-RowOutcome s bm row a (decide s bm row a) id h)
]

consider-RowOutcome :
    (s : Sys) (bm : Manager) (row : Row) (a : Answers) (active : Bool) (listed : Option Bool)
    → contains row.source_ip bm.active_blocks ≡ active
    → RowOutcome bm row (consider s bm row a active listed)
unfolding consider
consider-RowOutcome s bm row a true listed h = inl (refl, refl)
consider-RowOutcome s bm row a false none h = inl (refl, refl)
consider-RowOutcome s bm row a false (some true) h = inl (refl, refl)
consider-RowOutcome s bm row a false (some false) h = create_block-RowOutcome s bm row a h

evaluate_row-RowOutcome :
    (s : Sys) (bm : Manager) (row : Row) (a : Answers) → RowOutcome bm row (evaluate_row s bm row a)
unfolding evaluate_row
evaluate_row-RowOutcome s bm row a = consider-RowOutcome s bm row a _ a.whitelisted refl

-- An address that is among the active blocks stays so.
abbrev pub Keeps : Dict ActiveBlock → Dict ActiveBlock → Type 0
Keeps m m' = (ip : Str) → contains ip m ≡ true → contains ip m' ≡ true

insert-Keeps : (k : Str) (b : ActiveBlock) (m : Dict ActiveBlock) → Keeps m (insert k b m)
insert-Keeps k b m ip h = ground (arith, lookup-insert k ip b m)

-- What a run of rows does to the active blocks.
pub record Blocks (m : Dict ActiveBlock) (m' : Dict ActiveBlock) (ips : List Str) : Type 0 where
  pub keeps : Keeps m m'
  pub fresh : Among false m ips
  pub made : Among true m' ips
  pub distinct : Distinct ips

absent-before :
    (m m' : Dict ActiveBlock) (ips : List Str) → Keeps m m' → Among false m' ips → Among false m ips
absent-before m m' [] k h = tt
absent-before m m' (ip ∷ ips) k h = (
  elim (Bool-cases (contains ip m)) [ inl there ↦ absurd_of (k ip there) h.0 | inr e ↦ e ],
  absent-before m m' ips k h.1,
)
  where
    absurd_of : contains ip m' ≡ true → contains ip m' ≡ false → contains ip m ≡ false
    absurd_of p q = cc (p, q)

-- An address that is there differs from those that are not.
others :
    (ip : Str) (m : Dict ActiveBlock) (ips : List Str)
    → contains ip m ≡ true
    → Among false m ips
    → All (λ y. str_eq ip y ≡ false) ips
others ip m [] h a = tt
others ip m (y ∷ ips) h a = (ground (arith, str_eq_iff ip y), others ip m ips h a.1)

Blocks-idle :
    (m m₁ m' : Dict ActiveBlock) (xs ips : List Str)
    → m₁ ≡ m
    → xs ≡ []
    → Blocks m₁ m' ips
    → Blocks m m' (xs ++ ips)
Blocks-idle m m₁ m' xs ips e x b = rw (← e, x) b

Blocks-added :
    (m m₁ m' : Dict ActiveBlock) (ip : Str) (b : ActiveBlock) (xs ips : List Str)
    → m₁ ≡ insert ip b m
    → contains ip m ≡ false
    → (xs ≡ []) ⊎ (xs ≡ ip ∷ [])
    → Blocks m₁ m' ips
    → Blocks m m' (xs ++ ips)
Blocks-added m m₁ m' ip b xs ips e absent (inl x) bs = rw x (record {
  keeps = λ j h. bs.keeps j (rw e (insert-Keeps ip b m j h));
  fresh = absent-before m m₁ ips (λ j h. rw e (insert-Keeps ip b m j h)) bs.fresh;
  made = bs.made;
  distinct = bs.distinct;
})
Blocks-added m m₁ m' ip b xs ips e absent (inr x) bs = rw x (record {
  keeps = λ j h. bs.keeps j (rw e (insert-Keeps ip b m j h));
  fresh = (absent, absent-before m m₁ ips (λ j h. rw e (insert-Keeps ip b m j h)) bs.fresh);
  made = (bs.keeps ip there, bs.made);
  distinct = (others ip m₁ ips there bs.fresh, bs.distinct);
})
  where
    there : contains ip m₁ ≡ true
    there = rw e (ground (arith, lookup-insert ip ip b m, str_eq_iff ip ip))

-- One evaluation commands for no address twice and for none that was active before it, and each
-- address for which it commands is active after it; it takes no address off the active ones.
pub evaluate_and_block-Blocks :
    (s : Sys) (bm : Manager) (rows : List (Row × Answers))
    → let r = evaluate_and_block s bm rows in
      Blocks bm.active_blocks r.0.active_blocks (commanded r.1)
unfolding evaluate_and_block
evaluate_and_block-Blocks s bm [] = record {
  keeps = λ ip h. h;
  fresh = tt;
  made = tt;
  distinct = tt;
}
evaluate_and_block-Blocks s bm ((row, a) ∷ rows) =
    rw (commanded-append (evaluate_row s bm row a).1 _)
      (joined (evaluate_row-RowOutcome s bm row a) (evaluate_and_block-Blocks s first.0 rows))
  where
    first : Manager × List Effect
    first = evaluate_row s bm row a

    last : Manager × List Effect
    last = evaluate_and_block s first.0 rows

    joined :
        RowOutcome bm row first
        → Blocks first.0.active_blocks last.0.active_blocks (commanded last.1)
        → Blocks bm.active_blocks last.0.active_blocks (commanded first.1 ++ commanded last.1)
    joined (inl o) b = Blocks-idle _ _ _ (commanded first.1) _ o.0 o.1 b
    joined (inr o) b = Blocks-added _ _ _ row.source_ip o.0 (commanded first.1) _ o.1 o.2 o.3 b
