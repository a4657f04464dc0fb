-- ===== src/Send/Landing.antt =====
-- How src/xm_send_task.c comes from one address to the next that it may send to.
use xmap.Base.{
  ℕ, zero, suc, ◌+◌, ◌<◌, ◌≤◌, ◌≡◌, refl, sym, subst, ◌∙◌, Bool, true, ◌==◌, ==_iff, Option, none,
  some, ◌⊎◌, inl, inr, Bool-cases, arith,
}
use xmap.Pbm.{Bitmap, check}
use xmap.Shard.{Shard}
use xmap.Shard.Walk.{Walks, Walks-state, IsTargetOf, get_next_ip-Advances}
use xmap.Send.{tried_one, sent_one, SendContext, Machine, listed_loop, go_to_listed, next_target}

-- Whether the list of addresses, if there is one, holds an address.
unfoldable pub on_list : SendContext → ℕ → Bool
on_list context ip = elim context.list_of_ips_pbm [ none ↦ true | some pbm ↦ check pbm ip ]

module _ {Packet : Type 0} (machine : Machine Packet) (context : SendContext)
    (allows : ℕ → Bool) where
  -- An address that may be sent to.
  abbrev pub MaySend : ℕ → Type 0
  MaySend ip = IsTargetOf machine.ntohl allows ip × (on_list context ip ≡ true)

  -- Where the loops for a listed address lead to: to the end, or to one that may be sent to.
  pub record Lands (k : ℕ) (shard : Shard) (result : Option (Option ℕ × Shard)) : Type 0 where
    pub landed : Option ℕ
    pub after : Shard
    pub returns : result ≡ some (landed, after)
    pub outcome :
        (landed ≡ none)
        ⊎ ((landed ≡ some 0)
            ⊎ ((ip : ℕ) × ((landed ≡ some ip)
                  × ((j : ℕ) × ((j < k) × (Walks allows j after × MaySend ip))))))
    pub sent : after.state.sent ≡ shard.state.sent
    pub max_targets : after.state.max_targets ≡ shard.state.max_targets

  -- What is true of the way on is true of the whole way.
  Lands-later :
      (j k : ℕ) (shard next : Shard) (result : Option (Option ℕ × Shard))
      → next.state.sent ≡ shard.state.sent
      → next.state.max_targets ≡ shard.state.max_targets
      → j ≤ k
      → Lands j (tried_one machine context next) result
      → Lands k shard result
  Lands-later j k shard next result sent max_targets near later = record {
    landed = later.landed;
    after = later.after;
    returns = later.returns;
    outcome = elim later.outcome [
      | inl end ↦ inl end
      | inr (inl done) ↦ inr (inl done)
      | inr (inr (ip, (e, (i, (le, rest))))) ↦ inr (inr (ip, (e, (i, (omega arith, rest)))))
    ];
    sent = later.sent ∙ sent;
    max_targets = later.max_targets ∙ max_targets;
  }

  Lands-from :
      (j k : ℕ) (shard next : Shard) (result : Option (Option ℕ × Shard))
      → next.state.sent ≡ shard.state.sent
      → next.state.max_targets ≡ shard.state.max_targets
      → j < k
      → Lands (suc j) next result
      → Lands k shard result
  Lands-from j k shard next result sent max_targets near later =
      Lands-later (suc j) k shard next result sent max_targets (omega arith) (record {
        landed = later.landed;
        after = later.after;
        returns = later.returns;
        outcome = later.outcome;
        sent = later.sent;
        max_targets = later.max_targets;
      })

  listed_loop-Lands :
      (pbm : Bitmap) (fuel k ip : ℕ) (shard : Shard)
      → context.list_of_ips_pbm ≡ some pbm
      → k + 2 < fuel
      → Walks allows k shard
      → IsTargetOf machine.ntohl allows ip
      → Lands (suc k) shard (listed_loop machine context pbm fuel ip shard)
  unfolding listed_loop on_list
  listed_loop-Lands pbm zero k ip shard is h walks target = absurd (omega arith)
  listed_loop-Lands pbm (suc fuel) k ip shard is h walks target = elim (Bool-cases (check pbm ip)) [
    | inl here ↦ rw here (record {
      landed = some ip;
      after = shard;
      returns = refl;
      outcome = inr (inr (ip, (refl, (k, (omega arith, (walks, (target, rw is here)))))));
      sent = refl;
      max_targets = refl;
    })
    | inr absent ↦
        let a = get_next_ip-Advances machine.ntohl allows fuel k shard (omega arith) walks in
        rw (absent, a.returns)
          (elim (Bool-cases (a.ip == 0)) [
            | inl done ↦ rw done (record {
              landed = none;
              after = _;
              returns = refl;
              outcome = inl refl;
              sent = a.sent;
              max_targets = a.max_targets;
            })
            | inr more ↦ rw more (elim a.outcome [
              | inl end ↦ let no = (==_iff a.ip 0).1 end.0 in cc
              | inr (j, (lt, (nearer, next))) ↦
                  Lands-later (suc j) (suc k) shard _ _ a.sent a.max_targets (omega arith) (
                    listed_loop-Lands pbm fuel j a.ip _ is (omega arith)
                      (Walks-state allows j _ _ nearer) next)
            ])
          ])
  ]

  pub go_to_listed-Lands :
      (fuel k ip : ℕ) (shard : Shard)
      → k + 2 < fuel
      → Walks allows k shard
      → IsTargetOf machine.ntohl allows ip
      → Lands (suc k) shard (go_to_listed machine context fuel ip shard)
  unfolding go_to_listed on_list
  go_to_listed-Lands fuel k ip shard h walks target = go context.list_of_ips_pbm refl
    where
      go :
          (o : Option Bitmap)
          → context.list_of_ips_pbm ≡ o
          → Lands (suc k) shard (go_to_listed machine context fuel ip shard)
      go none e =
          subst
            (λ o. Lands (suc k) shard (elim o [
              | none ↦ some (some ip, shard)
              | some pbm ↦ listed_loop machine context pbm fuel ip shard
            ]))
            (sym e)
            (record {
              landed = some ip;
              after = shard;
              returns = refl;
              outcome = inr (inr (ip, (refl, (k, (omega arith, (walks, (target, rw e refl)))))));
              sent = refl;
              max_targets = refl;
            })
      go (some pbm) e =
          subst
            (λ o. Lands (suc k) shard (elim o [
              | none ↦ some (some ip, shard)
              | some pbm ↦ listed_loop machine context pbm fuel ip shard
            ]))
            (sym e) (listed_loop-Lands pbm fuel k ip shard e h walks target)

  pub next_target-Lands :
      (fuel k : ℕ) (shard : Shard)
      → k + 2 < fuel
      → Walks allows k shard
      → Lands k (sent_one machine context shard) (next_target machine context fuel shard)
  unfolding next_target
  next_target-Lands fuel k shard h walks =
      let a =
        get_next_ip-Advances machine.ntohl allows fuel k (sent_one machine context shard)
          (omega arith) (Walks-state allows k shard _ walks) in
      rw (a.returns, next_target)
        (elim (Bool-cases (a.ip == 0)) [
          | inl done ↦ rw done (record {
            landed = some 0;
            after = _;
            returns = refl;
            outcome = inr (inl refl);
            sent = a.sent;
            max_targets = a.max_targets;
          })
          | inr more ↦ rw more (elim a.outcome [
            | inl end ↦ let no = (==_iff a.ip 0).1 end.0 in cc
            | inr (j, (lt, (nearer, next))) ↦
                Lands-from j k _ _ _ a.sent a.max_targets lt
                  (go_to_listed-Lands fuel j a.ip _ (omega arith) nearer next)
          ])
        ])
