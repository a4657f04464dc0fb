-- ===== src/Shard/Created.antt =====
-- `xm_shard_create` of src/xm_shard.c: what a new shard has before it.
use xmap.Base.{
  ℕ, zero, suc, none, some, if◌then◌else◌, ltb→lt, ◌==◌, false, ◌+◌, ◌-◌, ◌*◌, ◌/◌, ◌%◌, ◌^◌, ◌≤◌,
  ◌<◌, ◌≡◌, refl, sym, ◌∙◌, ap, Bool, ltb, arith, ◌⊎◌, inl, inr, Bool-cases,
}
use native.Mathlib.Nat.{mod-lt, mod-eq_of_lt, div-le_self, div-add-mod', mul-le-mul_left}
use xmap.Base.Tally.{tally}
use xmap.Cyclic.{Cycle, Gmp}
use xmap.Cyclic.Made.{Turns}
use xmap.Wblist.{Wblist}
use xmap.Shard.{
  State, Shard, exponent_begin, exponent_end, sub_index, roll_to_valid, create, targets_of,
}
use xmap.Shard.Next.{powers}
use xmap.Shard.Walk.{Allows, Walks, get_next_ip-Advances}
use xmap.Shard.Landed.{InRange, get_next_ip-Landed}
use xmap.Shard.Orbit.{elem_at, powers-elem_at, distance, elem_at-distance}

module _ (ntohl : ℕ → ℕ) (allows : ℕ → Bool) where
  -- A shard that is done, or is at an element in its range and has its last element ahead, within a
  -- number of steps; and what it counts as sent.
  pub record Ready (k sent : ℕ) (s : Shard) : Type 0 where
    pub way :
        (s.current ≡ 0)
        ⊎ ((j : ℕ) × ((j ≤ k)
              × (Walks allows j s × ((s.current + 2 ^ 64 - 1) % 2 ^ 64 < s.max_index))))
    pub counts : s.state.sent ≡ sent
    pub few : s.state.max_targets < 2 ^ 32

  pub Ready-within : (k k' sent : ℕ) (s : Shard) → k ≤ k' → Ready k sent s → Ready k' sent s
  Ready-within k k' sent s le ready = record {
    way = elim ready.way [
      | inl done ↦ inl done
      | inr (j, (le', walks)) ↦ inr (j, (omega arith, walks))
    ];
    counts = ready.counts;
    few = ready.few;
  }

  -- In 64 bits as well.
  wide :
      (current max_index : ℕ)
      → (current ≡ 0) ⊎ InRange max_index current
      → (current ≡ 0) ⊎ ((current + 2 ^ 64 - 1) % 2 ^ 64 < max_index)
  wide zero max_index at = inl refl
  wide (suc c) max_index (inl done) = inl done
  wide (suc c) max_index (inr (low, inside)) = inr (omega (arith, low, inside))

  roll_to_valid-Ready :
      (fuel k : ℕ) (s : Shard)
      → suc k < fuel
      → Walks allows k s
      → s.state.max_targets < 2 ^ 32
      → Ready k s.state.sent (roll_to_valid ntohl fuel s).1
  unfolding roll_to_valid
  roll_to_valid-Ready fuel k s h walks few =
      elim (Bool-cases (ltb ((s.current + 2 ^ 64 - 1) % 2 ^ 64) s.max_index)) [
        | inl valid ↦ rw valid (record {
          way = inr (k, (omega arith, (walks, ltb→lt _ _ valid)));
          counts = refl;
          few = few;
        })
        | inr invalid ↦
            let a = get_next_ip-Advances ntohl allows fuel k s h walks in
            rw invalid (record {
              way = elim a.outcome [
                | inl (_, done) ↦ inl done
                | inr (j, (lt, (nearer, _))) ↦ elim (get_next_ip-Landed ntohl fuel s) [
                  | inl lost ↦ let no = a.returns in absurd (none_some a.ip (sym lost ∙ no))
                  | inr at ↦ elim (wide _ _ at) [
                    | inl done ↦ inl done
                    | inr inside ↦ inr (j, (omega arith, (nearer, inside)))
                  ]
                ]
              ];
              counts = a.sent;
              few = omega (arith, a.max_targets);
            })
      ]
    where
      none_some : (ip : ℕ) → none ≡ some ip → ⊥
      none_some ip e = cc

  targets_of_lt :
      (max_total n sub_idx : ℕ) → max_total < 2 ^ 32 → targets_of ntohl max_total n sub_idx < 2 ^ 32
  unfolding targets_of
  targets_of_lt max_total n sub_idx h = elim (Bool-cases (ltb sub_idx (max_total % n))) [
    | inr even ↦ rw even (omega (arith, div-le_self max_total n))
    | inl more ↦ rw more (omega (arith, one_more n (ltb→lt _ _ more)))
  ]
    where
      one_more : (n : ℕ) → sub_idx < max_total % n → max_total / n ≤ max_total - 1
      one_more zero lt = ground arith
      one_more (suc n) lt = omega (
        arith,
        lt,
        div-add-mod' max_total (suc n),
        mul-le-mul_left {m = 1} {n = suc n} (max_total / suc n) (omega arith),
      )

  distance_bounds :
      (order from upto : ℕ)
      → from < order
      → upto < order
      → (0 < distance order from upto) × (distance order from upto ≤ order)
  distance_bounds order from upto lt lt' = ground arith

  -- The way of a shard on a cycle that turns, from one exponent to another.
  Walks-between :
      (from upto : ℕ) (cycle : Cycle) (s : Shard)
      → Turns cycle
      → cycle.group.prime < 2 ^ 32
      → from < cycle.order
      → upto < cycle.order
      → Allows allows s.wblist
      → s.max_index ≤ tally allows (2 ^ 32)
      → s.params.factor ≡ cycle.generator
      → s.params.modulus ≡ cycle.group.prime
      → s.params.last ≡ elem_at cycle upto
      → s.current ≡ elem_at cycle from
      → Walks allows (distance cycle.order from upto - 1) s
  Walks-between from upto cycle s turns below lt lt' list enough factor modulus last current =
      let bounds = distance_bounds cycle.order from upto lt lt' in
      let steps : suc (distance cycle.order from upto - 1) ≡ distance cycle.order from upto =
        omega (arith, bounds) in
      let low : elem_at cycle upto < cycle.group.prime =
        mod-lt (cycle.generator ^ upto) (omega (arith, turns.order)) in
      record {
        list = list;
        enough = enough;
        small = omega (arith, last);
        ahead =
            ap (λ (t : ℕ). powers s.params t s.current) steps
            ∙ ap (powers s.params (distance cycle.order from upto)) current
            ∙ powers-elem_at (distance cycle.order from upto) from cycle s.params turns factor
                modulus
            ∙ elem_at-distance from upto cycle turns lt
            ∙ sym last;
      }

  -- The exponents from which a shard starts and at which it stops are below the order.
  pub exponent_begin_lt :
      (cycle : Cycle) (num_subshards sub_idx : ℕ)
      → Turns cycle
      → exponent_begin ntohl cycle num_subshards sub_idx < cycle.order
  unfolding exponent_begin
  exponent_begin_lt cycle num_subshards sub_idx turns =
      mod-lt ((cycle.order / num_subshards * sub_idx + cycle.offset) % 2 ^ 64)
        (omega (arith, turns.some_order))

  pub exponent_end_lt :
      (cycle : Cycle) (num_subshards sub_idx : ℕ)
      → Turns cycle
      → exponent_end ntohl cycle num_subshards sub_idx < cycle.order
  unfolding exponent_end
  exponent_end_lt cycle num_subshards sub_idx turns =
      mod-lt
        ((cycle.order / num_subshards * ((sub_idx + 1) % 2 ^ 32 % num_subshards) + cycle.offset)
          % 2 ^ 64)
        (omega (arith, turns.some_order))

  powm-elem_at :
      (gmp : Gmp) (cycle : Cycle) (e : ℕ)
      → Turns cycle
      → gmp.powm cycle.generator e cycle.group.prime % 2 ^ 64 ≡ elem_at cycle e
  powm-elem_at gmp cycle e turns =
      let low : elem_at cycle e < cycle.group.prime =
        mod-lt (cycle.generator ^ e) (omega (arith, turns.order)) in
      rw (gmp.powm_lem cycle.generator e cycle.group.prime)
        (mod-eq_of_lt (omega (arith, turns.small, low)))

  -- A shard is created where the division has parts. One that is created on a cycle whose prime fits in 32 bits, over a list that allows as many
  -- addresses as there are indices, is done from the start or has its last element ahead, in fewer
  -- steps than the order of the cycle.
  pub create-Ready :
      (gmp : Gmp) (fuel : ℕ) (unset : State)
      (shard_idx num_shards thread_idx num_threads max_total_targets max_index : ℕ) (cycle : Cycle)
      (wblist : Wblist)
      → Turns cycle
      → cycle.group.prime < 2 ^ 32
      → cycle.order < fuel
      → Allows allows wblist
      → max_index ≤ tally allows (2 ^ 32)
      → max_total_targets < 2 ^ 32
      → unset.max_targets < 2 ^ 32
      → 0 < num_shards * num_threads % 2 ^ 32
      → (shard : Shard) × ((create ntohl gmp fuel unset shard_idx num_shards thread_idx num_threads
              max_total_targets max_index cycle wblist
            ≡ some shard)
          × Ready (cycle.order - 1) unset.sent shard)
  unfolding create
  create-Ready gmp fuel unset shard_idx num_shards thread_idx num_threads max_total_targets
        max_index cycle wblist turns below h list enough total few some_shards =
      let n = num_shards * num_threads % 2 ^ 32 in
      let i = sub_index ntohl shard_idx num_threads thread_idx in
      let from = exponent_begin ntohl cycle n i in
      let upto = exponent_end ntohl cycle n i in
      let lt = exponent_begin_lt cycle n i turns in
      let lt' = exponent_end_lt cycle n i turns in
      let bounds = distance_bounds cycle.order from upto lt lt' in
      let near : suc (distance cycle.order from upto - 1) < fuel = omega (arith, bounds) in
      let first = powm-elem_at gmp cycle from turns in
      let last = powm-elem_at gmp cycle upto turns in
      let walks =
        Walks-between from upto cycle _ turns below lt lt' list enough refl refl last first in
      let state = started unset max_total_targets n i total few in
      let ready =
        roll_to_valid-Ready fuel (distance cycle.order from upto - 1) _ near walks state.1 in
      let nonzero : (n == 0) ≡ false = zero_test n some_shards in
      rw nonzero (
        _,
        (
          refl,
          Ready-within (distance cycle.order from upto - 1) (cycle.order - 1) unset.sent _
              (omega (arith, bounds))
              (record { way = ready.way; counts = ready.counts ∙ state.0; few = ready.few }),
        ),
      )
    where
      zero_test : (n : ℕ) → 0 < n → (n == 0) ≡ false
      zero_test n h = ground (arith, h)

      started :
          (unset : State) (max_total n i : ℕ)
          → max_total < 2 ^ 32
          → unset.max_targets < 2 ^ 32
          → let state : State =
              if ltb 0 max_total
              then record unset { max_targets = targets_of ntohl max_total n i }
              else unset in
            (state.sent ≡ unset.sent) × (state.max_targets < 2 ^ 32)
      started unset max_total n i total few = elim (Bool-cases (ltb 0 max_total)) [
        | inl some_set ↦ rw some_set (refl, targets_of_lt max_total n i total)
        | inr none_set ↦ rw none_set (refl, few)
      ]
