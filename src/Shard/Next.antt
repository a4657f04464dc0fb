-- ===== src/Shard/Next.antt =====
-- `shard_get_next_elem` of src/xm_shard.c: the next element below 2^32 on the way to the last one.
use xmap.Base.{
  ℕ, zero, suc, ◌^◌, ◌<◌, ◌≡◌, refl, true, Option, some, ltb, lt→ltb, arith, ◌⊎◌, inl, inr,
  Bool-cases,
}
use xmap.Shard.{Params, next_power, get_next_elem}

-- The element that k steps of the shard lead to.
unfoldable pub powers : Params → ℕ → ℕ → ℕ
powers params zero current = current
powers params (suc k) current = powers params k (next_power params current)

-- The next element below 2^32, and what is left from there to the last one.
pub record IsNext (params : Params) (k : ℕ) (result : Option ℕ) : Type 0 where
  pub elem : ℕ
  pub returns : result ≡ some elem
  pub rest :
      (elem ≡ params.last) ⊎ ((j : ℕ) × ((j < k) × (powers params (suc j) elem ≡ params.last)))

pub get_next_elem-IsNext :
    (fuel k : ℕ) (params : Params) (current : ℕ)
    → k < fuel
    → params.last < 2 ^ 32
    → powers params (suc k) current ≡ params.last
    → IsNext params k (get_next_elem fuel params current)
unfolding get_next_elem powers
get_next_elem-IsNext zero k params current h small e = absurd (omega arith)
get_next_elem-IsNext (suc fuel) zero params current h small e =
    let near : ltb (next_power params current) (2 ^ 32) ≡ true = lt→ltb _ _ (omega (arith, e)) in
    rw near (record { elem = next_power params current; returns = refl; rest = inl e })
get_next_elem-IsNext (suc fuel) (suc k) params current h small e =
    elim (Bool-cases (ltb (next_power params current) (2 ^ 32))) [
      | inl low ↦ rw low (record {
        elem = next_power params current;
        returns = refl;
        rest = inr (k, (omega arith, e));
      })
      | inr high ↦
          let next =
            get_next_elem-IsNext fuel k params (next_power params current) (omega arith) small e in
          rw high (record {
            elem = next.elem;
            returns = next.returns;
            rest = elim next.rest [
              | inl last ↦ inl last
              | inr (j, (lt, eq)) ↦ inr (j, (omega arith, eq))
            ];
          })
    ]
