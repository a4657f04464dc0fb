-- ===== src/Shard/Landed.antt =====
-- Where `xm_shard_get_next_ip` of src/xm_shard.c leaves a shard: done, or at an element with an index in
-- the range.
use xmap.Base.{
  ℕ, zero, suc, ◌+◌, ◌-◌, ◌%◌, ◌^◌, ◌<◌, ◌≡◌, refl, subst, Option, none, some, some_injective, ltb,
  ◌==◌, ltb→lt, arith, ◌⊎◌, inl, inr, Bool-cases, Option-cases,
}
use xmap.Shard.{
  Params, Shard, get_next_elem, next_power, accept, next_ip_loop, get_next_ip, blacklisted_one,
}

get_next_elem_lt :
    (fuel : ℕ) (params : Params) (current elem : ℕ)
    → get_next_elem fuel params current ≡ some elem
    → elem < 2 ^ 32
unfolding get_next_elem
get_next_elem_lt zero params current elem e = cc
get_next_elem_lt (suc fuel) params current elem e =
    elim (Bool-cases (ltb (next_power params current) (2 ^ 32))) [
      | inl low ↦
          let same = some_injective _ _ (rw low at e) in
          subst (λ x. x < 2 ^ 32) same (ltb→lt _ _ low)
      | inr high ↦ get_next_elem_lt fuel params (next_power params current) elem (rw high at e)
    ]

-- An element that is not 0 and whose index is below the maximal one.
abbrev pub InRange : ℕ → ℕ → Type 0
InRange max_index current = (current < 2 ^ 32) × ((current + 2 ^ 32 - 1) % 2 ^ 32 < max_index)

abbrev pub Landed : Option ℕ × Shard → Type 0
Landed result =
    (result.0 ≡ none) ⊎ ((result.1.current ≡ 0) ⊎ InRange result.1.max_index result.1.current)

module _ (ntohl : ℕ → ℕ) where
  next_ip_loop-Landed : (fuel : ℕ) (s : Shard) → Landed (next_ip_loop ntohl fuel s)
  unfolding next_ip_loop accept
  next_ip_loop-Landed zero s = inl refl
  next_ip_loop-Landed (suc fuel) s = elim (Option-cases (get_next_elem fuel s.params s.current)) [
    | inl none_left ↦ rw (none_left, next_ip_loop) (inl refl)
    | inr (candidate, found) ↦
        let low = get_next_elem_lt fuel s.params s.current candidate found in
        elim (Bool-cases (candidate == s.params.last)) [
          | inl last ↦ rw (found, next_ip_loop, last) (inr (inl refl))
          | inr other ↦ elim (Bool-cases (ltb ((candidate + 2 ^ 32 - 1) % 2 ^ 32) s.max_index)) [
            | inl valid ↦ rw (found, next_ip_loop, other, valid) (inr (inr (low, ltb→lt _ _ valid)))
            | inr invalid ↦
                rw (found, next_ip_loop, other, invalid)
                  (next_ip_loop-Landed fuel (blacklisted_one (record s { current = candidate })))
          ]
        ]
  ]

  pub get_next_ip-Landed : (fuel : ℕ) (s : Shard) → Landed (get_next_ip ntohl fuel s)
  unfolding get_next_ip
  get_next_ip-Landed fuel s = elim (Bool-cases (s.current == 0)) [
    | inl done ↦ rw done (inr (inl (ground (arith, done))))
    | inr going ↦ rw going (next_ip_loop-Landed fuel s)
  ]
