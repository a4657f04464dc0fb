-- ===== src/Shard/Walk.antt =====
-- `xm_shard_get_next_ip` of src/xm_shard.c, called again and again: every call leads on towards the
-- last element.
use xmap.Base.{
  ℕ, zero, suc, ◌+◌, ◌-◌, ◌%◌, ◌^◌, ◌<◌, ◌≤◌, ◌≡◌, refl, sym, ◌∙◌, Bool, true, Option, some, ltb,
  ◌==◌, ==_iff, ltb→lt, arith, ◌⊎◌, inl, inr, Bool-cases,
}
use xmap.Base.Tally.{tally, tally_ext}
use xmap.Iptree.{lookup_index}
use xmap.Iptree.Lookup.{has_value}
use xmap.Iptree.Paint.{has_value-repaint, repaint-IsConsistent}
use xmap.Wblist.{Wblist, allowed}
use xmap.Wblist as Wb
use xmap.Wblist.Laws.{IsReady, lookup_index-is_allowed}
use xmap.Shard.{Shard, State, accept, next_ip_loop, get_next_ip, get_cur_ip, blacklisted_one}
use xmap.Shard.Next.{powers, get_next_elem-IsNext}

-- A ready list that allows the addresses of `allows`.
pub record Allows (allows : ℕ → Bool) (wblist : Wblist) : Type 0 where
  pub ready : IsReady wblist
  pub same : (a : ℕ) → has_value wblist.wb_iptree.root allowed a ≡ allows a

-- A shard whose last element is at most k + 1 steps ahead.
pub record Walks (allows : ℕ → Bool) (k : ℕ) (s : Shard) : Type 0 where
  pub list : Allows allows s.wblist
  pub enough : s.max_index ≤ tally allows (2 ^ 32)
  pub small : s.params.last < 2 ^ 32
  pub ahead : powers s.params (suc k) s.current ≡ s.params.last

-- An address, in network order, that is allowed.
abbrev pub IsTargetOf : (ℕ → ℕ) → (ℕ → Bool) → ℕ → Type 0
IsTargetOf ntohl allows ip = (a : ℕ) × ((a < 2 ^ 32) × (ip ≡ ntohl a) × (allows a ≡ true))

-- The outcome of a call: the shard is done, with 0 in its state as well, or has come nearer to its
-- last element, with a target; the counters of what is sent stay.
pub record Advances (ntohl : ℕ → ℕ) (allows : ℕ → Bool) (k : ℕ) (s : Shard)
    (result : Option ℕ × Shard) : Type 0 where
  pub ip : ℕ
  pub returns : result.0 ≡ some ip
  pub outcome :
      ((ip ≡ 0) × (result.1.current ≡ 0))
      ⊎ ((j : ℕ) × ((j < k) × (Walks allows j result.1 × IsTargetOf ntohl allows ip)))
  pub sent : result.1.state.sent ≡ s.state.sent
  pub max_targets : result.1.state.max_targets ≡ s.state.max_targets

-- The counters do not matter to the way.
pub Walks-state :
    (allows : ℕ → Bool) (k : ℕ) (s : Shard) (state : State)
    → Walks allows k s
    → Walks allows k (record s { state = state })
Walks-state allows k s state walks = record {
  list = walks.list;
  enough = walks.enough;
  small = walks.small;
  ahead = walks.ahead;
}

module _ (ntohl : ℕ → ℕ) (allows : ℕ → Bool) where
  -- A lookup leaves a list with the same addresses, and finds one of them.
  lookup_index-Allows :
      (wblist : Wblist) (index : ℕ)
      → Allows allows wblist
      → Allows allows (Wb.lookup_index ntohl wblist index).1
  unfolding Wb.lookup_index lookup_index
  lookup_index-Allows wblist index list = record {
    ready = record { tree = repaint-IsConsistent wblist.wb_iptree allowed list.ready.tree };
    same = λ a. has_value-repaint wblist.wb_iptree allowed a ∙ list.same a;
  }

  lookup_index-IsTargetOf :
      (wblist : Wblist) (index : ℕ)
      → Allows allows wblist
      → index < tally allows (2 ^ 32)
      → (ip : ℕ) × (((Wb.lookup_index ntohl wblist index).0 ≡ some ip) × IsTargetOf ntohl allows ip)
  lookup_index-IsTargetOf wblist index list h =
      let count : tally (has_value wblist.wb_iptree.root allowed) (2 ^ 32) ≡ tally allows (2 ^ 32) =
        tally_ext _ allows (2 ^ 32) (λ a _. list.same a) in
      let (a, (space, found, value)) =
        lookup_index-is_allowed ntohl wblist index list.ready (omega (arith, count)) in
      (ntohl a, (found, (a, (space, refl, sym (list.same a) ∙ value))))

  -- A shard that moves on to an element on the way.
  Walks-move :
      (j k current : ℕ) (s : Shard)
      → powers s.params (suc j) current ≡ s.params.last
      → Walks allows k s
      → Walks allows j (record s { current = current })
  Walks-move j k current s e walks = record {
    list = walks.list;
    enough = walks.enough;
    small = walks.small;
    ahead = e;
  }

  accept-Advances :
      (j k : ℕ) (s : Shard) (candidate : ℕ)
      → j < k
      → Walks allows j s
      → (candidate + 2 ^ 32 - 1) % 2 ^ 32 < s.max_index
      → Advances ntohl allows k s (accept ntohl s candidate)
  unfolding accept
  accept-Advances j k s candidate near walks low =
      let index = (candidate + 2 ^ 32 - 1) % 2 ^ 32 in
      let (ip, (found, target)) =
        lookup_index-IsTargetOf s.wblist index walks.list (omega (arith, walks.enough)) in
      record {
        ip = ip;
        returns = found;
        outcome = inr (
          j,
          (
            near,
            (
              record {
                list = lookup_index-Allows s.wblist index walks.list;
                enough = walks.enough;
                small = walks.small;
                ahead = walks.ahead;
              },
              target,
            ),
          ),
        );
        sent = refl;
        max_targets = refl;
      }

  -- What is true of a call is true of one that takes more steps before it.
  Advances-later :
      (j k current : ℕ) (s : Shard) (result : Option ℕ × Shard)
      → j ≤ k
      → Advances ntohl allows j (blacklisted_one (record s { current = current })) result
      → Advances ntohl allows k s result
  Advances-later j k current s result near later = record {
    ip = later.ip;
    returns = later.returns;
    outcome = elim later.outcome [
      | inl done ↦ inl done
      | inr (i, (lt, rest)) ↦ inr (i, (omega arith, rest))
    ];
    sent = later.sent;
    max_targets = later.max_targets;
  }

  next_ip_loop-Advances :
      (fuel k : ℕ) (s : Shard)
      → suc k < fuel
      → Walks allows k s
      → Advances ntohl allows k s (next_ip_loop ntohl fuel s)
  unfolding next_ip_loop
  next_ip_loop-Advances zero k s h walks = absurd (omega arith)
  next_ip_loop-Advances (suc fuel) k s h walks =
      let next =
        get_next_elem-IsNext fuel k s.params s.current (omega arith) walks.small walks.ahead in
      rw (next.returns, next_ip_loop)
        (elim (Bool-cases (next.elem == s.params.last)) [
          | inl last ↦ rw last (record {
            ip = 0;
            returns = refl;
            outcome = inl (refl, refl);
            sent = refl;
            max_targets = refl;
          })
          | inr other ↦ rw other (elim next.rest [
            | inl last ↦ let same = (==_iff next.elem s.params.last).1 last in cc
            | inr (j, (lt, eq)) ↦
                elim (Bool-cases (ltb ((next.elem + 2 ^ 32 - 1) % 2 ^ 32) s.max_index)) [
                  | inl low ↦ rw low (
                      advance j next.elem lt (
                        accept-Advances j k (record s { current = next.elem }) next.elem lt
                          (Walks-move j k next.elem s eq walks) (ltb→lt _ _ low)))
                  | inr high ↦ rw high (
                      Advances-later j k next.elem s _ (omega arith) (
                        next_ip_loop-Advances fuel j
                          (blacklisted_one (record s { current = next.elem })) (omega arith)
                          (record {
                            list = walks.list;
                            enough = walks.enough;
                            small = walks.small;
                            ahead = eq;
                          })))
                ]
          ])
        ])
    where
      advance :
          (j elem : ℕ)
          → j < k
          → Advances ntohl allows k
              (record s { current = elem })
              (accept ntohl (record s { current = elem }) elem)
          → Advances ntohl allows k s (accept ntohl (record s { current = elem }) elem)
      advance j elem lt a = record {
        ip = a.ip;
        returns = a.returns;
        outcome = a.outcome;
        sent = a.sent;
        max_targets = a.max_targets;
      }

  -- A call for the next address, at a shard whose last element is at most k + 1 steps ahead and
  -- with more fuel than k + 1, returns. Either the shard is done, with the result 0 and 0 in its state,
  -- or the result is an address, in network order, that the list allows, and the last element is at
  -- most k steps ahead. The counts of what was sent and of what may be sent stay.
  pub get_next_ip-Advances :
      (fuel k : ℕ) (s : Shard)
      → suc k < fuel
      → Walks allows k s
      → Advances ntohl allows k s (get_next_ip ntohl fuel s)
  unfolding get_next_ip
  get_next_ip-Advances fuel k s h walks = elim (Bool-cases (s.current == 0)) [
    | inl done ↦ rw done (record {
      ip = 0;
      returns = refl;
      outcome = inl (refl, (==_iff s.current 0).0 done);
      sent = refl;
      max_targets = refl;
    })
    | inr going ↦ rw going (next_ip_loop-Advances fuel k s h walks)
  ]

  -- The first address, at an element whose index is in the range.
  pub get_cur_ip-IsTargetOf :
      (k : ℕ) (s : Shard)
      → Walks allows k s
      → (s.current + 2 ^ 64 - 1) % 2 ^ 64 < s.max_index
      → (ip : ℕ) × (((get_cur_ip ntohl s).0 ≡ some ip)
          × (IsTargetOf ntohl allows ip × Walks allows k (get_cur_ip ntohl s).1))
  unfolding get_cur_ip
  get_cur_ip-IsTargetOf k s walks low =
      let index = (s.current + 2 ^ 64 - 1) % 2 ^ 64 in
      let (ip, (found, target)) =
        lookup_index-IsTargetOf s.wblist index walks.list (omega (arith, walks.enough)) in
      (
        ip,
        (
          found,
          (
            target,
            record {
              list = lookup_index-Allows s.wblist index walks.list;
              enough = walks.enough;
              small = walks.small;
              ahead = walks.ahead;
            },
          ),
        ),
      )
