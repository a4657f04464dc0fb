-- ===== src/Recv/Unique.antt =====
-- src/xm_recv_task.c against a description of it over the list of the packets: with duplicates
-- filtered, the results are those of the first valid packet of each source.
use xmap.Base.{
  ℕ, ◌+◌, ◌%◌, ◌^◌, ◌<◌, ◌≡◌, refl, sym, ap, ◌∙◌, ==_iff, Bool, true, false, ◌&&◌, ◌||◌, not,
  Bool-cases, inl, inr, ◌==◌, if◌then◌else◌, List, [], ◌∷◌, length, arith,
}
use xmap.Pbm.{Bitmap, check, set}
use xmap.Pbm.Laws.{check-set}
use xmap.Probe.{ByteOrder}
use xmap.Recv.{
  RecvContext, RecvTask, Arrival, count_valid, long_enough, validate_packet, store_result,
  recv_packet_handle, receive,
}
use xmap.Store.{Store, Token}

-- Whether a source has been seen.
unfoldable pub been : List ℕ → ℕ → Bool
been [] v = false
been (w ∷ already) v = w == v || been already v

module _ (order : ByteOrder) (validate_gen : ℕ → ℕ → ℕ → ℕ) (packed : List Token → List ℕ)
    (context : RecvContext) where
  -- Whether a packet is an answer, and the source that is noted for it.
  unfoldable pub is_answer : Arrival → Bool
  is_answer arrival =
      long_enough order validate_gen packed context arrival
      && (validate_packet order validate_gen packed context arrival).valid

  unfoldable pub source : Arrival → ℕ
  source arrival = order.htonl (validate_packet order validate_gen packed context arrival).sip

  -- The sources of the answers, the last one first, before those already seen.
  unfoldable pub sources : List ℕ → List Arrival → List ℕ
  sources already [] = already
  sources already (arrival ∷ arrivals) =
      sources (if is_answer arrival then source arrival ∷ already else already) arrivals

  -- The answers that are the first of their source.
  unfoldable pub firsts : List ℕ → List Arrival → List Arrival
  firsts already [] = []
  firsts already (arrival ∷ arrivals) =
      let seen =
        firsts (if is_answer arrival then source arrival ∷ already else already) arrivals in
      if is_answer arrival && not (been already (source arrival)) then arrival ∷ seen else seen

  -- Results stored one after the other.
  unfoldable pub store_results : Store → List Arrival → Store
  store_results xstore [] = xstore
  store_results xstore (arrival ∷ arrivals) =
      store_results (store_result order validate_gen packed context xstore arrival) arrivals

  -- The bitmap holds the sources of the list.
  pub record Holds (already : List ℕ) (task : RecvTask) : Type 0 where
    pub holds : (v : ℕ) → v < 2 ^ 32 → check task.seen v ≡ been already v

  -- How the task stands after packets with these results, whose sources are noted.
  pub record IsUnique (task after : RecvTask) (results : List Arrival) (noted : List ℕ)
      : Type 0 where
    pub stored : after.xstore ≡ store_results task.xstore results
    pub reported :
        (task.xrecv.filter_success + length results) % 2 ^ 32 ≡ after.xrecv.filter_success % 2 ^ 32
    pub unique :
        (task.xrecv.success_unique + length results) % 2 ^ 32 ≡ after.xrecv.success_unique % 2 ^ 32
    pub seen : Holds noted after

  -- What a packet changes, `more` counting the results.
  record IsStep (task after : RecvTask) (marked : Bitmap) (xstore : Store) (more : ℕ) : Type 0 where
    seen : after.seen ≡ marked
    stored : after.xstore ≡ xstore
    reported : (task.xrecv.filter_success + more) % 2 ^ 32 ≡ after.xrecv.filter_success % 2 ^ 32
    unique : (task.xrecv.success_unique + more) % 2 ^ 32 ≡ after.xrecv.success_unique % 2 ^ 32

  handle : RecvTask → Arrival → RecvTask
  handle = recv_packet_handle order validate_gen packed context

  handle-rejected :
      (task : RecvTask) (arrival : Arrival)
      → is_answer arrival ≡ false
      → IsStep task (handle task arrival) task.seen task.xstore 0
  unfolding is_answer recv_packet_handle handle
  handle-rejected task arrival refused =
      elim (Bool-cases (long_enough order validate_gen packed context arrival)) [
        | inr short ↦
            rw short
              (record { seen = refl; stored = refl; reported = omega arith; unique = omega arith })
        | inl long ↦
            let invalid = rw long at refused in
            rw (long, invalid)
              (record { seen = refl; stored = refl; reported = omega arith; unique = omega arith })
      ]

  handle-repeated :
      (task : RecvTask) (arrival : Arrival)
      → context.filter_duplicates ≡ true
      → is_answer arrival ≡ true
      → check task.seen (source arrival) ≡ true
      → IsStep task (handle task arrival) task.seen task.xstore 0
  unfolding is_answer recv_packet_handle source count_valid handle
  handle-repeated task arrival filter answer repeat =
      let long : long_enough order validate_gen packed context arrival ≡ true =
        ground (arith, answer) in
      let valid = rw long at answer in
      rw (long, valid, repeat, filter)
        (record { seen = refl; stored = refl; reported = omega arith; unique = omega arith })

  handle-first :
      (task : RecvTask) (arrival : Arrival)
      → is_answer arrival ≡ true
      → check task.seen (source arrival) ≡ false
      → IsStep task
          (handle task arrival)
          (set task.seen (source arrival))
          (store_result order validate_gen packed context task.xstore arrival)
          1
  unfolding is_answer recv_packet_handle source count_valid handle
  handle-first task arrival answer fresh =
      let long : long_enough order validate_gen packed context arrival ≡ true =
        ground (arith, answer) in
      let valid = rw long at answer in
      rw (long, valid, fresh)
        (record { seen = refl; stored = refl; reported = omega arith; unique = omega arith })

  source-lt : (arrival : Arrival) → source arrival < 2 ^ 32
  unfolding source
  source-lt arrival = order.htonl-lt (validate_packet order validate_gen packed context arrival).sip

  been-again :
      (already : List ℕ) (task : RecvTask) (w v : ℕ)
      → been already w ≡ true
      → check task.seen v ≡ been already v
      → check task.seen v ≡ been (w ∷ already) v
  unfolding been
  been-again already task w v known e = elim (Bool-cases (w == v)) [
    | inl at ↦ let eq = (==_iff w v).0 at in rw at (e ∙ ap (been already) (sym eq) ∙ known)
    | inr other ↦ rw other e
  ]

  been-set :
      (already : List ℕ) (task : RecvTask) (w v : ℕ)
      → w < 2 ^ 32
      → v < 2 ^ 32
      → check task.seen v ≡ been already v
      → check (set task.seen w) v ≡ been (w ∷ already) v
  unfolding been
  been-set already task w v hw hv e = check-set task.seen w v hw hv ∙ ap (λ b. w == v || b) e

  -- A packet before others, without a result and with one.
  IsStep-skip :
      (task mid after : RecvTask) (marked : Bitmap) (results : List Arrival) (noted : List ℕ)
      → IsStep task mid marked task.xstore 0
      → IsUnique mid after results noted
      → IsUnique task after results noted
  IsStep-skip task mid after marked results noted step rest = record {
    stored = rest.stored ∙ ap (λ s. store_results s results) step.stored;
    reported = omega (arith, rest.reported, step.reported);
    unique = omega (arith, rest.unique, step.unique);
    seen = rest.seen;
  }

  IsStep-keep :
      (task mid after : RecvTask) (marked : Bitmap) (arrival : Arrival) (results : List Arrival)
      (noted : List ℕ)
      → IsStep task mid marked
          (store_result order validate_gen packed context task.xstore arrival)
          1
      → IsUnique mid after results noted
      → IsUnique task after (arrival ∷ results) noted
  unfolding store_results
  IsStep-keep task mid after marked arrival results noted step rest = record {
    stored = rest.stored ∙ ap (λ s. store_results s results) step.stored;
    reported = omega (arith, rest.reported, step.reported);
    unique = omega (arith, rest.unique, step.unique);
    seen = rest.seen;
  }

  -- With duplicates filtered, and a bitmap that holds the sources already seen, the store after any
  -- packets is what storing the first answer of each new source makes of it, in the order of the
  -- packets; filter_success and success_unique grow by their number, up to 2^32, and the
  -- bitmap holds the sources of all the answers.
  pub receive-IsUnique :
      (already : List ℕ) (task : RecvTask) (arrivals : List Arrival)
      → context.filter_duplicates ≡ true
      → Holds already task
      → IsUnique task
          (receive order validate_gen packed context task arrivals)
          (firsts already arrivals)
          (sources already arrivals)
  unfolding receive firsts sources store_results handle
  receive-IsUnique already task [] filter h = record {
    stored = refl;
    reported = omega arith;
    unique = omega arith;
    seen = h;
  }
  receive-IsUnique already task (arrival ∷ arrivals) filter h =
      elim (Bool-cases (is_answer arrival)) [
        | inr refused ↦
            let step = handle-rejected task arrival refused in
            rw refused (
              IsStep-skip task (handle task arrival) _ _ _ _ step (
                receive-IsUnique already (handle task arrival) arrivals filter
                  (record { holds = λ v lt. rw step.seen (h.holds v lt) })))
        | inl answer ↦
            let same = h.holds (source arrival) (source-lt arrival) in
            elim (Bool-cases (check task.seen (source arrival))) [
              | inl repeat ↦
                  let step = handle-repeated task arrival filter answer repeat in
                  let known = sym same ∙ repeat in
                  rw (answer, known)
                    (IsStep-skip task (handle task arrival) _ _ _ _ step (
                      receive-IsUnique (source arrival ∷ already) (handle task arrival) arrivals
                        filter
                        (record {
                          holds = λ v lt.
                              rw step.seen
                                (been-again already task (source arrival) v known (h.holds v lt));
                        })))
              | inr fresh ↦
                  let step = handle-first task arrival answer fresh in
                  let new = sym same ∙ fresh in
                  rw (answer, new)
                    (IsStep-keep task (handle task arrival) _ _ arrival _ _ step (
                      receive-IsUnique (source arrival ∷ already) (handle task arrival) arrivals
                        filter
                        (record {
                          holds = λ v lt. rw step.seen (
                              been-set already task (source arrival) v (source-lt arrival) lt
                                (h.holds v lt));
                        })))
            ]
      ]
