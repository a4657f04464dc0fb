-- ===== src/Recv/Finish.antt =====
-- The loop of src/xm_recv_task.c ends, and what it has handled then.
use mathlib.Core.List.{append_assoc}
use xmap.Base.{
  ℕ, ◌-◌, ◌^◌, ◌≡◌, refl, sym, ap, ◌∙◌, Bool, true, false, ◌||◌, ◌&&◌, Bool-cases, inl, inr, Option,
  some, List, [], ◌∷◌, ◌++◌, ltb, leb, ◌==◌, if◌then◌else◌, arith,
}
use xmap.Probe.{ByteOrder}
use xmap.Recv.Unique.{Holds, receive-IsUnique, firsts, store_results}
use xmap.Recv.{RecvContext, RecvTask, Arrival, receive, recv_loop, recv_task_run}
use xmap.Store.{Token}

-- The packets of the polls, and whether sending is complete and the cooldown over after one of them.
unfoldable pub all_arrivals : List (List Arrival × Bool) → List Arrival
all_arrivals [] = []
all_arrivals ((arrivals, over) ∷ polls) = arrivals ++ all_arrivals polls

unfoldable pub some_over : List (List Arrival × Bool) → Bool
some_over [] = false
some_over ((arrivals, over) ∷ polls) = over || some_over polls

module _ (order : ByteOrder) (validate_gen : ℕ → ℕ → ℕ → ℕ) (packed : List Token → List ℕ)
    (context : RecvContext) where
  run : RecvTask → List Arrival → RecvTask
  run = receive order validate_gen packed context

  receive-append :
      (xs ys : List Arrival) (task : RecvTask) → run task (xs ++ ys) ≡ run (run task xs) ys
  unfolding receive run
  receive-append [] ys task = refl
  receive-append (x ∷ xs) ys task = receive-append xs ys _

  -- A loop that ends: the packets handled, and those that were left.
  record Ends (task : RecvTask) (result : Option RecvTask) (arrivals : List Arrival) : Type 0 where
    handled : List Arrival
    left : List Arrival
    split : handled ++ left ≡ arrivals
    returns : result ≡ some (run task handled)

  Ends-more :
      (task : RecvTask) (result : Option RecvTask) (arrivals later : List Arrival)
      → Ends (run task arrivals) result later
      → Ends task result (arrivals ++ later)
  Ends-more task result arrivals later ends = record {
    handled = arrivals ++ ends.handled;
    left = ends.left;
    split = append_assoc arrivals ends.handled ends.left ∙ ap (λ xs. arrivals ++ xs) ends.split;
    returns = ends.returns ∙ ap some (sym (receive-append arrivals ends.handled task));
  }

  Ends-now :
      (task : RecvTask) (arrivals later : List Arrival)
      → Ends task (some (run task arrivals)) (arrivals ++ later)
  Ends-now task arrivals later = record {
    handled = arrivals;
    left = later;
    split = refl;
    returns = refl;
  }

  recv_loop-Ends :
      (polls : List (List Arrival × Bool)) (max_results : ℕ) (task : RecvTask)
      → some_over polls ≡ true
      → Ends task
          (recv_loop order validate_gen packed context max_results task polls)
          (all_arrivals polls)
  unfolding recv_loop some_over all_arrivals run
  recv_loop-Ends [] max_results task over = absurd (ground (arith, over))
  recv_loop-Ends ((arrivals, over) ∷ polls) max_results task h =
      elim (Bool-cases
        (ltb 0 max_results && leb max_results (run task arrivals).xrecv.filter_success)) [
          | inl enough ↦ rw enough (Ends-now task arrivals (all_arrivals polls))
          | inr fewer ↦ elim (Bool-cases over) [
            | inl stop ↦ rw (fewer, stop) (Ends-now task arrivals (all_arrivals polls))
            | inr going ↦
                let later = rw going at h in
                rw (fewer, going)
                  (Ends-more task _ arrivals (all_arrivals polls)
                    (recv_loop-Ends polls max_results (run task arrivals) later))
          ]
        ]

  -- A task that returns, after some of the packets.
  pub record Reports (already : List ℕ) (task : RecvTask) (result : Option RecvTask)
      (arrivals : List Arrival) : Type 0 where
    pub handled : List Arrival
    pub left : List Arrival
    pub done : RecvTask
    pub split : handled ++ left ≡ arrivals
    pub returns : result ≡ some done
    pub complete : done.xrecv.complete ≡ true
    pub stored :
        done.xstore
        ≡ store_results order validate_gen packed context task.xstore
            (firsts order validate_gen packed context already handled)

  completed : RecvTask → RecvTask
  completed task =
      let xrecv = task.xrecv in record task { xrecv = record xrecv { complete = true } }

  -- If sending is complete and the cooldown over after some call of `receive`, the receiving task
  -- returns, whatever the maximum of results is. It is marked complete then; the packets that it has handled
  -- come before those that it has not; and, with duplicates filtered and a bitmap that holds the sources
  -- already seen, and a put into the ring that stops when its attempts are used up, its store is what storing the first answer of each new source handled makes of it.
  pub recv_task_run-Reports :
      (already : List ℕ) (task : RecvTask) (polls : List (List Arrival × Bool))
      → context.filter_duplicates ≡ true
      → Holds order validate_gen packed context already task
      → some_over polls ≡ true
      → Reports already task
          (recv_task_run order validate_gen packed context task polls)
          (all_arrivals polls)
  unfolding recv_task_run run completed
  recv_task_run-Reports already task polls filter h over =
      let ends =
        recv_loop-Ends polls (if context.max_results == 0 then 2 ^ 32 - 1 else context.max_results)
          task over in
      let unique =
        receive-IsUnique order validate_gen packed context already task ends.handled filter h in
      rw (ends.returns, recv_task_run)
        (record {
          handled = ends.handled;
          left = ends.left;
          done = completed (run task ends.handled);
          split = ends.split;
          returns = refl;
          complete = refl;
          stored = unique.stored;
        })
