-- ===== src/Context/SourceIps.antt =====
-- `xm_parse_source_ip_addresses` of src/xm_context.c: which addresses it stores.
use xmap.Base.{
  ℕ, zero, suc, ◌+◌, ◌-◌, ◌%◌, ◌^◌, ◌<◌, ◌≤◌, ◌≡◌, refl, sym, ap, ◌∙◌, true, false, none, some,
  List, [], ◌∷◌, ◌++◌, map, leb, ◌==◌, length, take, length-append, length-take, leb→le, arith, inl,
  inr, Bool-cases, leb-false→lt, take_all, take-append_full,
}
use mathlib.Core.List.{append_assoc, append-nil}
use xmap.Context.{
  strchr, dash, comma, Inet, add_to_array, range_loop, add_range, comma_loop,
  parse_source_ip_addresses,
}
use xmap.Context.Parts.{parts, parts_one, strchr-cases, parts-append, strchr-append_none}

abbrev flatten : List (List ℕ) → List ℕ
flatten [] = []
flatten (xs ∷ xss) = xs ++ flatten xss

-- The addresses from one on, round at 2^32.
unfoldable pub addresses_from : ℕ → ℕ → List ℕ
addresses_from zero start = []
addresses_from (suc count) start = start ∷ addresses_from count ((start + 1) % 2 ^ 32)

module _ (inet : Inet) where
  -- A single address, or all from the first to the last of a range.
  unfoldable pub part_denotes : List ℕ → List ℕ
  part_denotes part = elim (strchr dash part) [
    | none ↦ inet.inet_addr part ∷ []
    | some (first, last) ↦
        let start = inet.ntohl (inet.inet_addr first) in
        let end = (inet.ntohl (inet.inet_addr last) + 1) % 2 ^ 32 in
        map inet.htonl (addresses_from ((end + 2 ^ 32 - start) % 2 ^ 32) start)
  ]

  unfoldable pub denotes : List (List ℕ) → List ℕ
  denotes ps = flatten (map part_denotes ps)

module _ (inet : Inet) where
  -- The array always holds the first 256 of the addresses so far.
  add_to_array-take :
      (xs to_add : List ℕ)
      → add_to_array inet (take 256 xs) to_add ≡ take 256 (xs ++ inet.inet_addr to_add ∷ [])
  unfolding add_to_array
  add_to_array-take xs to_add = elim (Bool-cases (leb 256 (length (take 256 xs)))) [
    | inl full ↦
        let long : 256 ≤ length xs =
          omega (arith, leb→le 256 (length (take 256 xs)) full, length-take 256 xs) in
        rw full (sym (take-append_full 256 xs (inet.inet_addr to_add ∷ []) long))
    | inr room ↦
        let short : length xs < 256 =
          omega (arith, leb-false→lt 256 (length (take 256 xs)) room, length-take 256 xs) in
        rw (room, take_all 256 xs (omega arith))
          (sym (
            take_all 256 (xs ++ inet.inet_addr to_add ∷ [])
              (omega (arith, length-append xs (inet.inet_addr to_add ∷ [])))))
  ]

  module _ (back : (a : ℕ) → a < 2 ^ 32 → inet.inet_addr (inet.inet_ntoa a) ≡ a)
      (narrow : (a : ℕ) → inet.htonl a < 2 ^ 32) where
    range_loop-take :
        (fuel count start end : ℕ) (xs : List ℕ)
        → count < fuel
        → start < 2 ^ 32
        → end < 2 ^ 32
        → count < 2 ^ 32
        → (start + count) % 2 ^ 32 ≡ end
        → range_loop inet fuel start end (take 256 xs)
          ≡ some (take 256 (xs ++ map inet.htonl (addresses_from count start)))
    unfolding range_loop addresses_from
    range_loop-take zero count start end xs h lt lt' ltc e = absurd (omega arith)
    range_loop-take (suc fuel) zero start end xs h lt lt' ltc e =
        let same : (start == end) ≡ true = ground (arith, e) in rw (same, append-nil xs) refl
    range_loop-take (suc fuel) (suc count) start end xs h lt lt' ltc e =
        let other : (start == end) ≡ false = ground (arith, e) in
        let next =
          range_loop-take fuel count ((start + 1) % 2 ^ 32) end (xs ++ inet.htonl start ∷ [])
            (omega arith) (omega arith) lt' (omega arith) (omega (arith, e)) in
        rw
          (
            other,
            add_to_array-take xs (inet.inet_ntoa (inet.htonl start)),
            back (inet.htonl start) (narrow start),
            next,
          )
          (ap (λ t. some (take 256 t)) (append_assoc xs _ _))

    part_denotes-plain :
        (part : List ℕ)
        → strchr dash part ≡ none
        → part_denotes inet part ≡ inet.inet_addr part ∷ []
    unfolding part_denotes
    part_denotes-plain part plain = rw (plain, part_denotes) refl

    comma_loop-take :
        (fuel : ℕ) (before behind xs : List ℕ)
        → length behind < fuel
        → strchr dash before ≡ none
        → strchr dash behind ≡ none
        → comma_loop inet fuel before behind (take 256 xs)
          ≡ some (take 256 (xs ++ denotes inet (before ∷ parts behind)))
    unfolding comma_loop denotes
    comma_loop-take zero before behind xs h plain plain' = absurd (omega arith)
    comma_loop-take (suc fuel) before behind xs h plain plain' = elim (strchr-cases comma behind) [
      | inl last ↦
          rw
            (
              last,
              comma_loop,
              part_denotes-plain before plain,
              parts_one behind last,
              part_denotes-plain behind plain',
              add_to_array-take xs before,
              add_to_array-take (xs ++ inet.inet_addr before ∷ []) behind,
            )
            (ap (λ t. some (take 256 t)) (append_assoc xs _ _))
      | inr (next, (rest, split)) ↦
          let (no_dash, no_dash') =
            strchr-append_none dash comma next rest (rw split.whole at plain') in
          let found : parts behind ≡ next ∷ parts rest =
            ap parts split.whole ∙ parts-append next rest split.first in
          let shorter : length rest < fuel =
            omega (arith, ap length split.whole, length-append next (comma ∷ rest)) in
          let later =
            comma_loop-take fuel next rest (xs ++ inet.inet_addr before ∷ []) shorter no_dash
              no_dash' in
          rw
            (
              split.returns,
              comma_loop,
              part_denotes-plain before plain,
              found,
              add_to_array-take xs before,
              later,
            )
            (ap (λ t. some (take 256 t)) (append_assoc xs _ _))
    ]

    module _ (bound : (a : ℕ) → inet.ntohl a < 2 ^ 32) where
      add_range-take :
          (fuel : ℕ) (part first last xs : List ℕ)
          → 2 ^ 32 < fuel
          → strchr dash part ≡ some (first, last)
          → add_range inet fuel first last (take 256 xs)
            ≡ some (take 256 (xs ++ part_denotes inet part))
      unfolding add_range part_denotes
      add_range-take fuel part first last xs h e =
          let start = inet.ntohl (inet.inet_addr first) in
          let end = (inet.ntohl (inet.inet_addr last) + 1) % 2 ^ 32 in
          let lt : start < 2 ^ 32 = bound (inet.inet_addr first) in
          rw (e, part_denotes)
            (range_loop-take fuel ((end + 2 ^ 32 - start) % 2 ^ 32) start end xs (omega arith) lt
              (omega arith) (omega arith) (omega (arith, lt)))

      -- Parsing a list of addresses and ranges with commas between them ends, with enough fuel, and stores
      -- what the items stand for, a range both of its ends and what is between them, round at 2^32: the first
      -- 256 of them, behind those that were there.
      pub parse_source_ip_addresses-take :
          (fuel : ℕ) (given xs : List ℕ)
          → 2 ^ 32 + length given + 1 < fuel
          → parse_source_ip_addresses inet fuel given (take 256 xs)
            ≡ some (take 256 (xs ++ denotes inet (parts given)))
      unfolding parse_source_ip_addresses denotes
      parse_source_ip_addresses-take zero given xs h = absurd (omega arith)
      parse_source_ip_addresses-take (suc fuel) given xs h = elim (strchr-cases dash given) [
        | inl plain ↦ elim (strchr-cases comma given) [
          | inl single ↦
              rw
                (
                  plain,
                  parse_source_ip_addresses,
                  single,
                  parts_one given single,
                  part_denotes-plain given plain,
                  add_to_array-take xs given,
                )
                refl
          | inr (before, (behind, split)) ↦
              let (no_dash, no_dash') =
                strchr-append_none dash comma before behind (rw split.whole at plain) in
              let found : parts given ≡ before ∷ parts behind =
                ap parts split.whole ∙ parts-append before behind split.first in
              let shorter : length behind < fuel =
                omega (arith, ap length split.whole, length-append before (comma ∷ behind)) in
              rw (plain, parse_source_ip_addresses, split.returns, found)
                (comma_loop-take fuel before behind xs shorter no_dash no_dash')
        ]
        | inr (first, (last, range)) ↦ elim (strchr-cases comma given) [
          | inl single ↦
              rw
                (
                  range.returns,
                  parse_source_ip_addresses,
                  single,
                  parts_one given single,
                  append-nil,
                )
                (add_range-take fuel given first last xs (omega arith) range.returns)
          | inr (before, (behind, split)) ↦
              let found : parts given ≡ before ∷ parts behind =
                ap parts split.whole ∙ parts-append before behind split.first in
              let sizes : length given ≡ length before + suc (length behind) =
                ap length split.whole ∙ length-append before (comma ∷ behind) in
              let left = parse_source_ip_addresses-take fuel before xs (omega (arith, sizes)) in
              let right =
                parse_source_ip_addresses-take fuel behind (xs ++ denotes inet (parts before))
                  (omega (arith, sizes)) in
              rw
                (
                  range.returns,
                  parse_source_ip_addresses,
                  split.returns,
                  left,
                  right,
                  found,
                  parts_one before split.first,
                )
                (ap (λ t. some (take 256 t))
                  (rw (append-nil (part_denotes inet before)) (append_assoc xs _ _)))
        ]
      ]
