-- ===== src/Context.antt =====
-- src/xm_context.c: how the command line becomes the context of a scan. A string is the list of its
-- characters before the final zero; `inet_addr`, `inet_ntoa`, the byte order and what asks the machine are
-- parameters.
pub mod Parts
pub mod SourceIps
pub mod Mac
pub mod Setting
pub mod Checks
pub mod Stages
pub mod Addresses
pub mod Valid
mod Tests
use xmap.Base.{
  ℕ, zero, suc, ◌+◌, ◌-◌, ◌*◌, ◌%◌, ◌^◌, Bool, true, false, ◌&&◌, ◌||◌, Option, none, some, List,
  [], ◌∷◌, ◌++◌, ltb, leb, ◌==◌, if◌then◌else◌, length,
}

-- `strchr`: what stands before the first such character, and what stands behind it.
unfoldable pub strchr : ℕ → List ℕ → Option (List ℕ × List ℕ)
strchr c [] = none
strchr c (x ∷ s) =
    let later = strchr c s in
    if x == c
    then some ([], s)
    else elim later [ none ↦ none | some (before, behind) ↦ some (x ∷ before, behind) ]

abbrev pub dash : ℕ
dash = 45

abbrev pub comma : ℕ
comma = 44

-- What turns addresses into text and back, and into the host's byte order and back.
pub record Inet : Type 0 where
  pub inet_addr : List ℕ → ℕ
  pub inet_ntoa : ℕ → List ℕ
  pub ntohl : ℕ → ℕ
  pub htonl : ℕ → ℕ

module _ (inet : Inet) where
  -- `add_to_array`; the array is the list of its first number_source_ips items. An invalid address is
  -- logged, and its INADDR_NONE stored.
  unfoldable pub add_to_array : List ℕ → List ℕ → List ℕ
  add_to_array ips to_add = if leb 256 (length ips) then ips else ips ++ inet.inet_addr to_add ∷ []

  -- The loop over a range, from an address to the one before `end`.
  unfoldable pub range_loop : ℕ → ℕ → ℕ → List ℕ → Option (List ℕ)
  range_loop zero start end ips = none
  range_loop (suc fuel) start end ips =
      let later =
        range_loop fuel ((start + 1) % 2 ^ 32) end
          (add_to_array ips (inet.inet_ntoa (inet.htonl start))) in
      if start == end then some ips else later

  unfoldable pub add_range : ℕ → List ℕ → List ℕ → List ℕ → Option (List ℕ)
  add_range fuel first last ips =
      range_loop fuel (inet.ntohl (inet.inet_addr first))
        ((inet.ntohl (inet.inet_addr last) + 1) % 2 ^ 32) ips

  -- The loop over the commas, where no dash is in the string.
  unfoldable pub comma_loop : ℕ → List ℕ → List ℕ → List ℕ → Option (List ℕ)
  comma_loop zero before behind ips = none
  comma_loop (suc fuel) before behind ips =
      let added = add_to_array ips before in
      elim (strchr comma behind) [
        | none ↦ some (add_to_array added behind)
        | some (next, rest) ↦ comma_loop fuel next rest added
      ]

  -- `xm_parse_source_ip_addresses`; none is a loop that has not ended within the fuel.
  unfoldable pub parse_source_ip_addresses : ℕ → List ℕ → List ℕ → Option (List ℕ)
  parse_source_ip_addresses zero given ips = none
  parse_source_ip_addresses (suc fuel) given ips = elim (strchr dash given) [
    | some (first, last) ↦ elim (strchr comma given) [
      | some (before, behind) ↦ elim (parse_source_ip_addresses fuel before ips) [
        | none ↦ none
        | some parsed ↦ parse_source_ip_addresses fuel behind parsed
      ]
      | none ↦ add_range fuel first last ips
    ]
    | none ↦ elim (strchr comma given) [
      | some (before, behind) ↦ comma_loop fuel before behind ips
      | none ↦ some (add_to_array ips given)
    ]
  ]
