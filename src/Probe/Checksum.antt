-- ===== src/Probe/Checksum.antt =====
-- The Internet checksums of src/probe/xm_packet.h verify: a header that holds the checksum of itself
-- without it sums up to nothing.
use xmap.Base.{refl, List, [], ◌∷◌, ◌++◌, ◌-◌, ℕ, ◌+◌, ◌/◌, ◌%◌, ◌^◌, ◌<◌, ◌≡◌, ap, ◌∙◌, arith}
use xmap.Probe.{
  complement, word_sum, in_checksum, ip_checksum, ip_words, IpHeader, tcp_words, TcpHeader, tcp_sum,
  tcp_checksum,
}

-- Up to 2^22 a sum with its own checksum is a checksum of 0.
pub complement-complement : (s : ℕ) → s < 2 ^ 22 → complement (s + complement s) ≡ 0
unfolding complement
complement-complement s h = omega arith

-- The words, one after the other.
unfoldable pub total : List ℕ → ℕ
total [] = 0
total (w ∷ ws) = w + total ws

-- What RFC 1071 asks of a receiver: the one's complement sum of all the words is 0xFFFF.
abbrev pub Verifies : List ℕ → Type 0
Verifies ws = (0 < total ws) × (total ws % (2 ^ 16 - 1) ≡ 0)

-- The words that RFC 793 puts before a TCP segment: both addresses, the protocol and the length.
abbrev pub pseudo_header : (ℕ → ℕ) → ℕ → ℕ → ℕ → List ℕ
pseudo_header htons saddr daddr len =
    (saddr % 2 ^ 16)
    ∷ (saddr / 2 ^ 16)
    ∷ (daddr % 2 ^ 16)
    ∷ (daddr / 2 ^ 16)
    ∷ htons 6
    ∷ htons len
    ∷ []

complement-sum :
    (s : ℕ) → s < 2 ^ 22 → (0 < s + complement s) × ((s + complement s) % (2 ^ 16 - 1) ≡ 0)
unfolding complement
complement-sum s h = (omega arith, omega arith)

pub complement-lt : (s : ℕ) → complement s < 2 ^ 16
unfolding complement
complement-lt s = omega arith

ip_words-sum :
    (ip : IpHeader) (c : ℕ)
    → word_sum 10 (ip_words (record ip { ip_sum = c }))
      ≡ word_sum 10 (ip_words (record ip { ip_sum = 0 })) + c
unfolding word_sum
ip_words-sum ip c = omega arith

tcp_words-sum :
    (ntohs : ℕ → ℕ) (tcp : TcpHeader) (c : ℕ)
    → tcp_sum ntohs 20 (tcp_words (record tcp { th_sum = c }))
      ≡ tcp_sum ntohs 20 (tcp_words (record tcp { th_sum = 0 })) + c
unfolding tcp_sum
tcp_words-sum ntohs tcp c = omega arith

-- An IP header with its checksum filled in.
pub ip_checksum-ip_checksum :
    (ip : IpHeader)
    → word_sum 10 (ip_words (record ip { ip_sum = 0 })) < 2 ^ 22
    → ip_checksum
        (ip_words (record ip { ip_sum = ip_checksum (ip_words (record ip { ip_sum = 0 })) }))
      ≡ 0
unfolding ip_checksum in_checksum
ip_checksum-ip_checksum ip h =
    ap complement (ip_words-sum ip (complement (word_sum 10 (ip_words (record ip { ip_sum = 0 })))))
    ∙ complement-complement _ h

pub ip_checksum-Verifies :
    (ip : IpHeader)
    → word_sum 10 (ip_words (record ip { ip_sum = 0 })) < 2 ^ 22
    → Verifies (ip_words (record ip { ip_sum = ip_checksum (ip_words (record ip { ip_sum = 0 })) }))
ip_checksum-Verifies ip h =
    let s = word_sum 10 (ip_words (record ip { ip_sum = 0 })) in
    let c = ip_checksum (ip_words (record ip { ip_sum = 0 })) in
    let whole : total (ip_words (record ip { ip_sum = c })) ≡ s + c =
      unfold total in unfold word_sum in omega arith in
    let same : c ≡ complement s = unfold ip_checksum in unfold in_checksum in refl in
    rw (whole, same) (complement-sum s h)

-- A TCP header with its checksum filled in, behind the pseudo-header.
pub tcp_checksum-Verifies :
    (htons : ℕ → ℕ) (saddr daddr : ℕ) (tcp : TcpHeader)
    → tcp_sum htons 20 (tcp_words (record tcp { th_sum = 0 })) < 2 ^ 20
    → saddr < 2 ^ 32
    → daddr < 2 ^ 32
    → htons 20 < 2 ^ 16
    → htons 6 < 2 ^ 16
    → Verifies (
        pseudo_header htons saddr daddr 20
        ++ tcp_words (record tcp {
          th_sum = tcp_checksum htons 20 saddr daddr (tcp_words (record tcp { th_sum = 0 }));
        }))
unfolding total tcp_checksum tcp_sum
tcp_checksum-Verifies htons saddr daddr tcp h hs hd hl hp =
    let s = tcp_sum htons 20 (tcp_words (record tcp { th_sum = 0 })) in
    let ps =
      saddr % 2 ^ 16 + saddr / 2 ^ 16 + daddr % 2 ^ 16 + daddr / 2 ^ 16 + htons 20 + htons 6 in
    let c = tcp_checksum htons 20 saddr daddr (tcp_words (record tcp { th_sum = 0 })) in
    let filled : c ≡ complement (s + ps) = ap complement (omega arith) in
    let whole : total (pseudo_header htons saddr daddr 20 ++ tcp_words (record tcp { th_sum = c }))
        ≡ s + ps + c =
      omega arith in
    rw (whole, filled) (complement-sum (s + ps) (omega arith))
