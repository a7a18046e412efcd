-- ===== src/Tcp/Segments.antt =====
-- src/veloxd/tcp/TcpSession.cpp, `prepareBeforeIpTx` with `Ip::tx`: the packet on the wire is one
-- that a receiver accepts.
use velox_project.Prelude.{
  ℕ, ◌+◌, ◌-◌, ◌*◌, ◌/◌, ◌%◌, ◌^◌, ◌≤◌, ◌<◌, ◌≡◌, refl, List, [], ◌∷◌, ◌++◌, length, arith, All,
  IsByte, u16, swap16, le16, le32, swap16-lt,
}
use velox_project.Csum16.{checksum, add_words}
use velox_project.Csum16.Verify.{
  word_sum, word_sum-append, word_sum-le, word_sum-field, add_words-word_sum, checksum_completes,
}
use velox_project.Session.{Session}
use velox_project.Ip.{IpHdr, Packet, ip_front, ip_back, ip_bytes}
use velox_project.Ip
use velox_project.Ip.Sending.{tx_verifies}
use velox_project.Tcp.{TcpHdr, tcp_front, tcp_bytes, pseudo_hdr, prepare_before_ip_tx, transmit}

-- The header area of a segment before its checksum is filled in.
pub record IsBlank (h : TcpHdr) : Type 0 where
  pub doff_fits : h.doff < 16
  pub check_zero : h.check ≡ 0

-- The pseudo header of RFC 793, from the IP header as it was received.
abbrev pub rfc793_pseudo : IpHdr → List ℕ
rfc793_pseudo h =
    le32 h.saddr
    ++ (le32 h.daddr ++ (0 ∷ h.protocol ∷ le16 (swap16 (swap16 h.tot_len - h.ihl * 4))))

word_sum-tcp_front : (h : TcpHdr) → h.doff < 16 → word_sum (tcp_front h) ≤ 8 * 65535
unfolding word_sum tcp_front
word_sum-tcp_front h fits = ground arith

length-tcp_front : (h : TcpHdr) → length (tcp_front h) % 2 ≡ 0
unfolding tcp_front
length-tcp_front h = refl

word_sum-tcp_bytes :
    (h : TcpHdr) (buf : List ℕ)
    → h.check < 2 ^ 16
    → word_sum (tcp_bytes h ++ buf) ≡ word_sum (tcp_front h) + h.check + word_sum buf
unfolding word_sum
word_sum-tcp_bytes h buf fits = omega (
  arith,
  word_sum-append (tcp_bytes h) buf (unfold tcp_front in refl),
  word_sum-field (tcp_front h) (le16 0) h.check (length-tcp_front h) fits,
)

-- The part of the sum that the addresses make up.
abbrev address_sum : ℕ → ℕ → ℕ
address_sum a b =
    a % 256
    + 256 * (a / 256 % 256)
    + (a / 2 ^ 16 % 256 + 256 * (a / 2 ^ 24 % 256))
    + (b % 256 + 256 * (b / 256 % 256) + (b / 2 ^ 16 % 256 + 256 * (b / 2 ^ 24 % 256)))

-- What `prepareBeforeIpTx` sums over the two headers.
sum_before :
    (s : Session) (h : TcpHdr) (n : ℕ)
    → h.check ≡ 0
    → word_sum (ip_bytes (pseudo_hdr s n) ++ tcp_bytes h)
      ≡ address_sum s.laddr s.faddr + 6 * 256 + swap16 (u16 (n + 20)) + word_sum (tcp_front h)
unfolding word_sum ip_front ip_back pseudo_hdr
sum_before s h n z =
    omega (arith, word_sum-field (tcp_front h) (le16 0) h.check (length-tcp_front h) (omega arith))

-- What a receiver sums over the pseudo header, the TCP header and the payload.
sum_after :
    (ip : IpHdr) (h : TcpHdr) (buf : List ℕ)
    → ip.protocol ≡ 6
    → ip.ihl ≡ 5
    → swap16 ip.tot_len ≡ length buf + 40
    → h.check < 2 ^ 16
    → word_sum (rfc793_pseudo ip ++ (tcp_bytes h ++ buf))
      ≡ address_sum ip.saddr ip.daddr
        + 6 * 256
        + swap16 (u16 (length buf + 20))
        + word_sum (tcp_front h)
        + h.check
        + word_sum buf
unfolding word_sum
sum_after ip h buf proto ihl len fits =
    let n : swap16 ip.tot_len - ip.ihl * 4 ≡ u16 (length buf + 20) =
      omega (arith, swap16-lt ip.tot_len) in
    rw (n, proto, word_sum-tcp_bytes h buf fits) (omega arith)

-- The header that `prepareBeforeIpTx` returns verifies against any IP header that agrees with the
-- session on the addresses and with the payload on the length.
prepare_before_ip_tx_verifies :
    (s : Session) (h : TcpHdr) (buf : List ℕ) (ip : IpHdr)
    → IsBlank h
    → All IsByte buf
    → ip.protocol ≡ 6
    → ip.ihl ≡ 5
    → swap16 ip.tot_len ≡ length buf + 40
    → ip.saddr ≡ s.laddr
    → ip.daddr ≡ s.faddr
    → u16 (checksum (rfc793_pseudo ip ++ (tcp_bytes (prepare_before_ip_tx s h buf).0 ++ buf)) 0) ≡ 0
unfolding prepare_before_ip_tx tcp_front
prepare_before_ip_tx_verifies s h buf ip blank bytes proto ihl len src dst =
    checksum_completes (ip_bytes (pseudo_hdr s (length buf)) ++ tcp_bytes h) _ (add_words 0 buf) 0
      (omega (
        arith,
        payload,
        before,
        word_sum-tcp_front h blank.doff_fits,
        swap16-lt (u16 (length buf + 20)),
        word_sum-le buf bytes,
        swap16-lt ip.tot_len,
      ))
      (rw (after, before, payload, src, dst) (omega arith))
  where
    h' : TcpHdr
    h' = (prepare_before_ip_tx s h buf).0

    payload : add_words 0 buf ≡ word_sum buf
    payload =
        omega (
          arith,
          add_words-word_sum 0 buf (omega arith),
          word_sum-le buf bytes,
          swap16-lt ip.tot_len,
        )

    before :
        word_sum (ip_bytes (pseudo_hdr s (length buf)) ++ tcp_bytes h)
        ≡ address_sum s.laddr s.faddr
          + 6 * 256
          + swap16 (u16 (length buf + 20))
          + word_sum (tcp_front h)
    before = sum_before s h (length buf) blank.check_zero

    after :
        word_sum (rfc793_pseudo ip ++ (tcp_bytes h' ++ buf))
        ≡ address_sum ip.saddr ip.daddr
          + 6 * 256
          + swap16 (u16 (length buf + 20))
          + word_sum (tcp_front h)
          + h'.check
          + word_sum buf
    after = sum_after ip h' buf proto ihl len (omega arith)

-- Every segment that the session sends, the SYN, the data and the acknowledgements, carries the
-- TCP checksum of RFC 793: summed at the receiver over the pseudo header, the TCP header and the
-- payload, it gives zero. The IP header sums to zero too, and its total length is that of the
-- packet. The payload is bytes and fits one packet.
pub transmit_verifies :
    (s : Session) (last : ℕ) (h : TcpHdr) (buf : List ℕ)
    → IsBlank h
    → All IsByte buf
    → length buf + 40 < 2 ^ 16
    → let p = (transmit s last h buf).1 in
      (u16 (checksum (rfc793_pseudo p.network ++ (p.transport ++ p.user_payload)) 0) ≡ 0)
      × (u16 (checksum (ip_bytes p.network) 0) ≡ 0)
      × (swap16 p.network.tot_len ≡ length (ip_bytes p.network ++ (p.transport ++ p.user_payload)))
unfolding transmit Ip.tx tcp_front ip_front ip_back
transmit_verifies s last h buf blank bytes fits = (
  prepare_before_ip_tx_verifies s h buf (transmit s last h buf).1.network blank bytes refl refl
      (omega arith) refl refl,
  (tx_verifies last (prepare_before_ip_tx s h buf).1 [] buf (omega arith) refl).0,
  omega arith,
)
