-- ===== src/Tcp/Header.antt =====
-- src/veloxd/tcp/TcpHdr.h, and TcpSession.cpp up to `Ip::tx`: a header, its bytes and its checksum.
use velox_project.Prelude.{
  ℕ, ◌+◌, ◌*◌, Bool, true, false, List, [], ◌∷◌, ◌++◌, length, u16, swap16, le16, le32,
}
use velox_project.Csum16.{add_words, checksum}
use velox_project.Session.{Session}
use velox_project.Ip
use velox_project.Ip.{IpHdr, Packet, ip_bytes}

-- `struct tcphdr`; the fields of 16 and 32 bits as the host reads them.
pub record TcpHdr : Type 0 where
  pub source : ℕ
  pub dest : ℕ
  pub seq : ℕ
  pub ack_seq : ℕ
  pub doff : ℕ
  pub syn : Bool
  pub ack : Bool
  pub window : ℕ
  pub check : ℕ

abbrev pub bit : Bool → ℕ
bit true = 1
bit false = 0

-- The 20 bytes of a header without options, before and behind its checksum. The flags that the
-- code never sets and the urgent pointer are zero.
unfoldable pub tcp_front : TcpHdr → List ℕ
tcp_front h =
    le16 h.source
    ++ (le16 h.dest
        ++ (le32 h.seq
            ++ (le32 h.ack_seq
                ++ (((h.doff * 16) ∷ (bit h.syn * 2 + bit h.ack * 16) ∷ []) ++ le16 h.window))))

abbrev pub tcp_bytes : TcpHdr → List ℕ
tcp_bytes h = tcp_front h ++ (le16 h.check ++ le16 0)

-- `socketBufferOfTcpTempl`: the header area is cleared, then the generic fields are set.
unfoldable pub socket_buffer_of_tcp_templ : Session → TcpHdr
socket_buffer_of_tcp_templ s = record {
  source = s.lport;
  dest = s.fport;
  seq = 0;
  ack_seq = 0;
  doff = 5;
  syn = false;
  ack = false;
  window = swap16 4096;
  check = 0;
}

-- The IP header while the TCP checksum is computed: the pseudo header, the rest still cleared.
unfoldable pub pseudo_hdr : Session → ℕ → IpHdr
pseudo_hdr s buf_len = record {
  version = 0;
  ihl = 0;
  tos = 0;
  tot_len = 0;
  id = 0;
  frag_off = 0;
  ttl = 0;
  protocol = 6;
  check = swap16 (u16 (buf_len + 20));
  saddr = s.laddr;
  daddr = s.faddr;
}

-- `prepareBeforeIpTx`: the payload's words are summed first, and the two headers on top.
unfoldable pub prepare_before_ip_tx : Session → TcpHdr → List ℕ → TcpHdr × IpHdr
unfolding pseudo_hdr
prepare_before_ip_tx s tcphdr buf =
    let ip = pseudo_hdr s (length buf) in
    let sum = add_words 0 buf in
    let tcphdr' = record tcphdr { check = u16 (checksum (ip_bytes ip ++ tcp_bytes tcphdr) sum) } in
    (tcphdr', record ip { ttl = 64; tos = 0; tot_len = swap16 (u16 (length buf + 40)); check = 0 })

-- A segment on its way: `prepareBeforeIpTx`, then `Ip::tx`.
unfoldable pub transmit : Session → ℕ → TcpHdr → List ℕ → ℕ × Packet
unfolding prepare_before_ip_tx
transmit s last_id tcphdr buf =
    let (tcphdr', ip) = prepare_before_ip_tx s tcphdr buf in
    Ip.tx last_id ip (tcp_bytes tcphdr') buf
