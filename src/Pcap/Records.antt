-- ===== src/Pcap/Records.antt =====
-- The packet log read back, record by record.
use libsimulator.Base.{
  ℕ, suc, subst, ◌≡◌, ◌<◌, ◌^◌, refl, sym, ap, ◌∙◌, ◌+◌, ◌*◌, ◌/◌, ◌%◌, false, some, [], ◌∷◌, ◌++◌,
  arith, length, take, drop, get_or,
}
use libsimulator.Net.Packet.{Packet}
use libsimulator.Net.Address.{Address, Endpoint}
use libsimulator.Pcap.{be, Bytes, ip_header, udp_header, record_header, log_packet, log_udp}

-- A reader of the format: the fourth number of a record's header is the length of what follows.
abbrev pub stored_length : Bytes → ℕ
stored_length file =
    get_or file 8 0 + 256 * (get_or file 9 0 + 256 * (get_or file 10 0 + 256 * get_or file 11 0))

-- The packet of the first record, and the rest of the file.
abbrev pub read_record : Bytes → Bytes × Bytes
read_record file =
    (take (stored_length file) (drop 16 file), drop (stored_length file) (drop 16 file))

take-length : (xs ys : Bytes) → take (length xs) (xs ++ ys) ≡ xs
take-length [] ys = refl
take-length (x ∷ xs) ys = ap (x ∷◌) (take-length xs ys)

drop-length : (xs ys : Bytes) → drop (length xs) (xs ++ ys) ≡ ys
drop-length [] ys = refl
drop-length (x ∷ xs) ys = drop-length xs ys

le_lem :
    (n : ℕ)
    → n < 2 ^ 32
    → n % 256
        + 256 * (n / 256 % 256 + 256 * (n / 256 / 256 % 256 + 256 * (n / 256 / 256 / 256 % 256)))
      ≡ n
le_lem n h = omega arith

framed :
    (now size : ℕ) (body rest : Bytes)
    → length body ≡ size
    → size < 2 ^ 32
    → read_record (record_header now size ++ (body ++ rest)) ≡ (body, rest)
framed now size body rest e h =
    let n = le_lem size h ∙ sym e in
    ap (λ k. (take k (body ++ rest), drop k (body ++ rest))) n
    ∙ ap (λ t. (t, drop (length body) (body ++ rest))) (take-length body rest)
    ∙ ap (λ d. (body, d)) (drop-length body rest)

-- The fields of a packet, with the high byte first.
abbrev pub field16 : Bytes → ℕ → ℕ
field16 b i = 256 * get_or b i 0 + get_or b (suc i) 0

abbrev pub field32 : Bytes → ℕ → ℕ
field32 b i = 65536 * field16 b i + field16 b (suc (suc i))

-- An IPv4 packet without options that holds a UDP datagram.
pub record IsDatagram (packet : Bytes) (src dst sport dport : ℕ) (payload : Bytes) : Type 0 where
  pub version : get_or packet 0 0 ≡ 4 * 16 + 5
  pub total_length : field16 packet 2 ≡ length packet
  pub protocol : get_or packet 9 0 ≡ 17
  pub source_address : field32 packet 12 ≡ src
  pub dest_address : field32 packet 16 ≡ dst
  pub source_port : field16 packet 20 ≡ sport
  pub dest_port : field16 packet 22 ≡ dport
  pub udp_length : field16 packet 24 ≡ 8 + length payload
  pub data_behind : drop 28 packet ≡ payload

field16_lem : (n : ℕ) → n < 65536 → 256 * (n / 256 % 256) + n % 256 ≡ n
field16_lem n h = omega arith

field32_lem :
    (n : ℕ)
    → n < 2 ^ 32
    → 65536 * (256 * (n / 256 / 256 / 256 % 256) + n / 256 / 256 % 256)
        + (256 * (n / 256 % 256) + n % 256)
      ≡ n
field32_lem n h = omega arith

-- The bytes of the header in front of the payload.
abbrev ports_and_length : ℕ → ℕ → ℕ → Bytes
ports_and_length size sport dport = be 2 sport ++ (be 2 dport ++ (be 2 (8 + size) ++ (0 ∷ 0 ∷ [])))

headers-IsDatagram :
    (src dst sport dport : ℕ) (payload : Bytes)
    → length payload < 65508
    → src < 2 ^ 32
    → dst < 2 ^ 32
    → sport < 65536
    → dport < 65536
    → IsDatagram
        (ip_header (20 + 8 + length payload) 17 src dst
          ++ (ports_and_length (length payload) sport dport ++ payload))
        src
        dst
        sport
        dport
        payload
headers-IsDatagram src dst sport dport payload l hs hd ps pd = record {
  version = refl;
  total_length = field16_lem (20 + 8 + length payload) (omega arith) ∙ omega arith;
  protocol = refl;
  source_address = field32_lem src hs;
  dest_address = field32_lem dst hd;
  source_port = field16_lem sport ps;
  dest_port = field16_lem dport pd;
  udp_length = field16_lem (8 + length payload) (omega arith);
  data_behind = refl;
}

udp_header-ports :
    (size sport dport : ℕ)
    → 0 < sport
    → 0 < dport
    → udp_header size sport dport ≡ some (ports_and_length size sport dport)
unfolding udp_header
udp_header-ports size sport dport s d = ground arith

-- A UDP packet of less than 65508 bytes between IPv4 endpoints with ports above 0 is logged as one record. A reader of the
-- format takes from it a packet with these addresses, the source port of the packet and the port of
-- the destination, with the lengths of the packet and of the datagram, and with exactly the payload; and
-- what follows it in the file is left.
pub read_record-log_udp :
    (now src dst : ℕ) (p : Packet) (sport dport : ℕ) (rest : Bytes)
    → length p.buffer < 65508
    → src < 2 ^ 32
    → dst < 2 ^ 32
    → 0 < p.from.port
    → p.from.port < 65536
    → 0 < dport
    → dport < 65536
    → let source : Endpoint = record { address = Address.v4 src; port = sport } in
      let dest : Endpoint = record { address = Address.v4 dst; port = dport } in
      (bytes : Bytes) × (log_udp now p source dest ≡ some (bytes, false))
      × IsDatagram (read_record (bytes ++ rest)).0 src dst p.from.port dport p.buffer
      × ((read_record (bytes ++ rest)).1 ≡ rest)
unfolding log_udp log_packet
read_record-log_udp now src dst p sport dport rest l hs hd s0 s1 d0 d1 =
    let size = 20 + 8 + length p.buffer in
    let body =
      ip_header size 17 src dst
      ++ (ports_and_length (length p.buffer) p.from.port dport ++ p.buffer) in
    let read = framed now size body rest (omega arith) (omega arith) in
    (
      record_header now size ++ body,
      rw (udp_header-ports (length p.buffer) p.from.port dport s0 d0) refl,
      subst (λ (r : Bytes × Bytes). IsDatagram r.0 src dst p.from.port dport p.buffer) (sym read)
          (headers-IsDatagram src dst p.from.port dport p.buffer l hs hd s1 d1),
      ap (λ (r : Bytes × Bytes). r.1) read,
    )
