-- ===== src/Packet/Header.antt =====
-- `write_udp_header_for` in xdp-util/src/packet.rs. The crate etherparse is not part of the repository:
-- what its builder writes is a parameter.
use xdp_rs.Prelude.{
  ℕ, ◌+◌, ◌-◌, ◌<◌, ◌≡◌, refl, sym, arith, List, ◌++◌, Build, Run, done, ◌>>=◌, Result, ok, err,
  IoError, context, length, length-append, ltb, leb, ◌&&◌, get_or-append, get_or-ext, get_or_past,
  replicate, Bool-cases, inl, inr, ◌∙◌, true, false,
}
use xdp_rs.Prelude.Words.{u64_mod}
use xdp_rs.Packet.Captured.{write_each, concat, written_from}

-- What `PacketBuilder` is given.
pub record Fields : Type 0 where
  pub src_mac : List ℕ
  pub dst_mac : List ℕ
  pub src_addr : ℕ
  pub dst_addr : ℕ
  pub ttl : ℕ
  pub src_port : ℕ
  pub dst_port : ℕ

-- The chunks that `write` hands to the writer, and whether it succeeds.
pub record Written : Type 0 where
  pub chunks : List (List ℕ)
  pub result : Result (Unit {0}) IoError

abbrev pub answer : Result (Unit {0}) IoError → List ℕ → Result (List ℕ) IoError
answer (ok _) hdr = ok hdr
answer (err e) hdr = err (context "Error writing packet header: " e)

unfoldable pub write_udp_header_for :
    (Fields → List ℕ → Written)
    → Build
    → List ℕ
    → ℕ
    → List ℕ
    → ℕ
    → ℕ
    → List ℕ
    → ℕ
    → Run (Result (List ℕ) IoError)
write_udp_header_for builder b payload src_addr src_mac src_port dst_addr dst_mac dst_port =
    let fields : Fields = record {
      src_mac = src_mac;
      dst_mac = dst_mac;
      src_addr = src_addr;
      dst_addr = dst_addr;
      ttl = 64;
      src_port = src_port;
      dst_port = dst_port;
    } in
    (do
      w ← write_each b (record { hdr = replicate 42 0; at = 0 }) ((builder fields payload).chunks)
      done (answer ((builder fields payload).result) w.hdr))

-- In every build, if the builder succeeds on the seven fields, with a TTL of 64, and what it writes
-- begins with `headers`, 42 bytes, and is shorter than `2 ^ 64` bytes, then the function returns exactly
-- those headers, however the bytes were cut into chunks and whatever follows them.
pub write_udp_header_for_lem :
    (builder : Fields → List ℕ → Written) (b : Build) (payload : List ℕ) (src_addr : ℕ)
    (src_mac : List ℕ) (src_port dst_addr : ℕ) (dst_mac : List ℕ) (dst_port : ℕ)
    (headers rest : List ℕ) (chunks : List (List ℕ))
    → builder
        (record {
          src_mac = src_mac;
          dst_mac = dst_mac;
          src_addr = src_addr;
          dst_addr = dst_addr;
          ttl = 64;
          src_port = src_port;
          dst_port = dst_port;
        })
        payload
      ≡ record { chunks = chunks; result = ok tt }
    → concat chunks ≡ headers ++ rest
    → length headers ≡ 42
    → length (headers ++ rest) < u64_mod
    → write_udp_header_for builder b payload src_addr src_mac src_port dst_addr dst_mac dst_port
      ≡ done (ok headers)
unfolding write_udp_header_for
write_udp_header_for_lem builder b payload src_addr src_mac src_port dst_addr dst_mac dst_port
      headers rest chunks built whole long word =
    let total : length (concat chunks) ≡ 42 + length rest =
      rw (whole, length-append headers rest, long) refl in
    let w =
      written_from b (record { hdr = replicate 42 0; at = 0 }) chunks refl
        (omega (arith, total, length-append headers rest)) in
    let exact : w.0.hdr ≡ headers = get_or-ext w.0.hdr headers 0 (w.3 ∙ sym long) (λ i.
      w.4 i ∙ elim (Bool-cases (ltb i 42)) [
        | inl inside ↦
            let reached : (leb 0 i && (ltb i (0 + length (concat chunks)) && ltb i 42)) ≡ true =
              ground (arith, total) in
            let near : ltb i (length headers) ≡ true = ground (arith, long) in
            let at : i - 0 ≡ i = omega arith in
            rw (reached, at, whole, get_or-append headers rest i 0, near) refl
        | inr past ↦
            let beyond : (leb 0 i && (ltb i (0 + length (concat chunks)) && ltb i 42)) ≡ false =
              ground arith in
            rw
              (
                beyond,
                get_or_past {A = ℕ} (replicate 42 0) i 0 (ground arith),
                get_or_past headers i 0 (ground (arith, long)),
              )
              refl
      ]) in
    rw (built, w.1, exact) refl

-- What the function returns, if it returns headers, has 42 bytes.
pub record HasHeader (x : Run (Result (List ℕ) IoError)) : Type 0 where
  pub result : Result (List ℕ) IoError
  pub ran : x ≡ done result
  pub size : (h : List ℕ) → result ≡ ok h → length h ≡ 42

length-answer :
    (r : Result (Unit {0}) IoError) (hdr h : List ℕ)
    → length hdr ≡ 42
    → answer r hdr ≡ ok h
    → length h ≡ 42
length-answer (ok _) hdr h full e = let same : hdr ≡ h = cc in rw (← same) full
length-answer (err x) hdr h full e = cc

pub write_udp_header_for-HasHeader :
    (builder : Fields → List ℕ → Written) (b : Build) (payload : List ℕ) (src_addr : ℕ)
    (src_mac : List ℕ) (src_port dst_addr : ℕ) (dst_mac : List ℕ) (dst_port : ℕ)
    → ((f : Fields) → length (concat ((builder f payload).chunks)) < u64_mod)
    → HasHeader
        (write_udp_header_for builder b payload src_addr src_mac src_port dst_addr dst_mac dst_port)
unfolding write_udp_header_for
write_udp_header_for-HasHeader builder b payload src_addr src_mac src_port dst_addr dst_mac dst_port
      word =
    let fields : Fields = record {
      src_mac = src_mac;
      dst_mac = dst_mac;
      src_addr = src_addr;
      dst_addr = dst_addr;
      ttl = 64;
      src_port = src_port;
      dst_port = dst_port;
    } in
    let w =
      written_from b (record { hdr = replicate 42 0; at = 0 }) ((builder fields payload).chunks)
        refl (omega (arith, word fields)) in
    record {
      result = answer ((builder fields payload).result) w.0.hdr;
      ran = rw w.1 refl;
      size = λ h e. length-answer ((builder fields payload).result) w.0.hdr h (w.3) e;
    }
