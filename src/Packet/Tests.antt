-- ===== src/Packet/Tests.antt =====
-- Two chunks written to a fresh array.
use xdp_rs.Prelude.{ℕ, ◌≡◌, refl, arith, true, List, [], ◌∷◌, Build, done, replicate}
use xdp_rs.Packet.{HdrWrite}
use xdp_rs.Prelude.{◌++◌, ok}
use xdp_rs.Packet.Header.{Fields, Written, write_udp_header_for, write_udp_header_for_lem}

abbrev build : Build
build = record { debug = true; checks = true }

abbrev start : HdrWrite
start = record { hdr = replicate 42 0; at = 0 }

abbrev chunk : List ℕ
chunk = 7 ∷ 8 ∷ 9 ∷ []

-- A builder that writes the MAC addresses, 30 zeros and the payload.
abbrev builder : Fields → List ℕ → Written
builder fields payload = record {
  chunks = fields.dst_mac ∷ fields.src_mac ∷ replicate 30 0 ∷ payload ∷ [];
  result = ok tt;
}

abbrev mac : ℕ → List ℕ
mac n = 2 ∷ 0 ∷ 0 ∷ 0 ∷ 0 ∷ n ∷ []

abbrev headers : List ℕ
headers = mac 1 ++ (mac 2 ++ replicate 30 0)

write_udp_header_for_lem_example :
    write_udp_header_for builder build chunk 3232235777 (mac 2) 12345 3232235778 (mac 1) 54321
    ≡ done (ok headers)
write_udp_header_for_lem_example =
    write_udp_header_for_lem builder build chunk 3232235777 (mac 2) 12345 3232235778 (mac 1) 54321
      headers chunk (mac 1 ∷ mac 2 ∷ replicate 30 0 ∷ chunk ∷ []) refl refl refl (omega arith)
