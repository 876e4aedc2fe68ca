-- ===== src/Lookup/Listing.antt =====
-- What the tool of src/lookup.c prints for the replies that src/ns.c sends.
use qrtr.Base.{
  ℕ, ◌≡◌, ◌≢◌, inl, inr, refl, sym, ap, ◌∙◌, true, false, none, some, List, [], ◌∷◌, map, arith,
  ◌==◌, Bool-cases,
}
use qrtr.Packet.{Host, CtrlPkt, type_new_server}
use qrtr.Ns.State.{Server, notify_pkt}
use qrtr.Qrtr.Calls.{Fits}
use qrtr.Lookup.{Row, row, is_end, list_rows}

-- The replies as they are received: 20 bytes each, one for each server, and the end.
abbrev pub replies : Host → List Server → List (ℕ × CtrlPkt)
replies host [] = (20, notify_pkt host none true) ∷ []
replies host (s ∷ ss) = (20, notify_pkt host (some s) true) ∷ replies host ss

abbrev pub row_of : Server → Row
row_of s = row s.service s.inst s.node s.port

-- Every server has a service and numbers that fit their words.
abbrev pub AreListed : List Server → Type 0
AreListed [] = Unit {0}
AreListed (s ∷ ss) = (s.service ≢ 0) × Fits s × AreListed ss

not_end :
    (host : Host) (s : Server)
    → s.service ≢ 0
    → Fits s
    → is_end (notify_pkt host (some s) true) ≡ false
not_end host s ne f =
    let back = host.le32toh-htole32 s.service f.service in
    let set : host.htole32 s.service ≢ 0 =
      λ e. ne (sym back ∙ ap host.le32toh e ∙ host.le32toh-zero) in
    elim (Bool-cases (host.htole32 s.service == 0)) [
      | inl e ↦ absurd (set (ground arith))
      | inr e ↦ rw e refl
    ]

-- On a machine that stores the command of a packet in little-endian order, the listing tool prints,
-- for replies of 20 bytes to a lookup that name servers with 32-bit fields and services that are not
-- 0, one line for each server, in order, and stops at the final empty reply.
pub list_rows-replies :
    (host : Host) (servers : List Server)
    → host.le32toh type_new_server ≡ type_new_server
    → AreListed servers
    → list_rows host (replies host servers) ≡ map row_of servers
unfolding list_rows
list_rows-replies host [] little h = rw (list_rows, little) refl
list_rows-replies host (s ∷ ss) little (ne, f, more) =
    rw
      (
        list_rows,
        little,
        not_end host s ne f,
        host.le32toh-htole32 s.service f.service,
        host.le32toh-htole32 s.inst f.inst,
        host.le32toh-htole32 s.node f.node,
        host.le32toh-htole32 s.port f.port,
        list_rows-replies host ss little more,
      )
      refl
