-- ===== src/Ns/Greetings.antt =====
-- The handlers of HELLO and BYE in src/ns.c.
use qrtr.Base.{ℕ, ◌<◌, inl, inr, List, [], ◌∷◌, ltb, Bool-cases, Option-cases, u32_mod}
use qrtr.Packet.{Sockaddr, CtrlPkt}
use qrtr.Ns.State.{Message, Ns, Env, bytes, emit}
use qrtr.Ns.Registry.{node_get}
use qrtr.Ns.Control.{ctrl_cmd_hello, ctrl_cmd_bye, remove_servers, tell_local, bye_pkt}
use qrtr.Ns.Notices.{tell_servers-sending}
use qrtr.Ns.Invariant.{IsRegistry, IsSane}
use qrtr.Ns.Acts.{
  Acts, Acts-trans, sending-Acts, get-Acts, got-IsServices, announce-Acts, remove_servers-Acts,
}

-- The packets to the local servers change no table.
pub tell_local-Acts :
    (env : Env) (ns : Ns) (node_id home : ℕ) (pkt : CtrlPkt)
    → IsSane env
    → IsRegistry ns
    → home < u32_mod
    → Acts ns node_id (tell_local env ns home pkt).0
unfolding tell_local
tell_local-Acts env ns node_id home pkt sane r h =
    let a = get-Acts env ns node_id home sane r h in
    let s = (node_get env ns home).0 in
    elim (Option-cases (node_get env ns home).1) [
      | inl f ↦ rw (f, tell_local) a
      | inr (l, f) ↦
          let good = got-IsServices env ns home l sane r h f in
          rw (f, tell_local)
            (rw (tell_servers-sending s pkt l.services good.valid.width)
              (Acts-trans ns s _ node_id a (sending-Acts s node_id _ a.registry)))
    ]

module _ (env : Env) (ns : Ns) (sane : IsSane env) (r : IsRegistry ns) (from : Sockaddr)
    (small : from.node < u32_mod) where
  pub hello-Acts : (buf : List ℕ) → Acts ns from.node (ctrl_cmd_hello env ns from buf).0
  unfolding ctrl_cmd_hello
  hello-Acts buf =
      let m : Message = record { to = from; payload = bytes buf } in
      let one = sending-Acts ns from.node (m ∷ []) r in
      elim (Option-cases (env.sendto m)) [
        | inl e ↦ rw (e, ctrl_cmd_hello) one
        | inr (n, e) ↦
            rw (e, ctrl_cmd_hello)
              (elim (Bool-cases (ltb 0 n)) [
                | inl f ↦ rw f (
                    Acts-trans ns (emit ns m) _ from.node one
                      (announce-Acts env (emit ns m) from from.node sane one.registry))
                | inr f ↦ rw f one
              ])
      ]

  pub bye-Acts : Acts ns from.node (ctrl_cmd_bye env ns from).0
  unfolding ctrl_cmd_bye
  bye-Acts = elim (Option-cases (node_get env ns from.node).1) [
    | inl e ↦ rw (e, ctrl_cmd_bye) (get-Acts env ns from.node from.node sane r small)
    | inr (n, e) ↦
        let s₁ = (node_get env ns from.node).0 in
        let a₁ = get-Acts env ns from.node from.node sane r small in
        let s₂ = remove_servers env s₁ from.node in
        let a₂ = remove_servers-Acts env s₁ from.node a₁.registry small in
        rw (e, ctrl_cmd_bye)
          (Acts-trans ns s₁ _ from.node a₁ (
            Acts-trans s₁ s₂ _ from.node a₂ (
              tell_local-Acts env s₂ from.node ns.local_node (bye_pkt from.node) sane a₂.registry
                r.home)))
  ]
