-- ===== src/Ns/Notices.antt =====
-- The packets that src/ns.c sends to observers, to the local servers and in reply to a lookup,
-- as lists.
use mathlib.Core.List.{append-nil, append_assoc}
use qrtr.Base.{
  ◌≡◌, refl, sym, ap, ◌∙◌, Bool, true, some, List, [], ◌∷◌, ◌++◌, if◌then◌else◌, length, inl, inr,
  Bool-cases,
}
use qrtr.Map.{Map, owners}
use qrtr.Map.Iterate.{visit_all, map_for_each-visit_all}
use qrtr.Packet.{CtrlPkt, Sockaddr}
use qrtr.Ns.State.{Server, Lookup, Message, Ns, Env, emit, notify_msg, lookup_notify}
use qrtr.Ns.Registry.{covers, notify_observers}
use qrtr.Ns.Control.{server_msg, tell_servers, notify_servers}

-- The state with more packets sent.
abbrev pub sending : Ns → List Message → Ns
sending ns ms = record ns { sent = ns.sent ++ ms }

-- One packet for each lookup that covers the server, in the order of the lookups.
abbrev pub observer_msgs : Env → Server → Bool → List Lookup → List Message
observer_msgs env srv new [] = []
observer_msgs env srv new (l ∷ ls) =
    let rest = observer_msgs env srv new ls in
    if covers l srv.service srv.inst then notify_msg env l.sq (some srv) new ∷ rest else rest

abbrev pub reply_msgs : Env → Sockaddr → List Server → List Message
reply_msgs env to [] = []
reply_msgs env to (s ∷ ss) = notify_msg env to (some s) true ∷ reply_msgs env to ss

abbrev pub server_msgs : CtrlPkt → List Server → List Message
server_msgs pkt [] = []
server_msgs pkt (s ∷ ss) = server_msg pkt s ∷ server_msgs pkt ss

sending_nil : (ns : Ns) → ns ≡ sending ns []
sending_nil ns = ap (λ sent. record ns { sent = sent }) (sym (append-nil ns.sent))

pub sending-emit :
    (ns : Ns) (m : Message) (ms : List Message) → sending (emit ns m) ms ≡ sending ns (m ∷ ms)
sending-emit ns m ms = ap (λ sent. record ns { sent = sent }) (append_assoc ns.sent (m ∷ []) ms)

pub notify_observers-sending :
    (env : Env) (ns : Ns) (srv : Server) (new : Bool) (ls : List Lookup)
    → notify_observers env ns srv new ls ≡ sending ns (observer_msgs env srv new ls)
unfolding notify_observers lookup_notify
notify_observers-sending env ns srv new [] = sending_nil ns
notify_observers-sending env ns srv new (l ∷ ls) =
    elim (Bool-cases (covers l srv.service srv.inst)) [
      | inl e ↦
          let m = notify_msg env l.sq (some srv) new in
          rw e (notify_observers-sending env (emit ns m) srv new ls ∙ sending-emit ns m _)
      | inr e ↦ rw e (notify_observers-sending env ns srv new ls)
    ]

pub notify_servers-sending :
    (env : Env) (ns : Ns) (to : Sockaddr) (ss : List Server)
    → notify_servers env ns to ss ≡ sending ns (reply_msgs env to ss)
unfolding notify_servers lookup_notify
notify_servers-sending env ns to [] = sending_nil ns
notify_servers-sending env ns to (s ∷ ss) =
    let m = notify_msg env to (some s) true in
    notify_servers-sending env (emit ns m) to ss ∙ sending-emit ns m (reply_msgs env to ss)

visit-server_msgs :
    (pkt : CtrlPkt) (ns : Ns) (ss : List Server)
    → visit_all (λ srv s. emit s (server_msg pkt srv)) ss ns ≡ sending ns (server_msgs pkt ss)
visit-server_msgs pkt ns [] = sending_nil ns
visit-server_msgs pkt ns (s ∷ ss) =
    visit-server_msgs pkt (emit ns (server_msg pkt s)) ss
    ∙ sending-emit ns (server_msg pkt s) (server_msgs pkt ss)

pub tell_servers-sending :
    (ns : Ns) (pkt : CtrlPkt) (m : Map Server)
    → length m.table ≡ m.size
    → tell_servers ns pkt m ≡ sending ns (server_msgs pkt (owners m.table))
unfolding tell_servers
tell_servers-sending ns pkt m width =
    map_for_each-visit_all (λ _. m) (λ srv s. emit s (server_msg pkt srv)) (λ srv s. refl) ns width
    ∙ visit-server_msgs pkt ns (owners m.table)
