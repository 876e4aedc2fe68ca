-- ===== src/Qrtr/Sockets.antt =====
-- `qrtr_open`, `qrtr_close`, `qrtr_publish`, `qrtr_bye` and the receiving calls of lib/qrtr.c.
use qrtr.Base.{
  ℕ, ◌≡◌, refl, not, Bool, true, false, Option, none, some, List, [], ◌∷◌, ◌++◌, ◌==◌,
  if◌then◌else◌, arith,
}
use qrtr.Packet.{Host, Sockaddr}
use qrtr.Qrtr.{Socket, Request, Status, qrtr_new_server, qrtr_remove_server}

-- The calls that `qrtr_open` and `qrtr_close` make, in order, those that may fail with whether they
-- succeeded.
pub data Call : Type 0 where
  opened : ℕ → Call
  set_timeout : ℕ → Bool → Call
  bound_to : ℕ → Sockaddr → Bool → Call
  closed : ℕ → Call

-- What the kernel answers: a descriptor or an error, and whether the call succeeds.
pub record Sockets : Type 0 where
  pub socket : Option ℕ
  pub setsockopt : ℕ → Bool
  pub bind : ℕ → Sockaddr → Bool

-- The part behind `err:`
abbrev pub give_up : List Call → ℕ → List Call × Option ℕ
give_up calls sock = (calls ++ closed sock ∷ [], none)

abbrev pub own_address : ℕ → Sockaddr
own_address rport = record { node = 1; port = rport }

-- What follows the opening of a socket, for whether `setsockopt` and `bind` succeed.
unfoldable pub set_up : ℕ → ℕ → Bool → Bool → List Call × Option ℕ
set_up rport sock timed bound =
    let calls : List Call = opened sock ∷ set_timeout sock timed ∷ [] in
    let named : List Call = calls ++ bound_to sock (own_address rport) bound ∷ [] in
    let tied : List Call × Option ℕ = if bound then (named, some sock) else give_up named sock in
    if not timed then give_up calls sock else if not (rport == 0) then tied else (calls, some sock)

-- The calls, and the descriptor, or `none` for -1.
unfoldable pub qrtr_open : Sockets → ℕ → List Call × Option ℕ
qrtr_open kernel rport = elim kernel.socket [
  | none ↦ ([], none)
  | some sock ↦ set_up rport sock (kernel.setsockopt sock) (kernel.bind sock (own_address rport))
]

abbrev pub qrtr_close : ℕ → List Call
qrtr_close sock = closed sock ∷ []

abbrev pub qrtr_publish : Host → Socket → ℕ → ℕ → ℕ → Option Request × Status
qrtr_publish = qrtr_new_server

abbrev pub qrtr_bye : Host → Socket → ℕ → ℕ → ℕ → Option Request × Status
qrtr_bye = qrtr_remove_server

-- `qrtr_recv` for what `recv` returns; `none` is an error, and -1.
abbrev pub qrtr_recv : Option ℕ → Option ℕ
qrtr_recv rc = rc

-- What `qrtr_recvfrom` returns, and what it stores through `node` and `port`, for what `recvfrom`
-- returns and whether the two pointers are not NULL.
unfoldable pub qrtr_recvfrom : Option (ℕ × Sockaddr) → Bool → Bool → Option ℕ × Option ℕ × Option ℕ
qrtr_recvfrom none node port = (none, none, none)
qrtr_recvfrom (some (rc, sq)) node port =
    (some rc, (if node then some sq.node else none), (if port then some sq.port else none))

abbrev pub without : ℕ → List ℕ → List ℕ
without fd [] = []
without fd (x ∷ xs) = let rest = without fd xs in if x == fd then rest else x ∷ rest

-- The descriptors that calls leave open.
abbrev pub remaining : List Call → List ℕ → List ℕ
remaining [] fds = fds
remaining (opened fd ∷ cs) fds = remaining cs (fd ∷ fds)
remaining (set_timeout fd b ∷ cs) fds = remaining cs fds
remaining (bound_to fd sq b ∷ cs) fds = remaining cs fds
remaining (closed fd ∷ cs) fds = remaining cs (without fd fds)

-- The sockets that were given a timeout, and those that were bound, with their addresses.
abbrev pub timed_sockets : List Call → List ℕ
timed_sockets [] = []
timed_sockets (set_timeout fd true ∷ cs) = fd ∷ timed_sockets cs
timed_sockets (_ ∷ cs) = timed_sockets cs

abbrev pub bound_sockets : List Call → List (ℕ × Sockaddr)
bound_sockets [] = []
bound_sockets (bound_to fd sq true ∷ cs) = (fd, sq) ∷ bound_sockets cs
bound_sockets (_ ∷ cs) = bound_sockets cs

abbrev pub held : Option ℕ → List ℕ
held none = []
held (some fd) = fd ∷ []

-- What is bound for a port: nothing for 0, and else the socket to it on node 1.
abbrev pub wanted : ℕ → ℕ → List (ℕ × Sockaddr)
wanted fd rport =
    let port : List (ℕ × Sockaddr) = (fd, record { node = 1; port = rport }) ∷ [] in
    if rport == 0 then [] else port

abbrev pub Balanced : ℕ → List Call × Option ℕ → Type 0
Balanced rport (calls, sock) =
    (remaining calls [] ≡ held sock)
    × ((fd : ℕ)
        → sock ≡ some fd
        → (remaining (calls ++ qrtr_close fd) [] ≡ [])
          × (timed_sockets calls ≡ fd ∷ [])
          × (bound_sockets calls ≡ wanted fd rport))

closed_again : (fd : ℕ) → without fd (fd ∷ []) ≡ []
closed_again fd = let same : (fd == fd) ≡ true = ground arith in rw same refl

failed-Balanced :
    (rport : ℕ) (calls : List Call) → remaining calls [] ≡ [] → Balanced rport (calls, none)
failed-Balanced rport calls h = (h, λ x e. absurd (cc e))

-- A socket with these calls behind it.
returned-Balanced :
    (rport sock : ℕ) (calls : List Call)
    → remaining calls [] ≡ sock ∷ []
    → remaining (calls ++ closed sock ∷ []) [] ≡ []
    → timed_sockets calls ≡ sock ∷ []
    → bound_sockets calls ≡ wanted sock rport
    → Balanced rport (calls, some sock)
returned-Balanced rport sock calls h g t a =
    (h, λ fd e. let same : sock ≡ fd = cc e in (rw same at g, rw same at t, rw same at a))

by_port :
    (rport : ℕ) (c : Bool) (x y : List Call × Option ℕ)
    → (c ≡ false → Balanced rport x)
    → (c ≡ true → Balanced rport y)
    → Balanced rport (if not c then x else y)
by_port rport true x y f t = t refl
by_port rport false x y f t = f refl

set_up-Balanced :
    (rport sock : ℕ) (timed bound : Bool) → Balanced rport (set_up rport sock timed bound)
unfolding set_up
set_up-Balanced rport sock false bound =
    failed-Balanced rport (opened sock ∷ set_timeout sock false ∷ closed sock ∷ [])
      (closed_again sock)
set_up-Balanced rport sock true true =
    by_port rport (rport == 0) _ _
      (λ z.
        returned-Balanced rport sock
          (opened sock ∷ set_timeout sock true ∷ bound_to sock (own_address rport) true ∷ []) refl
          (closed_again sock) refl (rw z refl))
      (λ z.
        returned-Balanced rport sock (opened sock ∷ set_timeout sock true ∷ []) refl
          (closed_again sock) refl (rw z refl))
set_up-Balanced rport sock true false =
    by_port rport (rport == 0) _ _
      (λ z.
        failed-Balanced rport
          (opened sock
            ∷ set_timeout sock true
            ∷ bound_to sock (own_address rport) false
            ∷ closed sock
            ∷ [])
          (closed_again sock))
      (λ z.
        returned-Balanced rport sock (opened sock ∷ set_timeout sock true ∷ []) refl
          (closed_again sock) refl (rw z refl))

-- Whatever the kernel answers, qrtr_open leaves open the descriptor that it returns and no other,
-- and none where it fails; qrtr_close of what it returned leaves none; and where it succeeds the
-- kernel has accepted a timeout for this socket and has bound it to the port on node 1, or to
-- nothing if the port is 0.
pub open-Balanced : (kernel : Sockets) (rport : ℕ) → Balanced rport (qrtr_open kernel rport)
unfolding qrtr_open
open-Balanced kernel rport = by_socket kernel.socket
  where
    by_socket :
        (o : Option ℕ)
        → Balanced rport (elim o [
          | none ↦ ([], none)
          | some sock ↦
              set_up rport sock (kernel.setsockopt sock) (kernel.bind sock (own_address rport))
        ])
    by_socket none = failed-Balanced rport [] refl
    by_socket (some sock) =
        set_up-Balanced rport sock (kernel.setsockopt sock) (kernel.bind sock (own_address rport))
