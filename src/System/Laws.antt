-- ===== src/System/Laws.antt =====
-- What the kernel's documentation says of the calls in src/addr.c and src/ns.c.
use Prim.Native.Nat.{bit_or}
use qrtr.Base.{
  Bool, true, false, if◌then◌else◌, ℕ, ◌+◌, ◌≤◌, ◌<◌, ◌≡◌, refl, some, none, Option, u32_mod,
}
use qrtr.Packet.{Sockaddr}
use qrtr.Qrtr.{SockName}
use qrtr.System.{
  Run, ran, left, usage, failed, dormant, parent, null_write, ◌>>=◌, or_exit, Headers,
  NetlinkRequest, NetlinkResponse, bound, Kernel,
}

-- A request to give this node an address: an RTM_NEWADDR that asks for an answer, with one attribute
-- that stands behind the message and lies in its length.
pub record IsNewaddr (h : Headers) (m : NetlinkRequest) (len addr : ℕ) : Type 0 where
  pub kind : m.nlmsg_type ≡ h.rtm_newaddr
  pub flags : m.nlmsg_flags ≡ bit_or h.nlm_f_request h.nlm_f_ack
  pub family : m.ifa_family ≡ h.af_qipcrtr
  pub placed : m.attr_at ≡ h.nlmsg_space h.ifaddrmsg_size
  pub attr : m.rta_type ≡ h.ifa_local
  pub width : m.rta_len ≡ h.rta_length 4
  pub whole : m.attr_at + m.rta_len ≤ m.nlmsg_len
  pub sent : len ≡ m.nlmsg_len
  pub value : m.rta_data ≡ addr

-- The kernel has one node number. A QRTR socket has it in its name, and socket, close, getsockname and
-- bind keep it. What is received after a request for an answer on a routing socket of netlink is an
-- acknowledgement, an NLMSG_ERROR message; its error is 0 if the request was carried out.
pub record IsKernel {K : Type 0} (h : Headers) (kernel : Kernel K) (current : K → ℕ) : Type 0 where
  pub range : (k : K) → current k < u32_mod
  pub socket :
      (family kind protocol fd : ℕ) (k k' : K)
      → kernel.socket family kind protocol k ≡ some (fd, k')
      → current k' ≡ current k
  pub getsockname :
      (kind protocol fd : ℕ) (k₀ k k' : K) (name : SockName)
      → kernel.socket h.af_qipcrtr kind protocol k₀ ≡ some (fd, k)
      → kernel.getsockname fd k ≡ some (name, k')
      → (name.sq.node ≡ current k) × (current k' ≡ current k)
  pub close : (fd : ℕ) (k : K) → current (kernel.close fd k) ≡ current k
  pub bind :
      (fd : ℕ) (sq : Sockaddr) (k k' : K) → kernel.bind fd sq k ≡ bound k' → current k' ≡ current k
  pub acknowledged :
      (fd len addr : ℕ) (m : NetlinkRequest) (k₀ k k₁ k₂ : K) (resp : NetlinkResponse)
      → kernel.socket h.af_netlink h.sock_dgram h.netlink_route k₀ ≡ some (fd, k)
      → IsNewaddr h m len addr
      → kernel.send fd m len k ≡ some k₁
      → kernel.recv fd k₁ ≡ some (resp, k₂)
      → resp.nlmsg_type ≡ h.nlmsg_error
  pub carried_out :
      (fd len addr : ℕ) (m : NetlinkRequest) (k₀ k k₁ k₂ : K) (resp : NetlinkResponse)
      → kernel.socket h.af_netlink h.sock_dgram h.netlink_route k₀ ≡ some (fd, k)
      → addr < u32_mod
      → IsNewaddr h m len addr
      → kernel.send fd m len k ≡ some k₁
      → kernel.recv fd k₁ ≡ some (resp, k₂)
      → resp.nlmsg_type ≡ h.nlmsg_error
      → resp.error ≡ 0
      → current k₂ ≡ addr

-- A step of a program that went on.
pub >>=-ran {ℓ κ} :
    {A : Type ℓ} {B : Type κ} (m : Run A) (f : A → Run B) {b : B}
    → (m >>= f) ≡ ran b
    → (a : A) × (m ≡ ran a) × (f a ≡ ran b)
unfolding ◌>>=◌
>>=-ran (ran a) f h = (a, refl, h)
>>=-ran (left e) f h = absurd (cc h)

pub or_exit-ran {ℓ} : {A : Type ℓ} (o : Option A) {a : A} → or_exit o ≡ ran a → o ≡ some a
or_exit-ran none h = absurd (cc h)
or_exit-ran (some a) h = cc h

-- A program that leaves does so because a call failed.
abbrev pub FailsOnly {ℓ} : {A : Type ℓ} → Run A → Type 0
FailsOnly (ran a) = Unit {0}
FailsOnly (left failed) = Unit {0}
FailsOnly (left usage) = ⊥
FailsOnly (left dormant) = ⊥
FailsOnly (left parent) = ⊥
FailsOnly (left null_write) = ⊥

pub or_exit-FailsOnly {ℓ} : {A : Type ℓ} (o : Option A) → FailsOnly (or_exit o)
or_exit-FailsOnly none = tt
or_exit-FailsOnly (some a) = tt

pub >>=-FailsOnly {ℓ κ} :
    {A : Type ℓ} {B : Type κ} (m : Run A) (f : A → Run B)
    → FailsOnly m
    → ((a : A) → FailsOnly (f a))
    → FailsOnly (m >>= f)
unfolding ◌>>=◌
>>=-FailsOnly (ran a) f h g = g a
>>=-FailsOnly (left failed) f h g = tt
>>=-FailsOnly (left usage) f h g = h
>>=-FailsOnly (left dormant) f h g = h
>>=-FailsOnly (left parent) f h g = h
>>=-FailsOnly (left null_write) f h g = h

pub if-FailsOnly {ℓ} :
    {A : Type ℓ} (b : Bool) (x y : Run A)
    → FailsOnly x
    → FailsOnly y
    → FailsOnly (if b then x else y)
if-FailsOnly true x y h g = h
if-FailsOnly false x y h g = g
